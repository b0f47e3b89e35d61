-- ===== src/Unicode/Encoding.antt =====
-- The encoding that the UTF-8 standard defines, and the decoder of src/StyioUnicode/Unicode.cpp as
-- arithmetic on bytes.
use Prim.Native.Nat.{bit_and}
use styio.Prelude.{
  ℕ, zero, suc, ◌+◌, ◌*◌, ◌/◌, ◌%◌, ◌<◌, ◌≡◌, refl, sym, ◌∙◌, Bool, ◌&&◌, ◌||◌, not, List, [], ◌∷◌,
  length, drop, ltb, leb, ◌==◌, if◌then◌else◌, arith,
}
use styio.Unicode.{
  Decoded, failed, decoded, decode_two, decode_three, decode_four, byte_at, decode_utf8_codepoint,
}
use styio.Unicode.Bytes.{
  is_continuation, continuation_lem, low_six, low_five, low_four, low_three, join_two, join_three,
  join_four,
}

abbrev pub AllBytes : List ℕ → Type 0
AllBytes [] = Unit
AllBytes (b ∷ bs) = (b < 256) × AllBytes bs

-- A code point that is not a surrogate.
abbrev pub is_scalar : ℕ → Bool
is_scalar cp = ltb cp 0xD800 || (leb 0xE000 cp && ltb cp 0x110000)

-- The shortest encoding of a scalar value.
unfoldable pub encode : ℕ → List ℕ
encode cp =
    if ltb cp 0x80
    then cp ∷ []
    else if ltb cp 0x800
    then (0xC0 + cp / 64) ∷ (0x80 + cp % 64) ∷ []
    else if ltb cp 0x10000
    then (0xE0 + cp / 4096) ∷ (0x80 + cp / 64 % 64) ∷ (0x80 + cp % 64) ∷ []
    else (0xF0 + cp / 262144)
      ∷ (0x80 + cp / 4096 % 64)
      ∷ (0x80 + cp / 64 % 64)
      ∷ (0x80 + cp % 64)
      ∷ []

pub decode_two_lem :
    (b0 b1 : ℕ)
    → b0 < 256
    → b1 < 256
    → decode_two b0 b1
      ≡ (if is_continuation b1 && leb 0xC2 b0 then decoded (b0 % 32 * 64 + b1 % 64) 2 else failed)
unfolding decode_two
decode_two_lem b0 b1 h0 h1 = rw (continuation_lem b1 h1) (
    rw (low_five b0 h0)
      (rw (low_six b1 h1) (rw (join_two (b0 % 32) (b1 % 64) (omega arith)) (ground arith))))

pub decode_three_lem :
    (b0 b1 b2 : ℕ)
    → b0 < 256
    → b1 < 256
    → b2 < 256
    → decode_three b0 b1 b2 ≡ (
        if (is_continuation b1 && is_continuation b2)
          && not ((b0 == 0xE0 && ltb b1 0xA0) || (b0 == 0xED && leb 0xA0 b1))
        then decoded ((b0 % 16 * 64 + b1 % 64) * 64 + b2 % 64) 3
        else failed)
unfolding decode_three
decode_three_lem b0 b1 b2 h0 h1 h2 = rw (continuation_lem b1 h1) (
    rw (continuation_lem b2 h2) (
      rw (low_four b0 h0) (
        rw (low_six b1 h1) (
          rw (low_six b2 h2) (
            rw (join_three (b0 % 16) (b1 % 64) (b2 % 64) (omega arith) (omega arith))
              (ground arith))))))

pub decode_four_lem :
    (b0 b1 b2 b3 : ℕ)
    → b0 < 256
    → b1 < 256
    → b2 < 256
    → b3 < 256
    → decode_four b0 b1 b2 b3 ≡ (
        if ((is_continuation b1 && (is_continuation b2 && is_continuation b3))
            && (leb 0xF0 b0 && leb b0 0xF4))
          && not ((b0 == 0xF0 && ltb b1 0x90) || (b0 == 0xF4 && ltb 0x8F b1))
        then decoded (((b0 % 8 * 64 + b1 % 64) * 64 + b2 % 64) * 64 + b3 % 64) 4
        else failed)
unfolding decode_four
decode_four_lem b0 b1 b2 b3 h0 h1 h2 h3 = rw (continuation_lem b1 h1) (
    rw (continuation_lem b2 h2) (
      rw (continuation_lem b3 h3) (
        rw (low_three b0 h0) (
          rw (low_six b1 h1) (
            rw (low_six b2 h2) (
              rw (low_six b3 h3) (
                rw
                  (join_four (b0 % 8) (b1 % 64) (b2 % 64) (b3 % 64) (omega arith) (omega arith)
                    (omega arith))
                  (ground arith))))))))

-- The decoder as a function of its size tests and of the bytes that it reads.
unfoldable pub body : (l0 l1 l2 l3 : Bool) (b0 b1 b2 b3 : ℕ) → Decoded
body l0 l1 l2 l3 b0 b1 b2 b3 =
    if l0
    then failed
    else if leb b0 0x7F
    then decoded b0 1
    else if bit_and b0 0xE0 == 0xC0
    then (if l1 then failed else decode_two b0 b1)
    else if bit_and b0 0xF0 == 0xE0
    then (if l2 then failed else decode_three b0 b1 b2)
    else if bit_and b0 0xF8 == 0xF0
    then (if l3 then failed else decode_four b0 b1 b2 b3)
    else failed

pub decode-body :
    (text : List ℕ) (o : ℕ)
    → decode_utf8_codepoint text o
      ≡ body
          (leb (length text) o)
          (leb (length text) (o + 1))
          (leb (length text) (o + 2))
          (leb (length text) (o + 3))
          (byte_at text o)
          (byte_at text (o + 1))
          (byte_at text (o + 2))
          (byte_at text (o + 3))
unfolding decode_utf8_codepoint body
decode-body text o = refl

leb-suc : (a b : ℕ) → leb (suc a) (suc b) ≡ leb a b
leb-suc a b = ground arith

decode-cons :
    (b : ℕ) (text : List ℕ) (o : ℕ)
    → decode_utf8_codepoint (b ∷ text) (suc o) ≡ decode_utf8_codepoint text o
decode-cons b text o =
    let one : suc o + 1 ≡ suc (o + 1) = omega arith in
    let two : suc o + 2 ≡ suc (o + 2) = omega arith in
    let three : suc o + 3 ≡ suc (o + 3) = omega arith in
    let n = length text in
    decode-body (b ∷ text) (suc o)
    ∙ rw (one, two, three)
        (cc (leb-suc n o, leb-suc n (o + 1), leb-suc n (o + 2), leb-suc n (o + 3)))
    ∙ sym (decode-body text o)

-- The bytes before the offset do not matter.
pub decode-drop :
    (text : List ℕ) (o : ℕ) → decode_utf8_codepoint text o ≡ decode_utf8_codepoint (drop o text) 0
decode-drop text zero = refl
decode-drop [] (suc o) = unfold decode_utf8_codepoint in ground arith
decode-drop (b ∷ text) (suc o) = decode-cons b text o ∙ decode-drop text o
