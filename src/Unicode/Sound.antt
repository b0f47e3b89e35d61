-- ===== src/Unicode/Sound.antt =====
-- The UTF-8 decoder of src/StyioUnicode/Unicode.cpp accepts nothing but the shortest encodings of
-- the Unicode scalar values.
use styio.Prelude.{
  ℕ, zero, suc, ◌+◌, ◌*◌, ◌/◌, ◌%◌, ◌<◌, ◌≤◌, ◌≡◌, refl, ◌⊎◌, Bool, true, false, ◌&&◌, ◌||◌, not,
  List, [], ◌∷◌, take, drop, ltb, leb, ◌==◌, if◌then◌else◌, arith,
}
use styio.Unicode.{
  Decoded, failed, decoded, decode_two, decode_three, decode_four, decode_utf8_codepoint,
}
use styio.Unicode.Bytes.{is_continuation, lead_two, lead_three}
use styio.Unicode.Encoding.{
  AllBytes, is_scalar, encode, decode_two_lem, decode_three_lem, decode_four_lem, body, decode-body,
  decode-drop,
}

abbrev Sound : Decoded → List ℕ → Type 0
Sound d text =
    d.found ≡ true → (is_scalar d.codepoint ≡ true) × (take d.width text ≡ encode d.codepoint)

two-Sound :
    (b0 b1 : ℕ) (r : List ℕ)
    → b0 < 256
    → b1 < 256
    → (leb 0xC0 b0 && ltb b0 0xE0) ≡ true
    → Sound (decode_two b0 b1) (b0 ∷ b1 ∷ r)
unfolding encode
two-Sound b0 b1 r h0 h1 c = rw (decode_two_lem b0 b1 h0 h1) (ground arith)

three-Sound :
    (b0 b1 b2 : ℕ) (r : List ℕ)
    → b0 < 256
    → b1 < 256
    → b2 < 256
    → (leb 0xE0 b0 && ltb b0 0xF0) ≡ true
    → Sound (decode_three b0 b1 b2) (b0 ∷ b1 ∷ b2 ∷ r)
unfolding encode
three-Sound b0 b1 b2 r h0 h1 h2 c = rw (decode_three_lem b0 b1 b2 h0 h1 h2) (ground arith)

pub is_scalar_high : (cp : ℕ) → 0x10000 ≤ cp → cp < 0x110000 → is_scalar cp ≡ true
is_scalar_high cp low high = ground arith

pub four_digits :
    (a b c d : ℕ)
    → b < 64
    → c < 64
    → d < 64
    → let cp = ((a * 64 + b) * 64 + c) * 64 + d in
      (cp / 262144 ≡ a) × (cp / 4096 % 64 ≡ b) × (cp / 64 % 64 ≡ c) × (cp % 64 ≡ d)
four_digits a b c d h k l = (omega arith, omega arith, omega arith, omega arith)

pub encode_four :
    (cp : ℕ)
    → 0x10000 ≤ cp
    → encode cp
      ≡ (0xF0 + cp / 262144)
        ∷ (0x80 + cp / 4096 % 64)
        ∷ (0x80 + cp / 64 % 64)
        ∷ (0x80 + cp % 64)
        ∷ []
unfolding encode
encode_four cp h = ground arith

four_guard :
    (b0 b1 b2 b3 : ℕ)
    → (((is_continuation b1 && (is_continuation b2 && is_continuation b3))
          && (leb 0xF0 b0 && leb b0 0xF4))
        && not ((b0 == 0xF0 && ltb b1 0x90) || (b0 == 0xF4 && ltb 0x8F b1)))
      ≡ true
    → (0xF0 ≤ b0)
      × (b0 ≤ 0xF4)
      × (0x80 ≤ b1)
      × (b1 < 0xC0)
      × (0x80 ≤ b2)
      × (b2 < 0xC0)
      × (0x80 ≤ b3)
      × (b3 < 0xC0)
      × ((0xF0 < b0) ⊎ (0x90 ≤ b1))
      × ((b0 < 0xF4) ⊎ (b1 < 0x90))
four_guard b0 b1 b2 b3 h = ground arith

four_value :
    (b0 b1 b2 b3 : ℕ) (r : List ℕ)
    → (0xF0 ≤ b0)
      × (b0 ≤ 0xF4)
      × (0x80 ≤ b1)
      × (b1 < 0xC0)
      × (0x80 ≤ b2)
      × (b2 < 0xC0)
      × (0x80 ≤ b3)
      × (b3 < 0xC0)
      × ((0xF0 < b0) ⊎ (0x90 ≤ b1))
      × ((b0 < 0xF4) ⊎ (b1 < 0x90))
    → let cp = ((b0 % 8 * 64 + b1 % 64) * 64 + b2 % 64) * 64 + b3 % 64 in
      (is_scalar cp ≡ true) × (b0 ∷ b1 ∷ b2 ∷ b3 ∷ [] ≡ encode cp)
four_value b0 b1 b2 b3 r g =
    let cp = ((b0 % 8 * 64 + b1 % 64) * 64 + b2 % 64) * 64 + b3 % 64 in
    let low : 0x10000 ≤ cp = omega arith in
    let high : cp < 0x110000 = omega arith in
    let q =
      four_digits (b0 % 8) (b1 % 64) (b2 % 64) (b3 % 64) (omega arith) (omega arith)
        (omega arith) in
    (is_scalar_high cp low high, rw (encode_four cp low) (rw (q.0, q.1, q.2, q.3) (ground arith)))

guarded-Sound :
    (g : Bool) (cp w : ℕ) (text : List ℕ)
    → (g ≡ true → (is_scalar cp ≡ true) × (take w text ≡ encode cp))
    → Sound (if g then decoded cp w else failed) text
guarded-Sound true cp w text h e = h refl
guarded-Sound false cp w text h e = cc

four-Sound :
    (b0 b1 b2 b3 : ℕ) (r : List ℕ)
    → b0 < 256
    → b1 < 256
    → b2 < 256
    → b3 < 256
    → Sound (decode_four b0 b1 b2 b3) (b0 ∷ b1 ∷ b2 ∷ b3 ∷ r)
four-Sound b0 b1 b2 b3 r h0 h1 h2 h3 = rw (decode_four_lem b0 b1 b2 b3 h0 h1 h2 h3) (
    guarded-Sound _ _ 4 _
      (λ g. let v = four_value b0 b1 b2 b3 r (four_guard b0 b1 b2 b3 g) in (v.0, v.1)))

ascii-Sound : (b : ℕ) (r : List ℕ) → leb b 0x7F ≡ true → Sound (decoded b 1) (b ∷ r)
unfolding encode
ascii-Sound b r h e = ground arith

head-Sound : (text : List ℕ) → AllBytes text → Sound (decode_utf8_codepoint text 0) text
unfolding body
head-Sound [] a = rw (decode-body [] 0) (λ e. cc)
head-Sound (b0 ∷ []) a = rw (decode-body (b0 ∷ []) 0) (ground (arith, ascii-Sound b0 []))
head-Sound (b0 ∷ b1 ∷ []) a =
    rw (decode-body (b0 ∷ b1 ∷ []) 0)
      (ground (arith, ascii-Sound b0 (b1 ∷ []), lead_two b0 a.0, two-Sound b0 b1 [] a.0 a.1.0))
head-Sound (b0 ∷ b1 ∷ b2 ∷ []) a = rw (decode-body (b0 ∷ b1 ∷ b2 ∷ []) 0) (
    ground (
      arith,
      ascii-Sound b0 (b1 ∷ b2 ∷ []),
      lead_two b0 a.0,
      lead_three b0 a.0,
      two-Sound b0 b1 (b2 ∷ []) a.0 a.1.0,
      three-Sound b0 b1 b2 [] a.0 a.1.0 a.1.1.0,
    ))
head-Sound (b0 ∷ b1 ∷ b2 ∷ b3 ∷ r) a = rw (decode-body (b0 ∷ b1 ∷ b2 ∷ b3 ∷ r) 0) (
    ground (
      arith,
      ascii-Sound b0 (b1 ∷ b2 ∷ b3 ∷ r),
      lead_two b0 a.0,
      lead_three b0 a.0,
      two-Sound b0 b1 (b2 ∷ b3 ∷ r) a.0 a.1.0,
      three-Sound b0 b1 b2 (b3 ∷ r) a.0 a.1.0 a.1.1.0,
      four-Sound b0 b1 b2 b3 r a.0 a.1.0 a.1.1.0 a.1.1.1.0,
    ))

AllBytes-drop : (text : List ℕ) (o : ℕ) → AllBytes text → AllBytes (drop o text)
AllBytes-drop text zero a = a
AllBytes-drop [] (suc o) a = tt
AllBytes-drop (b ∷ text) (suc o) a = AllBytes-drop text o a.1

-- Whatever is decoded is a scalar value, and the bytes read are its shortest encoding.
pub decode_sound :
    (text : List ℕ) (o : ℕ)
    → AllBytes text
    → (decode_utf8_codepoint text o).found ≡ true
    → let d = decode_utf8_codepoint text o in
      (is_scalar d.codepoint ≡ true) × (take d.width (drop o text) ≡ encode d.codepoint)
decode_sound text o a = rw (decode-drop text o) (head-Sound (drop o text) (AllBytes-drop text o a))
