-- ===== src/Unicode/Complete.antt =====
-- The UTF-8 decoder of src/StyioUnicode/Unicode.cpp accepts every shortest encoding of a Unicode
-- scalar value, and returns the value and the number of its bytes.
use styio.Prelude.{
  ℕ, ◌+◌, ◌*◌, ◌/◌, ◌%◌, ◌<◌, ◌≤◌, ◌≡◌, refl, ◌∙◌, Bool, true, List, [], ◌∷◌, ◌++◌, length, drop,
  ltb, leb, arith, inl, inr, Bool-cases, ap, lt→ltb, not_lt→ltb,
}
use styio.Unicode.{decoded, decode_two, decode_three, decode_four, decode_utf8_codepoint}
use styio.Unicode.Bytes.{lead_two, lead_three, lead_four}
use styio.Unicode.Encoding.{
  is_scalar, encode, decode_two_lem, decode_three_lem, decode_four_lem, body, decode-body,
  decode-drop,
}

body_two :
    (n b0 b1 b2 b3 : ℕ) (l2 l3 : Bool)
    → 2 ≤ n
    → 0xC0 ≤ b0
    → b0 < 0xE0
    → body (leb n 0) (leb n 1) l2 l3 b0 b1 b2 b3 ≡ decode_two b0 b1
unfolding body
body_two n b0 b1 b2 b3 l2 l3 h lo hi = ground (arith, lead_two b0 (omega arith))

body_three :
    (n b0 b1 b2 b3 : ℕ) (l1 l3 : Bool)
    → 3 ≤ n
    → 0xE0 ≤ b0
    → b0 < 0xF0
    → body (leb n 0) l1 (leb n 2) l3 b0 b1 b2 b3 ≡ decode_three b0 b1 b2
unfolding body
body_three n b0 b1 b2 b3 l1 l3 h lo hi =
    ground (arith, lead_two b0 (omega arith), lead_three b0 (omega arith))

body_four :
    (n b0 b1 b2 b3 : ℕ) (l1 l2 : Bool)
    → 4 ≤ n
    → 0xF0 ≤ b0
    → b0 < 0xF8
    → body (leb n 0) l1 l2 (leb n 3) b0 b1 b2 b3 ≡ decode_four b0 b1 b2 b3
unfolding body
body_four n b0 b1 b2 b3 l1 l2 h lo hi =
    ground
      (arith, lead_two b0 (omega arith), lead_three b0 (omega arith), lead_four b0 (omega arith))

-- the decoder at the first byte of an encoding
Reads : ℕ → List ℕ → Type 0
Reads cp rest = decode_utf8_codepoint (encode cp ++ rest) 0 ≡ decoded cp (length (encode cp))

Reads-one : (cp : ℕ) (rest : List ℕ) → cp < 0x80 → Reads cp rest
unfolding Reads encode
Reads-one cp rest h =
    rw (lt→ltb cp 0x80 h) (decode-body (cp ∷ rest) 0 ∙ (unfold body in ground arith))

Reads-two : (cp : ℕ) (rest : List ℕ) → 0x80 ≤ cp → cp < 0x800 → Reads cp rest
unfolding Reads encode
Reads-two cp rest h k =
    let b0 = 0xC0 + cp / 64 in
    let b1 = 0x80 + cp % 64 in
    let value : b0 % 32 * 64 + b1 % 64 ≡ cp = omega arith in
    rw (not_lt→ltb cp 0x80 h, lt→ltb cp 0x800 k)
      (decode-body (b0 ∷ b1 ∷ rest) 0
        ∙ body_two _ b0 b1 _ _ _ _ (omega arith) (omega arith) (omega arith)
        ∙ decode_two_lem b0 b1 (omega arith) (omega arith)
        ∙ rw value (ground arith))

Reads-three :
    (cp : ℕ) (rest : List ℕ) → 0x800 ≤ cp → cp < 0x10000 → is_scalar cp ≡ true → Reads cp rest
unfolding Reads encode
Reads-three cp rest h k s =
    let b0 = 0xE0 + cp / 4096 in
    let b1 = 0x80 + cp / 64 % 64 in
    let b2 = 0x80 + cp % 64 in
    let value : (b0 % 16 * 64 + b1 % 64) * 64 + b2 % 64 ≡ cp = omega arith in
    rw (not_lt→ltb cp 0x80 (omega arith), not_lt→ltb cp 0x800 h, lt→ltb cp 0x10000 k)
      (decode-body (b0 ∷ b1 ∷ b2 ∷ rest) 0
        ∙ body_three _ b0 b1 b2 _ _ _ (omega arith) (omega arith) (omega arith)
        ∙ decode_three_lem b0 b1 b2 (omega arith) (omega arith) (omega arith)
        ∙ rw value (ground arith))

Reads-four : (cp : ℕ) (rest : List ℕ) → 0x10000 ≤ cp → cp < 0x110000 → Reads cp rest
unfolding Reads encode
Reads-four cp rest h k =
    let b0 = 0xF0 + cp / 262144 in
    let b1 = 0x80 + cp / 4096 % 64 in
    let b2 = 0x80 + cp / 64 % 64 in
    let b3 = 0x80 + cp % 64 in
    let value : ((b0 % 8 * 64 + b1 % 64) * 64 + b2 % 64) * 64 + b3 % 64 ≡ cp = omega arith in
    rw
      (not_lt→ltb cp 0x80 (omega arith), not_lt→ltb cp 0x800 (omega arith), not_lt→ltb cp 0x10000 h)
      (decode-body (b0 ∷ b1 ∷ b2 ∷ b3 ∷ rest) 0
        ∙ body_four _ b0 b1 b2 b3 _ _ (omega arith) (omega arith) (omega arith)
        ∙ decode_four_lem b0 b1 b2 b3 (omega arith) (omega arith) (omega arith) (omega arith)
        ∙ rw value (ground arith))

reads : (cp : ℕ) (rest : List ℕ) → is_scalar cp ≡ true → Reads cp rest
reads cp rest s = elim (Bool-cases (ltb cp 0x80)) [
  | inl one ↦ Reads-one cp rest (ground arith)
  | inr past_one ↦ elim (Bool-cases (ltb cp 0x800)) [
    | inl two ↦ Reads-two cp rest (ground arith) (ground arith)
    | inr past_two ↦ elim (Bool-cases (ltb cp 0x10000)) [
      | inl three ↦ Reads-three cp rest (ground arith) (ground arith) s
      | inr past_three ↦ Reads-four cp rest (ground arith) (ground arith)
    ]
  ]
]

drop_before : (before rest : List ℕ) → drop (length before) (before ++ rest) ≡ rest
drop_before [] rest = refl
drop_before (b ∷ before) rest = drop_before before rest

-- At the offset where the encoding of a scalar value stands, whatever bytes are before and behind
-- it, the decoder returns that value and the number of bytes of its encoding.
pub decode-encode :
    (before rest : List ℕ) (cp : ℕ)
    → is_scalar cp ≡ true
    → decode_utf8_codepoint (before ++ (encode cp ++ rest)) (length before)
      ≡ decoded cp (length (encode cp))
unfolding Reads
decode-encode before rest cp s =
    decode-drop (before ++ (encode cp ++ rest)) (length before)
    ∙ ap (λ text. decode_utf8_codepoint text 0) (drop_before before (encode cp ++ rest))
    ∙ reads cp rest s
