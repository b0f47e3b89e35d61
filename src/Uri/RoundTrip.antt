-- ===== src/Uri/RoundTrip.antt =====
-- Reading back what src/StyioIDE/Common.cpp encodes.
use styio.Prelude.{
  ℕ, zero, suc, ◌+◌, ◌*◌, ◌/◌, ◌%◌, ◌<◌, ◌≡◌, refl, ap, true, false, some, List, [], ◌∷◌, ◌==◌, ltb,
  arith, Bool-cases, ==_iff, ltb→lt, ◌∙◌, inl, inr,
}
use styio.Prelude.Scan.{All}
use styio.Unicode.{is_ascii_alnum, is_ascii_alpha, is_digit}
use styio.Uri.{
  from_hex, hex_byte, plain_byte, percent_decode, unreserved, hex_digit, percent_encode, with_slash,
  with_slash_unless_empty, path_from_uri, uri_from_path,
}

from_hex-hex_digit : (n : ℕ) → n < 16 → from_hex (hex_digit n) ≡ some n
from_hex-hex_digit zero h = refl
from_hex-hex_digit (suc zero) h = refl
from_hex-hex_digit (suc (suc zero)) h = refl
from_hex-hex_digit (suc (suc (suc zero))) h = refl
from_hex-hex_digit (suc (suc (suc (suc zero)))) h = refl
from_hex-hex_digit (suc (suc (suc (suc (suc zero))))) h = refl
from_hex-hex_digit (suc (suc (suc (suc (suc (suc zero)))))) h = refl
from_hex-hex_digit (suc (suc (suc (suc (suc (suc (suc zero))))))) h = refl
from_hex-hex_digit (suc (suc (suc (suc (suc (suc (suc (suc zero)))))))) h = refl
from_hex-hex_digit (suc (suc (suc (suc (suc (suc (suc (suc (suc zero))))))))) h = refl
from_hex-hex_digit (suc (suc (suc (suc (suc (suc (suc (suc (suc (suc zero)))))))))) h = refl
from_hex-hex_digit (suc (suc (suc (suc (suc (suc (suc (suc (suc (suc (suc zero))))))))))) h = refl
from_hex-hex_digit (suc (suc (suc (suc (suc (suc (suc (suc (suc (suc (suc (suc zero)))))))))))) h =
    refl
from_hex-hex_digit
      (suc (suc (suc (suc (suc (suc (suc (suc (suc (suc (suc (suc (suc zero))))))))))))) h =
    refl
from_hex-hex_digit
      (suc (suc (suc (suc (suc (suc (suc (suc (suc (suc (suc (suc (suc (suc zero)))))))))))))) h =
    refl
from_hex-hex_digit
      (suc (suc (suc (suc (suc (suc (suc (suc (suc (suc (suc (suc (suc (suc (suc zero)))))))))))))))
      h =
    refl
from_hex-hex_digit
      (suc
        (suc (suc (suc (suc (suc (suc (suc (suc (suc (suc (suc (suc (suc (suc (suc n))))))))))))))))
      h =
    absurd (omega arith)

hex_byte-hex_digit : (c : ℕ) → c < 256 → hex_byte (hex_digit (c / 16)) (hex_digit (c % 16)) ≡ some c
hex_byte-hex_digit c h =
    let whole : c / 16 * 16 + c % 16 ≡ c = omega arith in
    rw (hex_byte, from_hex-hex_digit (c / 16) (omega arith))
      (rw (from_hex-hex_digit (c % 16) (omega arith)) (ap some whole))

percent_decode-plain :
    (c : ℕ) (rest : List ℕ)
    → (c == b'%') ≡ false
    → percent_decode (c ∷ rest) ≡ plain_byte c ∷ percent_decode rest
unfolding percent_decode
percent_decode-plain c [] h = refl
percent_decode-plain c (hi ∷ []) h = refl
percent_decode-plain c (hi ∷ lo ∷ rest) h = rw h refl

percent_decode-escape :
    (hi lo b : ℕ) (rest : List ℕ)
    → hex_byte hi lo ≡ some b
    → percent_decode (b'%' ∷ hi ∷ lo ∷ rest) ≡ b ∷ percent_decode rest
unfolding percent_decode
percent_decode-escape hi lo b rest h = rw h refl

unreserved-plain : (c : ℕ) → unreserved c ≡ true → ((c == b'%') ≡ false) × (plain_byte c ≡ c)
unfolding is_ascii_alnum is_ascii_alpha is_digit
unreserved-plain c h = elim (Bool-cases (c == b'%')) [
  | inl e ↦
      let no : unreserved c ≡ false = ap unreserved ((==_iff c b'%').0 e) in absurd (ground arith)
  | inr e ↦ elim (Bool-cases (c == b'+')) [
    | inl p ↦
        let no : unreserved c ≡ false = ap unreserved ((==_iff c b'+').0 p) in absurd (ground arith)
    | inr p ↦ (e, rw p refl)
  ]
]

-- Decoding what was encoded of a text of bytes gives the text.
pub percent_decode-percent_encode :
    (text : List ℕ) → All (λ c. ltb c 256) text → percent_decode (percent_encode text) ≡ text
unfolding percent_encode percent_decode
percent_decode-percent_encode [] h = refl
percent_decode-percent_encode (c ∷ text) h =
    let later = percent_decode-percent_encode text h.1 in
    elim (Bool-cases (unreserved c)) [
      | inl e ↦
          let plain = unreserved-plain c e in
          rw e (percent_decode-plain c (percent_encode text) plain.0 ∙ rw (plain.1, later) refl)
      | inr e ↦ rw e (
          percent_decode-escape (hex_digit (c / 16)) (hex_digit (c % 16)) c (percent_encode text)
            (hex_byte-hex_digit c (ltb→lt c 256 h.0))
          ∙ ap (◌∷◌ c) later)
    ]

with_slash_twice : (path : List ℕ) → with_slash_unless_empty (with_slash path) ≡ with_slash path
with_slash_twice [] = refl
with_slash_twice (c ∷ path) = ground arith

with_slash-bytes :
    (path : List ℕ) → All (λ c. ltb c 256) path → All (λ c. ltb c 256) (with_slash path)
with_slash-bytes [] h = (refl, tt)
with_slash-bytes (c ∷ path) h = elim (Bool-cases (c == b'/')) [
  | inl e ↦ rw e h
  | inr e ↦ rw e (refl, h)
]

-- The path of the URI of a path is what the normalisation makes of it, with a slash before it
-- where it has none, when that is a text of bytes.
pub path_from_uri-uri_from_path :
    (lexically_normal : List ℕ → List ℕ) (path : List ℕ)
    → All (λ c. ltb c 256) (lexically_normal path)
    → path_from_uri (uri_from_path lexically_normal path) ≡ with_slash (lexically_normal path)
path_from_uri-uri_from_path lexically_normal path h =
    let normal = lexically_normal path in
    ap with_slash_unless_empty
      (percent_decode-percent_encode (with_slash normal) (with_slash-bytes normal h))
    ∙ with_slash_twice normal
