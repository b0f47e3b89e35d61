-- ===== src/Unicode/Bytes.antt =====
-- The bit tests of the UTF-8 decoder (src/StyioUnicode/Unicode.cpp) as bounds on bytes.
use Prim.Native.Nat.{bit_and, bit_or}
use styio.Prelude.{ℕ, ◌+◌, ◌*◌, ◌%◌, ◌<◌, ◌≡◌, refl, ◌∙◌, Bool, ◌&&◌, ltb, leb, ◌==◌, arith}
use styio.Prelude.Bits.{shl, bit_or-shl, byte_eq, byte_same}
use styio.Unicode.{is_utf8_continuation}

abbrev pub is_continuation : ℕ → Bool
is_continuation b = leb 0x80 b && ltb b 0xC0

pub continuation_lem : (b : ℕ) → b < 256 → is_utf8_continuation b ≡ is_continuation b
continuation_lem = byte_same is_utf8_continuation is_continuation refl

pub lead_two : (b : ℕ) → b < 256 → (bit_and b 0xE0 == 0xC0) ≡ (leb 0xC0 b && ltb b 0xE0)
lead_two = byte_same (λ b. bit_and b 0xE0 == 0xC0) (λ b. leb 0xC0 b && ltb b 0xE0) refl

pub lead_three : (b : ℕ) → b < 256 → (bit_and b 0xF0 == 0xE0) ≡ (leb 0xE0 b && ltb b 0xF0)
lead_three = byte_same (λ b. bit_and b 0xF0 == 0xE0) (λ b. leb 0xE0 b && ltb b 0xF0) refl

pub lead_four : (b : ℕ) → b < 256 → (bit_and b 0xF8 == 0xF0) ≡ (leb 0xF0 b && ltb b 0xF8)
lead_four = byte_same (λ b. bit_and b 0xF8 == 0xF0) (λ b. leb 0xF0 b && ltb b 0xF8) refl

pub low_six : (b : ℕ) → b < 256 → bit_and b 0x3F ≡ b % 64
low_six = byte_eq (λ b. bit_and b 0x3F) (λ b. b % 64) refl

pub low_five : (b : ℕ) → b < 256 → bit_and b 0x1F ≡ b % 32
low_five = byte_eq (λ b. bit_and b 0x1F) (λ b. b % 32) refl

pub low_four : (b : ℕ) → b < 256 → bit_and b 0x0F ≡ b % 16
low_four = byte_eq (λ b. bit_and b 0x0F) (λ b. b % 16) refl

pub low_three : (b : ℕ) → b < 256 → bit_and b 0x07 ≡ b % 8
low_three = byte_eq (λ b. bit_and b 0x07) (λ b. b % 8) refl

pub join_two : (a b : ℕ) → b < 64 → bit_or (shl a 6) b ≡ a * 64 + b
join_two a b h = bit_or-shl 6 a b (omega arith) ∙ omega arith

pub join_three :
    (a b c : ℕ) → b < 64 → c < 64 → bit_or (bit_or (shl a 12) (shl b 6)) c ≡ (a * 64 + b) * 64 + c
join_three a b c h k =
    let high : bit_or (shl a 12) (shl b 6) ≡ shl (a * 64 + b) 6 =
      bit_or-shl 12 a (shl b 6) (omega arith) ∙ omega arith in
    rw high (bit_or-shl 6 (a * 64 + b) c (omega arith) ∙ omega arith)

pub join_four :
    (a b c d : ℕ)
    → b < 64
    → c < 64
    → d < 64
    → bit_or (bit_or (bit_or (shl a 18) (shl b 12)) (shl c 6)) d ≡ ((a * 64 + b) * 64 + c) * 64 + d
join_four a b c d h k l =
    let high : bit_or (shl a 18) (shl b 12) ≡ shl (a * 64 + b) 12 =
      bit_or-shl 18 a (shl b 12) (omega arith) ∙ omega arith in
    rw high (join_three (a * 64 + b) c d k l)
