-- ===== src/Unicode.antt =====
-- src/StyioUnicode/Unicode.cpp and Unicode.hpp, in the build without ICU: the classes of ASCII
-- characters in the C locale, and the UTF-8 decoder. A text is the list of its bytes. The two out
-- parameters of the decoder are returned beside its result.
pub mod Bytes
pub mod Encoding
pub mod Sound
pub mod Complete
mod Tests
use Prim.Native.Nat.{bit_and, bit_or}
use styio.Prelude.{
  ℕ, zero, suc, ◌+◌, ◌≤◌, Bool, true, false, not, ◌&&◌, ◌||◌, List, [], ◌∷◌, length, get_or, ltb,
  leb, ◌==◌, if◌then◌else◌,
}
use styio.Prelude.Bits.{shl}

abbrev pub is_utf8_continuation : ℕ → Bool
is_utf8_continuation ch = bit_and ch 0xC0 == 0x80

-- std::isspace in the C locale: blank, \t, \n, \v, \f, \r
unfoldable pub is_space : ℕ → Bool
is_space ch = ch == 32 || (leb 9 ch && leb ch 13)

unfoldable pub is_digit : ℕ → Bool
is_digit ch = leb b'0' ch && leb ch b'9'

unfoldable pub is_ascii_alpha : ℕ → Bool
is_ascii_alpha ch = (leb b'A' ch && leb ch b'Z') || (leb b'a' ch && leb ch b'z')

unfoldable pub is_ascii_alnum : ℕ → Bool
unfolding is_ascii_alpha is_digit
is_ascii_alnum ch = is_ascii_alpha ch || is_digit ch

-- the overloads on char
unfoldable pub is_identifier_start : ℕ → Bool
unfolding is_ascii_alpha
is_identifier_start ch = is_ascii_alpha ch || ch == b'_'

unfoldable pub is_identifier_continue : ℕ → Bool
unfolding is_ascii_alnum
is_identifier_continue ch = is_ascii_alnum ch || ch == b'_'

-- the overloads on code points
unfoldable pub identifier_start_codepoint : ℕ → Bool
unfolding is_identifier_start
identifier_start_codepoint codepoint =
    if ltb 0x7F codepoint then false else is_identifier_start codepoint

unfoldable pub identifier_continue_codepoint : ℕ → Bool
unfolding is_identifier_continue
identifier_continue_codepoint codepoint =
    if ltb 0x7F codepoint then false else is_identifier_continue codepoint

unfoldable pub is_decimal_digit : ℕ → Bool
unfolding is_digit
is_decimal_digit codepoint = if ltb 0x7F codepoint then false else is_digit codepoint

-- The result of `decode_utf8_codepoint`, with `codepoint` and `width` as it leaves them.
pub record Decoded : Type 0 where
  pub found : Bool
  pub codepoint : ℕ
  pub width : ℕ

abbrev pub failed : Decoded
failed = record { found = false; codepoint = 0; width = 0 }

abbrev pub decoded : ℕ → ℕ → Decoded
decoded codepoint width = record { found = true; codepoint = codepoint; width = width }

unfoldable pub decode_two : ℕ → ℕ → Decoded
decode_two b0 b1 =
    if not (is_utf8_continuation b1) || ltb b0 0xC2
    then failed
    else decoded (bit_or (shl (bit_and b0 0x1F) 6) (bit_and b1 0x3F)) 2

unfoldable pub decode_three : ℕ → ℕ → ℕ → Decoded
decode_three b0 b1 b2 =
    if not (is_utf8_continuation b1) || not (is_utf8_continuation b2)
    then failed
    else if (b0 == 0xE0 && ltb b1 0xA0) || (b0 == 0xED && leb 0xA0 b1)
    then failed
    else decoded
        (bit_or (bit_or (shl (bit_and b0 0x0F) 12) (shl (bit_and b1 0x3F) 6)) (bit_and b2 0x3F)) 3

unfoldable pub decode_four : ℕ → ℕ → ℕ → ℕ → Decoded
decode_four b0 b1 b2 b3 =
    if not (is_utf8_continuation b1)
      || (not (is_utf8_continuation b2) || not (is_utf8_continuation b3))
    then failed
    else if ltb b0 0xF0 || ltb 0xF4 b0
    then failed
    else if (b0 == 0xF0 && ltb b1 0x90) || (b0 == 0xF4 && ltb 0x8F b1)
    then failed
    else decoded
        (bit_or
          (bit_or (bit_or (shl (bit_and b0 0x07) 18) (shl (bit_and b1 0x3F) 12))
            (shl (bit_and b2 0x3F) 6))
          (bit_and b3 0x3F))
        4

-- `bytes[offset + k]`, read behind the test of the size
abbrev byte_at : List ℕ → ℕ → ℕ
byte_at text i = get_or text i 0

unfoldable pub decode_utf8_codepoint : List ℕ → ℕ → Decoded
unfolding decode_two decode_three decode_four
decode_utf8_codepoint text offset =
    if leb (length text) offset
    then failed
    else (let b0 = byte_at text offset in
        if leb b0 0x7F
        then decoded b0 1
        else if bit_and b0 0xE0 == 0xC0
        then (if leb (length text) (offset + 1)
            then failed
            else decode_two b0 (byte_at text (offset + 1)))
        else if bit_and b0 0xF0 == 0xE0
        then (if leb (length text) (offset + 2)
            then failed
            else decode_three b0 (byte_at text (offset + 1)) (byte_at text (offset + 2)))
        else if bit_and b0 0xF8 == 0xF0
        then (if leb (length text) (offset + 3)
            then failed
            else decode_four b0 (byte_at text (offset + 1)) (byte_at text (offset + 2))
                (byte_at text (offset + 3)))
        else failed)
