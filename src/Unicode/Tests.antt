-- ===== src/Unicode/Tests.antt =====
-- Runs of the UTF-8 decoder of src/StyioUnicode/Unicode.cpp on concrete bytes.
use styio.Prelude.{ℕ, ◌≡◌, refl, true, List, [], ◌∷◌, ◌++◌, length, take, drop, arith}
use styio.Unicode.{failed, decoded, decode_utf8_codepoint}
use styio.Unicode.Encoding.{is_scalar, encode}
use styio.Unicode.Sound.{decode_sound}
use styio.Unicode.Complete.{decode-encode}

-- "a", the euro sign, "b"
abbrev euro_text : List ℕ
euro_text = b'a' ∷ 0xE2 ∷ 0x82 ∷ 0xAC ∷ b'b' ∷ []

euro : decode_utf8_codepoint euro_text 1 ≡ decoded 0x20AC 3
unfolding decode_utf8_codepoint
euro = refl

-- a surrogate, and an overlong encoding
refused :
    (decode_utf8_codepoint (0xED ∷ 0xA0 ∷ 0x80 ∷ []) 0 ≡ failed)
    × (decode_utf8_codepoint (0xC0 ∷ 0x80 ∷ []) 0 ≡ failed)
unfolding decode_utf8_codepoint
refused = (refl, refl)

decode_sound_example :
    let d = decode_utf8_codepoint euro_text 1 in
    (is_scalar d.codepoint ≡ true) × (take d.width (drop 1 euro_text) ≡ encode d.codepoint)
unfolding decode_utf8_codepoint
decode_sound_example = decode_sound euro_text 1 (omega arith) refl

decode-encode_example :
    decode_utf8_codepoint ((b'a' ∷ []) ++ (encode 0x20AC ++ (b'b' ∷ []))) 1
    ≡ decoded 0x20AC (length (encode 0x20AC))
decode-encode_example = decode-encode (b'a' ∷ []) (b'b' ∷ []) 0x20AC refl
