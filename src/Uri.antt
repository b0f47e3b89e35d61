-- ===== src/Uri.antt =====
-- src/StyioIDE/Common.cpp: paths of documents and their `file://` URIs. The bytes are the C
-- locale's: `std::isalnum` holds of the ASCII letters and digits. What
-- `std::filesystem::path::lexically_normal` makes of a path is a parameter.
mod RoundTrip
mod Tests
use styio.Prelude.{
  ℕ, zero, suc, ◌+◌, ◌-◌, ◌*◌, ◌/◌, ◌%◌, Bool, true, false, ◌&&◌, ◌||◌, Option, none, some, List,
  [], ◌∷◌, ◌++◌, length, drop, get_or, leb, ◌==◌, if◌then◌else◌,
}
use styio.Prelude.Scan.{codes, starts_with}
use styio.Unicode.{is_ascii_alnum}

-- `from_hex`, `none` for -1
abbrev pub from_hex : ℕ → Option ℕ
from_hex ch =
    if leb b'0' ch && leb ch b'9'
    then some (ch - b'0')
    else (if leb b'a' ch && leb ch b'f'
        then some (10 + (ch - b'a'))
        else (if leb b'A' ch && leb ch b'F' then some (10 + (ch - b'A')) else none))

-- `hi_value >= 0 && lo_value >= 0` and the byte `(hi_value << 4) | lo_value`
abbrev pub hex_byte : ℕ → ℕ → Option ℕ
hex_byte hi lo = elim (from_hex hi) [
  | none ↦ none
  | some h ↦ elim (from_hex lo) [ none ↦ none | some l ↦ some (h * 16 + l) ]
]

abbrev pub plain_byte : ℕ → ℕ
plain_byte c = if c == b'+' then b' ' else c

-- The loop of `percent_decode`: an escape is read where two more bytes follow its sign.
unfoldable pub percent_decode : List ℕ → List ℕ
percent_decode [] = []
percent_decode (c ∷ []) = plain_byte c ∷ []
percent_decode (c ∷ hi ∷ []) = plain_byte c ∷ percent_decode (hi ∷ [])
percent_decode (c ∷ hi ∷ lo ∷ rest) =
    let behind = percent_decode rest in
    let next = percent_decode (hi ∷ lo ∷ rest) in
    if c == b'%'
    then (elim (hex_byte hi lo) [ none ↦ plain_byte c ∷ next | some b ↦ b ∷ behind ])
    else plain_byte c ∷ next

-- The bytes that `percent_encode` leaves as they are.
abbrev pub unreserved : ℕ → Bool
unreserved ch =
    is_ascii_alnum ch || (ch == b'/' || (ch == b'.' || (ch == b'-' || (ch == b'_' || ch == b'~'))))

abbrev pub hex_digit : ℕ → ℕ
hex_digit n = get_or (codes "0123456789ABCDEF") n 0

unfoldable pub percent_encode : List ℕ → List ℕ
percent_encode [] = []
percent_encode (ch ∷ input) =
    let later = percent_encode input in
    if unreserved ch then ch ∷ later else b'%' ∷ hex_digit (ch / 16) ∷ hex_digit (ch % 16) ∷ later

-- A path with a slash before it, where it has none.
abbrev pub with_slash : List ℕ → List ℕ
with_slash [] = b'/' ∷ []
with_slash (c ∷ path) = if c == b'/' then c ∷ path else b'/' ∷ c ∷ path

abbrev pub with_slash_unless_empty : List ℕ → List ℕ
with_slash_unless_empty [] = []
with_slash_unless_empty (c ∷ path) = with_slash (c ∷ path)

abbrev pub path_from_uri : List ℕ → List ℕ
path_from_uri uri =
    if starts_with uri (codes "file://")
    then with_slash_unless_empty (percent_decode (drop 7 uri))
    else uri

abbrev pub uri_from_path : (List ℕ → List ℕ) → List ℕ → List ℕ
uri_from_path lexically_normal path =
    codes "file://" ++ percent_encode (with_slash (lexically_normal path))
