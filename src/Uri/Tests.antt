-- ===== src/Uri/Tests.antt =====
-- The URIs of src/StyioIDE/Common.cpp on concrete paths.
use styio.Prelude.{ℕ, ◌≡◌, refl, List}
use styio.Prelude.Scan.{codes}
use styio.Unicode.{is_ascii_alnum, is_ascii_alpha, is_digit}
use styio.Uri.{percent_decode, percent_encode, with_slash, path_from_uri, uri_from_path}
use styio.Uri.RoundTrip.{path_from_uri-uri_from_path}

-- A normalisation that leaves the path as it is.
abbrev same_path : List ℕ → List ℕ
same_path path = path

uri_of_a_path : uri_from_path same_path (codes "/a b+c.styio") ≡ codes "file:///a%20b%2Bc.styio"
unfolding percent_encode is_ascii_alnum is_ascii_alpha is_digit
uri_of_a_path = refl

-- A sign that no escape follows is kept, and a plus is a blank.
odd_escapes : percent_decode (codes "%zz+%2") ≡ codes "%zz %2"
unfolding percent_decode
odd_escapes = refl

path_from_uri-uri_from_path_example :
    path_from_uri (uri_from_path same_path (codes "a b%")) ≡ with_slash (codes "a b%")
path_from_uri-uri_from_path_example =
    path_from_uri-uri_from_path same_path (codes "a b%") (refl, (refl, (refl, (refl, tt))))
