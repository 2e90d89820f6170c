-- ===== src/Text/Escape/Tests.antt =====
-- Runs of `Escape_n` on concrete texts.
use znc_playground.Prelude.{[], ◌∷◌, ◌++◌, ◌≡◌, refl, codes, Bytes, arith}
use znc_playground.Text.Escape.Loop.{escape_n}
use znc_playground.Text.Escape.Clean.{escape_n-Lacks}
use znc_playground.Text.Escape.RoundTrip.{escape_n-escape_n}
use znc_playground.Text.Escape.Trailing.{escape_n_trailing}
use znc_playground.Text.Split.{Lacks}
use znc_playground.Text.Escape.Write.{hex_digit}
use znc_playground.Text.Escape.Read.{html, ascii, url, msg_tag, hex_colon, backslash}

decodes :
    (escape_n html ascii (codes "a&lt;&#97;&#x3C;&amp;b&#300;&") ≡ codes "a<a<&b&#300;&")
    × (escape_n url ascii (codes "a%2Bb+c%4") ≡ codes "a+b c%4")
    × (escape_n msg_tag ascii (codes "a\\:b\\sc\\q") ≡ codes "a;b cq")
    × (escape_n hex_colon ascii (codes "41:42:4") ≡ codes "AB")
    × (escape_n ascii hex_colon (codes "AZz") ≡ codes "41:5a:7a")
    × (escape_n ascii html (codes "<a&b>") ≡ codes "&lt;a&amp;b&gt;")
unfolding escape_n hex_digit
decodes = (refl, refl, refl, refl, refl, refl)

-- A backslash at the end of a tag value becomes a NUL byte.
trailing_backslash : escape_n msg_tag ascii (codes "ab\\") ≡ codes "ab" ++ 0 ∷ []
unfolding escape_n hex_digit
trailing_backslash = refl

abbrev odd_text : Bytes
odd_text = codes "a;b <\\>&{%}" ++ 10 ∷ 0 ∷ 200 ∷ []

escape_n-escape_n_example : escape_n hex_colon ascii (escape_n ascii hex_colon odd_text) ≡ odd_text
escape_n-escape_n_example = escape_n-escape_n odd_text (omega arith) hex_colon

escape_n_trailing_example :
    escape_n msg_tag ascii (escape_n ascii msg_tag (codes "a b") ++ backslash ∷ [])
    ≡ codes "a b" ++ 0 ∷ []
escape_n_trailing_example = escape_n_trailing (codes "a b") (omega arith)

escape_n-Lacks_example :
    Lacks b' ' (escape_n ascii msg_tag odd_text) × Lacks b';' (escape_n ascii msg_tag odd_text)
escape_n-Lacks_example = escape_n-Lacks odd_text
