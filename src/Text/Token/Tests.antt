-- ===== src/Text/Token/Tests.antt =====
-- Runs of `Token`; the cases are those of test/StringTest.cpp.
use znc_playground.Prelude.{◌≡◌, refl, true, false, [], codes}
use znc_playground.Text.Token.Defs.{token}

token_middle : token 1 false (codes " ") false (codes "hello world  how") ≡ codes "world"
unfolding token
token_middle = refl

token_rest : token 1 true (codes " ") false (codes "hello   world how") ≡ codes "world how"
unfolding token
token_rest = refl

token_empty : token 1 false (codes "::") true (codes "a::::b") ≡ []
unfolding token
token_empty = refl
