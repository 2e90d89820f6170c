-- ===== src/Text/Wild/Tests.antt =====
-- Runs of `WildCmp`, and its theorem at one of them.
use znc_playground.Prelude.{◌≡◌, refl, true, false, codes}
use znc_playground.Text.Compare.{sensitive, insensitive}
use znc_playground.Text.Ctype.{to_lower}
use znc_playground.Text.Wild.Correct.{Decides, wild_cmp-Decides}
use znc_playground.Text.Wild.Relation.{Matches}
use znc_playground.Text.Wild.Search.{answer, wild_cmp, fold_case}

runs :
    (wild_cmp sensitive (codes "*!?@*.net") (codes "a!b@x.y.net") ≡ answer true)
    × (wild_cmp sensitive (codes "I_am!*@") (codes "I_am!bar@foo") ≡ answer false)
    × (wild_cmp insensitive (codes "*A*b") (codes "xaxaBb") ≡ answer true)
    × (wild_cmp sensitive (codes "") (codes "x") ≡ answer false)
unfolding wild_cmp to_lower
runs = (refl, refl, refl, refl)

wild_cmp-Decides_example :
    Decides
      (Matches (fold_case insensitive (codes "*A*b")) (fold_case insensitive (codes "xaxaBb")))
      (wild_cmp insensitive (codes "*A*b") (codes "xaxaBb"))
wild_cmp-Decides_example = wild_cmp-Decides insensitive (codes "*A*b") (codes "xaxaBb")
