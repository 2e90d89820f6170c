-- ===== src/Text/Tests.antt =====
-- Runs of the small operations on texts and an instance of the theorem about `Ellipsize`.
use znc_playground.Prelude.{◌≡◌, refl, true, [], ◌∷◌, codes}
use znc_playground.Text.Compare.{ellipsize, join, trim_prefix, contains, insensitive}

ellipsize_run : ellipsize 6 (codes "a long text") ≡ codes "a l..."
unfolding ellipsize
ellipsize_run = refl

join_run : join (codes ", ") (codes "a" ∷ codes "b" ∷ []) ≡ codes "a, b"
unfolding join
join_run = refl

trim_prefix_run : trim_prefix (codes "UNIX:") (codes "unix:path") ≡ (codes "path", true)
unfolding trim_prefix
trim_prefix_run = refl

contains_run : contains insensitive (codes "Hello World") (codes "o w") ≡ true
unfolding contains
contains_run = refl
