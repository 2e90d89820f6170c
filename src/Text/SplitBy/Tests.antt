-- ===== src/Text/SplitBy/Tests.antt =====
-- Runs of `Split` and an instance of the theorem about quotes.
use znc_playground.Prelude.{◌≡◌, refl, true, List, [], ◌∷◌, Bytes, codes, arith}
use znc_playground.Text.Trim.{trim}
use znc_playground.Text.SplitBy.Defs.{split_by, words, quote_split}
use znc_playground.Text.SplitBy.Quotes.{quoted, quote_split-quoted}

words_run : words (codes "  a b  c ") ≡ codes "a" ∷ codes "b" ∷ codes "c" ∷ []
unfolding words
words_run = refl

-- The last part is lost where it is empty.
split_by_run :
    split_by
      (record {
        delim = codes ",";
        allow_empty = true;
        left_quote = [];
        right_quote = [];
        trim_quotes = true;
        trim_spaces = true;
      })
      (codes "a,, b,")
    ≡ codes "a" ∷ [] ∷ codes "b" ∷ []
unfolding split_by trim
split_by_run = refl

abbrev parts : List Bytes
parts = codes "a b" ∷ codes "c" ∷ []

quote_split-quoted_example : quote_split (quoted parts) ≡ parts
quote_split-quoted_example = quote_split-quoted parts (
  (
    (λ e. cc),
    (omega arith, (omega arith, (omega arith, tt))),
    (omega arith, (omega arith, (omega arith, tt))),
  ),
  (((λ e. cc), (omega arith, tt), (omega arith, tt)), tt),
)
