-- ===== src/Text/Format/Tests.antt =====
-- A run of `NamedFormat` and an instance of its theorem.
use znc_playground.Prelude.{◌≡◌, refl, [], ◌∷◌, List, Bytes, codes, arith}
use znc_playground.StringMap.{StringMap}
use znc_playground.Text.Format.Defs.{named_format}
use znc_playground.Text.Format.Template.{
  Piece, literal, field, write_pieces, expand_all, named_format-write_pieces,
}

abbrev values : StringMap Bytes
values = (codes "a", codes "b") ∷ []

-- The case of the unit test in test/StringTest.cpp
named_format_run : named_format values (codes "\\{x{a}y{a}") ≡ codes "{xbyb"
unfolding named_format
named_format_run = refl

abbrev template : List Piece
template = literal (codes "{x") ∷ field (codes "a") ∷ field (codes "}") ∷ []

named_format-write_pieces_example :
    named_format values (write_pieces template) ≡ expand_all values template
named_format-write_pieces_example =
    named_format-write_pieces values template
      ((omega arith, (omega arith, tt)), ((omega arith, tt), ((omega arith, tt), tt)))
