-- ===== src/Text/Number/Tests.antt =====
-- Runs of the conversions.
use znc_playground.Prelude.{◌≡◌, refl, codes}
use znc_playground.Text.Number.Defs.{of_number, to_ulong, to_ushort}

of_number_run : of_number 6697 ≡ codes "6697"
unfolding of_number
of_number_run = refl

to_ulong_run : to_ulong (codes "  +42x") ≡ 42
unfolding to_ulong
to_ulong_run = refl

-- A port that is too large keeps its lowest 16 bits.
to_ushort_run : to_ushort (codes "65537") ≡ 1
unfolding to_ushort
to_ushort_run = refl
