-- ===== src/Config/Tests.antt =====
-- A run of the parser and the writer, and an instance of the round trip.
use znc_playground.Config.Defs.{Config, config, nil, block, push_entry}
use znc_playground.Config.Drain.{take_entries, take_entries-find_string_vector}
use znc_playground.Config.Find.{
  find_string_vector, find_string_entry, find_bool_entry, find_ushort_entry, find_sub_config,
  to_bool, is_empty_config,
}
use znc_playground.Config.Order.{IsWritable}
use znc_playground.Config.Parse.{
  ok, err, parse_config, parse_lines, read_line, finish_parse, trimmed_line, tag_line, entry_line,
  tag_parts, entry_parts, open_tags,
}
use znc_playground.Config.RoundTrip.{parse_config-write_config}
use znc_playground.Config.Write.{write_config}
use znc_playground.Prelude.{◌≡◌, refl, true, false, [], ◌∷◌, Bytes, codes, ◌++◌, arith}
use znc_playground.Text.Compare.{starts_with, ends_with, left_chomp, right_chomp, trim_prefix}
use znc_playground.Text.Token.{token}
use znc_playground.Text.Trim.{trim, trim_left, trim_right, contains_char}

abbrev user_block : Config
user_block = config ((codes "nick", codes "me" ∷ []) ∷ []) nil

abbrev sample : Config
sample =
    config ((codes "port", codes "6667" ∷ codes " 6697" ∷ []) ∷ [])
      (block (codes "user") (codes "A B") user_block nil)

abbrev line : Bytes → Bytes
line s = s ++ 10 ∷ []

write_config_run :
    write_config 0 sample
    ≡ line (codes "port = 6667")
      ∷ line (codes "port =  6697")
      ∷ line []
      ∷ line (codes "<user A B>")
      ∷ line (9 ∷ codes "nick = me")
      ∷ line (codes "</user>")
      ∷ []
unfolding write_config
write_config_run = refl

parse_config_run :
    parse_config (line (codes "/* a comment */") ∷ line (codes "  Port = 6667") ∷ [])
    ≡ ok (config ((codes "port", codes "6667" ∷ []) ∷ []) nil)
unfolding parse_config parse_lines read_line finish_parse trimmed_line entry_line entry_parts
    push_entry starts_with ends_with trim_prefix token trim trim_left trim_right
parse_config_run = refl

-- A block that is not closed
open_tags_run : parse_config (line (codes "<user me>") ∷ []) ≡ err open_tags
unfolding parse_config parse_lines read_line finish_parse trimmed_line tag_line tag_parts
    starts_with ends_with left_chomp right_chomp trim_prefix token trim trim_left trim_right
open_tags_run = refl

sample-IsWritable : IsWritable sample
unfolding contains_char
sample-IsWritable = ground arith

parse_config-write_config_example : parse_config (write_config 0 sample) ≡ ok sample
parse_config-write_config_example = parse_config-write_config sample sample-IsWritable

find_sub_config_run : is_empty_config (find_sub_config (codes "user") true sample).remaining ≡ false
unfolding find_sub_config
find_sub_config_run = refl

find_ushort_entry_run : (find_ushort_entry (codes "port") 0 sample).value ≡ 6667
unfolding find_ushort_entry find_string_entry
find_ushort_entry_run = refl

find_bool_entry_run : (find_bool_entry (codes "ssl") true sample).value ≡ true
unfolding find_bool_entry find_string_entry
find_bool_entry_run = refl

to_bool_run : to_bool (codes " Off ") ≡ false
unfolding to_bool
to_bool_run = refl

ports_found :
    (find_string_vector (codes "port") true sample).value ≡ codes "6667" ∷ codes " 6697" ∷ []
unfolding find_string_vector
ports_found = refl

take_entries-find_string_vector_example :
    (take_entries 2 (codes "port") sample ≡ (
      codes "6667" ∷ codes " 6697" ∷ [],
      (find_string_vector (codes "port") true sample).remaining,
    ))
    × ((find_string_entry
          (codes "port")
          []
          (find_string_vector (codes "port") true sample).remaining).found
        ≡ false)
take_entries-find_string_vector_example =
    take_entries-find_string_vector (codes "port") (codes "6667") (codes " 6697" ∷ []) sample
      ports_found
