-- ===== src/Buffer/Tests.antt =====
-- Runs and instances of the theorems about buffers.
use znc_playground.Buffer.Defs.{
  Buffer, new_buffer, update_line, update_exact_line, update_exact_line_text, has_equal,
}
use znc_playground.Buffer.History.{last_n, add_all, History, history_lines, add_all-last_n}
use znc_playground.Buffer.Update.{update_line_twice, update_exact_line_text_ne}
use znc_playground.Message.Defs.{Message, unknown}
use znc_playground.Message.Parse.{
  parse_line, parse_tags, parse_prefix, parse_params, next_word, split_tags, add_tags,
}
use znc_playground.Message.Kind.{init_type}
use znc_playground.Nick
use znc_playground.Nick.{empty_nick}
use znc_playground.Prelude.{◌≡◌, ◌≢◌, refl, false, [], ◌∷◌, ◌++◌, Bytes, codes, arith}
use znc_playground.Text.Compare.{equals}

abbrev message : Bytes → Message
message command = record {
  nick = empty_nick;
  command = command;
  params = [];
  tags = [];
  colon = false;
  kind = unknown;
}

abbrev history : History
history =
    (message (codes "ONE"), codes "1")
    ∷ (message (codes "TWO"), codes "2")
    ∷ (message (codes "SIX"), codes "6")
    ∷ []

abbrev two_newest : Buffer
two_newest = record {
  lines =
      record { format = message (codes "TWO"); text = codes "2" }
      ∷ record { format = message (codes "SIX"); text = codes "6" }
      ∷ [];
  line_count = 2;
}

add_all_run : add_all (new_buffer 2) history ≡ two_newest
unfolding add_all
add_all_run = refl

update_line_run :
    (update_line two_newest (codes "two") (message (codes "Two")) (codes "x")).0.lines
    ≡ record { format = message (codes "Two"); text = codes "x" }
      ∷ record { format = message (codes "SIX"); text = codes "6" }
      ∷ []
unfolding update_line
update_line_run = refl

add_all-last_n_example :
    (add_all (new_buffer 2) history).lines ≡ last_n 2 ([] ++ history_lines history)
add_all-last_n_example = add_all-last_n (new_buffer 2) history (omega arith)

update_line_twice_example :
    (update_line
      (update_line two_newest (codes "six") (message (codes "SIX")) []).0
      (codes "six")
      (message (codes "SIX"))
      []).0
    ≡ (update_line two_newest (codes "six") (message (codes "SIX")) []).0
update_line_twice_example =
    update_line_twice two_newest (codes "six") (message (codes "SIX")) [] (unfold equals in refl)

update_exact_line_text_ne_example :
    (update_exact_line_text two_newest (codes ":s 005 n") (codes "hi")).0
    ≢ (update_exact_line two_newest (parse_line empty_nick (codes ":s 005 n")) (codes "hi")).0
update_exact_line_text_ne_example =
    update_exact_line_text_ne two_newest (codes ":s 005 n") (codes "hi") (omega arith)
      (unfold has_equal parse_line parse_tags parse_prefix parse_params next_word split_tags
          add_tags init_type Nick.parse in
        refl)
      (unfold has_equal Nick.parse in refl)
      (unfold parse_line parse_tags parse_prefix parse_params next_word split_tags add_tags
          init_type Nick.parse in
        λ e. cc)
