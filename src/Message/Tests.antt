-- ===== src/Message/Tests.antt =====
-- Runs and instances of the theorems about messages.
use znc_playground.Message.Defs.{Message, text}
use znc_playground.Message.Kind.{init_type}
use znc_playground.Message.ParamRange.{get_params_colon_inside, get_params_colon_outside}
use znc_playground.Message.Params.{shown}
use znc_playground.Message.Parse.{
  parse_line, parse_tags, parse_prefix, parse_params, next_word, split_tags, add_tags,
}
use znc_playground.Message.Print.{to_string, get_params_colon, wants_colon}
use znc_playground.Message.RoundTrip.{IsLine, user, parse_line-to_string}
use znc_playground.Nick
use znc_playground.Nick.{Nick, empty_nick, get_host_mask}
use znc_playground.Prelude.{
  ◌≡◌, refl, true, false, [], ◌∷◌, Bytes, codes, arith, some, none, take, drop,
}
use znc_playground.Text.Compare.{join}
use znc_playground.StringMap.{lt_bytes}

abbrev line : Bytes
line = codes "@a=b\\sc;d :n!i@h PRIVMSG #chan :hi there"

abbrev said : Message
said = record {
  nick = record { nick = codes "n"; ident = codes "i"; host = codes "h"; perms = [] };
  command = codes "PRIVMSG";
  params = codes "#chan" ∷ codes "hi there" ∷ [];
  tags = (codes "a", codes "b c") ∷ (codes "d", []) ∷ [];
  colon = true;
  kind = text;
}

parse_line_run : parse_line empty_nick line ≡ said
unfolding parse_line parse_tags parse_prefix parse_params next_word split_tags add_tags init_type
    Nick.parse
parse_line_run = refl

to_string_run : to_string false false said ≡ some line
unfolding to_string
to_string_run = refl

said-IsLine : IsLine said
said-IsLine = record {
  sender =
      user said.nick
        (record {
          nick_lacks = omega arith;
          nick_plain = omega arith;
          ident_lacks = omega arith;
          ident_some = λ e. cc;
          host_some = λ e. cc;
        })
        (unfold get_host_mask in omega arith) refl;
  command = record { some_byte = λ e. cc; no_space = omega arith; no_at = refl; no_colon = refl };
  params = (
    record { some_byte = λ e. cc; no_colon = omega arith; no_space = omega arith },
    unfold wants_colon in refl,
  );
  params_fit = omega arith;
  tags = (
    record {
      some_key = λ e. cc;
      no_space = omega arith;
      no_semicolon = omega arith;
      no_equals = omega arith;
      value_bytes = omega arith;
    },
    (
      record {
        some_key = λ e. cc;
        no_space = omega arith;
        no_semicolon = omega arith;
        no_equals = omega arith;
        value_bytes = tt;
      },
      tt,
    ),
  );
  sorted = ((unfold lt_bytes in refl, tt), (tt, tt));
  classified = unfold init_type in refl;
}

parse_line-to_string_example :
    (line : Bytes) × (to_string false false said ≡ some line) × (parse_line empty_nick line ≡ said)
parse_line-to_string_example = parse_line-to_string said said-IsLine

get_params_colon_inside_example :
    get_params_colon said 1 5 ≡ some (join (codes " ") (take 5 (shown true (drop 1 said.params))))
get_params_colon_inside_example =
    get_params_colon_inside said 1 5 (omega arith) (omega arith) (omega arith) (omega arith)

get_params_colon_outside_example : get_params_colon said 2 1 ≡ none
get_params_colon_outside_example =
    get_params_colon_outside said 2 1 (omega arith) (λ e. cc) (omega arith) (omega arith)
