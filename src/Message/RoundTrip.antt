-- ===== src/Message/RoundTrip.antt =====
-- A message that `ToString` writes is read back by `Parse`.
use mathlib.Core.Option
use znc_playground.Message.Defs.{Message}
use znc_playground.Message.Kind.{init_type}
use znc_playground.Message.Params.{
  AreParams, params_text, NoSpace-params, parse_params-text, get_params_colon_all,
}
use znc_playground.Message.Parse.{
  next_word, parse_tags, parse_prefix, parse_params, parse_line, begins_with, behind_first,
  add_tags, split_tags,
}
use znc_playground.Message.Print.{
  to_string, tags_part, add_prefix, add_command, add_params, add_part, uint_mod,
}
use znc_playground.Message.Tags.{
  IsTag, tags_text, tags_text-Lacks, add_tag_texts-text, add_tags-split_tags,
}
use znc_playground.Message.Words.{NoSpace, next_word-append, next_word-all}
use znc_playground.Nick
use znc_playground.Nick.Mask.{
  IsFullMask, NoColon, parse-get_host_mask, server_mask, parse-server_name,
}
use znc_playground.Nick.{Nick, empty_nick, get_host_mask}
use znc_playground.Prelude.{
  ℕ, ◌<◌, ◌≡◌, ◌≢◌, refl, ap, sym, ◌∙◌, Bool, false, List, [], ◌∷◌, ◌++◌, some, arith, Bytes, All,
  length, append_assoc,
}
use znc_playground.StringMap.{StringMap, IsSorted}
use znc_playground.Text.Split.{Lacks}

-- Who sent the line: nobody is named, a server, or a user with ident and host.
pub data IsSender : Nick → Type 0 where
  nobody : (n : Nick) → n ≡ empty_nick → IsSender n
  server :
      (n : Nick) (name : Bytes)
      → name ≢ []
      → Lacks b'!' name
      → NoColon name
      → Lacks b' ' name
      → n ≡ record { nick = name; ident = []; host = []; perms = [] }
      → IsSender n
  user : (n : Nick) → IsFullMask n → Lacks b' ' (get_host_mask n) → n.perms ≡ [] → IsSender n

-- A command: a word that is neither tags nor a prefix.
pub record IsCommand (s : Bytes) : Type 0 where
  pub some_byte : s ≢ []
  pub no_space : Lacks b' ' s
  pub no_at : begins_with b'@' s ≡ false
  pub no_colon : begins_with b':' s ≡ false

-- A message that one line can carry
pub record IsLine (m : Message) : Type 0 where
  pub sender : IsSender m.nick
  pub command : IsCommand m.command
  pub params : AreParams m.colon m.params
  pub params_fit : length m.params < uint_mod
  pub tags : All IsTag m.tags
  pub sorted : IsSorted m.tags
  pub classified : init_type m ≡ m

abbrev tags_segment : StringMap Bytes → Bytes → Bytes
tags_segment [] rest = rest
tags_segment (e ∷ es) rest = b'@' ∷ (tags_text (e ∷ es) ++ b' ' ∷ rest)

abbrev prefix_segment : Bytes → Bytes → Bytes
prefix_segment [] rest = rest
prefix_segment (c ∷ mask) rest = b':' ∷ c ∷ (mask ++ b' ' ∷ rest)

abbrev body : Bytes → Bool → List Bytes → Bytes
body command colon [] = command
body command colon (p ∷ ps) = command ++ b' ' ∷ params_text colon (p ∷ ps)

-- The line, front to back
abbrev line_of : Message → Bytes
line_of m =
    tags_segment m.tags (prefix_segment (get_host_mask m.nick) (body m.command m.colon m.params))

add_part-some : (out part : Bytes) → out ≢ [] → add_part out part ≡ out ++ b' ' ∷ part
unfolding add_part
add_part-some [] part h = absurd (h refl)
add_part-some (c ∷ out) part h = refl

add_params_lem :
    (out : Bytes) (m : Message) (ps : List Bytes)
    → m.params ≡ ps
    → out ≢ []
    → length m.params < uint_mod
    → AreParams m.colon m.params
    → add_params out m ps ≡ some (body out m.colon ps)
unfolding add_params
add_params_lem out m [] e n k h = refl
add_params_lem out m (p ∷ ps) e n k h =
    ap (Option.map (add_part out))
      (get_params_colon_all m (λ z. cc) k h ∙ ap (λ t. some (params_text m.colon t)) e)
    ∙ ap some (add_part-some out _ n)

head_segments :
    (tags : StringMap Bytes) (mask command : Bytes)
    → All IsTag tags
    → command ≢ []
    → add_command (add_prefix (tags_part tags) mask) command
      ≡ tags_segment tags (prefix_segment mask command)
unfolding add_part
head_segments tags mask [] h n = absurd (n refl)
head_segments [] [] (x ∷ command) h n = refl
head_segments [] (c ∷ mask) (x ∷ command) h n = refl
head_segments (e ∷ es) [] (x ∷ command) h n = rw (add_tag_texts-text (e ∷ es) h)
head_segments (e ∷ es) (c ∷ mask) (x ∷ command) h n =
    rw (add_tag_texts-text (e ∷ es) h) (simp append_assoc)

body-segments :
    (tags : StringMap Bytes) (mask command : Bytes) (colon : Bool) (ps : List Bytes)
    → body (tags_segment tags (prefix_segment mask command)) colon ps
      ≡ tags_segment tags (prefix_segment mask (body command colon ps))
body-segments tags mask command colon [] = refl
body-segments [] [] command colon (p ∷ ps) = refl
body-segments [] (c ∷ mask) command colon (p ∷ ps) = simp append_assoc
body-segments (e ∷ es) [] command colon (p ∷ ps) = simp append_assoc
body-segments (e ∷ es) (c ∷ mask) command colon (p ∷ ps) = simp append_assoc

segments-ne_nil :
    (tags : StringMap Bytes) (mask command : Bytes)
    → command ≢ []
    → tags_segment tags (prefix_segment mask command) ≢ []
segments-ne_nil [] [] command n = n
segments-ne_nil [] (c ∷ mask) command n = λ e. cc
segments-ne_nil (e ∷ es) mask command n = λ e. cc

to_string-line_of : (m : Message) → IsLine m → to_string false false m ≡ some (line_of m)
unfolding to_string
to_string-line_of m h =
    let mask = get_host_mask m.nick in
    ap (λ out. add_params out m m.params)
      (head_segments m.tags mask m.command h.tags h.command.some_byte)
    ∙ add_params_lem _ m m.params refl (segments-ne_nil m.tags mask m.command h.command.some_byte)
        h.params_fit h.params
    ∙ ap some (body-segments m.tags mask m.command m.colon m.params)

-- Reading the line back, segment by segment
NoSpace-ne_nil : (s t : Bytes) → s ≢ [] → NoSpace s → NoSpace (s ++ t)
NoSpace-ne_nil [] t n h = absurd (n refl)
NoSpace-ne_nil (c ∷ s) t n h = h

Lacks-NoSpace : (s : Bytes) → Lacks b' ' s → NoSpace s
Lacks-NoSpace [] h = tt
Lacks-NoSpace (c ∷ s) h = h.0

body-NoSpace :
    (command : Bytes) (colon : Bool) (ps : List Bytes)
    → IsCommand command
    → NoSpace (body command colon ps)
body-NoSpace command colon [] h = Lacks-NoSpace command h.no_space
body-NoSpace command colon (p ∷ ps) h =
    NoSpace-ne_nil command _ h.some_byte (Lacks-NoSpace command h.no_space)

-- The first byte of the body is the first byte of the command.
body-begins_with :
    (mark : ℕ) (command : Bytes) (colon : Bool) (ps : List Bytes)
    → command ≢ []
    → begins_with mark command ≡ false
    → begins_with mark (body command colon ps) ≡ false
body-begins_with mark [] colon ps n h = absurd (n refl)
body-begins_with mark (c ∷ command) colon [] n h = h
body-begins_with mark (c ∷ command) colon (p ∷ ps) n h = h

parse_prefix-segment :
    (mask rest : Bytes)
    → Lacks b' ' mask
    → NoSpace rest
    → begins_with b':' rest ≡ false
    → parse_prefix empty_nick (prefix_segment mask rest) ≡ (Nick.parse empty_nick mask, rest)
unfolding parse_prefix
parse_prefix-segment [] rest h n b = rw b (unfold Nick.parse in refl)
parse_prefix-segment (c ∷ mask) rest h n b =
    ap (λ (w : Bytes × Bytes). (Nick.parse empty_nick (behind_first w.0), w.1))
      (next_word-append (b':' ∷ c ∷ mask) rest (omega arith, h) n)

parse_tags-segment :
    (tags : StringMap Bytes) (rest : Bytes)
    → All IsTag tags
    → IsSorted tags
    → NoSpace rest
    → begins_with b'@' rest ≡ false
    → parse_tags (tags_segment tags rest) ≡ (tags, rest)
unfolding parse_tags
parse_tags-segment [] rest h s n b = rw b
parse_tags-segment (e ∷ es) rest h s n b =
    ap (λ (w : Bytes × Bytes). (add_tags [] (split_tags (behind_first w.0)), w.1))
      (next_word-append (b'@' ∷ tags_text (e ∷ es)) rest (omega arith, tags_text-Lacks (e ∷ es) h)
        n)
    ∙ ap (λ t. (t, rest)) (add_tags-split_tags e es h s)

next_word-body :
    (command : Bytes) (colon : Bool) (ps : List Bytes)
    → IsCommand command
    → AreParams colon ps
    → next_word (body command colon ps) ≡ (command, params_text colon ps)
next_word-body command colon [] h k = next_word-all command h.no_space
next_word-body command colon (p ∷ ps) h k =
    next_word-append command _ h.no_space (NoSpace-params colon (p ∷ ps) k)

-- The mask of a sender has no space, and gives the sender back.
sender_mask :
    {n : Nick}
    → IsSender n
    → Lacks b' ' (get_host_mask n) × (Nick.parse empty_nick (get_host_mask n) ≡ n)
sender_mask (nobody n e) = rw e (unfold get_host_mask Nick.parse in (tt, refl))
sender_mask (server n name some_byte bang colon space e) =
    rw e (rw (server_mask name) (space, parse-server_name empty_nick name some_byte bang colon))
sender_mask (user n full space e) =
    (space, (parse-get_host_mask empty_nick n full).0 ∙ (λ i. record n { perms = sym e i }))

-- What `Parse` finds in a line, once each segment is known
parse_line_found :
    (s s1 s2 s3 : Bytes) (m : Message)
    → parse_tags s ≡ (m.tags, s1)
    → parse_prefix empty_nick s1 ≡ (m.nick, s2)
    → next_word s2 ≡ (m.command, s3)
    → parse_params (length s3) s3 ≡ (m.params, m.colon)
    → parse_line empty_nick s ≡ init_type m
unfolding parse_line init_type
parse_line_found s s1 s2 s3 m e1 e2 e3 e4 = rw (e1, e2, e3, e4) refl

-- A message that one line can carry is written as that line, and read back from it as it was: its
-- sender, command, parameters, tags, colon and type.
pub parse_line-to_string :
    (m : Message)
    → IsLine m
    → (line : Bytes) × (to_string false false m ≡ some line) × (parse_line empty_nick line ≡ m)
parse_line-to_string m h = (
  line_of m,
  to_string-line_of m h,
  parse_line_found (line_of m) (prefix_segment mask rest) rest (params_text m.colon m.params) m
        (parse_tags-segment m.tags (prefix_segment mask rest) h.tags h.sorted (prefix-NoSpace mask)
          (prefix-begins mask))
        (parse_prefix-segment mask rest (sender_mask h.sender).0 rest_NoSpace (
            body-begins_with b':' m.command m.colon m.params h.command.some_byte h.command.no_colon)
          ∙ ap (λ n. (n, rest)) (sender_mask h.sender).1)
        (next_word-body m.command m.colon m.params h.command h.params)
        (parse_params-text _ m.colon m.params h.params (omega arith))
      ∙ h.classified,
)
  where
    mask : Bytes
    mask = get_host_mask m.nick

    rest : Bytes
    rest = body m.command m.colon m.params

    rest_NoSpace : NoSpace rest
    rest_NoSpace = body-NoSpace m.command m.colon m.params h.command

    prefix-NoSpace : (mask : Bytes) → NoSpace (prefix_segment mask rest)
    prefix-NoSpace [] = rest_NoSpace
    prefix-NoSpace (c ∷ mask) = omega arith

    prefix-begins : (mask : Bytes) → begins_with b'@' (prefix_segment mask rest) ≡ false
    prefix-begins [] =
        body-begins_with b'@' m.command m.colon m.params h.command.some_byte h.command.no_at
    prefix-begins (c ∷ mask) = refl
