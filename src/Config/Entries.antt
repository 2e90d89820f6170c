-- ===== src/Config/Entries.antt =====
-- A line of a name and a value, and the two lines of a block, as `Parse` reads them.
use znc_playground.Config.Defs.{push_entry}
use znc_playground.Config.Lines.{begins-other, trim_right-last}
use znc_playground.Config.Parse.{
  ok, ParseState, spaces, begins, trimmed_line, entry_line, entry_parts,
}
use znc_playground.Prelude.{
  ℕ, ◌≡◌, ◌≢◌, refl, ap, ap₂, sym, ◌∙◌, Bool, true, false, not, leb, ◌&&◌, ◌||◌, [], ◌∷◌, ◌++◌,
  append_assoc, ◌==◌, All, Bytes, codes, arith,
}
use znc_playground.Text.Compare.Prefix.{trim_prefix-append}
use znc_playground.Text.Compare.{as_lower, trim_prefix}
use znc_playground.Text.Ctype.{to_lower, within}
use znc_playground.Text.Split.{Lacks, Lacks-append}
use znc_playground.Text.Token.{token-first, token-rest, token-next}
use znc_playground.Text.Trim.Clean.{FirstOutside, LastOutside, trim_left-FirstOutside}
use znc_playground.Text.Trim.{contains_char, trim_right, trim}

-- A character of a name or a tag: no control character and no space, no upper case letter, and none of
-- `=`, `<`, `>`, `#` and `/`
abbrev pub is_key_char : ℕ → Bool
is_key_char c =
    leb b'!' c
    && not (within b'A' b'Z' c)
    && not (c == b'=' || c == b'<' || c == b'>' || c == b'#' || c == b'/')

abbrev pub IsKey : Bytes → Type 0
IsKey s = (s ≢ []) × All (λ c. is_key_char c ≡ true) s

pub key-Lacks :
    (d : ℕ) (s : Bytes) → is_key_char d ≡ false → All (λ c. is_key_char c ≡ true) s → Lacks d s
key-Lacks d [] n h = tt
key-Lacks d (c ∷ s) n h = (λ e. absurd (ground (arith, h.0)), key-Lacks d s n h.1)

pub key-FirstOutside : (s : Bytes) → All (λ c. is_key_char c ≡ true) s → FirstOutside spaces s
unfolding contains_char
key-FirstOutside [] h = tt
key-FirstOutside (c ∷ s) h = ground (arith, h.0)

pub key-LastOutside : (s : Bytes) → All (λ c. is_key_char c ≡ true) s → LastOutside spaces s
unfolding contains_char
key-LastOutside [] h = tt
key-LastOutside (c ∷ []) h = ground (arith, h.0)
key-LastOutside (c ∷ d ∷ s) h = key-LastOutside (d ∷ s) h.1

pub key-lower : (s : Bytes) → All (λ c. is_key_char c ≡ true) s → as_lower s ≡ s
unfolding to_lower
key-lower [] h = refl
key-lower (c ∷ s) h = ap₂ (λ d t. d ∷ t) (ground (arith, h.0)) (key-lower s h.1)

pub append-ne : (s : Bytes) (c : ℕ) → (s ++ c ∷ []) ≢ []
append-ne [] c e = cc
append-ne (x ∷ s) c e = cc

-- No line of a key is a comment or a tag.
pub key-begins :
    (c d : ℕ) (s p : Bytes)
    → is_key_char c ≡ true
    → is_key_char d ≡ false
    → d ≢ 0
    → within b'A' b'Z' d ≡ false
    → begins (c ∷ s) (d ∷ p) ≡ false
unfolding to_lower
key-begins c d s p h k n l = begins-other c d s p (ground arith) n (ground arith)

abbrev pub entry_text : Bytes → Bytes → Bytes
entry_text name value = name ++ (codes " = " ++ value)

module _ (st : ParseState) (plain : st.commented ≡ false) where
  pub trimmed-entry :
      (c : ℕ) (s : Bytes) → is_key_char c ≡ true → trimmed_line st (c ∷ s) ≡ entry_line st (c ∷ s)
  unfolding trimmed_line
  trimmed-entry c s h =
      rw
        (
          plain,
          key-begins c b'/' s (codes "*") h refl (omega arith) refl,
          key-begins c b'#' s [] h refl (omega arith) refl,
          key-begins c b'/' s (codes "/") h refl (omega arith) refl,
          key-begins c b'<' s [] h refl (omega arith) refl,
        )
        refl

  trim-name : (name : Bytes) → IsKey name → trim spaces (name ++ b' ' ∷ []) ≡ name
  unfolding trim contains_char
  trim-name [] h = absurd (h.0 refl)
  trim-name (c ∷ name) h =
      ap (trim_right spaces)
        (trim_left-FirstOutside spaces (c ∷ name ++ b' ' ∷ []) (key-FirstOutside (c ∷ name) h.1))
      ∙ trim_right-last spaces (c ∷ name) b' ' refl (key-LastOutside (c ∷ name) h.1)

  Lacks-space : (s : Bytes) → Lacks b'=' s → Lacks b'=' (s ++ b' ' ∷ [])
  Lacks-space s h = Lacks-append b'=' s (b' ' ∷ []) h (omega arith, tt)

  entry_parts-some :
      (name value : Bytes)
      → IsKey name
      → value ≢ []
      → entry_parts st name value ≡ ok (record st { active = push_entry name value st.active })
  unfolding entry_parts
  entry_parts-some [] value h n = absurd (h.0 refl)
  entry_parts-some (c ∷ name) [] h n = absurd (n refl)
  entry_parts-some (c ∷ name) (v ∷ value) h n =
      ap (λ k. ok (record st { active = push_entry k (v ∷ value) st.active }))
        (key-lower (c ∷ name) h.1)

  pub entry_line-entry_text :
      (name value : Bytes)
      → IsKey name
      → value ≢ []
      → entry_line st (entry_text name value)
        ≡ ok (record st { active = push_entry name value st.active })
  unfolding entry_line
  entry_line-entry_text name value h some =
      let word = Lacks-space name (key-Lacks b'=' name refl h.1) in
      let line = sym (append_assoc name (b' ' ∷ []) (b'=' ∷ b' ' ∷ value)) in
      ap (entry_line st) line
      ∙ ap₂ (entry_parts st)
          (ap (trim spaces) (
              token-first b'=' (omega arith) (name ++ b' ' ∷ []) (b' ' ∷ value) word
                (append-ne name b' '))
            ∙ trim-name name h)
          (ap (λ t. (trim_prefix (codes " ") t).0)
              (token-next b'=' (omega arith) 0 true (name ++ b' ' ∷ []) (b' ' ∷ value) word
                  (append-ne name b' ') (omega arith)
                ∙ token-rest b'=' (omega arith) (b' ' ∷ value) (omega arith))
            ∙ ap (λ r. r.0) (trim_prefix-append (codes " ") value))
      ∙ entry_parts-some name value h some
