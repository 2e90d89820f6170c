-- ===== src/IrcSock/Caps/Known.antt =====
-- What is known about each capability between two requests.
use znc_playground.IrcSock.Caps.Defs.{
  CapState, CapRules, remove_cap, on_ack, retry_later, on_nak, on_sub_command, send_next_cap,
  on_capability_message,
}
use znc_playground.IrcSock.Caps.Dialog.{grants_all, answer}
use znc_playground.IrcSock.Caps.Requests.{mem_bytes}
use znc_playground.Message.Defs.{get_param}
use znc_playground.Prelude.{
  ◌≡◌, refl, ap, Bool, true, false, List, [], ◌∷◌, ◌++◌, append-nil, if◌then◌else◌, All, Bytes,
  bytes_eq, bytes_eq_iff, codes, arith, Bool-cases, inl, inr,
}
use znc_playground.Text.Split.{Lacks}
use znc_playground.Text.SplitBy.{words}
use znc_playground.Text.SplitBy.Spaced.{behind_spaces, spaced, IsWord, words-spaced}

-- A name that a request can hold: a word without `*`
abbrev pub IsCapName : Bytes → Type 0
IsCapName c = IsWord c × Lacks b'*' c

abbrev pub nak : List Bytes → CapState → CapState
nak [] s = s
nak (c ∷ []) s = remove_cap c s
nak (c ∷ d ∷ cs) s = retry_later (c ∷ d ∷ cs) s

abbrev pub settle : (Bytes → Bool) → List Bytes → CapState → CapState
settle grants cs s = if grants_all grants cs then on_ack cs s else nak cs s

all_words : (cs : List Bytes) → ((c : Bytes) → mem_bytes c cs ≡ true → IsCapName c) → All IsWord cs
all_words [] h = tt
all_words (c ∷ cs) h =
    ((h c (ground (arith, bytes_eq_iff c c))).0, all_words cs (λ d m. h d (ground arith)))

not_star : (c rest : Bytes) → IsCapName c → bytes_eq (c ++ rest) (codes "*") ≡ false
unfolding bytes_eq
not_star [] rest h = absurd (h.0.0 refl)
not_star (x ∷ c) rest h = let (n, hs) = h.1 in ground arith

nak-on_nak :
    (c : Bytes) (cs : List Bytes) (s : CapState)
    → on_nak (spaced (c ∷ cs)) (c ∷ cs) s ≡ nak (c ∷ cs) s
unfolding on_nak
nak-on_nak c [] s = ap (λ n. remove_cap n s) (append-nil c)
nak-on_nak c (d ∷ cs) s = refl

pub on_capability_message-answer :
    (r : CapRules) (grants : Bytes → Bool) (c : Bytes) (cs : List Bytes) (s : CapState)
    → ((d : Bytes) → mem_bytes d (c ∷ cs) ≡ true → IsCapName d)
    → on_capability_message r (answer grants (spaced (c ∷ cs))) s
      ≡ send_next_cap (settle grants (c ∷ cs) s)
unfolding on_capability_message answer get_param on_sub_command bytes_eq
on_capability_message-answer r grants c cs s names =
    let split : words (spaced (c ∷ cs)) ≡ c ∷ cs = words-spaced c cs (all_words (c ∷ cs) names) in
    let plain = not_star c (behind_spaces cs) (names c (ground (arith, bytes_eq_iff c c))) in
    elim (Bool-cases (grants_all grants (c ∷ cs))) [
      | inl e ↦ rw plain (rw split (rw e refl))
      | inr e ↦ rw plain (rw split (rw e (ap send_next_cap (nak-on_nak c cs s))))
    ]
