-- ===== src/IrcSock/Caps/Negotiation.antt =====
-- The whole negotiation with a server that answers every request.
use znc_playground.IrcSock.Caps.Asking.{
  Ended, Asks, none_open, asked-request, asked-end, dialog_end, dialog_on, send_next_cap-cases,
}
use znc_playground.IrcSock.Caps.Defs.{CapState, CapRules, StringSet, is_in, end_line, send_next_cap}
use znc_playground.IrcSock.Caps.Dialog.{asked, dialog}
use znc_playground.IrcSock.Caps.Known.{IsCapName, settle, on_capability_message-answer}
use znc_playground.IrcSock.Caps.Progress.{to_ask, verdict, Knows, settle-Knows, to_ask-settle}
use znc_playground.Prelude.{
  ℕ, zero, suc, ◌*◌, ◌≤◌, ◌≡◌, refl, ap, ◌∙◌, Bool, true, false, ◌||◌, ◌+◌, List, [], ◌∷◌, some,
  length, Bytes, arith, inl, inr,
}
use znc_playground.Text.SplitBy.Spaced.{spaced}

-- A name to ask for
abbrev pub is_unasked : CapState → Bytes → Bool
is_unasked s c = is_in c s.pending || is_in c s.pending_phase2

module _ (wished grants : Bytes → Bool) (had : StringSet) where
  -- How the negotiation ends
  pub record Agreed (t : CapState) : Type 0 where
    pub last : List Bytes
    pub ended : t.put ≡ end_line ∷ last
    pub no_pending : t.pending ≡ []
    pub no_phase2 : t.pending_phase2 ≡ []
    pub accepted : (c : Bytes) → is_in c t.accepted ≡ verdict wished grants had c

  Ended-Agreed : (s t : CapState) → Knows wished grants had [] s → Ended s t → Agreed t
  Ended-Agreed s t k e = record {
    last = s.put;
    ended = e.line;
    no_pending = e.pending;
    no_phase2 = e.phase2;
    accepted =
        λ c. ap (is_in c) e.accepted ∙ k.settled c (none_open s c e.none_pending e.none_phase2);
  }

  module _ (r : CapRules) (names : (c : Bytes) → wished c ≡ true → IsCapName c) where
    answered :
        (fuel : ℕ) (s t : CapState) (a : Asks wished grants had s t)
        → dialog r grants (suc fuel) t
          ≡ dialog r grants fuel (send_next_cap (settle grants (a.first ∷ a.more) t))
    answered fuel s t a =
        dialog_on r grants fuel t (spaced (a.first ∷ a.more))
          (ap asked a.line ∙ asked-request (spaced (a.first ∷ a.more)) s.put)
        ∙ ap (dialog r grants fuel) (
            on_capability_message-answer r grants a.first a.more t
              (λ d m. names d (a.knows.open_wished d (ground (arith, m)))))

    at_end :
        (fuel : ℕ) (s : CapState)
        → Knows wished grants had [] s
        → Ended s (send_next_cap s)
        → (t : CapState) × (dialog r grants fuel (send_next_cap s) ≡ some t) × Agreed t
    at_end fuel s k e = (
      send_next_cap s,
      dialog_end r grants fuel (send_next_cap s) (ap asked e.line ∙ asked-end s.put),
      Ended-Agreed s (send_next_cap s) k e,
    )

    dialog-Agreed :
        (fuel : ℕ) (s : CapState)
        → to_ask s ≤ fuel
        → Knows wished grants had [] s
        → (t : CapState) × (dialog r grants fuel (send_next_cap s) ≡ some t) × Agreed t
    dialog-Agreed zero s n k = elim (send_next_cap-cases wished grants had s k) [
      | inl e ↦ at_end zero s k e
      | inr a ↦ absurd (omega (arith, a.less))
    ]
    dialog-Agreed (suc fuel) s n k = elim (send_next_cap-cases wished grants had s k) [
      | inl e ↦ at_end (suc fuel) s k e
      | inr a ↦
          let t : CapState = send_next_cap s in
          let cs : List Bytes = a.first ∷ a.more in
          let (u, same, agreed) =
            dialog-Agreed fuel (settle grants cs t)
              (omega (arith, a.less, to_ask-settle grants cs t))
              (settle-Knows wished grants had cs t a.knows) in
          (u, answered fuel s t a ∙ same, agreed)
    ]

-- A server grants a request exactly if it would grant each of its names, and repeats the names in its
-- answer. Before the login and with no pause, the names to ask for, those that are pending and those
-- that wait to be asked for again, are not empty and hold no space, no NUL and no asterisk. After as
-- many answers as there are names that wait and twice as many as there are pending names at most, the
-- negotiation ends with `CAP END`, nothing is left to ask, and of the names to ask for exactly those
-- are accepted that the server grants, while it is as before for any other name.
pub dialog-accepted :
    (r : CapRules) (grants : Bytes → Bool) (s : CapState)
    → s.authed ≡ false
    → s.cap_paused ≡ 0
    → ((c : Bytes) → is_unasked s c ≡ true → IsCapName c)
    → (t : CapState) × (dialog r grants
          (2 * length s.pending + length s.pending_phase2)
          (send_next_cap s)
        ≡ some t)
      × Agreed (is_unasked s) grants s.accepted t
dialog-accepted r grants s a p names =
    dialog-Agreed (is_unasked s) grants s.accepted r names
      (2 * length s.pending + length s.pending_phase2) s (omega arith)
      (record {
        login = a;
        running = p;
        open_wished = λ c h. ground (arith, h);
        settled = λ c h. let out : is_unasked s c ≡ false = ground (arith, h) in rw out refl;
      })
