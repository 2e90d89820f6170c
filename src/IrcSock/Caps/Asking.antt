-- ===== src/IrcSock/Caps/Asking.antt =====
-- What `SendNextCap` asks for next, or that it ends.
use znc_playground.IrcSock.Caps.Defs.{
  CapState, CapRules, StringSet, is_in, put_line, request, end_line, next_phase2, next_pending,
  send_next_cap, on_capability_message,
}
use znc_playground.IrcSock.Caps.Dialog.{answer, asked, go_on, dialog}
use znc_playground.IrcSock.Caps.Progress.{is_open, to_ask, asked_again, Knows}
use znc_playground.IrcSock.Caps.Requests.{
  entries, Filled, fill_caps-Filled, is_in-entries, length-entries,
}
use znc_playground.Prelude.{
  ℕ, zero, suc, ◌+◌, ◌≤◌, ◌≡◌, ◌⊎◌, refl, sym, ap, ◌∙◌, Bool, false, ◌||◌, ◌==◌, List, [], ◌∷◌,
  ◌++◌, append-nil, none, some, if_elim, length, Bytes, bytes_eq, arith, inl, inr,
}
use znc_playground.StringMap.{find}
use znc_playground.Text.SplitBy.Spaced.{behind_spaces, spaced}

pub record Ended (s t : CapState) : Type 0 where
  pub line : t.put ≡ end_line ∷ s.put
  pub none_pending : s.pending ≡ []
  pub none_phase2 : s.pending_phase2 ≡ []
  pub pending : t.pending ≡ []
  pub phase2 : t.pending_phase2 ≡ []
  pub accepted : t.accepted ≡ s.accepted

asked_again-le : (c : Bytes) (cs : List Bytes) → asked_again (c ∷ cs) ≤ 1 + length cs
asked_again-le c [] = omega arith
asked_again-le c (d ∷ cs) = omega arith

is_in-cons :
    (c d : Bytes) (u : Unit {0}) (m : StringSet)
    → is_in d ((c, u) ∷ m) ≡ (bytes_eq c d || is_in d m)
unfolding find
is_in-cons c d u m = ground arith

-- The same names are open before a request and while it is out.
open-phase2 :
    (s t : CapState) (c : Bytes) (u : Unit {0}) (rest : StringSet) (d : Bytes)
    → s.pending ≡ []
    → s.pending_phase2 ≡ (c, u) ∷ rest
    → t.pending ≡ []
    → t.pending_phase2 ≡ rest
    → is_open [] s d ≡ is_open (c ∷ []) t d
open-phase2 s t c u rest d p e q f =
    ground
      (arith, ap (is_in d) p, ap (is_in d) e, is_in-cons c d u rest, ap (is_in d) q, ap (is_in d) f)

open-pending :
    (s t : CapState) (c : Bytes) (u : Unit {0}) (rest left : StringSet) (taken : List Bytes)
    (d : Bytes)
    → s.pending ≡ (c, u) ∷ rest
    → rest ≡ entries taken ++ left
    → t.pending ≡ left
    → t.pending_phase2 ≡ s.pending_phase2
    → is_open [] s d ≡ is_open (c ∷ taken) t d
open-pending s t c u rest left taken d e w q f = ground (
  arith,
  ap (is_in d) e,
  is_in-cons c d u rest,
  ap (is_in d) w,
  is_in-entries d taken left,
  ap (is_in d) q,
  ap (is_in d) f,
)

pub no_member : (c : Bytes) → is_in c [] ≡ false
unfolding find
no_member c = refl

pub none_open :
    (s : CapState) (c : Bytes) → s.pending ≡ [] → s.pending_phase2 ≡ [] → is_open [] s c ≡ false
unfolding find
none_open s c p e = ground (arith, ap (is_in c) p, ap (is_in c) e)

pub asked-request : (caps : Bytes) (lines : List Bytes) → asked (request caps ∷ lines) ≡ some caps
unfolding bytes_eq
asked-request caps lines = refl

pub asked-end : (lines : List Bytes) → asked (end_line ∷ lines) ≡ none
unfolding bytes_eq
asked-end lines = refl

pub dialog_end :
    (r : CapRules) (grants : Bytes → Bool) (fuel : ℕ) (s : CapState)
    → asked s.put ≡ none
    → dialog r grants fuel s ≡ some s
unfolding dialog
dialog_end r grants zero s e = rw e refl
dialog_end r grants (suc fuel) s e = rw e refl

pub dialog_on :
    (r : CapRules) (grants : Bytes → Bool) (fuel : ℕ) (s : CapState) (caps : Bytes)
    → asked s.put ≡ some caps
    → dialog r grants (suc fuel) s
      ≡ dialog r grants fuel (on_capability_message r (answer grants caps) s)
unfolding dialog
dialog_on r grants fuel s caps e =
    ap
      (λ o.
        go_on o s (λ names. dialog r grants fuel (on_capability_message r (answer grants names) s)))
      e

module _ (wished grants : Bytes → Bool) (had : StringSet) where
  pub record Asks (s t : CapState) : Type 0 where
    pub first : Bytes
    pub more : List Bytes
    pub line : t.put ≡ request (spaced (first ∷ more)) ∷ s.put
    pub knows : Knows wished grants had (first ∷ more) t
    pub less : suc (to_ask t + asked_again (first ∷ more)) ≤ to_ask s

  next_phase2-cases :
      (s : CapState) (two : StringSet)
      → s.pending ≡ []
      → s.pending_phase2 ≡ two
      → Knows wished grants had [] s
      → Ended s (next_phase2 s two) ⊎ Asks s (next_phase2 s two)
  unfolding next_phase2
  next_phase2-cases s [] p e k = rw k.login (
      inl (record {
        line = refl;
        none_pending = p;
        none_phase2 = e;
        pending = p;
        phase2 = e;
        accepted = refl;
      }))
  next_phase2-cases s ((c, u) ∷ rest) p e k =
      let t : CapState = next_phase2 s ((c, u) ∷ rest) in
      inr (record {
        first = c;
        more = [];
        line = ap (λ n. request n ∷ s.put) (sym (append-nil c));
        knows = record {
          login = k.login;
          running = k.running;
          open_wished = λ d h. k.open_wished d (open-phase2 s t c u rest d p e p refl ∙ h);
          settled = λ d h. k.settled d (open-phase2 s t c u rest d p e p refl ∙ h);
        };
        less = omega (arith, ap length e);
      })

  next_pending-cases :
      (s : CapState) (one : StringSet)
      → s.pending ≡ one
      → Knows wished grants had [] s
      → Ended s (next_pending s one) ⊎ Asks s (next_pending s one)
  unfolding next_pending
  next_pending-cases s [] e k = next_phase2-cases s s.pending_phase2 e refl k
  next_pending-cases s ((c, u) ∷ rest) e k =
      let f : Filled c rest = fill_caps-Filled c rest in
      let t : CapState =
        put_line (request (c ++ behind_spaces f.taken)) (record s { pending = f.left }) in
      rw f.joined (
        inr (record {
          first = c;
          more = f.taken;
          line = refl;
          knows = record {
            login = k.login;
            running = k.running;
            open_wished = λ d h.
                k.open_wished d
                  (open-pending s t c u rest f.left f.taken d e f.whole refl refl ∙ h);
            settled = λ d h.
                k.settled d (open-pending s t c u rest f.left f.taken d e f.whole refl refl ∙ h);
          };
          less = omega (
            arith,
            ap length e,
            ap length f.whole,
            length-entries f.taken f.left,
            asked_again-le c f.taken,
          );
        }))

  pub send_next_cap-cases :
      (s : CapState)
      → Knows wished grants had [] s
      → Ended s (send_next_cap s) ⊎ Asks s (send_next_cap s)
  unfolding send_next_cap
  send_next_cap-cases s k =
      if_elim (λ t. Ended s t ⊎ Asks s t) (s.cap_paused == 0) _ _
        (λ g. next_pending-cases s s.pending refl k) (λ g. absurd (ground (arith, k.running)))
