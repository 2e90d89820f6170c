-- ===== src/IrcSock/Caps/Progress.antt =====
-- Each answer settles what was asked, and leaves less to ask.
use znc_playground.IrcSock.Caps.Defs.{CapState, StringSet, is_in, remove_cap, on_ack, retry_later}
use znc_playground.IrcSock.Caps.Dialog.{grants_all}
use znc_playground.IrcSock.Caps.Known.{nak, settle}
use znc_playground.IrcSock.Caps.Requests.{mem_bytes}
use znc_playground.IrcSock.Caps.Settled.{
  Acked, on_ack-Acked, Removed, remove_cap-Removed, Later, retry_later-Later, is_in-erase,
  length-erase,
}
use znc_playground.Prelude.{
  ℕ, ◌+◌, ◌*◌, ◌≤◌, ◌≡◌, ap, ◌∙◌, Bool, true, false, ◌||◌, List, [], ◌∷◌, if◌then◌else◌, if_elim,
  length, Bytes, bytes_eq_iff, arith,
}

-- Whether the name is still to be asked for, or is asked for in the names `cs`
abbrev pub is_open : List Bytes → CapState → Bytes → Bool
is_open cs s c = mem_bytes c cs || (is_in c s.pending || is_in c s.pending_phase2)

-- How much there is to ask: a refused request of several names is asked again, name by name.
abbrev pub to_ask : CapState → ℕ
to_ask s = 2 * length s.pending + length s.pending_phase2

abbrev pub asked_again : List Bytes → ℕ
asked_again [] = 0
asked_again (c ∷ []) = 0
asked_again (c ∷ d ∷ cs) = length (c ∷ d ∷ cs)

-- What the server decides of the names at the start, `wished`; `had` is what was accepted before.
abbrev pub verdict : (Bytes → Bool) → (Bytes → Bool) → StringSet → Bytes → Bool
verdict wished grants had c = if wished c then grants c else is_in c had

module _ (wished grants : Bytes → Bool) (had : StringSet) where
  -- While `cs` is asked for: only wished names are open, and of all others the verdict is known.
  pub record Knows (cs : List Bytes) (s : CapState) : Type 0 where
    pub login : s.authed ≡ false
    pub running : s.cap_paused ≡ 0
    pub open_wished : (c : Bytes) → is_open cs s c ≡ true → wished c ≡ true
    pub settled :
        (c : Bytes) → is_open cs s c ≡ false → is_in c s.accepted ≡ verdict wished grants had c

  grants-mem :
      (cs : List Bytes) (d : Bytes)
      → grants_all grants cs ≡ true
      → mem_bytes d cs ≡ true
      → grants d ≡ true
  unfolding grants_all
  grants-mem [] d g m = absurd (ground arith)
  grants-mem (c ∷ cs) d g m = ground (arith, bytes_eq_iff c d, grants-mem cs d)

  on_ack-Knows :
      (cs : List Bytes) (s : CapState)
      → grants_all grants cs ≡ true
      → Knows cs s
      → Knows [] (on_ack cs s)
  on_ack-Knows cs s g k =
      let t : Acked cs s (on_ack cs s) = on_ack-Acked cs s in
      record {
        login = t.course.authed ∙ k.login;
        running = t.course.paused ∙ k.running;
        open_wished =
            λ c h. ground (arith, k.open_wished c, ap (is_in c) t.pending, ap (is_in c) t.phase2);
        settled = λ c h. ground (
          arith,
          k.open_wished c,
          k.settled c,
          t.accepted c,
          ap (is_in c) t.pending,
          ap (is_in c) t.phase2,
          grants-mem cs c g,
        );
      }

  remove_cap-Knows :
      (c : Bytes) (s : CapState) → grants c ≡ false → Knows (c ∷ []) s → Knows [] (remove_cap c s)
  remove_cap-Knows c s g k =
      let t : Removed c s (remove_cap c s) = remove_cap-Removed c s in
      record {
        login = t.course.authed ∙ k.login;
        running = t.course.paused ∙ k.running;
        open_wished = λ d h. ground (
          arith,
          k.open_wished d,
          ap (is_in d) t.pending,
          is_in-erase c d s.pending,
          ap (is_in d) t.phase2,
        );
        settled = λ d h. ground (
          arith,
          k.open_wished d,
          k.settled d,
          t.accepted d,
          ap (is_in d) t.pending,
          is_in-erase c d s.pending,
          ap (is_in d) t.phase2,
          bytes_eq_iff c d,
        );
      }

  retry_later-Knows : (cs : List Bytes) (s : CapState) → Knows cs s → Knows [] (retry_later cs s)
  retry_later-Knows cs s k =
      let t : Later cs s (retry_later cs s) = retry_later-Later cs s in
      record {
        login = t.course.authed ∙ k.login;
        running = t.course.paused ∙ k.running;
        open_wished = λ d h. ground (arith, k.open_wished d, ap (is_in d) t.pending, t.phase2 d);
        settled = λ d h.
            ground
              (arith, k.settled d, ap (is_in d) t.accepted, ap (is_in d) t.pending, t.phase2 d);
      }

  pub settle-Knows : (cs : List Bytes) (s : CapState) → Knows cs s → Knows [] (settle grants cs s)
  unfolding grants_all
  settle-Knows cs s k =
      if_elim (Knows []) (grants_all grants cs) _ _ (λ g. on_ack-Knows cs s g k)
        (λ g. refused cs g k)
    where
      refused : (ds : List Bytes) → grants_all grants ds ≡ false → Knows ds s → Knows [] (nak ds s)
      refused [] g l = absurd (ground arith)
      refused (c ∷ []) g l = remove_cap-Knows c s (ground arith) l
      refused (c ∷ d ∷ ds) g l = retry_later-Knows (c ∷ d ∷ ds) s l

pub to_ask-settle :
    (grants : Bytes → Bool) (cs : List Bytes) (s : CapState)
    → to_ask (settle grants cs s) ≤ to_ask s + asked_again cs
to_ask-settle grants cs s =
    let a : Acked cs s (on_ack cs s) = on_ack-Acked cs s in
    if_elim (λ t. to_ask t ≤ to_ask s + asked_again cs) (grants_all grants cs) _ _
      (λ g. omega (arith, ap length a.pending, ap length a.phase2)) (λ g. refused cs)
  where
    refused : (ds : List Bytes) → to_ask (nak ds s) ≤ to_ask s + asked_again ds
    refused [] = omega arith
    refused (c ∷ []) =
        let t : Removed c s (remove_cap c s) = remove_cap-Removed c s in
        omega (arith, ap length t.pending, ap length t.phase2, length-erase c s.pending)
    refused (c ∷ d ∷ ds) =
        let t : Later (c ∷ d ∷ ds) s (retry_later (c ∷ d ∷ ds) s) =
          retry_later-Later (c ∷ d ∷ ds) s in
        omega (arith, ap length t.pending, t.few)
