-- ===== src/IrcSock/Caps/Settled.antt =====
-- What the answer of the server to a request settles.
use znc_playground.IrcSock.Caps.Defs.{
  CapState, StringSet, is_in, set_cap, cap_result, remove_cap, on_ack, retry_later,
}
use znc_playground.IrcSock.Caps.Requests.{mem_bytes}
use znc_playground.Prelude.{
  ◌+◌, ◌≤◌, ◌≡◌, refl, ap, ◌∙◌, Bool, true, false, not, ◌&&◌, ◌||◌, List, [], ◌∷◌, length, Bytes,
  bytes_eq, arith,
}
use znc_playground.StringMap.{insert, erase, find-insert, find-erase}

-- What stays the same
pub record SameCourse (s t : CapState) : Type 0 where
  pub authed : t.authed ≡ s.authed
  pub paused : t.cap_paused ≡ s.cap_paused

-- The sets, told by membership and size
pub record Acked (cs : List Bytes) (s t : CapState) : Type 0 where
  pub course : SameCourse s t
  pub accepted : (c : Bytes) → is_in c t.accepted ≡ (mem_bytes c cs || is_in c s.accepted)
  pub pending : t.pending ≡ s.pending
  pub phase2 : t.pending_phase2 ≡ s.pending_phase2

pub is_in-insert :
    (d c : Bytes) (m : StringSet) → is_in c (insert d tt m) ≡ (bytes_eq d c || is_in c m)
is_in-insert d c m = ground (arith, find-insert d c tt m)

pub is_in-erase :
    (d c : Bytes) (m : StringSet) → is_in c (erase d m) ≡ (not (bytes_eq d c) && is_in c m)
is_in-erase d c m = ground (arith, find-erase d c m)

or_swap : (a b c : Bool) → (a || (b || c)) ≡ ((b || a) || c)
or_swap a b c = ground arith

pub set_cap-same :
    (c : Bytes) (on : Bool) (s : CapState)
    → SameCourse s (set_cap c on s)
      × ((set_cap c on s).accepted ≡ s.accepted)
      × ((set_cap c on s).pending ≡ s.pending)
      × ((set_cap c on s).pending_phase2 ≡ s.pending_phase2)
unfolding set_cap
set_cap-same c on s = (
  record { authed = ground arith; paused = ground arith },
  ground arith,
  ground arith,
  ground arith,
)

pub on_ack-Acked : (cs : List Bytes) (s : CapState) → Acked cs s (on_ack cs s)
unfolding on_ack
on_ack-Acked [] s = record {
  course = record { authed = refl; paused = refl };
  accepted = λ c. refl;
  pending = refl;
  phase2 = refl;
}
on_ack-Acked (d ∷ cs) s =
    let t : CapState = set_cap d true (cap_result d true s) in
    let (course, acc, pen, two) = set_cap-same d true (cap_result d true s) in
    let u : CapState = record t { accepted = insert d tt t.accepted } in
    let later : Acked cs u (on_ack cs u) = on_ack-Acked cs u in
    record {
      course = record {
        authed = later.course.authed ∙ course.authed;
        paused = later.course.paused ∙ course.paused;
      };
      accepted = λ c.
          later.accepted c
          ∙ ap (λ b. mem_bytes c cs || b)
              (is_in-insert d c t.accepted ∙ ap (λ m. bytes_eq d c || is_in c m) acc)
          ∙ or_swap (mem_bytes c cs) (bytes_eq d c) (is_in c s.accepted);
      pending = later.pending ∙ pen;
      phase2 = later.phase2 ∙ two;
    }

-- A name that was refused on its own
pub record Removed (d : Bytes) (s t : CapState) : Type 0 where
  pub course : SameCourse s t
  pub accepted : (c : Bytes) → is_in c t.accepted ≡ (not (bytes_eq d c) && is_in c s.accepted)
  pub pending : t.pending ≡ erase d s.pending
  pub phase2 : t.pending_phase2 ≡ s.pending_phase2

pub remove_cap-Removed : (d : Bytes) (s : CapState) → Removed d s (remove_cap d s)
unfolding remove_cap
remove_cap-Removed d s =
    let (course, acc, pen, two) = set_cap-same d false (cap_result d false s) in
    record {
      course = record { authed = course.authed; paused = course.paused };
      accepted = λ c. ap (λ m. is_in c (erase d m)) acc ∙ is_in-erase d c s.accepted;
      pending = ap (erase d) pen;
      phase2 = two;
    }

pub record Later (cs : List Bytes) (s t : CapState) : Type 0 where
  pub course : SameCourse s t
  pub accepted : t.accepted ≡ s.accepted
  pub pending : t.pending ≡ s.pending
  pub phase2 : (c : Bytes) → is_in c t.pending_phase2 ≡ (mem_bytes c cs || is_in c s.pending_phase2)
  pub few : length t.pending_phase2 ≤ length cs + length s.pending_phase2

length-insert : (d : Bytes) (m : StringSet) → length (insert d tt m) ≤ 1 + length m
unfolding insert
length-insert d [] = omega arith
length-insert d ((c, u) ∷ m) = ground (arith, length-insert d m)

pub length-erase : (d : Bytes) (m : StringSet) → length (erase d m) ≤ length m
unfolding erase
length-erase d [] = omega arith
length-erase d ((c, u) ∷ m) = ground (arith, length-erase d m)

pub retry_later-Later : (cs : List Bytes) (s : CapState) → Later cs s (retry_later cs s)
unfolding retry_later
retry_later-Later [] s = record {
  course = record { authed = refl; paused = refl };
  accepted = refl;
  pending = refl;
  phase2 = λ c. refl;
  few = omega arith;
}
retry_later-Later (d ∷ cs) s =
    let t : CapState = record s { pending_phase2 = insert d tt s.pending_phase2 } in
    let later : Later cs t (retry_later cs t) = retry_later-Later cs t in
    record {
      course = record { authed = later.course.authed; paused = later.course.paused };
      accepted = later.accepted;
      pending = later.pending;
      phase2 = λ c.
          later.phase2 c
          ∙ ap (λ b. mem_bytes c cs || b) (is_in-insert d c s.pending_phase2)
          ∙ or_swap (mem_bytes c cs) (bytes_eq d c) (is_in c s.pending_phase2);
      few = omega (arith, later.few, length-insert d s.pending_phase2);
    }
