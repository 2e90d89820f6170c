-- ===== src/Network/Servers/Advance.antt =====
-- Repeated calls of `GetNextServer`.
use znc_playground.Network.Server.{Server}
use znc_playground.Network.Servers.Defs.{
  ServerList, get_current_server, wrapped_idx, get_next_server, set_next_server,
}
use znc_playground.Network.Servers.Rotation.{
  get-beyond, get_next_server-get, get_current_server-get, last_idx,
}
use znc_playground.Prelude.{
  ℕ, zero, suc, ◌+◌, ◌-◌, ◌<◌, ◌≡◌, ◌≢◌, refl, ap, ◌∙◌, Bool, true, Option, arith, ◌==◌, leb, ltb,
  length, get_elem?, if◌then◌else◌, if_elim, Bool-cases, inl, inr,
}

-- The server list after `k` calls
unfoldable pub advance_times : ℕ → ServerList → ServerList
unfolding get_next_server
advance_times zero l = l
advance_times (suc k) l = (get_next_server (advance_times k l) true).1

get_next_server-list :
    (l : ServerList)
    → length l.servers ≢ 0
    → (get_next_server l true).1 ≡ record l { idx = wrapped_idx l + 1 }
unfolding get_next_server
get_next_server-list l h =
    if_elim (λ (r : Option Server × ServerList). r.1 ≡ record l { idx = wrapped_idx l + 1 })
      (length l.servers == 0) _ _ (λ e. absurd (ground arith)) (λ e. refl)

advance_times-servers : (k : ℕ) (l : ServerList) → (advance_times k l).servers ≡ l.servers
unfolding advance_times
advance_times-servers zero l = refl
advance_times-servers (suc k) l =
    if_elim (λ (r : Option Server × ServerList). r.1.servers ≡ l.servers)
      (length (advance_times k l).servers == 0) _ _ (λ e. advance_times-servers k l)
      (λ e. advance_times-servers k l)

wrapped_idx-bound : (l : ServerList) → length l.servers ≢ 0 → wrapped_idx l < length l.servers
unfolding wrapped_idx
wrapped_idx-bound l h = ground arith

wrapped_idx-small : (l : ServerList) → l.idx < length l.servers → wrapped_idx l ≡ l.idx
unfolding wrapped_idx
wrapped_idx-small l h = ground arith

if_true : {A : Type 0} (b : Bool) (x y : A) → b ≡ true → (if b then x else y) ≡ x
if_true b x y h = rw h refl

wrapped_idx-next :
    (l : ServerList)
    → length l.servers ≢ 0
    → wrapped_idx (get_next_server l true).1
      ≡ (if leb (length l.servers) (wrapped_idx l + 1) then 0 else wrapped_idx l + 1)
unfolding wrapped_idx
wrapped_idx-next l h = ap wrapped_idx (get_next_server-list l h)

-- The place `k` after `w` in a round of `n`
abbrev place_after : ℕ → ℕ → ℕ → ℕ
place_after n w k = if ltb (w + k) n then w + k else w + k - n

place-next :
    (w k n w' n' : ℕ)
    → suc k < n
    → w < n
    → n' ≡ n
    → w' ≡ place_after n w k
    → (if leb n' (w' + 1) then 0 else w' + 1) ≡ place_after n w (suc k)
place-next w k n w' n' h b e f = ground arith

wrapped_idx-advance_times :
    (k : ℕ) (l : ServerList)
    → k < length l.servers
    → wrapped_idx (advance_times k l) ≡ place_after (length l.servers) (wrapped_idx l) k
unfolding advance_times
wrapped_idx-advance_times zero l h = ground (arith, wrapped_idx-bound l (omega arith))
wrapped_idx-advance_times (suc k) l h =
    let before = advance_times k l in
    let same = ap length (advance_times-servers k l) in
    let there = wrapped_idx-advance_times k l (omega arith) in
    wrapped_idx-next before (omega arith)
    ∙ place-next (wrapped_idx l) k (length l.servers) (wrapped_idx before) (length before.servers) h
        (wrapped_idx-bound l (omega arith)) same there

-- Within one round of calls of `GetNextServer`, every server of the list has its turn.
pub advance_times-reaches :
    (l : ServerList) (i : ℕ)
    → i < length l.servers
    → (k : ℕ) × (k < length l.servers)
      × ((get_next_server (advance_times k l) true).0 ≡ get_elem? l.servers i)
advance_times-reaches l i h = (
  turn,
  soon,
  get_next_server-get (advance_times turn l) true
      ∙ ap (λ servers. get_elem? servers (wrapped_idx (advance_times turn l)))
          (advance_times-servers turn l)
      ∙ ap (get_elem? l.servers) (wrapped_idx-advance_times turn l soon ∙ there),
)
  where
    turn : ℕ
    turn = if leb (wrapped_idx l) i then i - wrapped_idx l else i + length l.servers - wrapped_idx l

    soon : turn < length l.servers
    soon = ground (arith, wrapped_idx-bound l (omega arith))

    there : place_after (length l.servers) (wrapped_idx l) turn ≡ i
    there = ground (arith, wrapped_idx-bound l (omega arith))

last_idx-suc : (i : ℕ) → (if (i + 1) == 0 then 0 else i + 1 - 1) ≡ i
last_idx-suc i = ground arith

-- The server that `GetNextServer(true)` returns is the current one after the call.
pub get_current_server-get_next_server :
    (l : ServerList) → get_current_server (get_next_server l true).1 ≡ (get_next_server l true).0
unfolding get_next_server
get_current_server-get_next_server l =
    if_elim (λ (r : Option Server × ServerList). get_current_server r.1 ≡ r.0)
      (length l.servers == 0) _ _
      (λ e. get_current_server-get l ∙ get-beyond (last_idx l) l.servers (ground arith))
      (λ e.
        get_current_server-get (record l { idx = wrapped_idx l + 1 })
        ∙ ap (get_elem? l.servers) (last_idx-suc (wrapped_idx l)))

-- Where `SetNextServer` finds its server, `GetNextServer` returns that server next.
pub get_next_server-set_next_server :
    (l : ServerList) (i : ℕ) (advance : Bool)
    → (set_next_server l i).1 ≡ true
    → (get_next_server (set_next_server l i).0 advance).0 ≡ get_elem? l.servers i
unfolding set_next_server
get_next_server-set_next_server l i advance h = elim (Bool-cases (ltb i (length l.servers))) [
  | inl e ↦
      ap (λ (r : ServerList × Bool). (get_next_server r.0 advance).0) (if_true _ _ _ e)
      ∙ get_next_server-get (record l { idx = i }) advance
      ∙ ap (get_elem? l.servers) (wrapped_idx-small (record l { idx = i }) (ground arith))
  | inr e ↦ absurd (ground arith)
]
