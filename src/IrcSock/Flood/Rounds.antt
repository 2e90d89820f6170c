-- ===== src/IrcSock/Flood/Rounds.antt =====
-- What the loop of `TrySend` sends and leaves.
use znc_playground.IrcSock.Flood.Defs.{
  Outside, SendQueue, one_less, is_positive, lines_for, warn, send_one, send_loop,
}
use znc_playground.Message.{Message}
use znc_playground.Prelude.{
  ℕ, zero, suc, ◌-◌, ◌^◌, ◌<◌, ◌≡◌, refl, sym, ap, ap₂, ◌∙◌, Bool, true, not, ◌||◌, List, [], ◌∷◌,
  ◌++◌, append-nil, append_assoc, if_elim, length, take, drop, Bytes, arith,
}
use znc_playground.StringMap.{StringMap}

-- What is written for messages, one after the other
unfoldable pub all_lines : Outside → Bool → StringMap (Unit {0}) → List Message → List Bytes
all_lines o all on [] = []
all_lines o all on (m ∷ ms) = lines_for o all on m ++ all_lines o all on ms

-- The fields that sending does not change
pub record SameRules (s t : SendQueue) : Type 0 where
  pub burst : t.flood_burst ≡ s.flood_burst
  pub protection : t.flood_protection ≡ s.flood_protection
  pub all_tags : t.message_tag_cap ≡ s.message_tag_cap
  pub tags : t.supported_tags ≡ s.supported_tags

-- The loop on the messages `q`, of which `n` are sent
pub record Sent (o : Outside) (s : SendQueue) (n : ℕ) (q : List Message) (t : SendQueue)
    : Type 0 where
  pub rules : SameRules s t
  pub queue : t.queue ≡ drop n q
  pub allowed : t.sends_allowed ≡ n - length q
  pub lines : t.written ≡ s.written ++ all_lines o s.message_tag_cap s.supported_tags (take n q)

record OneSent (o : Outside) (s : SendQueue) (m : Message) (rest : List Message) (t : SendQueue)
    : Type 0 where
  rules : SameRules s t
  queue : t.queue ≡ rest
  allowed : t.sends_allowed ≡ one_less s.sends_allowed
  lines : t.written ≡ s.written ++ lines_for o s.message_tag_cap s.supported_tags m

send_one-OneSent :
    (o : Outside) (s : SendQueue) (m : Message) (rest : List Message)
    → OneSent o s m rest (send_one o s m rest)
unfolding send_one warn
send_one-OneSent o s m rest = record {
  rules = record {
    burst = ground arith;
    protection = ground arith;
    all_tags = ground arith;
    tags = ground arith;
  };
  queue = ground arith;
  allowed = ground arith;
  lines = ground arith;
}

none-Sent :
    (o : Outside) (s : SendQueue) (n : ℕ) (q : List Message)
    → s.queue ≡ q
    → s.sends_allowed ≡ n
    → all_lines o s.message_tag_cap s.supported_tags (take n q) ≡ []
    → drop n q ≡ q
    → n - length q ≡ n
    → Sent o s n q s
none-Sent o s n q e a l d m = record {
  rules = record { burst = refl; protection = refl; all_tags = refl; tags = refl };
  queue = e ∙ sym d;
  allowed = a ∙ sym m;
  lines = sym (append-nil s.written) ∙ ap (◌++◌ s.written) (sym l);
}

one_then :
    (o : Outside) (s : SendQueue) (n : ℕ) (m : Message) (q : List Message) (r t : SendQueue)
    → OneSent o s m q r
    → Sent o r n q t
    → Sent o s (suc n) (m ∷ q) t
unfolding all_lines
one_then o s n m q r t one later = record {
  rules = record {
    burst = later.rules.burst ∙ one.rules.burst;
    protection = later.rules.protection ∙ one.rules.protection;
    all_tags = later.rules.all_tags ∙ one.rules.all_tags;
    tags = later.rules.tags ∙ one.rules.tags;
  };
  queue = later.queue;
  allowed = omega (arith, later.allowed);
  lines =
      later.lines
      ∙ ap₂ ◌++◌ one.lines
          (ap₂ (λ all on. all_lines o all on (take n q)) one.rules.all_tags one.rules.tags)
      ∙ append_assoc s.written (lines_for o s.message_tag_cap s.supported_tags m)
          (all_lines o s.message_tag_cap s.supported_tags (take n q));
}

-- The test of the loop
abbrev goes : SendQueue → Bool
goes s = not s.flood_protection || is_positive s.sends_allowed

pub send_loop-Sent :
    (o : Outside) (s : SendQueue) (n : ℕ) (q : List Message)
    → s.queue ≡ q
    → s.flood_protection ≡ true
    → s.sends_allowed ≡ n
    → n < 2 ^ 15
    → Sent o s n q (send_loop o s q)
unfolding send_loop all_lines
send_loop-Sent o s zero [] e p a h = none-Sent o s zero [] e a refl refl refl
send_loop-Sent o s (suc n) [] e p a h = none-Sent o s (suc n) [] e a refl refl (omega arith)
send_loop-Sent o s zero (m ∷ q) e p a h =
    if_elim (Sent o s zero (m ∷ q)) (goes s) _ _ (λ g. absurd (ground arith))
      (λ g. none-Sent o s zero (m ∷ q) e a refl refl (omega arith))
send_loop-Sent o s (suc n) (m ∷ q) e p a h =
    let one : OneSent o s m q (send_one o s m q) = send_one-OneSent o s m q in
    let later : Sent o (send_one o s m q) n q (send_loop o (send_one o s m q) q) =
      send_loop-Sent o (send_one o s m q) n q one.queue (one.rules.protection ∙ p) (omega arith)
        (omega arith) in
    if_elim (Sent o s (suc n) (m ∷ q)) (goes s) _ _
      (λ g. one_then o s n m q (send_one o s m q) _ one later) (λ g. absurd (ground arith))
