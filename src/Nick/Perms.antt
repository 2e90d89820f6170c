-- ===== src/Nick/Perms.antt =====
-- Permissions: a set of characters kept as a text without repetitions.
use znc_playground.Prelude.{
  ℕ, ◌≡◌, ◌≢◌, refl, Bool, false, not, ◌&&◌, ◌||◌, [], ◌∷◌, ◌++◌, ◌==◌, arith, Bytes, Option,
  get_or, if_elim,
}
use znc_playground.Nick.Defs.{
  Nick, has_perm, add_perm, rem_perm, erase_char, get_perm_char, get_perm_str, perm_char_in,
  perm_str_in, server_perms,
}
use znc_playground.Text.Split.{Lacks}
use znc_playground.Text.Trim.{contains_char}

-- No character stands twice, and none is NUL.
abbrev pub IsPermSet : Bytes → Type 0
IsPermSet [] = Unit
IsPermSet (c ∷ s) = (c ≢ 0) × Lacks c s × IsPermSet s

contains_char-append :
    (s t : Bytes) (c : ℕ) → contains_char (s ++ t) c ≡ (contains_char s c || contains_char t c)
unfolding contains_char
contains_char-append [] t c = refl
contains_char-append (x ∷ s) t c = ground (arith, contains_char-append s t c)

pub has_perm-add_perm :
    (n : Nick) (c d : ℕ) → has_perm (add_perm n c).0 d ≡ (has_perm n d || d == c && not (c == 0))
unfolding has_perm add_perm contains_char
has_perm-add_perm n c d = ground (arith, contains_char-append n.perms (c ∷ []) d)

Lacks-append : (c d : ℕ) (s : Bytes) → Lacks c s → d ≢ c → Lacks c (s ++ d ∷ [])
Lacks-append c d [] h n = (n, tt)
Lacks-append c d (x ∷ s) h n = (h.0, Lacks-append c d s h.1 n)

IsPermSet-append :
    (s : Bytes) (c : ℕ) → c ≢ 0 → contains_char s c ≡ false → IsPermSet s → IsPermSet (s ++ c ∷ [])
unfolding contains_char
IsPermSet-append [] c n e h = (n, tt, tt)
IsPermSet-append (x ∷ s) c n e h =
    (h.0, Lacks-append x c s h.1 (ground arith), IsPermSet-append s c n (ground arith) h.2)

Lacks-erase : (c d : ℕ) (s : Bytes) → Lacks d s → Lacks d (erase_char c s)
unfolding erase_char
Lacks-erase c d [] h = tt
Lacks-erase c d (x ∷ s) h =
    if_elim (Lacks d) (x == c) _ _ (λ e. h.1) (λ e. (h.0, Lacks-erase c d s h.1))

IsPermSet-erase : (c : ℕ) (s : Bytes) → IsPermSet s → IsPermSet (erase_char c s)
unfolding erase_char
IsPermSet-erase c [] h = tt
IsPermSet-erase c (x ∷ s) h =
    if_elim IsPermSet (x == c) _ _ (λ e. h.2)
      (λ e. (h.0, Lacks-erase c x s h.1, IsPermSet-erase c s h.2))

-- Adding and removing keep the permissions of a nick a set.
pub perms-IsPermSet :
    (n : Nick) (c : ℕ)
    → IsPermSet n.perms
    → IsPermSet (add_perm n c).0.perms × IsPermSet (rem_perm n c).0.perms
unfolding add_perm rem_perm has_perm
perms-IsPermSet n c h = (added, removed)
  where
    added : IsPermSet (add_perm n c).0.perms
    added =
        if_elim (λ (r : Nick × Bool). IsPermSet r.0.perms) (c == 0 || has_perm n c) _ _ (λ e. h)
          (λ e. IsPermSet-append n.perms c (ground arith) (ground arith) h)

    removed : IsPermSet (rem_perm n c).0.perms
    removed =
        if_elim (λ (r : Nick × Bool). IsPermSet r.0.perms) (not (contains_char n.perms c)) _ _
          (λ e. h) (λ e. IsPermSet-erase c n.perms h)

perm_char_in-str : (n : Nick) (s : Bytes) → perm_char_in n s ≡ get_or (perm_str_in n s) 0 0
unfolding perm_char_in perm_str_in
perm_char_in-str n [] = refl
perm_char_in-str n (c ∷ s) = ground (arith, perm_char_in-str n s)

contains_char-perm_str_in :
    (n : Nick) (s : Bytes) (d : ℕ)
    → contains_char (perm_str_in n s) d ≡ (contains_char s d && has_perm n d)
unfolding perm_str_in contains_char
contains_char-perm_str_in n [] d = refl
contains_char-perm_str_in n (c ∷ s) d = ground (arith, contains_char-perm_str_in n s d)

-- `GetPermStr` shows exactly the permissions of the nick that the server knows, and `GetPermChar` is
-- its first character, or NUL if there is none.
pub get_perm_str_lem :
    (n : Nick) (irc : Option Bytes) (d : ℕ)
    → (contains_char (get_perm_str n irc) d ≡ (contains_char (server_perms irc) d && has_perm n d))
      × (get_perm_char n irc ≡ get_or (get_perm_str n irc) 0 0)
unfolding get_perm_str get_perm_char
get_perm_str_lem n irc d =
    (contains_char-perm_str_in n (server_perms irc) d, perm_char_in-str n (server_perms irc))
