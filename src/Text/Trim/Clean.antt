-- ===== src/Text/Trim/Clean.antt =====
-- Texts that the trims leave as they are.
use znc_playground.Prelude.{ℕ, ◌≡◌, ◌≢◌, refl, ap, ◌∙◌, Bool, true, false, [], ◌∷◌, ◌++◌, Bytes}
use znc_playground.Text.Trim.{keep_right, contains_char, trim_left, trim_right, trim}

-- The first and the last byte of a text, if it has one, is not in the set.
abbrev pub FirstOutside : Bytes → Bytes → Type 0
FirstOutside set [] = Unit
FirstOutside set (c ∷ s) = contains_char set c ≡ false

abbrev pub LastOutside : Bytes → Bytes → Type 0
LastOutside set [] = Unit
LastOutside set (c ∷ []) = contains_char set c ≡ false
LastOutside set (c ∷ d ∷ s) = LastOutside set (d ∷ s)

pub trim_left-FirstOutside : (set s : Bytes) → FirstOutside set s → trim_left set s ≡ s
unfolding trim_left
trim_left-FirstOutside set [] h = refl
trim_left-FirstOutside set (c ∷ s) h = rw h refl

keep_right-cons : (b : Bool) (c d : ℕ) (s : Bytes) → keep_right b c (d ∷ s) ≡ c ∷ d ∷ s
keep_right-cons true c d s = refl
keep_right-cons false c d s = refl

pub trim_right-LastOutside : (set s : Bytes) → LastOutside set s → trim_right set s ≡ s
unfolding trim_right
trim_right-LastOutside set [] h = refl
trim_right-LastOutside set (c ∷ []) h = rw h refl
trim_right-LastOutside set (c ∷ d ∷ s) h =
    ap (keep_right (contains_char set c) c) (trim_right-LastOutside set (d ∷ s) h)
    ∙ keep_right-cons (contains_char set c) c d s

pub trim-clean : (set s : Bytes) → FirstOutside set s → LastOutside set s → trim set s ≡ s
unfolding trim
trim-clean set s h k =
    ap (trim_right set) (trim_left-FirstOutside set s h) ∙ trim_right-LastOutside set s k

pub LastOutside-append : (set s t : Bytes) → t ≢ [] → LastOutside set t → LastOutside set (s ++ t)
LastOutside-append set [] t n h = h
LastOutside-append set (c ∷ []) [] n h = absurd (n refl)
LastOutside-append set (c ∷ []) (d ∷ t) n h = h
LastOutside-append set (c ∷ d ∷ s) t n h = LastOutside-append set (d ∷ s) t n h
