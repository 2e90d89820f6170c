-- ===== src/Config/Find.antt =====
-- The operations of `CConfig` that find entries and blocks, most of which take out what they find.
use znc_playground.Config.Defs.{Config, config, Blocks, nil, block}
use znc_playground.Prelude.{
  ℕ, Bool, true, false, not, ◌&&◌, List, [], ◌∷◌, Option, none, some, if◌then◌else◌, Bytes, codes,
  bytes_eq,
}
use znc_playground.StringMap.{StringMap, find, insert, erase}
use znc_playground.Text.Compare.{equals, insensitive}
use znc_playground.Text.Number.{to_uint, to_ushort}
use znc_playground.Text.Trim.{trim}

-- What is found, whether it was there, and the configuration behind the call
pub record Found {ℓ} (A : Type ℓ) : Type ℓ where
  pub value : A
  pub found : Bool
  pub remaining : Config

abbrev vector_found : Bytes → Bool → Config → Option (List Bytes) → Found (List Bytes)
vector_found name erases c none = record { value = []; found = false; remaining = c }
vector_found name erases (config es bs) (some vs) = record {
  value = vs;
  found = true;
  remaining = if erases then config (erase name es) bs else config es bs;
}

abbrev pub entries_of : Config → StringMap (List Bytes)
entries_of (config es bs) = es

-- `FindStringVector`
unfoldable pub find_string_vector : Bytes → Bool → Config → Found (List Bytes)
unfolding find erase
find_string_vector name erases c = vector_found name erases c (find name (entries_of c))

-- The first value goes, and the entry with the last one.
abbrev entry_found : Bytes → Bytes → Config → Option (List Bytes) → Found Bytes
entry_found name default c none = record { value = default; found = false; remaining = c }
entry_found name default c (some []) = record { value = default; found = false; remaining = c }
entry_found name default (config es bs) (some (v ∷ [])) = record {
  value = v;
  found = true;
  remaining = config (erase name es) bs;
}
entry_found name default (config es bs) (some (v ∷ w ∷ vs)) = record {
  value = v;
  found = true;
  remaining = config (insert name (w ∷ vs) es) bs;
}

-- `FindStringEntry`
unfoldable pub find_string_entry : Bytes → Bytes → Config → Found Bytes
unfolding find erase insert
find_string_entry name default c = entry_found name default c (find name (entries_of c))

abbrev is_blank : Bytes → Bool
is_blank [] = true
is_blank (c ∷ s) = false

abbrev spaces : Bytes
spaces = 32 ∷ 9 ∷ 13 ∷ 10 ∷ []

abbrev is_not : Bytes → Bytes → Bool
is_not s word = not (equals insensitive s word)

-- `ToBool`
unfoldable pub to_bool : Bytes → Bool
unfolding trim equals
to_bool s =
    let t = trim spaces s in
    not (is_blank (trim (codes "0") t))
    && (is_not t (codes "false")
        && (is_not t (codes "off") && (is_not t (codes "no") && is_not t (codes "n"))))

abbrev read_as {ℓ} : {A : Type ℓ} → (Bytes → A) → A → Found Bytes → Found A
read_as read default f = record {
  value = if f.found then read f.value else default;
  found = f.found;
  remaining = f.remaining;
}

-- `FindBoolEntry`, `FindUIntEntry` and `FindUShortEntry`
unfoldable pub find_bool_entry : Bytes → Bool → Config → Found Bool
unfolding to_bool find_string_entry
find_bool_entry name default c = read_as to_bool default (find_string_entry name [] c)

unfoldable pub find_uint_entry : Bytes → ℕ → Config → Found ℕ
unfolding to_uint find_string_entry
find_uint_entry name default c = read_as to_uint default (find_string_entry name [] c)

unfoldable pub find_ushort_entry : Bytes → ℕ → Config → Found ℕ
unfolding to_ushort find_string_entry
find_ushort_entry name default c = read_as to_ushort default (find_string_entry name [] c)

-- `FindDoubleEntry`, for what `strtod` makes of a text
unfoldable pub find_double_entry {ℓ} : {A : Type ℓ} → (Bytes → A) → Bytes → A → Config → Found A
unfolding find_string_entry
find_double_entry to_double name default c = read_as to_double default (find_string_entry name [] c)

-- The blocks of a tag, in their order, and the others
unfoldable pub blocks_of : Bytes → Blocks → List (Bytes × Config)
unfolding bytes_eq
blocks_of tag nil = []
blocks_of tag (block t n c bs) =
    let rest = blocks_of tag bs in if bytes_eq t tag then (n, c) ∷ rest else rest

unfoldable pub erase_blocks : Bytes → Blocks → Blocks
unfolding bytes_eq
erase_blocks tag nil = nil
erase_blocks tag (block t n c bs) =
    let rest = erase_blocks tag bs in if bytes_eq t tag then rest else block t n c rest

abbrev blocks_found : Bytes → Bool → Config → List (Bytes × Config) → Found (List (Bytes × Config))
blocks_found tag erases c [] = record { value = []; found = false; remaining = c }
blocks_found tag erases (config es bs) (b ∷ found) = record {
  value = b ∷ found;
  found = true;
  remaining = if erases then config es (erase_blocks tag bs) else config es bs;
}

abbrev blocks_in : Config → Blocks
blocks_in (config es bs) = bs

-- `FindSubConfig`
unfoldable pub find_sub_config : Bytes → Bool → Config → Found (List (Bytes × Config))
unfolding blocks_of erase_blocks
find_sub_config tag erases c = blocks_found tag erases c (blocks_of tag (blocks_in c))

-- `empty`
abbrev pub is_empty_config : Config → Bool
is_empty_config (config [] nil) = true
is_empty_config _ = false
