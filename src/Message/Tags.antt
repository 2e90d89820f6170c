-- ===== src/Message/Tags.antt =====
-- The tags of a line: what `ToString` writes and `Parse` reads back.
use znc_playground.Message.Parse.{split_tags, add_tag, add_tags}
use znc_playground.Message.Print.{is_empty, add_tag_texts, tag_value}
use znc_playground.Prelude.{
  ℕ, ◌≡◌, ◌≢◌, refl, ap, ◌∙◌, [], ◌∷◌, ◌++◌, map, arith, Bytes, AllBytes, All, codes, append_assoc,
  append-nil,
}
use znc_playground.StringMap.{StringMap, IsSorted, insert, insert-last}
use znc_playground.Text.Escape.{escape_n, ascii, msg_tag, escape_n-escape_n, escape_n-Lacks}
use znc_playground.Text.Split.{Lacks, split_at-append, split_at-Lacks}

-- A key that the line can carry. Any value can be carried.
pub record IsTag (e : Bytes × Bytes) : Type 0 where
  pub some_key : e.0 ≢ []
  pub no_space : Lacks b' ' e.0
  pub no_semicolon : Lacks b';' e.0
  pub no_equals : Lacks b'=' e.0
  pub value_bytes : AllBytes e.1

abbrev tag_text : Bytes × Bytes → Bytes
tag_text (k, v) = k ++ tag_value v

abbrev pub tags_text : StringMap Bytes → Bytes
tags_text [] = []
tags_text (e ∷ []) = tag_text e
tags_text (e ∷ f ∷ es) = tag_text e ++ b';' ∷ tags_text (f ∷ es)

Lacks-append : (c : ℕ) (s t : Bytes) → Lacks c s → Lacks c t → Lacks c (s ++ t)
Lacks-append c [] t h k = k
Lacks-append c (x ∷ s) t h k = (h.0, Lacks-append c s t h.1 k)

tag_text-Lacks : (e : Bytes × Bytes) → IsTag e → Lacks b' ' (tag_text e) × Lacks b';' (tag_text e)
tag_text-Lacks (k, []) h =
    (Lacks-append b' ' k [] h.no_space tt, Lacks-append b';' k [] h.no_semicolon tt)
tag_text-Lacks (k, c ∷ v) h =
    let value = b'=' ∷ escape_n ascii msg_tag (c ∷ v) in
    (
      Lacks-append b' ' k value h.no_space (omega arith, (escape_n-Lacks (c ∷ v)).0),
      Lacks-append b';' k value h.no_semicolon (omega arith, (escape_n-Lacks (c ∷ v)).1),
    )

pub tags_text-Lacks : (es : StringMap Bytes) → All IsTag es → Lacks b' ' (tags_text es)
tags_text-Lacks [] h = tt
tags_text-Lacks (e ∷ []) h = (tag_text-Lacks e h.0).0
tags_text-Lacks (e ∷ f ∷ es) h =
    Lacks-append b' ' (tag_text e) (b';' ∷ tags_text (f ∷ es)) (tag_text-Lacks e h.0).0
      (omega arith, tags_text-Lacks (f ∷ es) h.1)

-- The loop of `ToString` behind a tag that is already written
add_tag_texts-more :
    (out : Bytes) (e : Bytes × Bytes) (es : StringMap Bytes)
    → out ≢ []
    → add_tag_texts out (e ∷ es) ≡ out ++ b';' ∷ tags_text (e ∷ es)
unfolding add_tag_texts is_empty
add_tag_texts-more [] e es n = absurd (n refl)
add_tag_texts-more (c ∷ out) (k, v) [] n = rw append_assoc
add_tag_texts-more (c ∷ out) (k, v) (f ∷ es) n =
    add_tag_texts-more (((c ∷ out) ++ codes ";") ++ (k ++ tag_value v)) f es (λ e. cc)
    ∙ simp append_assoc

append-ne_nil : (s t : Bytes) → s ≢ [] → s ++ t ≢ []
append-ne_nil [] t h = absurd (h refl)
append-ne_nil (c ∷ s) t h = λ e. cc

pub add_tag_texts-text : (es : StringMap Bytes) → All IsTag es → add_tag_texts [] es ≡ tags_text es
unfolding add_tag_texts is_empty
add_tag_texts-text [] h = refl
add_tag_texts-text ((k, v) ∷ []) h = refl
add_tag_texts-text ((k, v) ∷ f ∷ es) h =
    add_tag_texts-more (k ++ tag_value v) f es (append-ne_nil k (tag_value v) h.0.some_key)

split_tags-append : (s t : Bytes) → Lacks b';' s → split_tags (s ++ b';' ∷ t) ≡ s ∷ split_tags t
unfolding split_tags
split_tags-append [] t h = refl
split_tags-append (c ∷ s) t h = let (n, hs) = h in ground (arith, split_tags-append s t hs)

split_tags-all : (s : Bytes) → Lacks b';' s → split_tags s ≡ s ∷ []
unfolding split_tags
split_tags-all [] h = refl
split_tags-all (c ∷ s) h = let (n, hs) = h in ground (arith, split_tags-all s hs)

split_tags-text :
    (e : Bytes × Bytes) (es : StringMap Bytes)
    → All IsTag (e ∷ es)
    → split_tags (tags_text (e ∷ es)) ≡ map tag_text (e ∷ es)
split_tags-text e [] h = split_tags-all (tag_text e) (tag_text-Lacks e h.0).1
split_tags-text e (f ∷ es) h =
    split_tags-append (tag_text e) (tags_text (f ∷ es)) (tag_text-Lacks e h.0).1
    ∙ ap (◌∷◌ (tag_text e)) (split_tags-text f es h.1)

add_tag_lem :
    (tags : StringMap Bytes) (k v : Bytes)
    → IsTag (k, v)
    → add_tag tags (tag_text (k, v)) ≡ insert k v tags
unfolding add_tag
add_tag_lem tags k [] h =
    rw (append-nil, split_at-Lacks b'=' k h.no_equals) (unfold escape_n in refl)
add_tag_lem tags k (c ∷ v) h =
    rw (split_at-append b'=' k (escape_n ascii msg_tag (c ∷ v)) h.no_equals)
      (ap (λ t. insert k t tags) (escape_n-escape_n (c ∷ v) h.value_bytes msg_tag))

-- The tags of a sorted map are added one behind the other.
add_tags-texts :
    (tags es : StringMap Bytes)
    → All IsTag es
    → IsSorted (tags ++ es)
    → add_tags tags (map tag_text es) ≡ tags ++ es
unfolding add_tags
add_tags-texts tags [] h s = rw append-nil
add_tags-texts tags ((k, v) ∷ es) h s =
    ap (λ t. add_tags t (map tag_text es)) (add_tag_lem tags k v h.0 ∙ insert-last k v tags es s)
    ∙ add_tags-texts (tags ++ (k, v) ∷ []) es h.1 (rw append_assoc s)
    ∙ append_assoc tags ((k, v) ∷ []) es

-- `Parse` reads the tags that `ToString` has written.
pub add_tags-split_tags :
    (e : Bytes × Bytes) (es : StringMap Bytes)
    → All IsTag (e ∷ es)
    → IsSorted (e ∷ es)
    → add_tags [] (split_tags (tags_text (e ∷ es))) ≡ e ∷ es
add_tags-split_tags e es h s = rw (split_tags-text e es h) (add_tags-texts [] (e ∷ es) h s)
