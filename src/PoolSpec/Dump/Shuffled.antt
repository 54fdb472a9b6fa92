-- ===== src/PoolSpec/Dump/Shuffled.antt =====
-- A map of Go has no order: what dumppoolspectoyml.go makes of values whose maps come in other orders.
use nomad_ondemand_scaler.Prelude.{
  ℕ, suc, ◌≡◌, ◌≢◌, refl, ap, subst, ◌∙◌, String, List, [], ◌∷◌, ◌++◌,
}
use nomad_ondemand_scaler.Variant.{
  Variant, Variants, VariantMap, slice_value, map_value, no_more, one_more, end, entry,
}
use nomad_ondemand_scaler.PoolSpec.Dump.{
  Field, dump, dump_items, dump_fields, in_order, key_text, indent, concat_fields, is_one_dash,
  trim,
}
use nomad_ondemand_scaler.PoolSpec.Dump.Sorted.{IsSorted, IsSorted-swap, IsSorted-skip}

-- The same value, but for the order of the entries of its maps, at every depth.
mutual
  pub data IsSame : Variant → Variant → Type 0 where
    same : (v : Variant) → IsSame v v
    slices : (vs ws : Variants) → AreSame vs ws → IsSame (slice_value vs) (slice_value ws)
    maps : (m n : VariantMap) → IsShuffled m n → IsSame (map_value m) (map_value n)

  pub data AreSame : Variants → Variants → Type 0 where
    none_left : AreSame no_more no_more
    both :
        (v w : Variant) (vs ws : Variants)
        → IsSame v w
        → AreSame vs ws
        → AreSame (one_more v vs) (one_more w ws)

  pub data IsShuffled : VariantMap → VariantMap → Type 0 where
    ends : IsShuffled end end
    skips :
        (key : String) (v w : Variant) (m n : VariantMap)
        → IsSame v w
        → IsShuffled m n
        → IsShuffled (entry key v m) (entry key w n)
    swaps :
        (key other : String) (v w : Variant) (m : VariantMap)
        → key ≢ other
        → IsShuffled (entry key v (entry other w m)) (entry other w (entry key v m))
    joins : (l m n : VariantMap) → IsShuffled l m → IsShuffled m n → IsShuffled l n

IsSorted-same :
    (last : List String) (f g : Field) (fields others : List Field)
    → f ≡ g
    → IsSorted last fields others
    → IsSorted last (f ∷ fields) (g ∷ others)
IsSorted-same last f g fields others e h =
    subst (λ g. IsSorted last (f ∷ fields) (g ∷ others)) e (IsSorted-skip last f fields others h)

mutual
  unfolding dump in_order

  same_text :
      (v w : Variant) (new_field : List ℕ) (depth : ℕ) (last : List String)
      → IsSame v w
      → dump v new_field depth last ≡ dump w new_field depth last
  same_text v w new_field depth last (same u) = refl
  same_text v w new_field depth last (slices vs ws h) =
      ap (λ text. new_field ++ text) (same_items vs ws depth h)
  same_text v w new_field depth last (maps m n h) =
      let (firsts, lasts) = same_fields m n depth last h in
      λ i. new_field ++ concat_fields (is_one_dash (trim new_field)) (firsts i ++ lasts i)

  same_items :
      (vs ws : Variants) (depth : ℕ) → AreSame vs ws → dump_items vs depth ≡ dump_items ws depth
  same_items vs ws depth none_left = refl
  same_items vs ws depth (both v w vs' ws' h g) = λ i.
      same_text v w (10 ∷ indent depth ++ 32 ∷ 32 ∷ b'-' ∷ 32 ∷ []) (suc depth) [] h i
      ++ same_items vs' ws' depth g i

  same_fields :
      (m n : VariantMap) (depth : ℕ) (last : List String)
      → IsShuffled m n
      → IsSorted last (dump_fields m depth) (dump_fields n depth)
  same_fields m n depth last ends = (refl, refl)
  same_fields m n depth last (skips key v w m' n' h g) =
      IsSorted-same last _ _ (dump_fields m' depth) (dump_fields n' depth)
        (λ i. (key, λ on_line. same_text v w (key_text key depth on_line) (suc depth) [] h i))
        (same_fields m' n' depth last g)
  same_fields m n depth last (swaps key other v w m' h) =
      IsSorted-swap last _ _ (dump_fields m' depth) h
  same_fields m n depth last (joins l o k h g) =
      let (a, b) = same_fields l o depth last h in
      let (c, d) = same_fields o k depth last g in (a ∙ c, b ∙ d)

-- The text of a value does not depend on the order in which the entries of the maps in it come, at any depth
-- of the value: neither after what the text goes, nor how deep it is indented, nor which keys come last.
pub dump-IsSame :
    (v w : Variant) (new_field : List ℕ) (depth : ℕ) (last : List String)
    → IsSame v w
    → dump v new_field depth last ≡ dump w new_field depth last
dump-IsSame = same_text
