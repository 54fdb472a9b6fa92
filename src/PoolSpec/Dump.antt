-- ===== src/PoolSpec/Dump.antt =====
-- dumppoolspectoyml.go: a specification as text, a text as its bytes. The keys of a map come in their order,
-- those of `_lastfield` after the others.
pub mod Sorted
pub mod Shuffled
use nomad_ondemand_scaler.Prelude.{
  ℕ, zero, suc, ◌+◌, String, Bool, true, false, not, ◌||◌, Option, none, some, List, [], ◌∷◌, ◌++◌,
  filterb, if◌then◌else◌, ◌==◌, get_or_else,
}
use nomad_ondemand_scaler.Prelude.Bytes.{bytes, decimal, str_lt}
use nomad_ondemand_scaler.Slices.{contains_in_slice, abbreviate_string}
use nomad_ondemand_scaler.Variant.{
  Variant, Variants, VariantMap, int_value, bool_value, string_value, slice_value, map_value,
  no_more, one_more, end, entry,
}

-- The bytes of `strings.Trim(text, "\n ")`.
unfoldable pub trim_left : List ℕ → List ℕ
trim_left [] = []
trim_left (b ∷ text) = let rest = trim_left text in if b == 10 || b == 32 then rest else b ∷ text

unfoldable pub reversed : List ℕ → List ℕ → List ℕ
reversed [] done = done
reversed (b ∷ text) done = reversed text (b ∷ done)

unfoldable pub trim : List ℕ → List ℕ
unfolding trim_left reversed
trim text = reversed (trim_left (reversed (trim_left text) [])) []

abbrev pub is_one_dash : List ℕ → Bool
is_one_dash [] = false
is_one_dash (b ∷ []) = b == b'-'
is_one_dash (b ∷ c ∷ text) = false

unfoldable pub indent : ℕ → List ℕ
indent zero = []
indent (suc depth) = 32 ∷ 32 ∷ indent depth

-- The text of a field with its key, by whether it goes on the line of the dash before it.
abbrev pub Field : Type 0
Field = String × (Bool → List ℕ)

unfoldable pub insert_sorted : Field → List Field → List Field
insert_sorted f [] = f ∷ []
insert_sorted f (g ∷ fields) =
    let later = insert_sorted f fields in if str_lt f.0 g.0 then f ∷ g ∷ fields else g ∷ later

unfoldable pub sort_fields : List Field → List Field
unfolding insert_sorted
sort_fields [] = []
sort_fields (f ∷ fields) = insert_sorted f (sort_fields fields)

unfoldable pub first_fields : List String → List Field → List Field
unfolding sort_fields
first_fields last fields =
    sort_fields (filterb (λ (f : Field). not (contains_in_slice last f.0)) fields)

unfoldable pub last_fields : List String → List Field → List Field
unfolding sort_fields
last_fields last fields = sort_fields (filterb (λ (f : Field). contains_in_slice last f.0) fields)

unfoldable pub in_order : List String → List Field → List Field
unfolding first_fields last_fields
in_order last fields = first_fields last fields ++ last_fields last fields

unfoldable pub concat_fields : Bool → List Field → List ℕ
concat_fields on_line [] = []
concat_fields on_line (f ∷ fields) = f.1 on_line ++ concat_fields false fields

unfoldable pub key_text : String → ℕ → Bool → List ℕ
unfolding indent
key_text key depth true = bytes key ++ b':' ∷ 32 ∷ []
key_text key depth false = 10 ∷ indent depth ++ 32 ∷ 32 ∷ bytes key ++ b':' ∷ 32 ∷ []

unfoldable mutual
  unfolding trim in_order concat_fields key_text indent

  -- With 30 the abbreviation is never a panic.
  pub dump : Variant → List ℕ → ℕ → List String → List ℕ
  dump (int_value n) new_field depth last = new_field ++ decimal n
  dump (bool_value b) new_field depth last = new_field ++ bytes (if b then "true" else "false")
  dump (string_value s) new_field depth last =
      new_field ++ get_or_else (abbreviate_string (bytes s) 30) []
  dump (slice_value vs) new_field depth last = new_field ++ dump_items vs depth
  dump (map_value m) new_field depth last =
      new_field
      ++ concat_fields (is_one_dash (trim new_field)) (in_order last (dump_fields m depth))

  pub dump_items : Variants → ℕ → List ℕ
  dump_items no_more depth = []
  dump_items (one_more v vs) depth =
      dump v (10 ∷ indent depth ++ 32 ∷ 32 ∷ b'-' ∷ 32 ∷ []) (suc depth) [] ++ dump_items vs depth

  pub dump_fields : VariantMap → ℕ → List Field
  dump_fields end depth = []
  dump_fields (entry key v m) depth =
      (key, λ on_line. dump v (key_text key depth on_line) (suc depth) []) ∷ dump_fields m depth
