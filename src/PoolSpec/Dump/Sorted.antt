-- ===== src/PoolSpec/Dump/Sorted.antt =====
-- Sorting fields of different keys undoes every order that they come in.
use nomad_ondemand_scaler.Prelude.{
  ◌≡◌, ◌≢◌, refl, ap, String, not, List, [], ◌∷◌, filterb, Bool-cases, inl, inr, arith,
  if◌then◌else◌,
}
use nomad_ondemand_scaler.Prelude.Bytes.{
  codes, str_lt, codes_lt-asym, codes_lt-before, str_lt-total,
}
use nomad_ondemand_scaler.Slices.{contains_in_slice}
use nomad_ondemand_scaler.PoolSpec.Dump.{
  Field, insert_sorted, sort_fields, first_fields, last_fields,
}

two_sorted :
    (f g : Field) (fields : List Field)
    → f.0 ≢ g.0
    → (if str_lt f.0 g.0 then f ∷ g ∷ fields else g ∷ f ∷ fields)
      ≡ (if str_lt g.0 f.0 then g ∷ f ∷ fields else f ∷ g ∷ fields)
two_sorted f g fields h =
    ground (arith, codes_lt-asym (codes f.0) (codes g.0), str_lt-total f.0 g.0)

insert_sorted-swap :
    (f g : Field) (fields : List Field)
    → f.0 ≢ g.0
    → insert_sorted f (insert_sorted g fields) ≡ insert_sorted g (insert_sorted f fields)
unfolding insert_sorted
insert_sorted-swap f g [] h = two_sorted f g [] h
insert_sorted-swap f g (e ∷ fields) h = ground (
  arith,
  insert_sorted-swap f g fields h,
  codes_lt-before (codes f.0) (codes g.0) (codes e.0),
  codes_lt-before (codes g.0) (codes f.0) (codes e.0),
  codes_lt-asym (codes f.0) (codes g.0),
  codes_lt-asym (codes g.0) (codes f.0),
  str_lt-total f.0 g.0,
)

-- The two halves of the order are equal.
abbrev pub IsSorted : List String → List Field → List Field → Type 0
IsSorted last fields others =
    (first_fields last fields ≡ first_fields last others)
    × (last_fields last fields ≡ last_fields last others)

pub IsSorted-swap :
    (last : List String) (f g : Field) (fields : List Field)
    → f.0 ≢ g.0
    → IsSorted last (f ∷ g ∷ fields) (g ∷ f ∷ fields)
unfolding first_fields last_fields sort_fields
IsSorted-swap last f g fields h =
    let firsts = sort_fields (filterb (λ (e : Field). not (contains_in_slice last e.0)) fields) in
    let lasts = sort_fields (filterb (λ (e : Field). contains_in_slice last e.0) fields) in
    elim (Bool-cases (contains_in_slice last f.0)) [
      | inl e ↦ elim (Bool-cases (contains_in_slice last g.0)) [
        | inl d ↦ rw (e, d) (refl, insert_sorted-swap f g lasts h)
        | inr d ↦ rw (e, d) (refl, refl)
      ]
      | inr e ↦ elim (Bool-cases (contains_in_slice last g.0)) [
        | inl d ↦ rw (e, d) (refl, refl)
        | inr d ↦ rw (e, d) (insert_sorted-swap f g firsts h, refl)
      ]
    ]

pub IsSorted-skip :
    (last : List String) (f : Field) (fields others : List Field)
    → IsSorted last fields others
    → IsSorted last (f ∷ fields) (f ∷ others)
unfolding first_fields last_fields sort_fields
IsSorted-skip last f fields others h = elim (Bool-cases (contains_in_slice last f.0)) [
  | inl e ↦ rw e (h.0, ap (insert_sorted f) h.1)
  | inr e ↦ rw e (ap (insert_sorted f) h.0, h.1)
]
