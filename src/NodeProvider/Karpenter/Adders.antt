-- ===== src/NodeProvider/Karpenter/Adders.antt =====
-- The goroutines of nodeprovider/karpenter.go and `incephemeral`, entry by entry.
use nomad_ondemand_scaler.Prelude.{
  ℕ, zero, suc, ◌+◌, ◌≤◌, ◌≡◌, refl, ap, String, true, none, some, List, [], ◌∷◌, ◌++◌, All,
  get_elem?, erase_idx, eq_iff, eq_refl, arith,
}
use nomad_ondemand_scaler.Prelude.Dict.{Dict, lookup, insert, delete, has, delete_absent, IsKeyed}
use nomad_ondemand_scaler.NodeProvider.Karpenter.{awaited}
use nomad_ondemand_scaler.NodeProvider.Karpenter.Racing.{Adder, go_on}

-- What the goroutines were started for, by their keys, and what they will still add.
abbrev pub entries : List Adder → Dict ℕ
entries [] = []
entries (a ∷ adders) = (a.key, a.wanted) ∷ entries adders

abbrev pub coming : List Adder → ℕ
coming [] = 0
coming (a ∷ adders) = a.left + coming adders

abbrev pub IsModest : List Adder → Type 0
IsModest = All (λ a. a.left ≤ a.wanted)

pub coming-le : (adders : List Adder) → IsModest adders → coming adders ≤ awaited (entries adders)
coming-le [] h = omega arith
coming-le (a ∷ adders) h = omega (arith, coming-le adders h.1)

pub insert-new :
    (key : String) (n : ℕ) (adders : List Adder)
    → lookup key (entries adders) ≡ none
    → insert key n (entries adders)
      ≡ entries (adders ++ record { key = key; wanted = n; left = n } ∷ [])
unfolding lookup insert
insert-new key n [] h = refl
insert-new key n (a ∷ adders) h = ground (arith, insert-new key n adders)

pub IsModest-append :
    (adders : List Adder) (a : Adder)
    → IsModest adders
    → a.left ≤ a.wanted
    → IsModest (adders ++ a ∷ [])
IsModest-append [] a h g = (g, tt)
IsModest-append (b ∷ adders) a h g = (h.0, IsModest-append adders a h.1 g)

lookup_at :
    (adders : List Adder) (i : ℕ) (a : Adder)
    → get_elem? adders i ≡ some a
    → has a.key (entries adders) ≡ true
unfolding lookup
lookup_at [] i a h = cc
lookup_at (b ∷ adders) zero a h = ground (arith, eq_refl a.key)
lookup_at (b ∷ adders) (suc i) a h = ground (arith, lookup_at adders i a h)

pub delete-entries :
    (adders : List Adder) (i : ℕ) (a : Adder)
    → get_elem? adders i ≡ some a
    → IsKeyed (entries adders)
    → delete a.key (entries adders) ≡ entries (erase_idx adders i)
unfolding lookup delete
delete-entries [] i a h k = cc
delete-entries (b ∷ adders) zero a h k =
    ground (arith, eq_refl a.key, delete_absent a.key (entries adders))
delete-entries (b ∷ adders) (suc i) a h k =
    ground (arith, eq_iff b.key a.key, lookup_at adders i a h, delete-entries adders i a h k.1)

pub IsModest-erase_idx :
    (adders : List Adder) (i : ℕ) → IsModest adders → IsModest (erase_idx adders i)
IsModest-erase_idx [] i h = tt
IsModest-erase_idx (a ∷ adders) zero h = h.1
IsModest-erase_idx (a ∷ adders) (suc i) h = (h.0, IsModest-erase_idx adders i h.1)

pub entries-go_on : (i n : ℕ) (adders : List Adder) → entries (go_on i n adders) ≡ entries adders
unfolding go_on
entries-go_on i n [] = refl
entries-go_on zero n (a ∷ adders) = refl
entries-go_on (suc i) n (a ∷ adders) = ap (λ d. (a.key, a.wanted) ∷ d) (entries-go_on i n adders)

pub IsModest-go_on : (i n : ℕ) (adders : List Adder) → IsModest adders → IsModest (go_on i n adders)
unfolding go_on
IsModest-go_on i n [] h = tt
IsModest-go_on zero n (a ∷ adders) h = (omega arith, h.1)
IsModest-go_on (suc i) n (a ∷ adders) h = (h.0, IsModest-go_on i n adders h.1)
