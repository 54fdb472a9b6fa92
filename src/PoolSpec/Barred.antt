-- ===== src/PoolSpec/Barred.antt =====
-- The names of the candidates in `GetOptimalPoolSpec` of poolnodespec.go: the class is what follows the
-- first bar.
use Prim.Native.Char.{Char, code}
use Prim.Native.String.{[] as str_nil, ◌∷◌ as str_cons, ◌++◌ as str_append}
use text.Mathlib.TextLemmas.{cons-append, nil-append}
use nomad_ondemand_scaler.Prelude.{
  ◌≡◌, refl, String, false, Option, none, some, ◌==◌, if◌then◌else◌, arith, str_eq,
}
use nomad_ondemand_scaler.Prelude.Int.{ℤ}
use nomad_ondemand_scaler.Prelude.Dict.{Dict}
use nomad_ondemand_scaler.Variant.{Variant}
use nomad_ondemand_scaler.PoolSpec.{PoolNodeSpec, int_at, add_resource, get_name, compute_class}
use nomad_ondemand_scaler.PoolSpec.Suitable.{after_bar, name_of}

no_bar_later :
    (c : Char) (p : String)
    → after_bar (str_cons c p) ≡ none
    → (code c == 124) ≡ false × after_bar p ≡ none
unfolding after_bar
no_bar_later c p h = (ground arith, ground arith)

after_bar-append :
    (p q : String) → after_bar p ≡ none → after_bar q ≡ none → after_bar (str_append p q) ≡ none
unfolding after_bar
after_bar-append str_nil q h g = rw (nil-append q) g
after_bar-append (str_cons c p) q h g =
    let (other, rest) = no_bar_later c p h in
    rw (cons-append c p q) (ground (arith, other, after_bar-append p q rest g))

after_bar-bar :
    (p q : String) → after_bar p ≡ none → after_bar (str_append p (str_append "|" q)) ≡ some q
unfolding after_bar
after_bar-bar str_nil q h =
    rw (nil-append (str_append "|" q)) (rw (cons-append "|" "" q) (rw (nil-append q)))
after_bar-bar (str_cons c p) q h =
    let (other, rest) = no_bar_later c p h in
    rw (cons-append c p (str_append "|" q)) (ground (arith, other, after_bar-bar p q rest))

module _ (itoa : ℤ → String) (plain : (n : ℤ) → after_bar (itoa n) ≡ none) where
  add_resource-plain :
      (o : Option ℤ) (res name : String)
      → after_bar res ≡ none
      → after_bar name ≡ none
      → after_bar (add_resource itoa o res name) ≡ none
  unfolding add_resource after_bar
  add_resource-plain none res name h g = g
  add_resource-plain (some n) res name h g =
      after_bar-append (if str_eq name "" then name else str_append name ";")
        (str_append res (str_append ":" (itoa n)))
        (ground (arith, g, after_bar-append name ";" g refl))
        (after_bar-append res (str_append ":" (itoa n)) h
          (after_bar-append ":" (itoa n) refl (plain n)))

  pub after_bar-name_of :
      (hash_text : String → Dict Variant → String) (n : PoolNodeSpec)
      → after_bar (name_of itoa hash_text n) ≡ some (compute_class hash_text n)
  unfolding get_name after_bar
  after_bar-name_of hash_text n = after_bar-bar (get_name itoa n) (compute_class hash_text n) (
      add_resource-plain (int_at "disk" n.attributes) "disk" _ refl (
        add_resource-plain (int_at "mem" n.attributes) "mem" _ refl
          (add_resource-plain (int_at "cpu" n.attributes) "cpu" "" refl refl)))
