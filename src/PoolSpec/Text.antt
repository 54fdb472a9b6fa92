-- ===== src/PoolSpec/Text.antt =====
-- Keys with a prefix, such as "attr.", in poolnodespec.go.
use Prim.Native.Char.{Char, code}
use Prim.Native.String.{[] as str_nil, ◌∷◌ as str_cons}
use text.Mathlib.TextEquality.{Char-path}
use nomad_ondemand_scaler.Prelude.{
  ◌≡◌, refl, String, true, false, Option, none, some, ◌==◌, if◌then◌else◌, arith, Bool-cases, inl,
  inr,
}

-- `strings.Index(k, prefix) == 0`, and then what follows the prefix.
unfoldable pub strip_prefix : String → String → Option String
strip_prefix str_nil s = some s
strip_prefix (str_cons c p) str_nil = none
strip_prefix (str_cons c p) (str_cons d s) =
    let rest = strip_prefix p s in if code c == code d then rest else none

same_char : (c d : Char) → (code c == code d) ≡ true → c ≡ d
same_char c d h = Char-path c d (ground arith)

-- A key that has the prefix.
with_prefix :
    (c d : Char) (p s r : String)
    → strip_prefix (str_cons c p) (str_cons d s) ≡ some r
    → (c ≡ d) × (strip_prefix p s ≡ some r)
unfolding strip_prefix
with_prefix c d p s r h = elim (Bool-cases (code c == code d)) [
  | inl same ↦ (same_char c d same, rw same at h)
  | inr other ↦ absurd (cc (rw other at h))
]

-- Two keys with one rest are one key.
pub strip_prefix-injective :
    (p s t r : String) → strip_prefix p s ≡ some r → strip_prefix p t ≡ some r → s ≡ t
unfolding strip_prefix
strip_prefix-injective str_nil s t r h g = cc
strip_prefix-injective (str_cons c p) str_nil t r h g = cc
strip_prefix-injective (str_cons c p) (str_cons d s) str_nil r h g = cc
strip_prefix-injective (str_cons c p) (str_cons d s) (str_cons e t) r h g =
    let (same, rest) = with_prefix c d p s r h in
    let (same', rest') = with_prefix c e p t r g in
    cc (same, same', strip_prefix-injective p s t r rest rest')

-- Prefixes that begin differently are not both there.
pub strip_prefix-apart :
    (c d : Char) (p q s r : String)
    → (code c == code d) ≡ false
    → strip_prefix (str_cons c p) s ≡ some r
    → strip_prefix (str_cons d q) s ≡ none
unfolding strip_prefix
strip_prefix-apart c d p q str_nil r h g = cc
strip_prefix-apart c d p q (str_cons e s) r h g = ground arith

attr_key : strip_prefix "attr." "attr.arch" ≡ some "arch"
unfolding strip_prefix
attr_key = refl
