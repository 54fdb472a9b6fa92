-- ===== src/Prelude/Bytes.antt =====
-- Texts as their bytes in UTF-8, and the order of the languages' strings.
use Prim.Native.Nat.{ℕ, zero, suc, ◌+◌, ◌/◌, ◌%◌}
use Prim.Native.Char.{code}
use Prim.Native.String.{String, [] as str_nil, ◌∷◌ as str_cons}
use mathlib.Core.Path.{◌≡◌, refl}
use mathlib.Core.Bool.{Bool, true, false}
use mathlib.Core.List.{List, [], ◌∷◌, ◌++◌}
use native.Mathlib.Omega.{arith}
use text.Mathlib.TextEquality.{Char-path}
use nomad_ondemand_scaler.Prelude.Tests.{if◌then◌else◌, ltb, ◌==◌}
use nomad_ondemand_scaler.Prelude.Int.{ℤ, pos, negsuc}

abbrev pub utf8 : ℕ → List ℕ
utf8 n =
    if ltb n 128
    then n ∷ []
    else if ltb n 2048
    then (192 + n / 64) ∷ (128 + n % 64) ∷ []
    else if ltb n 65536
    then (224 + n / 4096) ∷ (128 + n / 64 % 64) ∷ (128 + n % 64) ∷ []
    else (240 + n / 262144) ∷ (128 + n / 4096 % 64) ∷ (128 + n / 64 % 64) ∷ (128 + n % 64) ∷ []

unfoldable pub bytes : String → List ℕ
bytes str_nil = []
bytes (str_cons c s) = utf8 (code c) ++ bytes s

-- The first argument is at least the number of digits.
abbrev pub digits : ℕ → ℕ → List ℕ → List ℕ
digits zero n rest = rest
digits (suc fuel) n rest =
    let more = digits fuel (n / 10) ((b'0' + n % 10) ∷ rest) in
    if ltb n 10 then (b'0' + n) ∷ rest else more

unfoldable pub decimal : ℤ → List ℕ
decimal (pos n) = digits (suc n) n []
decimal (negsuc n) = b'-' ∷ digits (suc (suc n)) (suc n) []

unfoldable pub codes : String → List ℕ
codes str_nil = []
codes (str_cons c s) = code c ∷ codes s

unfoldable pub codes_lt : List ℕ → List ℕ → Bool
codes_lt xs [] = false
codes_lt [] (y ∷ ys) = true
codes_lt (x ∷ xs) (y ∷ ys) =
    let rest = codes_lt xs ys in if ltb x y then true else if x == y then rest else false

-- The order of the bytes is that of the codes.
abbrev pub str_lt : String → String → Bool
str_lt s t = codes_lt (codes s) (codes t)

codes_equal : (s t : String) → codes s ≡ codes t → s ≡ t
unfolding codes
codes_equal str_nil str_nil h = refl
codes_equal str_nil (str_cons d t) h = absurd (cc h)
codes_equal (str_cons c s) str_nil h = absurd (cc h)
codes_equal (str_cons c s) (str_cons d t) h =
    let first : code c ≡ code d = cc h in
    let rest : codes s ≡ codes t = cc h in
    λ i. str_cons (Char-path c d first i) (codes_equal s t rest i)

pub codes_lt-asym : (xs ys : List ℕ) → codes_lt xs ys ≡ true → codes_lt ys xs ≡ false
unfolding codes_lt
codes_lt-asym [] [] h = refl
codes_lt-asym [] (y ∷ ys) h = refl
codes_lt-asym (x ∷ xs) [] h = cc
codes_lt-asym (x ∷ xs) (y ∷ ys) h = ground (arith, codes_lt-asym xs ys)

pub codes_lt-before :
    (xs ys zs : List ℕ) → codes_lt xs zs ≡ true → codes_lt ys zs ≡ false → codes_lt xs ys ≡ true
unfolding codes_lt
codes_lt-before xs ys [] h g = cc
codes_lt-before [] [] (z ∷ zs) h g = cc
codes_lt-before [] (y ∷ ys) (z ∷ zs) h g = refl
codes_lt-before (x ∷ xs) [] (z ∷ zs) h g = cc
codes_lt-before (x ∷ xs) (y ∷ ys) (z ∷ zs) h g = ground (arith, codes_lt-before xs ys zs)

codes_lt-total : (xs ys : List ℕ) → codes_lt xs ys ≡ false → codes_lt ys xs ≡ false → xs ≡ ys
unfolding codes_lt
codes_lt-total [] [] h g = refl
codes_lt-total [] (y ∷ ys) h g = cc
codes_lt-total (x ∷ xs) [] h g = cc
codes_lt-total (x ∷ xs) (y ∷ ys) h g = ground (arith, codes_lt-total xs ys)

pub str_lt-total : (s t : String) → str_lt s t ≡ false → str_lt t s ≡ false → s ≡ t
str_lt-total s t h g = codes_equal s t (codes_lt-total (codes s) (codes t) h g)
