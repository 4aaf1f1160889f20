-- ===== src/Prelude/Lists.antt =====
-- Lists measured by native numbers, and comprehensions over a Boolean test.
use Prim.Native.Nat.{ℕ, zero, suc, ◌+◌, ◌≤◌, min, max}
use Prim.Native.String.{String}
use mathlib.Core.Path.{◌≡◌, refl}
use mathlib.Core.Bool.{Bool, true, false, ◌&&◌, ◌||◌}
use mathlib.Core.List.{List, [], ◌∷◌, ◌++◌}
use native.Mathlib.Omega.{arith}
use text.Mathlib.TextEquality.{eq_iff as text_eq_iff}
use mcp_authflow.Prelude.Tests.{◌==◌, if◌then◌else◌}

module _ {ℓ} {A : Type ℓ} where
  abbrev pub length : List A → ℕ
  length [] = 0
  length (x ∷ xs) = suc (length xs)

  -- [x for x in xs if test(x)]
  abbrev pub select : (A → Bool) → List A → List A
  select test [] = []
  select test (x ∷ xs) = let rest = select test xs in if test x then x ∷ rest else rest

  -- all(test(x) for x in xs)
  abbrev pub all : (A → Bool) → List A → Bool
  all test [] = true
  all test (x ∷ xs) = test x && all test xs

  abbrev pub take : ℕ → List A → List A
  take zero xs = []
  take (suc n) [] = []
  take (suc n) (x ∷ xs) = x ∷ take n xs

  abbrev pub drop : ℕ → List A → List A
  drop zero xs = xs
  drop (suc n) [] = []
  drop (suc n) (x ∷ xs) = drop n xs

  pub length-append : (xs ys : List A) → length (xs ++ ys) ≡ length xs + length ys
  length-append [] ys = omega arith
  length-append (x ∷ xs) ys = omega (arith, length-append xs ys)

  pub select-append :
      (test : A → Bool) (xs ys : List A) → select test (xs ++ ys) ≡ select test xs ++ select test ys
  select-append test [] ys = refl
  select-append test (x ∷ xs) ys = ground (arith, select-append test xs ys)

  pub length-select-le : (test : A → Bool) (xs : List A) → length (select test xs) ≤ length xs
  length-select-le test [] = omega arith
  length-select-le test (x ∷ xs) = ground (arith, length-select-le test xs)

-- min(x, *xs) and max(x, *xs)
abbrev pub minimum : ℕ → List ℕ → ℕ
minimum x [] = x
minimum x (y ∷ ys) = min x (minimum y ys)

abbrev pub maximum : ℕ → List ℕ → ℕ
maximum x [] = x
maximum x (y ∷ ys) = max x (maximum y ys)

-- `s in xs` over texts
abbrev pub contains : List String → String → Bool
contains [] s = false
contains (x ∷ xs) s = (x == s) || contains xs s

-- What holds of every listed text holds of a text in the list.
pub contains-all :
    (test : String → Bool) (xs : List String) (s : String)
    → all test xs ≡ true
    → contains xs s ≡ true
    → test s ≡ true
contains-all test [] s a h = cc
contains-all test (x ∷ xs) s a h = ground (arith, text_eq_iff x s, contains-all test xs s)
