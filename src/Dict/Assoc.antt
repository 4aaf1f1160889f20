-- ===== src/Dict/Assoc.antt =====
-- The entries of a dictionary as an association list.
use mcp_authflow.Prelude.{
  ◌+◌, String, ◌≡◌, refl, Bool, true, false, not, Option, none, some, List, [], ◌∷◌, ap, ◌∙◌, arith,
  ◌==◌, eq_iff, if◌then◌else◌, length, contains, select, Bool-cases, inl, inr,
}

abbrev pub Assoc {ℓ} : Type ℓ → Type ℓ
Assoc V = List (String × V)

-- the answer of `test` on a value, `false` where there is none
abbrev pub holds {ℓ} : {V : Type ℓ} → (V → Bool) → Option V → Bool
holds test none = false
holds test (some v) = test v

module _ {ℓ} {V : Type ℓ} where
  unfoldable pub lookup : String → Assoc V → Option V
  lookup k [] = none
  lookup k ((j, v) ∷ m) = if j == k then some v else lookup k m

  -- m[k] = v: in place, or at the end
  unfoldable pub insert : String → V → Assoc V → Assoc V
  insert k v [] = (k, v) ∷ []
  insert k v ((j, w) ∷ m) = if j == k then (j, v) ∷ m else (j, w) ∷ insert k v m

  unfoldable pub without : String → Assoc V → Assoc V
  without k [] = []
  without k ((j, v) ∷ m) = let rest = without k m in if j == k then rest else (j, v) ∷ rest

  -- [k for k, v in m.items() if test(v)]
  unfoldable pub keys_where : (V → Bool) → Assoc V → List String
  keys_where test [] = []
  keys_where test ((j, v) ∷ m) = let rest = keys_where test m in if test v then j ∷ rest else rest

  -- for k in ks: del m[k]
  unfoldable pub without_all : List String → Assoc V → Assoc V
  without_all [] m = m
  without_all (k ∷ ks) m = without_all ks (without k m)

  abbrev pub Distinct : Assoc V → Type 0
  Distinct [] = Unit
  Distinct ((k, v) ∷ m) = (holds (λ _. true) (lookup k m) ≡ false) × Distinct m

module _ {ℓ} {V : Type ℓ} where
  pub lookup-insert :
      (key other : String) (value : V) (entries : Assoc V)
      → lookup other (insert key value entries)
        ≡ (if key == other then some value else lookup other entries)
  unfolding insert lookup
  lookup-insert key other value [] = refl
  lookup-insert key other value ((first, w) ∷ entries) = ground (
    arith,
    lookup-insert key other value entries,
    eq_iff first other,
    eq_iff first key,
    eq_iff key other,
  )

  pub lookup-without :
      (k j : String) (m : Assoc V) → lookup j (without k m) ≡ (if k == j then none else lookup j m)
  unfolding lookup without
  lookup-without k j [] = ground arith
  lookup-without k j ((i, v) ∷ m) =
      ground (arith, lookup-without k j m, eq_iff i k, eq_iff i j, eq_iff k j)

  pub lookup-without_all :
      (ks : List String) (j : String) (m : Assoc V)
      → lookup j (without_all ks m) ≡ (if contains ks j then none else lookup j m)
  unfolding without_all
  lookup-without_all [] j m = refl
  lookup-without_all (k ∷ ks) j m =
      ground (arith, lookup-without_all ks j (without k m), lookup-without k j m)

  pub contains-keys_where :
      (test : V → Bool) (j : String) (m : Assoc V)
      → Distinct m
      → contains (keys_where test m) j ≡ holds test (lookup j m)
  unfolding keys_where lookup
  contains-keys_where test j [] d = refl
  contains-keys_where test j ((i, v) ∷ m) (fresh, d) =
      ground (arith, contains-keys_where test j m d, eq_iff i j)

  pub insert-Distinct : (k : String) (v : V) (m : Assoc V) → Distinct m → Distinct (insert k v m)
  unfolding insert
  insert-Distinct k v [] d = (unfold lookup in refl, tt)
  insert-Distinct k v ((i, w) ∷ m) (fresh, d) =
      ground (arith, insert-Distinct k v m d, lookup-insert k i v m, eq_iff i k, eq_iff k i)

  pub without-Distinct : (k : String) (m : Assoc V) → Distinct m → Distinct (without k m)
  unfolding without
  without-Distinct k [] d = tt
  without-Distinct k ((i, w) ∷ m) (fresh, d) =
      ground (arith, without-Distinct k m d, lookup-without k i m, eq_iff i k, eq_iff k i)

  pub without_all-Distinct :
      (ks : List String) (m : Assoc V) → Distinct m → Distinct (without_all ks m)
  unfolding without_all
  without_all-Distinct [] m d = d
  without_all-Distinct (k ∷ ks) m d = without_all-Distinct ks (without k m) (without-Distinct k m d)

  without_fresh :
      (k : String) (m : Assoc V) → holds (λ _. true) (lookup k m) ≡ false → without k m ≡ m
  unfolding lookup without
  without_fresh k [] h = refl
  without_fresh k ((i, w) ∷ m) h = ground (arith, without_fresh k m)

  without_self :
      (i : String) (w : V) (m : Assoc V)
      → holds (λ _. true) (lookup i m) ≡ false
      → without i ((i, w) ∷ m) ≡ m
  unfolding without
  without_self i w m h = ground (arith, eq_iff i i, without_fresh i m h)

  without_all-cons :
      (ks : List String) (i : String) (w : V) (m : Assoc V)
      → contains ks i ≡ false
      → without_all ks ((i, w) ∷ m) ≡ (i, w) ∷ without_all ks m
  unfolding without_all without
  without_all-cons [] i w m h = refl
  without_all-cons (k ∷ ks) i w m h =
      ground (arith, eq_iff k i, eq_iff i k, without_all-cons ks i w (without k m))

  -- Deleting the keys whose values meet a test leaves the other entries, in order.
  pub without_all-keys_where :
      (test : V → Bool) (m : Assoc V)
      → Distinct m
      → without_all (keys_where test m) m ≡ select (λ e. not (test e.1)) m
  unfolding keys_where without_all
  without_all-keys_where test [] d = refl
  without_all-keys_where test ((i, w) ∷ m) (fresh, d) = elim (Bool-cases (test w)) [
    | inl hit ↦ rw hit (
        ap (without_all (keys_where test m)) (without_self i w m fresh)
        ∙ without_all-keys_where test m d)
    | inr miss ↦
        rw
          (
            miss,
            without_all-cons (keys_where test m) i w m
                (contains-keys_where test i m d ∙ absent (lookup i m) fresh),
          )
          (ap (◌∷◌ (i, w)) (without_all-keys_where test m d))
  ]
    where
      absent : (o : Option V) → holds (λ _. true) o ≡ false → holds test o ≡ false
      absent none h = refl
      absent (some v) h = cc

  pub length-keys_where :
      (test : V → Bool) (m : Assoc V)
      → length (select (λ e. not (test e.1)) m) + length (keys_where test m) ≡ length m
  unfolding keys_where
  length-keys_where test [] = omega arith
  length-keys_where test ((i, w) ∷ m) = ground (arith, length-keys_where test m)

  pub length-insert :
      (k : String) (v : V) (m : Assoc V)
      → length (insert k v m) ≡ length m + (if holds (λ _. true) (lookup k m) then 0 else 1)
  unfolding lookup insert
  length-insert k v [] = omega arith
  length-insert k v ((i, w) ∷ m) = ground (arith, length-insert k v m)

  pub length-without :
      (k : String) (m : Assoc V)
      → Distinct m
      → length (without k m) + (if holds (λ _. true) (lookup k m) then 1 else 0) ≡ length m
  unfolding lookup without
  length-without k [] d = omega arith
  length-without k ((i, w) ∷ m) (fresh, d) =
      ground (arith, length-without k m d, eq_iff i k, without_fresh k m)
