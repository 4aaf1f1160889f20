-- ===== src/Dict.antt =====
-- Python's `dict` with string keys, as the program uses it: distinct keys in insertion order. The
-- representation is private; clients have `dict_laws` and the laws on sizes.
mod Assoc
use mcp_authflow.Prelude.{
  ℕ, ◌+◌, String, ◌≡◌, refl, Bool, true, false, not, Option, none, some, List, [], ◌∷◌, ◌∙◌, arith,
  ◌==◌, if◌then◌else◌, length, select, contains, ap,
}
use Assoc.{
  Assoc as Entries, lookup, insert, without, keys_where as assoc_keys_where, without_all, Distinct,
  lookup-insert, lookup-without, lookup-without_all, contains-keys_where, insert-Distinct,
  without-Distinct, without_all-Distinct, without_all-keys_where, length-keys_where, length-insert,
  length-without,
}
pub use Assoc.{holds}

pub record Dict {ℓ} (V : Type ℓ) : Type ℓ where
  entries : Entries V
  distinct : Distinct entries

module _ {ℓ} {V : Type ℓ} where
  unfoldable pub empty : Dict V
  empty = record { entries = []; distinct = tt }

  -- d.get(k)
  unfoldable pub get : Dict V → String → Option V
  unfolding lookup
  get d k = lookup k d.entries

  -- k in d
  abbrev pub has : Dict V → String → Bool
  has d k = holds (λ _. true) (get d k)

  -- d[k] = v
  unfoldable pub put : Dict V → String → V → Dict V
  unfolding insert
  put d k v = record {
    entries = insert k v d.entries;
    distinct = insert-Distinct k v d.entries d.distinct;
  }

  -- del d[k], where a missing key changes nothing (every deletion of the program tests first)
  unfoldable pub remove : Dict V → String → Dict V
  unfolding without
  remove d k = record {
    entries = without k d.entries;
    distinct = without-Distinct k d.entries d.distinct;
  }

  -- [k for k, v in d.items() if test(v)]
  unfoldable pub keys_where : (V → Bool) → Dict V → List String
  unfolding assoc_keys_where
  keys_where test d = assoc_keys_where test d.entries

  -- for k in ks: del d[k]
  unfoldable pub remove_all : Dict V → List String → Dict V
  unfolding without_all
  remove_all d ks = record {
    entries = without_all ks d.entries;
    distinct = without_all-Distinct ks d.entries d.distinct;
  }

  -- len(d)
  unfoldable pub size : Dict V → ℕ
  size d = length d.entries

module _ {ℓ} {V : Type ℓ} where
  pub get-remove :
      (d : Dict V) (key other : String)
      → get (remove d key) other ≡ (if key == other then none else get d other)
  unfolding remove get
  get-remove d key other = lookup-without key other d.entries

  pub get-put :
      (d : Dict V) (key other : String) (value : V)
      → get (put d key value) other ≡ (if key == other then some value else get d other)
  unfolding put get
  get-put d key other value = lookup-insert key other value d.entries

  -- what the comprehension selects and the loop deletes is gone, and all else is there
  pub get-remove_where :
      (d : Dict V) (test : V → Bool) (j : String)
      → get (remove_all d (keys_where test d)) j ≡ (if holds test (get d j) then none else get d j)
  unfolding get remove_all keys_where
  get-remove_where d test j = ground (
    arith,
    lookup-without_all (assoc_keys_where test d.entries) j d.entries,
    contains-keys_where test j d.entries d.distinct,
  )

  pub size-remove_where :
      (d : Dict V) (test : V → Bool)
      → size (remove_all d (keys_where test d)) + length (keys_where test d) ≡ size d
  unfolding size remove_all keys_where
  size-remove_where d test =
      ap (λ m. length m + length (assoc_keys_where test d.entries))
        (without_all-keys_where test d.entries d.distinct)
      ∙ length-keys_where test d.entries

  pub size-put :
      (d : Dict V) (k : String) (v : V) → size (put d k v) ≡ size d + (if has d k then 0 else 1)
  unfolding size put get
  size-put d k v = length-insert k v d.entries

  pub size-remove :
      (d : Dict V) (k : String) → size (remove d k) + (if has d k then 1 else 0) ≡ size d
  unfolding size remove get
  size-remove d k = length-without k d.entries d.distinct

pub get-empty {ℓ} : {V : Type ℓ} (k : String) → get (empty {V = V}) k ≡ none
unfolding get empty
get-empty k = refl

pub ruleset dict_laws = (get-empty, get-put, get-remove, get-remove_where)
