-- ===== src/Tests/Sets.antt =====
-- Sorted sets that are lists, and the laws that they keep.
use mcp_authflow.Prelude.{
  ℕ, ◌+◌, ◌≡◌, ◌≤◌, ◌<◌, refl, String, Bool, true, false, ◌&&◌, not, Option, none, some, List, [],
  ◌∷◌, ◌++◌, arith, ltb, if◌then◌else◌, ◌==◌, eq_iff, ==_refl, length, select,
}
use mcp_authflow.Prelude.Time.{seconds}
use mcp_authflow.RateLimiting.RedisSets.{SortedSets, SetLaws}

pub record SortedSet : Type 0 where
  pub members : List (String × ℕ)
  pub end : Option ℕ

abbrev pub Sets : Type 0
Sets = String → SortedSet

abbrev pub is_live : ℕ → Option ℕ → Bool
is_live now none = true
is_live now (some end) = ltb now end

abbrev pub live : ℕ → SortedSet → List (String × ℕ)
live now set = if is_live now set.end then set.members else []

abbrev pub passing : (ℕ → Bool) → List (String × ℕ) → ℕ
passing test members = length (select (λ m. test m.1) members)

abbrev pub replace : String → SortedSet → Sets → Sets
replace key set s k = if key == k then set else s k

abbrev pub first : List (String × ℕ) → Option ℕ
first [] = none
first (m ∷ _) = some m.1

abbrev pub sets : SortedSets
sets = record {
  Store = Sets;
  zremrangebyscore = λ now key top s.
      replace key (record (s key) { members = select (λ m. ltb top m.1) (s key).members }) s;
  zcard = λ now key s. length (live now (s key));
  zadd = λ now key member score s.
      let kept = live now (s key) in
      replace key
        (record {
          members = kept ++ (member, score) ∷ [];
          end = if is_live now (s key).end then (s key).end else none;
        })
        s;
  expire = λ now key time s.
      replace key (record { members = live now (s key); end = some (now + seconds time) }) s;
  zrange_first = λ now key s. first (live now (s key));
  count = λ now key test s. passing test (live now (s key));
  has = λ now key member s. not (ltb (length (select (λ m. m.0 == member) (live now (s key)))) 1);
}

passing-true : (ms : List (String × ℕ)) → length ms ≡ passing (λ _. true) ms
passing-true [] = refl
passing-true (m ∷ ms) = ground (arith, passing-true ms)

passing-select :
    (test : ℕ → Bool) (top : ℕ) (ms : List (String × ℕ))
    → passing test (select (λ m. ltb top m.1) ms) ≡ passing (λ t. ltb top t && test t) ms
passing-select test top [] = refl
passing-select test top (m ∷ ms) = ground (arith, passing-select test top ms)

passing-append :
    (test : ℕ → Bool) (ms : List (String × ℕ)) (member : String) (score : ℕ)
    → passing test (ms ++ (member, score) ∷ []) ≡ passing test ms + (if test score then 1 else 0)
passing-append test [] member score = ground arith
passing-append test (m ∷ ms) member score = ground (arith, passing-append test ms member score)

passing_le : (test : ℕ → Bool) (ms : List (String × ℕ)) → passing test ms ≤ passing (λ _. true) ms
passing_le test [] = omega arith
passing_le test (m ∷ ms) = ground (arith, passing_le test ms)

live-passing :
    (test : ℕ → Bool) (now later : ℕ) (set : SortedSet)
    → now ≤ later
    → passing test (live later set) ≤ passing test (live now set)
live-passing test now later set h = go set.end
  where
    go :
        (end : Option ℕ)
        → passing test (if is_live later end then set.members else [])
          ≤ passing test (if is_live now end then set.members else [])
    go none = omega arith
    go (some end) = ground arith

no_first : (ms : List (String × ℕ)) → first ms ≡ none → passing (λ _. true) ms ≡ 0
no_first [] h = refl
no_first (m ∷ ms) h = ground (arith, h)

passing-first :
    (test : ℕ → Bool) (score : ℕ) (ms : List (String × ℕ))
    → first ms ≡ some score
    → test score ≡ false
    → passing test ms < passing (λ _. true) ms
passing-first test score [] h f = ground (arith, h)
passing-first test score (m ∷ ms) h f = ground (arith, h, f, passing_le test ms)

pub sets-SetLaws : SetLaws sets
sets-SetLaws = record {
  card = λ now key s. passing-true (live now (s key));
  removed = λ now later key top test s h.
      ground (arith, ==_refl key, passing-select test top (s key).members);
  added = λ now key member score test s new.
      ground (arith, ==_refl key, passing-append test (live now (s key)) member score);
  added_le = λ now key member score s.
      ground (arith, ==_refl key, passing-append (λ _. true) (live now (s key)) member score);
  part = λ now key test s. passing_le test (live now (s key));
  lapses = λ now later key test s h. live-passing test now later (s key) h;
  first_none = λ now key s h. no_first (live now (s key)) h;
  first_some = λ now key score test s h f. passing-first test score (live now (s key)) h f;
  expired = λ now later key time test s h. ground (arith, ==_refl key);
  removed_other = λ now later key other top test s differ. ground (arith, eq_iff key other);
  added_other = λ now later key other member score test s differ. ground (arith, eq_iff key other);
  expired_other = λ now later key other time test s differ. ground (arith, eq_iff key other);
}
