-- ===== src/Device/UserCode/RoundTrip.antt =====
-- Generated user codes, and what a user types for one.
use mathlib.Core.List.{flatten, append-nil, append_assoc}
use native.Mathlib.Nat.{zero-add, suc-add, zero-mul}
use mcp_authflow.Prelude.{
  ℕ, zero, suc, ◌+◌, ◌*◌, ◌<◌, ◌≡◌, ◌⊎◌, refl, Bool, true, false, not, ◌&&◌, List, [], ◌∷◌, ◌++◌,
  ltb, length, length-append, all, take, drop, arith, ap, ap₂, ◌∙◌, sym, ◌≡⟨◌⟩◌, ◌∎, Bool-cases,
  inl, inr,
}
use mcp_authflow.Prelude.Method.{ok}
use mcp_authflow.Device.UserCode.{
  CharacterData, user_code_alphabet, between, ascii_is_alnum, join, nth, choose, draw_group,
  draw_groups, generate_user_code, slices, clean, normalize_user_code,
}

abbrev pub is_capital : ℕ → Bool
is_capital c = between b'A' b'Z' c

-- a character of ASCII that is no letter and no digit
abbrev pub is_punctuation : ℕ → Bool
is_punctuation c = ltb c 128 && not (ascii_is_alnum c)

all-nth :
    (test : ℕ → Bool) (xs : List ℕ) (i : ℕ)
    → all test xs ≡ true
    → i < length xs
    → test (nth xs i) ≡ true
all-nth test [] i a h = elim h [ ]
all-nth test (x ∷ xs) zero a h = ground arith
all-nth test (x ∷ xs) (suc i) a h = all-nth test xs i (ground arith) (omega arith)

-- `randbelow` keeps below its bound
abbrev pub IsRandbelow : (ℕ → ℕ → ℕ) → Type 0
IsRandbelow randbelow = (k n : ℕ) → 0 < n → randbelow k n < n

module _ (randbelow : ℕ → ℕ → ℕ) (below : IsRandbelow randbelow) where
  choose-is_capital : (k : ℕ) → is_capital (choose randbelow k) ≡ true
  unfolding choose
  choose-is_capital k = all-nth is_capital user_code_alphabet _ refl (below k 20 (omega arith))

  all-draw_group : (n k : ℕ) → all is_capital (draw_group randbelow n k) ≡ true
  unfolding draw_group
  all-draw_group zero k = refl
  all-draw_group (suc n) k = rw (choose-is_capital k) (all-draw_group n (k + 1))

length-draw_group : (randbelow : ℕ → ℕ → ℕ) (n k : ℕ) → length (draw_group randbelow n k) ≡ n
unfolding draw_group
length-draw_group randbelow zero k = refl
length-draw_group randbelow (suc n) k = ap suc (length-draw_group randbelow n (k + 1))

-- chunks of capitals, each as long as the group
abbrev IsChunks : ℕ → List (List ℕ) → Type 0
IsChunks size [] = Unit
IsChunks size (x ∷ xs) = (length x ≡ size) × (all is_capital x ≡ true) × IsChunks size xs

draw_groups-IsChunks :
    (randbelow : ℕ → ℕ → ℕ)
    → IsRandbelow randbelow
    → (groups size k : ℕ) → IsChunks size (draw_groups randbelow groups size k)
unfolding draw_groups
draw_groups-IsChunks randbelow b zero size k = tt
draw_groups-IsChunks randbelow b (suc groups) size k = (
  length-draw_group randbelow size k,
  all-draw_group randbelow b size k,
  draw_groups-IsChunks randbelow b groups size (k + size),
)

length-draw_groups :
    (randbelow : ℕ → ℕ → ℕ) (groups size k : ℕ)
    → length (draw_groups randbelow groups size k) ≡ groups
unfolding draw_groups
length-draw_groups randbelow zero size k = refl
length-draw_groups randbelow (suc groups) size k =
    ap suc (length-draw_groups randbelow groups size (k + size))

-- how one letter of a code may be typed: as it is, or as the small letter
abbrev pub SameLetter : ℕ → ℕ → Type 0
SameLetter c t = (is_capital c ≡ true) × ((t ≡ c) ⊎ (t ≡ c + 32))

-- What may be typed for a code: its letters in order, each in either case, with any marks that are
-- no letters and no digits between them, and without the punctuation of the code.
pub data Typed (tables : CharacterData) : List ℕ → List ℕ → Type 0 where
  finished : Typed tables [] []
  letter :
      (c t : ℕ) (code typed : List ℕ)
      → SameLetter c t
      → Typed tables code typed
      → Typed tables (c ∷ code) (t ∷ typed)
  mark :
      (m : ℕ) (code typed : List ℕ)
      → tables.is_alnum m ≡ false
      → Typed tables code typed
      → Typed tables code (m ∷ typed)
  skipped :
      (m : ℕ) (code typed : List ℕ)
      → is_punctuation m ≡ true
      → Typed tables code typed
      → Typed tables (m ∷ code) typed

module _ (tables : CharacterData) where
  open tables use {is_alnum, ascii_alnum, ascii_uppers}

  clean-append : (xs ys : List ℕ) → clean tables (xs ++ ys) ≡ clean tables xs ++ clean tables ys
  unfolding clean
  clean-append [] ys = refl
  clean-append (x ∷ xs) ys = elim (Bool-cases (tables.is_alnum x)) [
    | inl a ↦ rw a (
        ap (◌++◌ (tables.upper x)) (clean-append xs ys)
        ∙ sym (append_assoc (tables.upper x) (clean tables xs) (clean tables ys)))
    | inr a ↦ rw a (clean-append xs ys)
  ]

  clean_capitals : (xs : List ℕ) → all is_capital xs ≡ true → clean tables xs ≡ xs
  unfolding clean
  clean_capitals [] h = refl
  clean_capitals (x ∷ xs) h = ground (arith, ascii_alnum x, ascii_uppers x, clean_capitals xs)

  clean_punctuation : (xs : List ℕ) → all is_punctuation xs ≡ true → clean tables xs ≡ []
  unfolding clean
  clean_punctuation [] h = refl
  clean_punctuation (x ∷ xs) h = ground (arith, ascii_alnum x, clean_punctuation xs)

  clean_letter :
      (c t : ℕ) (code typed : List ℕ)
      → SameLetter c t
      → clean tables typed ≡ clean tables code
      → clean tables (t ∷ typed) ≡ clean tables (c ∷ code)
  unfolding clean
  clean_letter c t code typed (capital, inl e) h = ground (arith, ascii_alnum c, ascii_uppers c)
  clean_letter c t code typed (capital, inr e) h =
      ground (arith, ascii_alnum c, ascii_uppers c, ascii_alnum t, ascii_uppers t)

  clean_mark :
      (m : ℕ) (typed : List ℕ)
      → tables.is_alnum m ≡ false
      → clean tables (m ∷ typed) ≡ clean tables typed
  unfolding clean
  clean_mark m typed other = rw other refl

  clean_skipped :
      (m : ℕ) (code : List ℕ)
      → is_punctuation m ≡ true
      → clean tables (m ∷ code) ≡ clean tables code
  unfolding clean
  clean_skipped m code p = ground (arith, ascii_alnum m)

  clean-Typed :
      (code typed : List ℕ) → Typed tables code typed → clean tables typed ≡ clean tables code
  clean-Typed code typed finished = refl
  clean-Typed code typed (letter c t rest more same h) =
      clean_letter c t rest more same (clean-Typed rest more h)
  clean-Typed code typed (mark m rest more other h) =
      clean_mark m more other ∙ clean-Typed rest more h
  clean-Typed code typed (skipped m rest more p h) =
      clean-Typed rest more h ∙ sym (clean_skipped m rest p)

  clean-join :
      (separator : List ℕ) (size : ℕ) (chunks : List (List ℕ))
      → all is_punctuation separator ≡ true
      → IsChunks size chunks
      → clean tables (join separator chunks) ≡ flatten chunks
  unfolding join flatten
  clean-join separator size [] p c = unfold clean in refl
  clean-join separator size (x ∷ []) p (l, a, c) = clean_capitals x a ∙ sym (append-nil x)
  clean-join separator size (x ∷ y ∷ ys) p (l, a, c) =
      clean tables (x ++ (separator ++ join separator (y ∷ ys)))
      ≡⟨ clean-append x _ ∙ ap (λ t. clean tables x ++ t) (clean-append separator _) ⟩
        clean tables x ++ (clean tables separator ++ clean tables (join separator (y ∷ ys)))
      ≡⟨ cc (
        clean_capitals x a,
        clean_punctuation separator p,
        clean-join separator size (y ∷ ys) p c,
      ) ⟩
        x ++ ([] ++ flatten (y ∷ ys)) ∎

drop-nil : (n : ℕ) → drop {A = ℕ} n [] ≡ []
drop-nil zero = refl
drop-nil (suc n) = refl

drop-drop : (m n : ℕ) (xs : List ℕ) → drop (m + n) xs ≡ drop n (drop m xs)
drop-drop zero n xs = rw zero-add
drop-drop (suc m) n [] = rw suc-add (sym (drop-nil n))
drop-drop (suc m) n (x ∷ xs) = rw suc-add (drop-drop m n xs)

take-append : (xs ys : List ℕ) → take (length xs) (xs ++ ys) ≡ xs
take-append [] ys = refl
take-append (x ∷ xs) ys = ap (◌∷◌ x) (take-append xs ys)

drop-append : (xs ys : List ℕ) → drop (length xs) (xs ++ ys) ≡ ys
drop-append [] ys = refl
drop-append (x ∷ xs) ys = drop-append xs ys

slices-flatten :
    (chunks : List (List ℕ)) (i size : ℕ) (xs : List ℕ)
    → IsChunks size chunks
    → drop (i * size) xs ≡ flatten chunks
    → slices (length chunks) i size xs ≡ chunks
unfolding slices flatten
slices-flatten [] i size xs c e = refl
slices-flatten (x ∷ chunks) i size xs (l, a, c) e = ap₂ ◌∷◌ here (
    slices-flatten chunks (i + 1) size xs c
      (rw (next, drop-drop (i * size) size xs, e, ← l) (drop-append x (flatten chunks))))
  where
    here : take size (drop (i * size) xs) ≡ x
    here = rw (e, ← l) (take-append x (flatten chunks))

    next : (i + 1) * size ≡ i * size + size
    next = omega arith

length-flatten :
    (size : ℕ) (chunks : List (List ℕ))
    → IsChunks size chunks
    → length (flatten chunks) ≡ length chunks * size
unfolding flatten
length-flatten size [] c = omega arith
length-flatten size (x ∷ chunks) (l, a, c) =
    omega (arith, length-append x (flatten chunks), length-flatten size chunks c)

-- Whatever a user types for a generated code is normalised to the code, if it has the letters of the
-- code in order, each as a capital or a small letter, with any marks that are no letters and no digits
-- anywhere, and in place of the separator or without it, and if the separator is punctuation of ASCII.
pub normalize-generate :
    (tables : CharacterData) (randbelow : ℕ → ℕ → ℕ) (groups size : ℕ) (separator : List ℕ)
    (generated typed : List ℕ)
    → IsRandbelow randbelow
    → all is_punctuation separator ≡ true
    → generate_user_code randbelow groups size separator ≡ ok generated
    → Typed tables generated typed
    → normalize_user_code tables typed groups size separator ≡ generated
unfolding generate_user_code normalize_user_code
normalize-generate tables randbelow groups size separator generated typed below p g t =
    let chunks = draw_groups randbelow groups size 0 in
    let c = draw_groups-IsChunks randbelow below groups size 0 in
    let n = length-draw_groups randbelow groups size 0 in
    let e : generated ≡ join separator chunks = ground arith in
    let cleaned : clean tables typed ≡ flatten chunks =
      clean-Typed tables generated typed t
      ∙ ap (clean tables) e
      ∙ clean-join tables separator size chunks p c in
    let again : slices groups 0 size (flatten chunks) ≡ chunks =
      ap (λ k. slices k 0 size (flatten chunks)) (sym n)
      ∙ slices-flatten chunks 0 size (flatten chunks) c (rw zero-mul) in
    ground (arith, cleaned, e, again, length-flatten size chunks c, n)
