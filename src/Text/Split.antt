-- ===== src/Text/Split.antt =====
-- Python's `str.split()`, and what it makes of `" ".join`.
use mcp_authflow.Prelude.{
  ◌≡◌, refl, Bool, true, false, not, List, [], ◌∷◌, ◌++◌, all, arith, if◌then◌else◌,
}

module _ {ℓ} {A : Type ℓ} (is_space : A → Bool) where
  -- the first piece gets `c` in front
  abbrev pub lengthen : A → List (List A) → List (List A)
  lengthen c [] = (c ∷ []) ∷ []
  lengthen c (piece ∷ pieces) = (c ∷ piece) ∷ pieces

  -- the pieces between the spaces, empty ones too
  unfoldable pub pieces : List A → List (List A)
  pieces [] = [] ∷ []
  pieces (c ∷ cs) = let rest = pieces cs in if is_space c then [] ∷ rest else lengthen c rest

  abbrev pub drop_empty : List (List A) → List (List A)
  drop_empty [] = []
  drop_empty ([] ∷ rest) = drop_empty rest
  drop_empty ((c ∷ cs) ∷ rest) = (c ∷ cs) ∷ drop_empty rest

  -- split(): runs of spaces part the words
  unfoldable pub split : List A → List (List A)
  unfolding pieces
  split cs = drop_empty (pieces cs)

  -- a text that `split` leaves whole
  abbrev pub is_word : List A → Bool
  is_word [] = false
  is_word (c ∷ cs) = all (λ a. not (is_space a)) (c ∷ cs)

  pieces-word : (word : List A) → all (λ a. not (is_space a)) word ≡ true → pieces word ≡ word ∷ []
  unfolding pieces
  pieces-word [] h = refl
  pieces-word (c ∷ cs) h = ground (arith, pieces-word cs)

  pieces-append :
      (word : List A) (space : A) (rest : List A)
      → all (λ a. not (is_space a)) word ≡ true
      → is_space space ≡ true
      → pieces (word ++ space ∷ rest) ≡ word ∷ pieces rest
  unfolding pieces
  pieces-append [] space rest h s = ground arith
  pieces-append (c ∷ cs) space rest h s = ground (arith, pieces-append cs space rest)

  -- a word by itself, and a word before a space
  pub split-word : (word : List A) → is_word word ≡ true → split word ≡ word ∷ []
  unfolding split
  split-word [] h = cc
  split-word (c ∷ cs) h = rw (pieces-word (c ∷ cs) h) refl

  pub split-append :
      (word : List A) (space : A) (rest : List A)
      → is_word word ≡ true
      → is_space space ≡ true
      → split (word ++ space ∷ rest) ≡ word ∷ split rest
  unfolding split
  split-append [] space rest h s = cc
  split-append (c ∷ cs) space rest h s = rw (pieces-append (c ∷ cs) space rest h s) refl
