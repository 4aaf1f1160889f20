-- ===== src/Storage/Scopes.antt =====
-- mcp_authflow/storage/postgres.py: a list of scopes as one column of text, `" ".join(scopes)` in and
-- `scopes.split()` out. `is_space` is Python's table of white space.
use Prim.Native.Char.{Char, code}
use Prim.Native.String
use Prim.Native.String.{◌++◌ as concat}
use text.Mathlib.TextLemmas.{nil-append, cons-append}
use mcp_authflow.Prelude.{
  ℕ, ◌≡◌, refl, String, Bool, true, List, [], ◌∷◌, ◌++◌, map, all, arith, ap, ap₂, ◌∙◌,
}
use mcp_authflow.Text.Split.{split, is_word, split-word, split-append}
use mcp_authflow.Validation.{join_spaces}

abbrev pub chars : String → List Char
chars String.[] = []
chars (String.◌∷◌ c s) = c ∷ chars s

abbrev pub from_chars : List Char → String
from_chars [] = String.[]
from_chars (c ∷ cs) = String.◌∷◌ c (from_chars cs)

from_chars-chars : (s : String) → from_chars (chars s) ≡ s
from_chars-chars String.[] = refl
from_chars-chars (String.◌∷◌ c s) = ap (String.◌∷◌ c) (from_chars-chars s)

chars-concat : (s t : String) → chars (concat s t) ≡ chars s ++ chars t
chars-concat String.[] t = ap chars (nil-append t)
chars-concat (String.◌∷◌ c s) t = ap chars (cons-append c s t) ∙ ap (◌∷◌ c) (chars-concat s t)

abbrev space : Char
space = String.char_at " " 0

module _ (is_space : ℕ → Bool) where
  abbrev pub is_blank : Char → Bool
  is_blank c = is_space (code c)

  -- scopes.split()
  unfoldable pub split_scopes : String → List String
  unfolding split
  split_scopes scopes = map from_chars (split is_blank (chars scopes))

  -- not empty, and without white space
  abbrev pub is_scope : String → Bool
  is_scope scope = is_word is_blank (chars scope)

  chars-join_spaces :
      (x y : String) (ys : List String)
      → chars (join_spaces (x ∷ y ∷ ys)) ≡ chars x ++ space ∷ chars (join_spaces (y ∷ ys))
  unfolding join_spaces
  chars-join_spaces x y ys =
      let rest = join_spaces (y ∷ ys) in
      chars-concat x (concat " " rest) ∙ ap (◌++◌ (chars x)) (chars-concat " " rest)

  -- What is joined is split again, if each scope is a word.
  pub split_scopes-join_spaces :
      (scopes : List String)
      → is_space 32 ≡ true
      → all is_scope scopes ≡ true
      → split_scopes (join_spaces scopes) ≡ scopes
  unfolding split_scopes
  split_scopes-join_spaces [] b h = unfold join_spaces in refl
  split_scopes-join_spaces (x ∷ []) b h =
      unfold join_spaces in
      ap (map from_chars) (split-word is_blank (chars x) (ground arith))
      ∙ ap (λ s. s ∷ []) (from_chars-chars x)
  split_scopes-join_spaces (x ∷ y ∷ ys) b h =
      ap (λ cs. map from_chars (split is_blank cs)) (chars-join_spaces x y ys)
      ∙ ap (map from_chars)
          (split-append is_blank (chars x) space (chars (join_spaces (y ∷ ys))) (ground arith) b)
      ∙ ap₂ ◌∷◌ (from_chars-chars x) (split_scopes-join_spaces (y ∷ ys) b (ground arith))
