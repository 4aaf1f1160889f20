-- ===== src/Text.antt =====
-- Texts as lists of code points, and the two patterns `^[...]{lo,hi}$` that the program matches.
pub mod Split
use Prim.Native.Char.{code}
use mcp_authflow.Prelude.{
  ℕ, zero, suc, ◌≤◌, ◌≡◌, refl, String, Bool, true, false, ◌&&◌, ◌||◌, List, [], ◌∷◌, eqb,
  if◌then◌else◌, length, all, arith, ◌↔◌,
}

abbrev pub Text : Type 0
Text = List ℕ

abbrev pub codes : String → Text
codes String.[] = []
codes (String.◌∷◌ c s) = code c ∷ codes s

abbrev pub newline : ℕ
newline = 10

-- `$` with no MULTILINE flag: at the end of the text, and before a newline that ends it
abbrev pub at_end : Text → Bool
at_end [] = true
at_end (c ∷ []) = eqb c newline
at_end (c ∷ d ∷ cs) = false

-- `[class]{lo,hi}$` at the head of a text. The repetition is greedy and backs off one character at a
-- time; `lo` and `hi` count down. A class that holds no newline.
unfoldable pub match_repeat : (ℕ → Bool) → ℕ → ℕ → Text → Bool
match_repeat in_class lo zero cs = eqb lo 0 && at_end cs
match_repeat in_class lo (suc hi) [] = eqb lo 0
match_repeat in_class zero (suc hi) (c ∷ cs) =
    let longer = match_repeat in_class zero hi cs in (in_class c && longer) || at_end (c ∷ cs)
match_repeat in_class (suc lo) (suc hi) (c ∷ cs) =
    let longer = match_repeat in_class lo hi cs in in_class c && longer

-- The text without a newline that ends it.
abbrev pub chomp : Text → Text
chomp [] = []
chomp (c ∷ []) = if eqb c newline then [] else c ∷ []
chomp (c ∷ d ∷ cs) = c ∷ chomp (d ∷ cs)

module _ (in_class : ℕ → Bool) (no_newline : in_class newline ≡ false) where
  -- What the pattern matches: characters of the class, `lo` to `hi` of them, and perhaps one newline.
  pub match_repeat_iff :
      (lo hi : ℕ) (cs : Text)
      → (match_repeat in_class lo hi cs ≡ true)
        ↔ ((lo ≤ length (chomp cs)) × (length (chomp cs) ≤ hi) × (all in_class (chomp cs) ≡ true))
  unfolding match_repeat
  match_repeat_iff lo zero [] = ground arith
  match_repeat_iff lo zero (c ∷ []) = ground arith
  match_repeat_iff lo zero (c ∷ d ∷ cs) = ground arith
  match_repeat_iff lo (suc hi) [] = ground arith
  match_repeat_iff zero (suc hi) (c ∷ []) = ground (arith, match_repeat_iff zero hi [])
  match_repeat_iff (suc lo) (suc hi) (c ∷ []) = ground (arith, match_repeat_iff lo hi [])
  match_repeat_iff zero (suc hi) (c ∷ d ∷ cs) = ground (arith, match_repeat_iff zero hi (d ∷ cs))
  match_repeat_iff (suc lo) (suc hi) (c ∷ d ∷ cs) = ground (arith, match_repeat_iff lo hi (d ∷ cs))

-- `==` of two texts, which `secrets.compare_digest` of their UTF-8 bytes decides
abbrev pub same_text : Text → Text → Bool
same_text [] [] = true
same_text (c ∷ cs) (d ∷ ds) = eqb c d && same_text cs ds
same_text _ _ = false

pub same_text_iff : (cs ds : Text) → (same_text cs ds ≡ true) ↔ (cs ≡ ds)
same_text_iff [] [] = (λ _. refl, λ _. refl)
same_text_iff (c ∷ cs) (d ∷ ds) = ground (arith, same_text_iff cs ds)
same_text_iff [] (d ∷ ds) = (λ h. cc, λ h. cc)
same_text_iff (c ∷ cs) [] = (λ h. cc, λ h. cc)
