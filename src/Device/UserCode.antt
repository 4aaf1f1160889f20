-- ===== src/Device/UserCode.antt =====
-- mcp_authflow/device.py: `generate_user_code` and `normalize_user_code`. A text is the list of its
-- code points; `secrets.choice` draws by `randbelow`, and `str.isalnum` and `str.upper` are those of
-- a `CharacterData`.
pub mod RoundTrip
pub mod Entropy
use mcp_authflow.Prelude.{
  ℕ, zero, suc, ◌+◌, ◌-◌, ◌*◌, ◌^◌, ◌<◌, ◌≡◌, String, Bool, true, false, not, ◌&&◌, ◌||◌, Option,
  none, some, List, [], ◌∷◌, ◌++◌, map, ltb, leb, eqb, if◌then◌else◌, length, select, take, drop,
}
use mcp_authflow.Text.{codes}
use mcp_authflow.Prelude.Method.{Result, ok, raise}

-- _USER_CODE_ALPHABET
abbrev pub user_code_alphabet : List ℕ
user_code_alphabet = codes "BCDFGHJKLMNPQRSTVWXZ"

abbrev pub between : ℕ → ℕ → ℕ → Bool
between lo hi c = leb lo c && leb c hi

-- letters and digits of ASCII
abbrev pub ascii_is_alnum : ℕ → Bool
ascii_is_alnum c = between b'0' b'9' c || (between b'A' b'Z' c || between b'a' b'z' c)

abbrev pub ascii_upper : ℕ → ℕ
ascii_upper c = if between b'a' b'z' c then c - 32 else c

-- Python's character tables: `str.isalnum` of one character, and what `str.upper` makes of one.
-- The laws are what the tables say of ASCII.
pub record CharacterData : Type 0 where
  pub is_alnum : ℕ → Bool
  pub upper : ℕ → List ℕ
  pub ascii_alnum : (c : ℕ) → c < 128 → is_alnum c ≡ ascii_is_alnum c
  pub ascii_uppers : (c : ℕ) → c < 128 → upper c ≡ ascii_upper c ∷ []

-- separator.join(chunks)
unfoldable pub join : List ℕ → List (List ℕ) → List ℕ
join separator [] = []
join separator (x ∷ []) = x
join separator (x ∷ y ∷ ys) = x ++ (separator ++ join separator (y ∷ ys))

pub data ValueError : Type 0 where
  value_error : ValueError

abbrev pub nth : List ℕ → ℕ → ℕ
nth [] i = 0
nth (x ∷ xs) zero = x
nth (x ∷ xs) (suc i) = nth xs i

-- `secrets.choice(_USER_CODE_ALPHABET)`, as the draw number `k`; `randbelow k n` is that draw below `n`
unfoldable pub choose : (ℕ → ℕ → ℕ) → ℕ → ℕ
choose randbelow k = nth user_code_alphabet (randbelow k (length user_code_alphabet))

-- the inner comprehension: `n` draws from the number `k` on
unfoldable pub draw_group : (ℕ → ℕ → ℕ) → ℕ → ℕ → List ℕ
unfolding choose
draw_group randbelow zero k = []
draw_group randbelow (suc n) k = choose randbelow k ∷ draw_group randbelow n (k + 1)

-- the outer comprehension
unfoldable pub draw_groups : (ℕ → ℕ → ℕ) → ℕ → ℕ → ℕ → List (List ℕ)
unfolding draw_group
draw_groups randbelow zero group_size k = []
draw_groups randbelow (suc groups) group_size k =
    draw_group randbelow group_size k ∷ draw_groups randbelow groups group_size (k + group_size)

-- log2(20) * n < 20.0, without logarithms: 20 ^ n < 2 ^ 20. Both hold for n ≤ 4 alone, with a margin
-- that no rounding of the product closes.
abbrev pub is_weak : ℕ → Bool
is_weak n = ltb (length user_code_alphabet ^ n) (2 ^ 20)

unfoldable pub generate_user_code : (ℕ → ℕ → ℕ) → ℕ → ℕ → List ℕ → Result ValueError (List ℕ)
unfolding draw_groups join
generate_user_code randbelow groups group_size separator =
    if ltb groups 1 || ltb group_size 1
    then raise value_error
    else if is_weak (groups * group_size)
    then raise value_error
    else ok (join separator (draw_groups randbelow groups group_size 0))

-- [cleaned[i * size : (i + 1) * size] for i in range(i, i + n)]
unfoldable pub slices : ℕ → ℕ → ℕ → List ℕ → List (List ℕ)
slices zero i size cleaned = []
slices (suc n) i size cleaned = take size (drop (i * size) cleaned) ∷ slices n (i + 1) size cleaned

module _ (tables : CharacterData) where
  -- s.upper()
  unfoldable pub upper_text : List ℕ → List ℕ
  upper_text [] = []
  upper_text (c ∷ cs) = tables.upper c ++ upper_text cs

  -- "".join(ch for ch in user_code if ch.isalnum()).upper()
  unfoldable pub clean : List ℕ → List ℕ
  unfolding upper_text
  clean user_code = upper_text (select tables.is_alnum user_code)

  unfoldable pub normalize_user_code : List ℕ → ℕ → ℕ → List ℕ → List ℕ
  unfolding clean slices join
  normalize_user_code user_code groups group_size separator =
      let cleaned = clean user_code in
      if not (eqb (length cleaned) (groups * group_size))
      then cleaned
      else join separator (slices groups 0 group_size cleaned)
