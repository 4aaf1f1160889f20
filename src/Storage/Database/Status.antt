-- ===== src/Storage/Database/Status.antt =====
-- mcp_authflow/storage/postgres.py: the count in a command's status, `int(result.split()[-1])`.
use mcp_authflow.Prelude.{
  ℕ, zero, suc, ◌+◌, ◌/◌, ◌%◌, ◌≡◌, refl, Bool, true, false, not, ◌&&◌, List, [], ◌∷◌, all, leb,
  ltb, if◌then◌else◌, arith, ap, ◌∙◌, Bool-cases, inl, inr,
}
use mcp_authflow.Prelude.Method.{Result, ok, raise}
use mcp_authflow.Text.{Text, codes}
use mcp_authflow.Text.Split.{split, is_word, split-word, split-append}
use mcp_authflow.Responses.{digits, decimal}
use mcp_authflow.Responses.Decimal.{read_from, read_from-decimal}
use mcp_authflow.Storage.Database.{PostgresError, value_error, index_error, IsStatus}

abbrev pub is_digit : ℕ → Bool
is_digit c = leb b'0' c && leb c b'9'

-- int(word), of which only plain digits are read: PostgreSQL sends no others
unfoldable pub parse_int : {Failure : Type 0} → Text → Result (PostgresError Failure) ℕ
parse_int [] = raise value_error
parse_int (c ∷ cs) = if all is_digit (c ∷ cs) then ok (read_from 0 (c ∷ cs)) else raise value_error

-- words[-1]
abbrev pub last : {Failure : Type 0} → List Text → Result (PostgresError Failure) Text
last [] = raise index_error
last (word ∷ []) = ok word
last (word ∷ next ∷ rest) = last (next ∷ rest)

-- int(words[-1])
unfoldable pub read_last : {Failure : Type 0} → List Text → Result (PostgresError Failure) ℕ
unfolding parse_int
read_last words = elim (last words) [ raise e ↦ raise e | ok word ↦ parse_int word ]

module _ (is_space : ℕ → Bool) where
  -- int(result.split()[-1]) if result else 0
  unfoldable pub parse_status : {Failure : Type 0} → Text → Result (PostgresError Failure) ℕ
  unfolding split read_last
  parse_status [] = ok 0
  parse_status (c ∷ cs) = read_last (split is_space (c ∷ cs))

  -- the table of white space on what is printable in ASCII
  pub record KnowsAscii : Type 0 where
    pub blank : is_space 32 ≡ true
    pub printable : (c : ℕ) → ltb 32 c ≡ true → ltb c 127 ≡ true → is_space c ≡ false

all-digits :
    (fuel n : ℕ) (after : Text)
    → all is_digit after ≡ true
    → all is_digit (digits fuel n after) ≡ true
unfolding digits
all-digits zero n after h = h
all-digits (suc fuel) n after h = ground (arith, all-digits fuel (n / 10) ((b'0' + n % 10) ∷ after))

all-decimal : (n : ℕ) → all is_digit (decimal n) ≡ true
unfolding decimal
all-decimal n = all-digits (suc n) n [] refl

digits-cons : (fuel n c : ℕ) (cs : Text) → (d : ℕ) × (ds : Text) × (digits fuel n (c ∷ cs) ≡ d ∷ ds)
unfolding digits
digits-cons zero n c cs = (c, cs, refl)
digits-cons (suc fuel) n c cs = elim (Bool-cases (ltb n 10)) [
  | inl small ↦ (b'0' + n % 10, c ∷ cs, ground (arith, small))
  | inr large ↦
      let (d, ds, e) = digits-cons fuel (n / 10) (b'0' + n % 10) (c ∷ cs) in (d, ds, rw large e)
]

decimal-cons : (n : ℕ) → (d : ℕ) × (ds : Text) × (decimal n ≡ d ∷ ds)
unfolding decimal digits
decimal-cons n = elim (Bool-cases (ltb n 10)) [
  | inl small ↦ (b'0' + n % 10, [], ground (arith, small))
  | inr large ↦ let (d, ds, e) = digits-cons n (n / 10) (b'0' + n % 10) [] in (d, ds, rw large e)
]

parse_int-decimal : {Failure : Type 0} (n : ℕ) → parse_int {Failure = Failure} (decimal n) ≡ ok n
unfolding parse_int
parse_int-decimal n =
    let (d, ds, e) = decimal-cons n in
    let valid : all is_digit (d ∷ ds) ≡ true = rw e at (all-decimal n) in
    rw (e, valid) (ap ok (rw e at (read_from-decimal n)))

read_last-decimal :
    {Failure : Type 0} (n : ℕ)
    → read_last {Failure = Failure} (codes "DELETE" ∷ decimal n ∷ []) ≡ ok n
unfolding read_last
read_last-decimal n = parse_int-decimal n

module _ (is_space : ℕ → Bool) (ascii : KnowsAscii is_space) where
  not-space-digits : (cs : Text) → all is_digit cs ≡ true → all (λ c. not (is_space c)) cs ≡ true
  not-space-digits [] h = refl
  not-space-digits (c ∷ cs) h = ground (arith, not-space-digits cs, ascii.printable c)

  decimal-is_word : (n : ℕ) → is_word is_space (decimal n) ≡ true
  decimal-is_word n =
      let (d, ds, e) = decimal-cons n in rw e (not-space-digits (d ∷ ds) (rw e at (all-decimal n)))

  delete-is_word : is_word is_space (codes "DELETE") ≡ true
  delete-is_word = ground (
    arith,
    ascii.printable b'D',
    ascii.printable b'E',
    ascii.printable b'L',
    ascii.printable b'T',
  )

  -- The status of a deletion reads as the number of rows.
  pub parse_status_lem :
      {Failure : Type 0} (status : Text) (n : ℕ)
      → IsStatus status n
      → parse_status is_space {Failure = Failure} status ≡ ok n
  unfolding parse_status
  parse_status_lem {Failure} status n h =
      ap (parse_status is_space) h
      ∙ ap (read_last {Failure = Failure}) (
          split-append is_space (codes "DELETE") 32 (decimal n) delete-is_word ascii.blank
          ∙ ap (◌∷◌ (codes "DELETE")) (split-word is_space (decimal n) (decimal-is_word n)))
      ∙ read_last-decimal n
