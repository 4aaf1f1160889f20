-- ===== src/ClientAuth/Fits.antt =====
-- mcp_authflow/client_auth/jwt.py: which keys `_find_signing_key` may find.
use mcp_authflow.Prelude.{
  String, ◌≡◌, ◌⊎◌, inl, inr, true, Option, some, List, [], ◌∷◌, arith, eq_iff, Bool-cases,
  Option-cases,
}
use mcp_authflow.ClientAuth.{KeyData, Jwks, Pyjwt}
use mcp_authflow.ClientAuth.Keys.{expected_kty, key_matches, find_in, find_signing_key}

pub data IsListed {Material : Type 0} (entry : KeyData Material)
    : List (KeyData Material) → Type 0 where
  first : {keys : List (KeyData Material)} → IsListed entry (entry ∷ keys)
  after :
      {other : KeyData Material} {keys : List (KeyData Material)}
      → IsListed entry keys
      → IsListed entry (other ∷ keys)

-- the members of the entry do not speak against a signature under `alg` by the key `kid`
pub record Matches {Material : Type 0} (entry : KeyData Material) (kid : Option String)
    (alg : String) : Type 0 where
  pub kid_is : (wanted : String) → kid ≡ some wanted → (wanted ≡ "") ⊎ (entry.kid ≡ some wanted)
  pub alg_is : (named : String) → entry.alg ≡ some named → (named ≡ "") ⊎ (named ≡ alg)
  pub use_is : (named : String) → entry.use_ ≡ some named → (named ≡ "") ⊎ (named ≡ "sig")
  pub kty_is : (wanted : String) → expected_kty alg ≡ some wanted → entry.kty ≡ some wanted

-- the key is made of an entry of the list that matches
pub record Fits (pyjwt : Pyjwt) (keys : List (KeyData pyjwt.Material)) (kid : Option String)
    (alg : String) (key : pyjwt.Key) : Type 0 where
  pub entry : KeyData pyjwt.Material
  pub listed : IsListed entry keys
  pub matching : Matches entry kid alg
  pub made : pyjwt.from_dict entry ≡ some key

key_matches-kid :
    {Material : Type 0} (entry : KeyData Material) (kid : Option String) (alg wanted : String)
    → key_matches entry kid alg ≡ true
    → kid ≡ some wanted
    → (wanted ≡ "") ⊎ (entry.kid ≡ some wanted)
unfolding key_matches
key_matches-kid entry kid alg wanted h e = elim (Option-cases entry.kid) [
  | inl n ↦ ground (arith, n, e, h, eq_iff wanted "")
  | inr (k, n) ↦ ground (arith, n, e, h, eq_iff wanted "", eq_iff k wanted)
]

key_matches-alg :
    {Material : Type 0} (entry : KeyData Material) (kid : Option String) (alg named : String)
    → key_matches entry kid alg ≡ true
    → entry.alg ≡ some named
    → (named ≡ "") ⊎ (named ≡ alg)
unfolding key_matches
key_matches-alg entry kid alg named h e = ground (arith, e, h, eq_iff named "", eq_iff named alg)

key_matches-use :
    {Material : Type 0} (entry : KeyData Material) (kid : Option String) (alg named : String)
    → key_matches entry kid alg ≡ true
    → entry.use_ ≡ some named
    → (named ≡ "") ⊎ (named ≡ "sig")
unfolding key_matches
key_matches-use entry kid alg named h e = ground (arith, e, h, eq_iff named "", eq_iff named "sig")

key_matches-kty :
    {Material : Type 0} (entry : KeyData Material) (kid : Option String) (alg wanted : String)
    → key_matches entry kid alg ≡ true
    → expected_kty alg ≡ some wanted
    → entry.kty ≡ some wanted
unfolding key_matches
key_matches-kty entry kid alg wanted h e = elim (Option-cases entry.kty) [
  | inl n ↦ absurd (ground (arith, n, e, h))
  | inr (k, n) ↦ ground (arith, n, e, h, eq_iff k wanted)
]

key_matches-Matches :
    {Material : Type 0} (entry : KeyData Material) (kid : Option String) (alg : String)
    → key_matches entry kid alg ≡ true
    → Matches entry kid alg
key_matches-Matches entry kid alg h = record {
  kid_is = λ wanted. key_matches-kid entry kid alg wanted h;
  alg_is = λ named. key_matches-alg entry kid alg named h;
  use_is = λ named. key_matches-use entry kid alg named h;
  kty_is = λ wanted. key_matches-kty entry kid alg wanted h;
}

module _ (pyjwt : Pyjwt) (kid : Option String) (alg : String) (key : pyjwt.Key) where
  weaken :
      (other : KeyData pyjwt.Material) (keys : List (KeyData pyjwt.Material))
      → Fits pyjwt keys kid alg key
      → Fits pyjwt (other ∷ keys) kid alg key
  weaken other keys f = record {
    entry = f.entry;
    listed = after f.listed;
    matching = f.matching;
    made = f.made;
  }

  find_in_later :
      (entry : KeyData pyjwt.Material) (keys : List (KeyData pyjwt.Material))
      → find_in pyjwt (entry ∷ keys) kid alg ≡ some key
      → ((key_matches entry kid alg ≡ true) × (pyjwt.from_dict entry ≡ some key))
        ⊎ (find_in pyjwt keys kid alg ≡ some key)
  unfolding find_in
  find_in_later entry keys h = elim (Bool-cases (key_matches entry kid alg)) [
    | inr m ↦ inr (ground (arith, m, h))
    | inl m ↦ elim (Option-cases (pyjwt.from_dict entry)) [
      | inl n ↦ inr (ground (arith, m, n, h))
      | inr (made, n) ↦ inl (m, ground (arith, m, n, h))
    ]
  ]

  find_in-Fits :
      (keys : List (KeyData pyjwt.Material))
      → find_in pyjwt keys kid alg ≡ some key
      → Fits pyjwt keys kid alg key
  find_in-Fits [] h = absurd (unfold find_in in cc)
  find_in-Fits (entry ∷ keys) h = elim (find_in_later entry keys h) [
    | inl (m, made) ↦ record {
      entry = entry;
      listed = first;
      matching = key_matches-Matches entry kid alg m;
      made = made;
    }
    | inr rest ↦ weaken entry keys (find_in-Fits keys rest)
  ]

  -- the keys of the document, and the entry that the key is made of
  abbrev pub FitsDocument : Jwks pyjwt.Material → Type 0
  FitsDocument document =
      (keys : List (KeyData pyjwt.Material)) × (document.keys ≡ some keys)
      × Fits pyjwt keys kid alg key

  pub find_signing_key-FitsDocument :
      (document : Jwks pyjwt.Material)
      → find_signing_key pyjwt document kid alg ≡ some key
      → FitsDocument document
  unfolding find_signing_key
  find_signing_key-FitsDocument document h = elim (Option-cases document.keys) [
    | inl n ↦ absurd (ground (arith, n, h))
    | inr (keys, n) ↦ (keys, n, find_in-Fits keys (ground (arith, n, h)))
  ]
