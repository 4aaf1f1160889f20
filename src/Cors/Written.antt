-- ===== src/Cors/Written.antt =====
-- Every text of the environment variable is a listing of origins.
use mathlib.Core.List.{append_assoc}
use mcp_authflow.Prelude.{
  ℕ, ◌≡◌, refl, sym, ap, ◌∙◌, Bool, true, false, List, [], ◌∷◌, ◌++◌, all, eqb, eqb_iff, arith,
  Bool-cases, inl, inr,
}
use mcp_authflow.Text.{Text}
use mcp_authflow.Cors.{comma}
use mcp_authflow.Cors.Listing.{Item, written, listing, is_other, ends_bare, IsItem, AreItems}

all-append :
    (test : ℕ → Bool) (xs ys : Text)
    → all test xs ≡ true
    → all test ys ≡ true
    → all test (xs ++ ys) ≡ true
all-append test [] ys h k = k
all-append test (x ∷ xs) ys h k = ground (arith, all-append test xs ys)

abbrev nothing : Item
nothing = record { left = []; origin = []; right = [] }

listing_cons :
    (c : ℕ) (item longer : Item) (items : List Item)
    → written longer ≡ c ∷ written item
    → listing (longer ∷ items) ≡ c ∷ listing (item ∷ items)
listing_cons c item longer [] e = e
listing_cons c item longer (other ∷ items) e = ap (λ t. t ++ (comma ∷ listing (other ∷ items))) e

module _ (is_space : ℕ → Bool) where
  ends_bare_append :
      (left origin : Text) (c d : ℕ)
      → ends_bare is_space (d ∷ origin) ≡ true
      → ends_bare is_space (c ∷ (left ++ (d ∷ origin))) ≡ true
  ends_bare_append [] origin c d h = h
  ends_bare_append (x ∷ left) origin c d h = ends_bare_append left origin x d h

  -- a character in front of the origin
  bare_front :
      (c : ℕ) (item : Item) (origin : Text)
      → item.origin ≡ origin
      → is_other c ≡ true
      → is_space c ≡ false
      → IsItem is_space item
      → (longer : Item) × IsItem is_space longer × (written longer ≡ c ∷ written item)
  bare_front c item [] o other bare (l, r, b, e, w) = (
    record { left = []; origin = c ∷ []; right = item.left ++ item.right },
    (
      refl,
      all-append is_space item.left item.right l r,
      rw bare refl,
      rw bare refl,
      rw other (ap (all is_other) (sym same) ∙ w),
    ),
    ap (◌∷◌ c) (sym same),
  )
    where
      same : written item ≡ item.left ++ item.right
      same = ap (λ t. item.left ++ (t ++ item.right)) o
  bare_front c item (d ∷ origin) o other bare (l, r, b, e, w) = (
    record { left = []; origin = c ∷ (item.left ++ (d ∷ origin)); right = item.right },
    (
      refl,
      r,
      rw bare refl,
      ends_bare_append item.left origin c d (ap (ends_bare is_space) (sym o) ∙ e),
      rw other (ap (all is_other) (sym same) ∙ w),
    ),
    ap (◌∷◌ c) (sym same),
  )
    where
      same : written item ≡ (item.left ++ (d ∷ origin)) ++ item.right
      same =
          ap (λ t. item.left ++ (t ++ item.right)) o
          ∙ sym (append_assoc item.left (d ∷ origin) item.right)

  front :
      (c : ℕ) (item : Item)
      → is_other c ≡ true
      → IsItem is_space item
      → (longer : Item) × IsItem is_space longer × (written longer ≡ c ∷ written item)
  front c item other (l, r, b, e, w) = elim (Bool-cases (is_space c)) [
    | inl blank ↦ (record item { left = c ∷ item.left }, (rw blank l, r, b, e, rw other w), refl)
    | inr bare ↦ bare_front c item item.origin refl other bare (l, r, b, e, w)
  ]

  -- Every text is written by items with commas between them.
  pub listing_exists :
      (raw : Text)
      → (item : Item) × (items : List Item) × AreItems is_space (item ∷ items)
        × (listing (item ∷ items) ≡ raw)
  listing_exists [] = (nothing, [], ((refl, refl, refl, refl, refl), tt), refl)
  listing_exists (c ∷ cs) =
      let (item, items, t, e) = listing_exists cs in
      elim (Bool-cases (eqb c comma)) [
        | inl at_comma ↦ (
          nothing,
          item ∷ items,
          ((refl, refl, refl, refl, refl), t),
          ap (λ d. d ∷ listing (item ∷ items)) (sym ((eqb_iff c comma).0 at_comma)) ∙ ap (◌∷◌ c) e,
        )
        | inr other ↦
            let (longer, i, w) = front c item (rw other refl) t.0 in
            (longer, items, (i, t.1), listing_cons c item longer items w ∙ ap (◌∷◌ c) e)
      ]
