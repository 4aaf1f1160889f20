-- ===== src/Cors/Listing.antt =====
-- How a list of origins may be written in the environment variable, and what
-- `parse_allowed_origins` reads from it.
use mcp_authflow.Prelude.{
  ℕ, ◌≡◌, refl, Bool, true, not, List, [], ◌∷◌, ◌++◌, map, all, select, eqb, arith, ap, ◌∙◌,
}
use mcp_authflow.Text.{Text}
use mcp_authflow.Cors.{
  comma, split_commas, is_empty, lstrip, rstrip, strip, stripped, parse_allowed_origins,
}

-- the text is one of the list
pub data IsIn (x : Text) : List Text → Type 0 where
  here : {y : Text} {ys : List Text} → x ≡ y → IsIn x (y ∷ ys)
  later : {y : Text} {ys : List Text} → IsIn x ys → IsIn x (y ∷ ys)

-- an origin as it is written between two commas, with blanks around it
pub record Item : Type 0 where
  pub left : Text
  pub origin : Text
  pub right : Text

abbrev pub origin_of : Item → Text
origin_of item = item.origin

abbrev pub written : Item → Text
written item = item.left ++ (item.origin ++ item.right)

-- the items with a comma between each two
abbrev pub listing : List Item → Text
listing [] = []
listing (item ∷ []) = written item
listing (item ∷ other ∷ items) = written item ++ (comma ∷ listing (other ∷ items))

abbrev pub is_other : ℕ → Bool
is_other c = not (eqb c comma)

abbrev pub is_origin : Text → Bool
is_origin origin = not (is_empty origin)

module _ (is_space : ℕ → Bool) where
  -- the first character, and the last, is no blank
  abbrev pub starts_bare : Text → Bool
  starts_bare [] = true
  starts_bare (c ∷ cs) = not (is_space c)

  abbrev pub ends_bare : Text → Bool
  ends_bare [] = true
  ends_bare (c ∷ []) = not (is_space c)
  ends_bare (c ∷ d ∷ cs) = ends_bare (d ∷ cs)

  -- an origin, or none, that neither begins nor ends with a blank, blanks around it, and no comma
  abbrev pub IsItem : Item → Type 0
  IsItem item =
      (all is_space item.left ≡ true)
      × (all is_space item.right ≡ true)
      × (starts_bare item.origin ≡ true)
      × (ends_bare item.origin ≡ true)
      × (all is_other (written item) ≡ true)

  abbrev pub AreItems : List Item → Type 0
  AreItems [] = Unit
  AreItems (item ∷ items) = IsItem item × AreItems items

  lstrip_blanks :
      (left rest : Text)
      → all is_space left ≡ true
      → lstrip is_space (left ++ rest) ≡ lstrip is_space rest
  unfolding lstrip
  lstrip_blanks [] rest h = refl
  lstrip_blanks (c ∷ left) rest h = ground (arith, lstrip_blanks left rest)

  lstrip_blank_text : (blanks : Text) → all is_space blanks ≡ true → lstrip is_space blanks ≡ []
  unfolding lstrip
  lstrip_blank_text [] h = refl
  lstrip_blank_text (c ∷ blanks) h = ground (arith, lstrip_blank_text blanks)

  rstrip_blank_text : (blanks : Text) → all is_space blanks ≡ true → rstrip is_space blanks ≡ []
  unfolding rstrip
  rstrip_blank_text [] h = refl
  rstrip_blank_text (c ∷ blanks) h = ground (arith, rstrip_blank_text blanks)

  rstrip_blanks :
      (origin right : Text)
      → all is_space right ≡ true
      → ends_bare origin ≡ true
      → rstrip is_space (origin ++ right) ≡ origin
  unfolding rstrip
  rstrip_blanks [] right r e = rstrip_blank_text right r
  rstrip_blanks (c ∷ []) right r e = ground (arith, rstrip_blank_text right r)
  rstrip_blanks (c ∷ d ∷ origin) right r e = rw (rstrip_blanks (d ∷ origin) right r e) refl

  lstrip_bare :
      (origin right : Text)
      → all is_space right ≡ true
      → starts_bare origin ≡ true
      → rstrip is_space (lstrip is_space (origin ++ right)) ≡ rstrip is_space (origin ++ right)
  unfolding lstrip
  lstrip_bare [] right r b =
      rw (lstrip_blank_text right r, rstrip_blank_text right r) (unfold rstrip in refl)
  lstrip_bare (c ∷ origin) right r b = ground arith

  strip-written : (item : Item) → IsItem item → strip is_space (written item) ≡ item.origin
  unfolding strip
  strip-written item (l, r, b, e, o) =
      ap (rstrip is_space) (lstrip_blanks item.left (item.origin ++ item.right) l)
      ∙ (lstrip_bare item.origin item.right r b ∙ rstrip_blanks item.origin item.right r e)

  split_commas-piece : (piece : Text) → all is_other piece ≡ true → split_commas piece ≡ piece ∷ []
  unfolding split_commas
  split_commas-piece [] h = refl
  split_commas-piece (c ∷ cs) h = ground (arith, split_commas-piece cs)

  split_commas-comma :
      (piece rest : Text)
      → all is_other piece ≡ true
      → split_commas (piece ++ (comma ∷ rest)) ≡ piece ∷ split_commas rest
  unfolding split_commas
  split_commas-comma [] rest h = refl
  split_commas-comma (c ∷ cs) rest h = ground (arith, split_commas-comma cs rest)

  -- the origins that are written, without the empty ones
  abbrev pub origins : List Item → List Text
  origins items = select is_origin (map origin_of items)

  stripped-written :
      (item : Item) (pieces : List Text) (items : List Item)
      → IsItem item
      → stripped is_space pieces ≡ origins items
      → stripped is_space (written item ∷ pieces) ≡ origins (item ∷ items)
  unfolding stripped
  stripped-written item pieces items i h = rw (strip-written item i, h) (ground arith)

  stripped-listing :
      (item : Item) (items : List Item)
      → AreItems (item ∷ items)
      → stripped is_space (split_commas (listing (item ∷ items))) ≡ origins (item ∷ items)
  stripped-listing item [] (i, t) =
      ap (stripped is_space) (split_commas-piece (written item) i.4)
      ∙ stripped-written item [] [] i (unfold stripped in refl)
  stripped-listing item (other ∷ items) (i, t) =
      ap (stripped is_space) (split_commas-comma (written item) (listing (other ∷ items)) i.4)
      ∙ stripped-written item _ (other ∷ items) i (stripped-listing other items t)

  pub parse_allowed_origins-listing :
      (items : List Item)
      → AreItems items
      → parse_allowed_origins is_space (listing items) ≡ origins items
  parse_allowed_origins-listing [] t = unfold parse_allowed_origins in refl
  parse_allowed_origins-listing (item ∷ items) t =
      parse_nonempty (listing (item ∷ items)) ∙ stripped-listing item items t
    where
      parse_nonempty :
          (raw : Text) → parse_allowed_origins is_space raw ≡ stripped is_space (split_commas raw)
      parse_nonempty [] =
          unfold parse_allowed_origins stripped split_commas strip lstrip rstrip in refl
      parse_nonempty (c ∷ cs) = unfold parse_allowed_origins in refl
