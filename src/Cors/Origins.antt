-- ===== src/Cors/Origins.antt =====
-- Which origins are let in.
use mcp_authflow.Prelude.{
  ℕ, ◌≡◌, ◌≢◌, ◌↔◌, ◌⊎◌, refl, sym, ◌∙◌, Bool, true, false, Option, none, some, List, [], ◌∷◌, map,
  select, arith, Bool-cases, inl, inr,
}
use mcp_authflow.Text.{Text, codes, same_text, same_text_iff}
use mcp_authflow.Dict
use mcp_authflow.Dict.{Dict, get-put}
use mcp_authflow.Cors.{
  parse_allowed_origins, is_allowed_origin, get_cors_origin, fixed_headers, build_cors_headers,
}
use mcp_authflow.Cors.Written.{listing_exists}
use mcp_authflow.Cors.Listing.{
  IsIn, here, later, Item, origin_of, listing, AreItems, is_origin, parse_allowed_origins-listing,
}

is_allowed_origin_later :
    (x : Text) (xs : List Text) (origin : Text)
    → same_text x origin ≡ false
    → is_allowed_origin xs origin ≡ is_allowed_origin (x ∷ xs) origin
unfolding is_allowed_origin
is_allowed_origin_later x xs origin h = rw h refl

is_allowed_origin_first :
    (x : Text) (xs : List Text) (origin : Text)
    → same_text x origin ≡ true
    → is_allowed_origin (x ∷ xs) origin ≡ true
unfolding is_allowed_origin
is_allowed_origin_first x xs origin h = rw h refl

is_allowed_origin_more :
    (x : Text) (xs : List Text) (origin : Text)
    → is_allowed_origin xs origin ≡ true
    → is_allowed_origin (x ∷ xs) origin ≡ true
unfolding is_allowed_origin
is_allowed_origin_more x xs origin h = ground (arith, h)

is_allowed_origin-nil : (origin : Text) → is_allowed_origin [] origin ≡ false
unfolding is_allowed_origin
is_allowed_origin-nil origin = refl

is_allowed_origin_iff :
    (allowed : List Text) (origin : Text)
    → (is_allowed_origin allowed origin ≡ true) ↔ IsIn origin allowed
is_allowed_origin_iff allowed origin = (there allowed, back allowed)
  where
    there : (xs : List Text) → is_allowed_origin xs origin ≡ true → IsIn origin xs
    there [] h = absurd (cc (is_allowed_origin-nil origin))
    there (x ∷ xs) h = elim (Bool-cases (same_text x origin)) [
      | inl same ↦ here (sym ((same_text_iff x origin).0 same))
      | inr differ ↦ later (there xs (is_allowed_origin_later x xs origin differ ∙ h))
    ]

    back : (xs : List Text) → IsIn origin xs → is_allowed_origin xs origin ≡ true
    back [] m = elim m [ ]
    back (x ∷ xs) (here e) =
        is_allowed_origin_first x xs origin ((same_text_iff x origin).1 (sym e))
    back (x ∷ xs) (later m) = is_allowed_origin_more x xs origin (back xs m)

-- an origin is one of the written ones that are not empty
select-is_origin :
    (written : List Text) (origin : Text)
    → IsIn origin (select is_origin written) ↔ ((origin ≢ []) × IsIn origin written)
select-is_origin written origin =
    (λ m. (named written m, kept written m), λ (n, m). back written n m)
  where
    named : (xs : List Text) → IsIn origin (select is_origin xs) → origin ≢ []
    named [] m e = elim m [ ]
    named ([] ∷ xs) m e = named xs m e
    named ((c ∷ cs) ∷ xs) (here h) e = cc
    named ((c ∷ cs) ∷ xs) (later m) e = named xs m e

    kept : (xs : List Text) → IsIn origin (select is_origin xs) → IsIn origin xs
    kept [] m = m
    kept ([] ∷ xs) m = later (kept xs m)
    kept ((c ∷ cs) ∷ xs) (here h) = here h
    kept ((c ∷ cs) ∷ xs) (later m) = later (kept xs m)

    back : (xs : List Text) → origin ≢ [] → IsIn origin xs → IsIn origin (select is_origin xs)
    back [] n m = m
    back ([] ∷ xs) n (here h) = absurd (n h)
    back ([] ∷ xs) n (later m) = back xs n m
    back ((c ∷ cs) ∷ xs) n (here h) = here h
    back ((c ∷ cs) ∷ xs) n (later m) = later (back xs n m)

fixed_headers-get :
    (Dict.get fixed_headers "Access-Control-Allow-Origin" ≡ none)
    × (Dict.get fixed_headers "Vary" ≡ some (codes "Origin"))
unfolding fixed_headers Dict.get Dict.put Dict.empty
fixed_headers-get = (refl, refl)

build_cors_headers-allowed :
    (origin : Text) (allowed : List Text)
    → is_allowed_origin allowed origin ≡ true
    → origin ≢ []
    → build_cors_headers origin allowed
      ≡ Dict.put fixed_headers "Access-Control-Allow-Origin" origin
unfolding build_cors_headers get_cors_origin
build_cors_headers-allowed [] allowed a e = absurd (e refl)
build_cors_headers-allowed (c ∷ cs) allowed a e = rw a refl

build_cors_headers-refused :
    (origin : Text) (allowed : List Text)
    → is_allowed_origin allowed origin ≡ false
    → build_cors_headers origin allowed ≡ fixed_headers
unfolding build_cors_headers get_cors_origin
build_cors_headers-refused origin allowed a = rw a refl

abbrev pub told : Dict Text → Option Text
told headers = Dict.get headers "Access-Control-Allow-Origin"

told-build_cors_headers :
    (origin : Text) (allowed : List Text)
    → (origin ≢ [])
    → is_allowed_origin allowed origin ≡ true
    → (told (build_cors_headers origin allowed) ≡ some origin)
      × (Dict.get (build_cors_headers origin allowed) "Vary" ≡ some (codes "Origin"))
told-build_cors_headers origin allowed n a =
    rw
      (
        build_cors_headers-allowed origin allowed a n,
        get-put fixed_headers "Access-Control-Allow-Origin" "Access-Control-Allow-Origin" origin,
        get-put fixed_headers "Access-Control-Allow-Origin" "Vary" origin,
      )
      (refl, fixed_headers-get.1)

-- Whatever text the variable holds, it is written as items with a comma between each two, each
-- an origin with blanks around it, where an origin may be empty and neither begins nor ends with a blank
-- nor holds a comma. However it is written so, the origins that are not empty are what is read from
-- it, in order. A request is told `Access-Control-Allow-Origin` exactly when its origin is not empty
-- and one of them, the value is then that origin, any other request is told none, and the response
-- varies by origin in either case.
pub build_cors_headers-listing :
    (is_space : ℕ → Bool) (raw : Text) (items : List Item) (origin : Text)
    → AreItems is_space items
    → let allowed = parse_allowed_origins is_space (listing items) in
      let headers = build_cors_headers origin allowed in
      ((parts : List Item) × AreItems is_space parts × (listing parts ≡ raw))
      × (allowed ≡ select is_origin (map origin_of items))
      × ((told headers ≡ some origin) ↔ ((origin ≢ []) × IsIn origin (map origin_of items)))
      × ((told headers ≡ some origin) ⊎ (told headers ≡ none))
      × (Dict.get headers "Vary" ≡ some (codes "Origin"))
build_cors_headers-listing is_space raw items origin t =
    let (first, rest, fit, same) = listing_exists is_space raw in
    let parts : (found : List Item) × AreItems is_space found × (listing found ≡ raw) =
      (first ∷ rest, fit, same) in
    let read = parse_allowed_origins-listing is_space items t in
    let (named, listed) = select-is_origin (map origin_of items) origin in
    let allowed = select is_origin (map origin_of items) in
    let (inside, member) = is_allowed_origin_iff allowed origin in
    rw read (elim (Bool-cases (is_allowed_origin allowed origin)) [
      | inl a ↦
          let m = named (inside a) in
          let (named_it, vary) = told-build_cors_headers origin allowed m.0 a in
          (parts, refl, (λ e. m, λ n. named_it), inl named_it, vary)
      | inr a ↦
          let none_told : told (build_cors_headers origin allowed) ≡ none =
            rw (build_cors_headers-refused origin allowed a) fixed_headers-get.0 in
          (
            parts,
            refl,
            (λ e. absurd (cc (e, none_told)), λ n. absurd (cc (a, member (listed n)))),
            inr none_told,
            rw (build_cors_headers-refused origin allowed a) fixed_headers-get.1,
          )
    ])
