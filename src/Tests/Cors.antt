-- ===== src/Tests/Cors.antt =====
-- CORS headers for three origins.
use mcp_authflow.Prelude.{
  ℕ, ◌≡◌, ◌≢◌, ◌↔◌, ◌⊎◌, refl, Bool, some, none, List, [], ◌∷◌, map, select, eqb,
}
use mcp_authflow.Text.{Text, codes}
use mcp_authflow.Dict
use mcp_authflow.Cors.{
  split_commas, lstrip, rstrip, strip, stripped, parse_allowed_origins, is_allowed_origin,
  get_cors_origin, fixed_headers, build_cors_headers,
}
use mcp_authflow.Cors.Origins.{told, build_cors_headers-listing}
use mcp_authflow.Cors.Listing.{IsIn, Item, origin_of, listing, AreItems, is_origin}

abbrev is_blank : ℕ → Bool
is_blank c = eqb c 32

abbrev raw : Text
raw = codes " https://a.example,, https://b.example "

program : Unit {0}
unfolding Dict.empty Dict.get Dict.put split_commas lstrip rstrip strip stripped
    parse_allowed_origins is_allowed_origin get_cors_origin fixed_headers build_cors_headers
program = tt

two_origins :
    parse_allowed_origins is_blank (codes " https://a.example,, https://b.example ")
    ≡ codes "https://a.example" ∷ codes "https://b.example" ∷ []
unfolding program
two_origins = refl

abbrev items : List Item
items =
    record { left = 32 ∷ []; origin = codes "https://a.example"; right = [] }
    ∷ record { left = []; origin = []; right = [] }
    ∷ record { left = 32 ∷ []; origin = codes "https://b.example"; right = 32 ∷ [] }
    ∷ []

written_out : listing items ≡ raw
written_out = refl

items-AreItems : AreItems is_blank items
items-AreItems = (
  (refl, refl, refl, refl, refl),
  ((refl, refl, refl, refl, refl), ((refl, refl, refl, refl, refl), tt)),
)

build_cors_headers-listing_example :
    let allowed = parse_allowed_origins is_blank (listing items) in
    let headers = build_cors_headers (codes "https://b.example") allowed in
    ((parts : List Item) × AreItems is_blank parts × (listing parts ≡ raw))
    × (allowed ≡ select is_origin (map origin_of items))
    × ((told headers ≡ some (codes "https://b.example")) ↔ (
        (codes "https://b.example" ≢ []) × IsIn (codes "https://b.example") (map origin_of items)))
    × ((told headers ≡ some (codes "https://b.example")) ⊎ (told headers ≡ none))
    × (Dict.get headers "Vary" ≡ some (codes "Origin"))
build_cors_headers-listing_example =
    build_cors_headers-listing is_blank raw items (codes "https://b.example") items-AreItems
