-- ===== src/Validation/Fields.antt =====
-- When the parsers of form fields raise.
use text.Mathlib.Text.{starts_with}
use mcp_authflow.Prelude.{
  ◌≡◌, ◌≢◌, refl, sym, ap, ◌∙◌, String, true, false, Option, none, some, List, [], ◌∷◌, ◌↔◌, arith,
  ◌==◌, eq_iff, Bool-cases, inl, inr,
}
use mcp_authflow.Prelude.Method.{ok, raise}
use mcp_authflow.Json.{Items, array, LoadFault, Loads, loaded, json_decode_error, load_fault}
use mcp_authflow.Validation.{
  Field, missing, raw, listed, type_error, uncaught, texts, join_items, scope_of_json, list_of_json,
  parse_scope_field, parse_json_field,
}

-- The field is a text that begins with a bracket and is a JSON array with an item that is no text.
abbrev pub IsMixedArray : (String → Loads) → Field → Type 0
IsMixedArray loads missing = ⊥
IsMixedArray loads (listed xs) = ⊥
IsMixedArray loads (raw s) =
    (starts_with s "[" ≡ true) × ((xs : Items) × (loads s ≡ loaded (array xs)) × (texts xs ≡ none))

-- The field is a text, which begins with a bracket, and of which `json.loads` raises `fault`.
abbrev pub IsFaultyArray : (String → Loads) → LoadFault → Field → Type 0
IsFaultyArray loads fault missing = ⊥
IsFaultyArray loads fault (listed xs) = ⊥
IsFaultyArray loads fault (raw s) = (starts_with s "[" ≡ true) × (loads s ≡ load_fault fault)

-- The field is a text, which is not empty, and of which `json.loads` raises `fault`.
abbrev pub IsFaultyText : (String → Loads) → LoadFault → Field → Type 0
IsFaultyText loads fault missing = ⊥
IsFaultyText loads fault (listed xs) = ⊥
IsFaultyText loads fault (raw s) = (s ≢ "") × (loads s ≡ load_fault fault)

join_items_mixed : (xs : Items) → (join_items xs ≡ raise type_error) ↔ (texts xs ≡ none)
join_items_mixed xs = go (texts xs) refl
  where
    go :
        (o : Option (List String))
        → texts xs ≡ o
        → (join_items xs ≡ raise type_error) ↔ (texts xs ≡ none)
    go none e = (λ h. e, λ h. ground (arith, e))
    go (some ss) e = (λ h. absurd (ground (arith, e, h)), λ h. absurd (cc (e, h)))

join_items_caught : (xs : Items) (fault : LoadFault) → join_items xs ≡ raise (uncaught fault) → ⊥
join_items_caught xs fault h = ground arith

scope_of_json_mixed :
    (s : String) (l : Loads)
    → (scope_of_json s l ≡ raise type_error)
      ↔ ((xs : Items) × (l ≡ loaded (array xs)) × (texts xs ≡ none))
unfolding scope_of_json
scope_of_json_mixed s (loaded (array xs)) =
    let (there, back) = join_items_mixed xs in
    (λ h. (xs, refl, there h), λ (ys, e, t). back (cc (e, t)))
scope_of_json_mixed s json_decode_error = (λ h. absurd cc, λ (xs, e, t). absurd cc)
scope_of_json_mixed s (load_fault fault) = (λ h. absurd cc, λ (xs, e, t). absurd cc)
scope_of_json_mixed s (loaded _) = (λ h. absurd cc, λ (xs, e, t). absurd cc)

scope_of_json_fault :
    (s : String) (l : Loads) (fault : LoadFault)
    → (scope_of_json s l ≡ raise (uncaught fault)) ↔ (l ≡ load_fault fault)
unfolding scope_of_json
scope_of_json_fault s (loaded (array xs)) fault =
    (λ h. absurd (join_items_caught xs fault h), λ e. absurd cc)
scope_of_json_fault s json_decode_error fault = (λ h. absurd cc, λ e. absurd cc)
scope_of_json_fault s (load_fault other) fault = (λ h. cc, λ e. cc)
scope_of_json_fault s (loaded _) fault = (λ h. absurd cc, λ e. absurd cc)

parse_scope_field_bracket :
    (loads : String → Loads) (s : String)
    → starts_with s "[" ≡ true
    → parse_scope_field loads (raw s) ≡ scope_of_json s (loads s)
unfolding parse_scope_field
parse_scope_field_bracket loads s b = elim (Bool-cases (s == "")) [
  | inl e ↦ absurd (cc (b, ap (λ t. starts_with t "[") ((eq_iff s "").0 e)))
  | inr e ↦ rw (e, b) refl
]

parse_scope_field_plain :
    (loads : String → Loads) (s : String)
    → starts_with s "[" ≡ false
    → (scope : String) × (parse_scope_field loads (raw s) ≡ ok scope)
unfolding parse_scope_field
parse_scope_field_plain loads s b = elim (Bool-cases (s == "")) [
  | inl e ↦ ("read", rw e refl)
  | inr e ↦ (s, rw (e, b) refl)
]

parse_scope_field_mixed :
    (loads : String → Loads) (s : String)
    → (parse_scope_field loads (raw s) ≡ raise type_error) ↔ IsMixedArray loads (raw s)
parse_scope_field_mixed loads s = elim (Bool-cases (starts_with s "[")) [
  | inl b ↦
      let (there, back) = scope_of_json_mixed s (loads s) in
      let same = parse_scope_field_bracket loads s b in
      (λ h. (b, there (sym same ∙ h)), λ (_, mixed). same ∙ back mixed)
  | inr b ↦
      let (scope, given) = parse_scope_field_plain loads s b in
      (λ h. absurd (cc (h, given)), λ (c, mixed). absurd (cc (b, c)))
]

parse_scope_field_fault :
    (loads : String → Loads) (s : String) (fault : LoadFault)
    → (parse_scope_field loads (raw s) ≡ raise (uncaught fault)) ↔ IsFaultyArray loads fault (raw s)
parse_scope_field_fault loads s fault = elim (Bool-cases (starts_with s "[")) [
  | inl b ↦
      let (there, back) = scope_of_json_fault s (loads s) fault in
      let same = parse_scope_field_bracket loads s b in
      (λ h. (b, there (sym same ∙ h)), λ (_, failed). same ∙ back failed)
  | inr b ↦
      let (scope, given) = parse_scope_field_plain loads s b in
      (λ h. absurd (cc (h, given)), λ (c, failed). absurd (cc (b, c)))
]

list_of_json_fault :
    (default : List String) (l : Loads) (fault : LoadFault)
    → (list_of_json default l ≡ raise fault) ↔ (l ≡ load_fault fault)
unfolding list_of_json
list_of_json_fault default (loaded (array xs)) fault = (λ h. absurd cc, λ e. absurd cc)
list_of_json_fault default json_decode_error fault = (λ h. absurd cc, λ e. absurd cc)
list_of_json_fault default (load_fault other) fault = (λ h. cc, λ e. cc)
list_of_json_fault default (loaded _) fault = (λ h. absurd cc, λ e. absurd cc)

parse_json_field_fault :
    (loads : String → Loads) (s : String) (fault : LoadFault) (default : List String)
    → (parse_json_field loads (raw s) default ≡ raise fault) ↔ IsFaultyText loads fault (raw s)
unfolding parse_json_field
parse_json_field_fault loads s fault default = elim (Bool-cases (s == "")) [
  | inl e ↦ (λ h. absurd (ground (arith, e, h)), λ (n, failed). absurd (n ((eq_iff s "").0 e)))
  | inr e ↦
      let (there, back) = list_of_json_fault default (loads s) fault in
      rw e (
        λ h. (λ empty. absurd (cc (e, (eq_iff s "").1 empty)), there h),
        λ (n, failed). back failed,
      )
]

-- `parse_scope_field` raises TypeError exactly at a text that begins with a bracket and is a JSON
-- array with an item that is no text; it raises what `json.loads` raises, unless that is
-- JSONDecodeError, exactly at a text that begins with a bracket and makes it do so; it raises nothing
-- else, and gives every other field a scope. `parse_json_field` raises what `json.loads` raises,
-- unless that is JSONDecodeError, exactly at a text that is not empty and makes it do so.
pub parse_scope_field_raises :
    (loads : String → Loads) (field : Field) (fault : LoadFault) (default : List String)
    → ((parse_scope_field loads field ≡ raise type_error) ↔ IsMixedArray loads field)
      × ((parse_scope_field loads field ≡ raise (uncaught fault)) ↔ IsFaultyArray loads fault field)
      × ((parse_json_field loads field default ≡ raise fault) ↔ IsFaultyText loads fault field)
unfolding parse_scope_field parse_json_field
parse_scope_field_raises loads missing fault default = (
  (λ h. absurd cc, λ h. elim h [ ]),
  (λ h. absurd cc, λ h. elim h [ ]),
  (λ h. absurd cc, λ h. elim h [ ]),
)
parse_scope_field_raises loads (listed []) fault default = (
  (λ h. absurd cc, λ h. elim h [ ]),
  (λ h. absurd cc, λ h. elim h [ ]),
  (λ h. absurd cc, λ h. elim h [ ]),
)
parse_scope_field_raises loads (listed (x ∷ xs)) fault default = (
  (λ h. absurd cc, λ h. elim h [ ]),
  (λ h. absurd cc, λ h. elim h [ ]),
  (λ h. absurd cc, λ h. elim h [ ]),
)
parse_scope_field_raises loads (raw s) fault default = (
  parse_scope_field_mixed loads s,
  parse_scope_field_fault loads s fault,
  parse_json_field_fault loads s fault default,
)
