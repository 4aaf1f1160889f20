-- ===== src/Registration/Types.antt =====
-- mcp_authflow/registration/handler.py: the types that the two loops of checks ask of the metadata.
use mcp_authflow.Prelude.{◌≡◌, true, Bool, Option, none, some, [], ◌∷◌, arith, String}
use mcp_authflow.Json.{Json, null, str, array, Items, nil, cons, Members}
use mcp_authflow.Registration.Payload.{
  get_field, payload_error, first_bad, is_string_array, is_string, all_strings, array_fields,
  string_fields,
}

-- an array of texts
pub data AreTexts : Items → Type 0 where
  no_text : AreTexts nil
  one_text : (s : String) (rest : Items) → AreTexts rest → AreTexts (cons (str s) rest)

-- omitted, null or an array of texts
pub data MayBeTexts : Option Json → Type 0 where
  no_array : MayBeTexts none
  null_array : MayBeTexts (some null)
  texts : (xs : Items) → AreTexts xs → MayBeTexts (some (array xs))

-- omitted, null or a text
pub data MayBeText : Option Json → Type 0 where
  no_member : MayBeText none
  null_member : MayBeText (some null)
  text : (s : String) → MayBeText (some (str s))

-- each member of the metadata has its type
pub record IsTyped (payload : Members) : Type 0 where
  pub redirect_uris : MayBeTexts (get_field "redirect_uris" payload)
  pub grant_types : MayBeTexts (get_field "grant_types" payload)
  pub response_types : MayBeTexts (get_field "response_types" payload)
  pub client_name : MayBeText (get_field "client_name" payload)
  pub scope : MayBeText (get_field "scope" payload)
  pub auth_method : MayBeText (get_field "token_endpoint_auth_method" payload)

all_strings-AreTexts : (xs : Items) → all_strings xs ≡ true → AreTexts xs
all_strings-AreTexts nil h = no_text
all_strings-AreTexts (cons (str s) rest) h = one_text s rest (all_strings-AreTexts rest h)
all_strings-AreTexts (cons _ rest) h = absurd cc

is_string_array-MayBeTexts : (o : Option Json) → is_string_array o ≡ true → MayBeTexts o
is_string_array-MayBeTexts none h = no_array
is_string_array-MayBeTexts (some null) h = null_array
is_string_array-MayBeTexts (some (array xs)) h = texts xs (all_strings-AreTexts xs h)
is_string_array-MayBeTexts (some _) h = absurd cc

is_string-MayBeText : (o : Option Json) → is_string o ≡ true → MayBeText o
is_string-MayBeText none h = no_member
is_string-MayBeText (some null) h = null_member
is_string-MayBeText (some (str s)) h = text s
is_string-MayBeText (some _) h = absurd cc

first_bad-none :
    (test : Option Json → Bool) (payload : Members) (a b c : String)
    → first_bad test payload (a ∷ b ∷ c ∷ []) ≡ none
    → (test (get_field a payload) ≡ true)
      × (test (get_field b payload) ≡ true)
      × (test (get_field c payload) ≡ true)
first_bad-none test payload a b c h = ground arith

payload_error-first_bad :
    (payload : Members)
    → payload_error payload ≡ none
    → (first_bad is_string_array payload array_fields ≡ none)
      × (first_bad is_string payload string_fields ≡ none)
unfolding payload_error
payload_error-first_bad payload h = ground arith

pub payload_error-IsTyped : (payload : Members) → payload_error payload ≡ none → IsTyped payload
payload_error-IsTyped payload h =
    let (arrays, members) = payload_error-first_bad payload h in
    let (a, b, c) =
      first_bad-none is_string_array payload "redirect_uris" "grant_types" "response_types"
        arrays in
    let (d, e, f) =
      first_bad-none is_string payload "client_name" "scope" "token_endpoint_auth_method" members in
    record {
      redirect_uris = is_string_array-MayBeTexts _ a;
      grant_types = is_string_array-MayBeTexts _ b;
      response_types = is_string_array-MayBeTexts _ c;
      client_name = is_string-MayBeText _ d;
      scope = is_string-MayBeText _ e;
      auth_method = is_string-MayBeText _ f;
    }
