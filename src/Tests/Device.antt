-- ===== src/Tests/Device.antt =====
-- The device flow at work.
use mathlib.Core.Option
use mcp_authflow.Device.Response.{
  Urllib, append_user_code, complete_uri, build_device_authorization_response,
}
use mcp_authflow.Prelude.{
  ℕ, ◌+◌, ◌*◌, ◌%◌, ◌≡◌, ◌↔◌, refl, true, none, some, List, [], ◌∷◌, ◌==◌, if◌then◌else◌, inr,
}
use native.Mathlib.Nat.{mod-lt}
use mcp_authflow.Prelude.Method.{ok}
use mcp_authflow.Text.{codes}
use mcp_authflow.Device.{
  naive, aware, DeviceCodeRecord, approved, slow_down, expired_token, DevicePollDecision,
  DeviceCodeStatus, status_value, status_to_decision_kind, as_utc, decide_interval, decide_expiry,
  evaluate_device_poll,
}
use mcp_authflow.Device.Poll.{
  InTime, Answers, evaluate_device_poll-Answers, evaluate_device_poll_approved,
}
use mcp_authflow.Device.UserCode.{
  CharacterData, ascii_is_alnum, ascii_upper, join, choose, draw_group, draw_groups,
  generate_user_code, slices, upper_text, clean, normalize_user_code,
}
use mcp_authflow.Device.UserCode.RoundTrip.{
  IsRandbelow, is_capital, Typed, finished, letter, mark, skipped, normalize-generate,
}

program : Unit {0}
unfolding status_to_decision_kind as_utc decide_interval decide_expiry evaluate_device_poll join
    choose draw_group draw_groups generate_user_code slices upper_text clean normalize_user_code
program = tt

abbrev grant : DeviceCodeRecord
grant = record {
  device_code = "dev";
  user_code = "WDJB-MJHT";
  client_id = "app";
  scopes = "read";
  status = "approved";
  user_id = none;
  expires_at = naive 900_000_000;
  interval = 5;
  last_poll_at = some (aware 10_000_000);
}

abbrev approval : DevicePollDecision
approval = record { kind = approved; record_ = some grant; retry_after = none }

polls :
    (evaluate_device_poll 0 (some grant) "dev" "app" (some (aware 15_000_000)) ≡ ok approval)
    × (evaluate_device_poll 14_999_999 (some grant) "dev" "app" none
        ≡ ok (record { kind = slow_down; record_ = some grant; retry_after = some 5 }))
    × (evaluate_device_poll 900_000_001 (some grant) "dev" "app" none
        ≡ ok (record { kind = expired_token; record_ = some grant; retry_after = none }))
unfolding program
polls = (refl, refl, refl)

evaluate_device_poll-Answers_example :
    (d : DevicePollDecision) × (evaluate_device_poll 0
        (some grant)
        "dev"
        "app"
        (some (aware 15_000_000))
      ≡ ok d)
    × Answers grant "dev" "app" 15_000_000 d.kind
evaluate_device_poll-Answers_example = evaluate_device_poll-Answers 0 grant "dev" "app" 15_000_000

evaluate_device_poll_approved_example : (approval.kind ≡ approved) ↔ (
    InTime grant "dev" "app" 15_000_000 × (grant.status ≡ status_value DeviceCodeStatus.approved))
evaluate_device_poll_approved_example =
    evaluate_device_poll_approved 0 grant "dev" "app" 15_000_000 approval polls.0

-- tables that know nothing beyond ASCII
abbrev ascii : CharacterData
ascii = record {
  is_alnum = ascii_is_alnum;
  upper = λ c. ascii_upper c ∷ [];
  ascii_alnum = λ c h. refl;
  ascii_uppers = λ c h. refl;
}

abbrev draws : ℕ → ℕ → ℕ
draws k n = (7 * k + 3) % n

draws-IsRandbelow : IsRandbelow draws
draws-IsRandbelow k n h = mod-lt (7 * k + 3) h

generated : generate_user_code draws 2 4 (codes "-") ≡ ok (codes "FNWG-PXHQ")
unfolding program
generated = refl

typed_clean : clean ascii (codes "fnwg pxhq") ≡ codes "FNWGPXHQ"
unfolding program
typed_clean = refl

-- the group in small letters is typed for the group in capitals
abbrev small :
    (code typed : List ℕ) (c : ℕ)
    → is_capital c ≡ true
    → Typed ascii code typed
    → Typed ascii (c ∷ code) ((c + 32) ∷ typed)
small code typed c capital t = letter c (c + 32) code typed (capital, inr refl) t

second_half : Typed ascii (codes "PXHQ") (codes "pxhq")
second_half =
    small _ _ b'P' refl (small _ _ b'X' refl (small _ _ b'H' refl (small _ _ b'Q' refl finished)))

in_small_letters : Typed ascii (codes "FNWG-PXHQ") (codes "fnwg pxhq")
in_small_letters = small _ _ b'F' refl (
    small _ _ b'N' refl (
      small _ _ b'W' refl
        (small _ _ b'G' refl (skipped b'-' _ _ refl (mark 32 _ _ refl second_half)))))

normalize-generate_example :
    normalize_user_code ascii (codes "fnwg pxhq") 2 4 (codes "-") ≡ codes "FNWG-PXHQ"
normalize-generate_example =
    normalize-generate ascii draws 2 4 (codes "-") (codes "FNWG-PXHQ") (codes "fnwg pxhq")
      draws-IsRandbelow refl generated in_small_letters

-- A toy `urllib` that knows one URI, and its query with the code.
abbrev urllib : Urllib
urllib = record {
  urlsplit = λ uri.
      if uri == "bad"
      then none
      else some (record {
        scheme = "https";
        netloc = "as.example";
        path = "/device";
        query = "a=1";
        fragment = "";
      });
  urlunsplit = λ parts. parts.query;
  parse_qsl = λ query. ("a", "1") ∷ [];
  urlencode = λ fields. elim fields [
    | [] ↦ ""
    | field ∷ rest ↦ elim rest [ [] ↦ "one" | next ∷ _ ↦ next.1 ]
  ];
}

-- the caller's URI is kept, one is put together without it, and a URI that does not split raises
response_uris :
    (Option.map
        (λ r. r.verification_uri_complete)
        (build_device_authorization_response urllib "d" "WDJB" "u" 600 5 (some "mine"))
      ≡ some "mine")
    × (Option.map
          (λ r. r.verification_uri_complete)
          (build_device_authorization_response urllib "d" "WDJB" "u" 600 5 none)
        ≡ some "WDJB")
    × (build_device_authorization_response urllib "d" "WDJB" "bad" 600 5 none ≡ none)
unfolding build_device_authorization_response complete_uri append_user_code
response_uris = (refl, refl, refl)
