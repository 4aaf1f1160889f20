-- ===== src/Device/Poll.antt =====
-- What a poll is answered, against an independent table of the cases.
use mcp_authflow.Prelude.{
  ℕ, ◌+◌, ◌≤◌, ◌<◌, String, ◌≡◌, ◌≢◌, false, none, some, arith, ◌==◌, eq_iff, ◌↔◌, ◌⊎◌, inl, inr,
  Option-cases, Bool-cases,
}
use native.Mathlib.Decide.{dec_lt}
use mcp_authflow.Prelude.Time.{seconds}
use mcp_authflow.Prelude.Method.{ok, raise}
use mcp_authflow.Device.{
  naive, aware, DeviceCodeStatus, status_value, DeviceCodeRecord, DevicePollDecisionKind,
  authorization_pending, access_denied, slow_down, expired_token, invalid_grant, DevicePollDecision,
  type_error, status_to_decision_kind, as_utc, evaluate_device_poll,
}

-- The poll comes sooner after the last one than the interval allows.
abbrev pub IsHasty : ℕ → DeviceCodeRecord → Type 0
IsHasty now r = elim r.last_poll_at [
  | none ↦ ⊥
  | some last ↦ now < as_utc last + seconds r.interval
]

-- The tests that come before the status: the code and the client are the record's, and the poll is
-- neither late nor hasty.
pub record InTime (r : DeviceCodeRecord) (code client : String) (now : ℕ) : Type 0 where
  pub code_matches : r.device_code ≡ code
  pub client_matches : r.client_id ≡ client
  pub not_late : now ≤ as_utc r.expires_at
  pub not_hasty : ¬ IsHasty now r

-- The answer that a status stands for.
pub data Settles (status : String) : DevicePollDecisionKind → Type 0 where
  pends : status ≡ "pending" → Settles status authorization_pending
  denies : status ≡ "denied" → Settles status access_denied
  approves : status ≡ "approved" → Settles status DevicePollDecisionKind.approved
  unknown :
      status ≢ "pending" → status ≢ "denied" → status ≢ "approved" → Settles status invalid_grant

-- The cases in which a poll at the instant `now` is given each answer.
pub data Answers (r : DeviceCodeRecord) (code client : String) (now : ℕ)
    : DevicePollDecisionKind → Type 0 where
  wrong_code : r.device_code ≢ code → Answers r code client now invalid_grant
  wrong_client :
      r.device_code ≡ code → r.client_id ≢ client → Answers r code client now invalid_grant
  late :
      r.device_code ≡ code
      → r.client_id ≡ client
      → as_utc r.expires_at < now
      → Answers r code client now expired_token
  hasty :
      r.device_code ≡ code
      → r.client_id ≡ client
      → now ≤ as_utc r.expires_at
      → IsHasty now r
      → Answers r code client now slow_down
  settled :
      {kind : DevicePollDecisionKind}
      → InTime r code client now
      → Settles r.status kind
      → Answers r code client now kind

settles : (status : String) → Settles status (status_to_decision_kind status)
unfolding status_to_decision_kind
settles status = elim (Bool-cases (status == "pending")) [
  | inl p ↦ rw p (pends ((eq_iff _ _).0 p))
  | inr p ↦ rw p (elim (Bool-cases (status == "denied")) [
    | inl d ↦ rw d (denies ((eq_iff _ _).0 d))
    | inr d ↦ rw d (elim (Bool-cases (status == "approved")) [
      | inl a ↦ rw a (approves ((eq_iff _ _).0 a))
      | inr a ↦ rw a (unknown (differs p) (differs d) (differs a))
    ])
  ])
]
  where
    differs : {s t : String} → (s == t) ≡ false → s ≢ t
    differs {s} {t} h e = ground (arith, eq_iff s t)

module _ (r : DeviceCodeRecord) where
  status_approved :
      (status_to_decision_kind r.status ≡ DevicePollDecisionKind.approved)
      ↔ (r.status ≡ status_value DeviceCodeStatus.approved)
  unfolding status_to_decision_kind
  status_approved = ground (
    arith,
    eq_iff r.status "pending",
    eq_iff r.status "denied",
    eq_iff r.status "approved",
    eq_iff "pending" "approved",
    eq_iff "denied" "approved",
  )

module _ (clock : ℕ) (r : DeviceCodeRecord) (code client : String) (now : ℕ) where
  -- in time, the status alone decides
  evaluate-InTime :
      InTime r code client now
      → evaluate_device_poll clock (some r) code client (some (aware now))
        ≡ ok (record {
          kind = status_to_decision_kind r.status;
          record_ = some r;
          retry_after = none;
        })
  unfolding evaluate_device_poll
  evaluate-InTime t = elim (Option-cases r.last_poll_at) [
    | inl e ↦ ground (
      arith,
      t.code_matches,
      t.client_matches,
      eq_iff r.device_code code,
      eq_iff r.client_id client,
    )
    | inr (last, e) ↦ ground (
      arith,
      t.code_matches,
      t.client_matches,
      t.not_hasty,
      eq_iff r.device_code code,
      eq_iff r.client_id client,
    )
  ]

  evaluate_hasty :
      r.device_code ≡ code
      → r.client_id ≡ client
      → now ≤ as_utc r.expires_at
      → IsHasty now r
      → evaluate_device_poll clock (some r) code client (some (aware now))
        ≡ ok (record { kind = slow_down; record_ = some r; retry_after = some r.interval })
  unfolding evaluate_device_poll
  evaluate_hasty c i l h = elim (Option-cases r.last_poll_at) [
    | inl e ↦ ground (arith, eq_iff r.device_code code, eq_iff r.client_id client)
    | inr (last, e) ↦ ground (arith, eq_iff r.device_code code, eq_iff r.client_id client)
  ]

  IsHasty-or_not : IsHasty now r ⊎ (¬ IsHasty now r)
  IsHasty-or_not = elim (Option-cases r.last_poll_at) [
    | inl e ↦ inr (rw e (λ x. x))
    | inr (last, e) ↦ elim (dec_lt now (as_utc last + seconds r.interval)) [
      | yes h ↦ inl (rw e h)
      | no h ↦ inr (rw e h)
    ]
  ]

  -- A poll of a record at an aware instant raises nothing, and its answer is the one of the table:
  -- a wrong code or client before all else, then the expiry, then the interval, then the status.
  pub evaluate_device_poll-Answers :
      (d : DevicePollDecision) × (evaluate_device_poll clock (some r) code client (some (aware now))
        ≡ ok d)
      × Answers r code client now d.kind
  evaluate_device_poll-Answers = elim (Bool-cases (r.device_code == code)) [
    | inr c ↦ (
      record { kind = invalid_grant; record_ = none; retry_after = none },
      unfold evaluate_device_poll in ground arith,
      wrong_code (λ e. ground (arith, eq_iff r.device_code code)),
    )
    | inl c ↦ elim (Bool-cases (r.client_id == client)) [
      | inr i ↦ (
        record { kind = invalid_grant; record_ = some r; retry_after = none },
        unfold evaluate_device_poll in ground arith,
        wrong_client ((eq_iff _ _).0 c) (λ e. ground (arith, eq_iff r.client_id client)),
      )
      | inl i ↦ in_time_or_late ((eq_iff _ _).0 c) ((eq_iff _ _).0 i)
    ]
  ]
    where
      in_time_or_late :
          r.device_code ≡ code
          → r.client_id ≡ client
          → (d : DevicePollDecision) × (evaluate_device_poll clock
                (some r)
                code
                client
                (some (aware now))
              ≡ ok d)
            × Answers r code client now d.kind
      in_time_or_late c i = elim (dec_lt (as_utc r.expires_at) now) [
        | yes l ↦ (
          record { kind = expired_token; record_ = some r; retry_after = none },
          unfold evaluate_device_poll in
              ground (arith, eq_iff r.device_code code, eq_iff r.client_id client),
          late c i l,
        )
        | no l ↦ elim IsHasty-or_not [
          | inl h ↦ (
            record { kind = slow_down; record_ = some r; retry_after = some r.interval },
            evaluate_hasty c i (omega arith) h,
            hasty c i (omega arith) h,
          )
          | inr h ↦
              let t : InTime r code client now = record {
                code_matches = c;
                client_matches = i;
                not_late = omega arith;
                not_hasty = h;
              } in
              (
                record {
                  kind = status_to_decision_kind r.status;
                  record_ = some r;
                  retry_after = none;
                },
                evaluate-InTime t,
                settled t (settles r.status),
              )
        ]
      ]

  -- A poll at an aware instant is approved exactly when it presents the code and the client of the
  -- record, no later than the expiry and no sooner than the interval after the last poll, and the
  -- status of the record is "approved".
  pub evaluate_device_poll_approved :
      (d : DevicePollDecision)
      → evaluate_device_poll clock (some r) code client (some (aware now)) ≡ ok d
      → (d.kind ≡ DevicePollDecisionKind.approved)
        ↔ (InTime r code client now × (r.status ≡ status_value DeviceCodeStatus.approved))
  evaluate_device_poll_approved d h = (
    λ a.
        let t : InTime r code client now = record {
          code_matches = unfold evaluate_device_poll in ground (arith, eq_iff r.device_code code);
          client_matches = unfold evaluate_device_poll in ground (arith, eq_iff r.client_id client);
          not_late = unfold evaluate_device_poll in ground arith;
          not_hasty = λ x. soon a x;
        } in
        (t, (status_approved r).0 (ground (arith, evaluate-InTime t))),
    λ b. ground (arith, evaluate-InTime b.0, (status_approved r).1 b.1),
  )
    where
      soon : d.kind ≡ DevicePollDecisionKind.approved → IsHasty now r → ⊥
      soon a x = ground (
        arith,
        evaluate_hasty (unfold evaluate_device_poll in ground (arith, eq_iff r.device_code code))
            (unfold evaluate_device_poll in ground (arith, eq_iff r.client_id client))
            (unfold evaluate_device_poll in ground arith) x,
      )

-- A poll whose `now` is a naive `datetime` raises TypeError if it presents the code and the client
-- of the record, although the naive instants of the record are read as UTC.
pub evaluate_device_poll_naive :
    (clock : ℕ) (r : DeviceCodeRecord) (code client : String) (wall : ℕ)
    → r.device_code ≡ code
    → r.client_id ≡ client
    → evaluate_device_poll clock (some r) code client (some (naive wall)) ≡ raise type_error
unfolding evaluate_device_poll
evaluate_device_poll_naive clock r code client wall c i =
    ground (arith, eq_iff r.device_code code, eq_iff r.client_id client)
