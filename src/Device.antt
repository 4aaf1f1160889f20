-- ===== src/Device.antt =====
-- mcp_authflow/device.py: the data of the device flow and `evaluate_device_poll`. Instants are in
-- microseconds; `datetime.now(UTC)` is the argument `clock`.
pub mod Response
pub mod Poll
pub mod UserCode
use mcp_authflow.Prelude.{
  ℕ, ◌+◌, String, Bool, true, false, not, Option, none, some, ltb, ◌==◌, if◌then◌else◌,
}
use mcp_authflow.Prelude.Time.{seconds}
use mcp_authflow.Prelude.Method.{Result, ok, raise}
use mcp_authflow.Storage.{UserId}

-- A naive `datetime` is a wall clock with no zone, an aware one an instant.
pub data DateTime : Type 0 where
  naive aware : ℕ → DateTime

pub data DeviceCodeStatus : Type 0 where
  pending approved denied : DeviceCodeStatus

-- DeviceCodeStatus.X.value
abbrev pub status_value : DeviceCodeStatus → String
status_value pending = "pending"
status_value approved = "approved"
status_value denied = "denied"

pub record DeviceCodeRecord : Type 0 where
  pub device_code : String
  pub user_code : String
  pub client_id : String
  pub scopes : String
  pub status : String
  pub user_id : Option UserId
  pub expires_at : DateTime
  pub interval : ℕ
  pub last_poll_at : Option DateTime

pub data DevicePollDecisionKind : Type 0 where
  approved authorization_pending access_denied : DevicePollDecisionKind
  slow_down expired_token invalid_grant : DevicePollDecisionKind

pub record DevicePollDecision : Type 0 where
  pub kind : DevicePollDecisionKind
  pub record_ : Option DeviceCodeRecord
  pub retry_after : Option ℕ

-- Python raises TypeError when a naive and an aware `datetime` are compared or subtracted.
pub data PollError : Type 0 where
  type_error : PollError

-- _STATUS_TO_DECISION_KIND.get(status, DevicePollDecisionKind.INVALID_GRANT)
unfoldable pub status_to_decision_kind : String → DevicePollDecisionKind
status_to_decision_kind status =
    if status == status_value pending
    then authorization_pending
    else if status == status_value denied
    then access_denied
    else if status == status_value DeviceCodeStatus.approved
    then DevicePollDecisionKind.approved
    else invalid_grant

-- The instant of `_as_utc(dt)`, which is always aware.
unfoldable pub as_utc : DateTime → ℕ
as_utc (naive t) = t
as_utc (aware t) = t

abbrev decision : DevicePollDecisionKind → DeviceCodeRecord → Result PollError DevicePollDecision
decision kind r = ok (record { kind = kind; record_ = some r; retry_after = none })

-- the test of the status, the last step
abbrev decide_status : DeviceCodeRecord → Result PollError DevicePollDecision
decide_status r = decision (status_to_decision_kind r.status) r

-- from the test of the interval on, at an aware `current`
unfoldable pub decide_interval : ℕ → DeviceCodeRecord → Result PollError DevicePollDecision
decide_interval current r = elim r.last_poll_at [
  | none ↦ decide_status r
  | some last ↦
      if ltb current (as_utc last + seconds r.interval)
      then ok (record { kind = slow_down; record_ = some r; retry_after = some r.interval })
      else decide_status r
]

-- from the test of the expiry on; `_as_utc(record.expires_at) < current` raises if `current` is naive
unfoldable pub decide_expiry : DateTime → DeviceCodeRecord → Result PollError DevicePollDecision
unfolding decide_interval
decide_expiry (naive current) r = raise type_error
decide_expiry (aware current) r =
    if ltb (as_utc r.expires_at) current
    then decision expired_token r
    else decide_interval current r

abbrev pub current_time : ℕ → Option DateTime → DateTime
current_time clock none = aware clock
current_time clock (some now) = now

-- `compare_digest` of two encoded texts is their equality
unfoldable pub evaluate_device_poll :
    ℕ
    → Option DeviceCodeRecord
    → String
    → String
    → Option DateTime
    → Result PollError DevicePollDecision
unfolding decide_expiry
evaluate_device_poll clock none presented_device_code presented_client_id now =
    ok (record { kind = invalid_grant; record_ = none; retry_after = none })
evaluate_device_poll clock (some r) presented_device_code presented_client_id now =
    if not (r.device_code == presented_device_code)
    then ok (record { kind = invalid_grant; record_ = none; retry_after = none })
    else if not (r.client_id == presented_client_id)
    then decision invalid_grant r
    else decide_expiry (current_time clock now) r
