-- ===== src/Streaming/Session.antt =====
-- app/domain/streaming/session.py: the stream session and its state machine. The wall clock
-- (`utc_now`) is the argument `now`; times are numbers of microseconds.
mod Status
pub mod Transitions
pub mod History
pub mod Approval
unfoldable pub use Status.*
use ai_liver_yura.Common.{
  ℕ, String, ◌+◌, Bool, true, false, not, ◌&&◌, Option, none, some, List, [], Result, ok, err,
  ◌>>=◌, ◌>>◌, guard, or_else, or_none, given, is_empty, ◌==◌, string_eq,
}

pub data HealthStatus : Type 0 where
  healthy degraded unavailable unknown : HealthStatus

-- `metadata` and `latency_ms` carry no decision and are left out.
pub record HealthCheckItem : Type 0 where
  pub check_id : String
  pub component : String
  pub status : HealthStatus
  pub required : Bool
  pub summary : String
  pub failure_reason : Option String
  pub observed_at : ℕ
  pub retryable : Bool

pub record StreamSession : Type 0 where
  pub trace_id : String
  pub selected_broadcast_id : String
  pub title : String
  pub session_id : String
  pub selected_stream_id : Option String
  pub live_chat_id : Option String
  pub status : StreamSessionStatus
  pub health_snapshot : List HealthCheckItem
  pub readiness : StreamReadiness
  pub failure_reasons : List String
  pub run_of_show_id : Option String
  pub created_at : ℕ
  pub updated_at : ℕ
  pub state_version : ℕ
  pub start_approved_by : Option String
  pub start_approved_at : Option ℕ
  pub opening_activity_id : Option String
  pub current_segment_id : Option String
  pub current_segment_activity_id : Option String

-- The dataclass's defaults, for the four fields that a caller and `uuid4` give.
unfoldable pub create : String → String → String → String → ℕ → StreamSession
create trace broadcast title session now = record {
  trace_id = trace;
  selected_broadcast_id = broadcast;
  title = title;
  session_id = session;
  selected_stream_id = none;
  live_chat_id = none;
  status = created;
  health_snapshot = [];
  readiness = StreamReadiness.unknown;
  failure_reasons = [];
  run_of_show_id = none;
  created_at = now;
  updated_at = now;
  state_version = 0;
  start_approved_by = none;
  start_approved_at = none;
  opening_activity_id = none;
  current_segment_id = none;
  current_segment_activity_id = none;
}

unfoldable pub can_start : StreamSession → Bool
can_start s = is_ready s.status && is_ready_readiness s.readiness

-- The keyword arguments of `transition`.
pub record TransitionArgs : Type 0 where
  pub trace_id : Option String
  pub selected_stream_id : Option String
  pub live_chat_id : Option String
  pub health_snapshot : Option (List HealthCheckItem)
  pub failure_reasons : Option (List String)
  pub run_of_show_id : Option String
  pub start_approved_by : Option String
  pub start_approved_at : Option ℕ

abbrev pub no_args : TransitionArgs
no_args = record {
  trace_id = none;
  selected_stream_id = none;
  live_chat_id = none;
  health_snapshot = none;
  failure_reasons = none;
  run_of_show_id = none;
  start_approved_by = none;
  start_approved_at = none;
}

-- The `ValueError`s of this file.
pub data SessionError : Type 0 where
  invalid_transition : StreamSessionStatus → StreamSessionStatus → SessionError
  not_live opening_attached segment_attached : SessionError

-- `datetime or datetime`: a time is never falsy.
abbrev or_time : Option ℕ → Option ℕ → Option ℕ
or_time none d = d
or_time (some t) d = some t

abbrev given_or {ℓ} : {A : Type ℓ} → Option A → Option A → Option A
given_or none d = d
given_or (some a) d = some a

-- The `replace` of `transition`.
abbrev pub moved : StreamSession → StreamSessionStatus → TransitionArgs → ℕ → StreamSession
moved s status args now = record s {
  trace_id = or_else args.trace_id s.trace_id;
  selected_stream_id = or_none args.selected_stream_id s.selected_stream_id;
  live_chat_id = given_or args.live_chat_id s.live_chat_id;
  status = status;
  health_snapshot = given args.health_snapshot s.health_snapshot;
  readiness = readiness_of status;
  failure_reasons = given args.failure_reasons s.failure_reasons;
  run_of_show_id = or_none args.run_of_show_id s.run_of_show_id;
  updated_at = now;
  state_version = s.state_version + 1;
  start_approved_by = or_none args.start_approved_by s.start_approved_by;
  start_approved_at = or_time args.start_approved_at s.start_approved_at;
}

unfoldable pub transition :
    StreamSession → StreamSessionStatus → TransitionArgs → ℕ → Result SessionError StreamSession
transition s status args now = do
  guard (allowed s.status status) (invalid_transition s.status status)
  ok (moved s status args now)

-- `attached is not None and attached != activity_id`
abbrev other_opening : Option String → String → Bool
other_opening none activity = false
other_opening (some attached) activity = not (attached == activity)

abbrev pub opened : StreamSession → String → ℕ → StreamSession
opened s activity now = record s {
  opening_activity_id = some activity;
  updated_at = now;
  state_version = s.state_version + 1;
}

unfoldable pub attach_opening : StreamSession → String → ℕ → Result SessionError StreamSession
attach_opening s activity now = do
  guard (is_live s.status) not_live
  guard (not (other_opening s.opening_activity_id activity)) opening_attached
  ok (opened s activity now)

-- `attached and attached != activity_id`: here the empty text counts as nothing attached.
abbrev other_segment : Option String → String → Bool
other_segment none activity = false
other_segment (some attached) activity = not (is_empty attached) && not (attached == activity)

abbrev pub segmented : StreamSession → String → String → ℕ → StreamSession
segmented s segment activity now = record s {
  current_segment_id = some segment;
  current_segment_activity_id = some activity;
  updated_at = now;
  state_version = s.state_version + 1;
}

unfoldable pub attach_main_segment :
    StreamSession → String → String → ℕ → Result SessionError StreamSession
attach_main_segment s segment activity now = do
  guard (is_live s.status) not_live
  guard (not (other_segment s.current_segment_activity_id activity)) segment_attached
  ok (segmented s segment activity now)
