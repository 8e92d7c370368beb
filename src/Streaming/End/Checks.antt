-- ===== src/Streaming/End/Checks.antt =====
-- The records and the tests of app/usecases/end_stream_session_usecase.py and
-- app/domain/streaming/end.py.
use ai_liver_yura.Common.{
  ℕ, String, Bool, true, false, ◌||◌, Option, none, some, [], ◌∷◌, ◌++◌, string_eq, nat_eq, pair_eq,
  option_eq, bool_eq, list_eq, Result, given, nat_beq,
}
use ai_liver_yura.Common.Dict.{Dict, get}
use ai_liver_yura.Streaming.Session.{
  StreamSession, StreamSessionStatus, TransitionArgs, no_args, live, closing_requested, closing,
  stopping, emergency_stopping, stop_failed,
}
use ai_liver_yura.Streaming.Gate.Policy.{ActivityStatus}
use ai_liver_yura.Streaming.Closing.{Turn}
use ai_liver_yura.Streaming.Services.{
  cancel_output, Site, rejected, returned, M, ◌>>◌, return, raise, require, publish,
}

pub record ApproveNormalStreamEndCommand : Type 0 where
  pub command_id : String
  pub trace_id : String
  pub session_id : String
  pub expected_state_version : ℕ
  pub approved_by : String
  pub approved_at : ℕ

pub record EmergencyStopStreamCommand : Type 0 where
  pub command_id : String
  pub trace_id : String
  pub session_id : String
  pub expected_state_version : ℕ
  pub requested_by : String
  pub reason_code : String
  pub operator_note : Option String
  pub requested_at : ℕ

pub data Mode : Type 0 where
  normal emergency : Mode

pub record StreamEndResult : Type 0 where
  pub session_id : String
  pub trace_id : String
  pub command_id : String
  pub end_mode : Mode
  pub successful : Bool
  pub failed_step : Option String
  pub closing_status : String
  pub youtube_broadcast_status : String
  pub youtube_stream_status : String
  pub obs_output_status : String
  pub failure_code : Option String
  pub retryable : Bool
  pub manual_intervention_required : Bool
  pub started_at : ℕ
  pub completed_at : ℕ

-- The arguments of the constructor. The readers of other components are asked after `n` calls of
-- the services; `closing_segment` is `none` where the run of show cannot be read, and else the
-- identifier of its closing segment. `executed n` is what the closing executor does as call `n`, and
-- `error_code` is the code for an exception of a service.
pub record Settings : Type 0 where
  pub test_mode : Bool
  pub obs_adapter : String
  pub youtube_adapter : String
  pub openings : ℕ → String → Option ActivityStatus
  pub main_segments : ℕ → String → Option ActivityStatus
  pub closing_segment : ℕ → String → Option (Option String)
  pub executed : ℕ → Result String Turn
  pub fresh : ℕ → String
  pub error_code : String

pub record EndUsecase : Type 0 where
  pub site : Site
  pub results : Dict String StreamEndResult
  pub latest : Option StreamEndResult

-- What the two commands have in common.
pub record EndCommand : Type 0 where
  pub command_id : String
  pub trace_id : String
  pub mode : Mode

abbrev pub is_normal : Mode → Bool
is_normal normal = true
is_normal emergency = false

-- `_validate`
unfoldable pub validate_version : ℕ → Option StreamSession → M StreamSession
validate_version version none = raise (rejected "stream.session.not_found")
validate_version version (some session) = do
  require (nat_beq session.state_version version) "stream.end.version_mismatch"
  return session

abbrev pub is_ending : StreamSessionStatus → Bool
is_ending closing_requested = true
is_ending closing = true
is_ending stopping = true
is_ending _ = false

-- `_validate_emergency`
unfoldable pub validate_emergency : ℕ → Option StreamSession → M StreamSession
validate_emergency version none = raise (rejected "stream.session.not_found")
validate_emergency version (some session) = do
  require (nat_beq session.state_version version || is_ending session.status)
      "stream.end.version_mismatch"
  return session

-- `self._sessions.get(…)`, handed on.
unfoldable pub find : {A : Type 0} → String → (Option StreamSession → M A) → M A
find id k s = k (get id s.sessions) s

-- `self._sessions.get(session.session_id) or session`
unfoldable pub reload : StreamSession → M StreamSession
reload session s = (returned (given (get session.session_id s.sessions) session), s)

-- The statuses that `emergency` accepts, and those that `_failure` makes STOP_FAILED.
unfoldable pub can_stop_now : StreamSessionStatus → Bool
can_stop_now live = true
can_stop_now closing_requested = true
can_stop_now closing = true
can_stop_now stopping = true
can_stop_now stop_failed = true
can_stop_now _ = false

unfoldable pub can_fail : StreamSessionStatus → Bool
can_fail closing = true
can_fail stopping = true
can_fail emergency_stopping = true
can_fail _ = false

unfoldable pub with_trace : String → TransitionArgs
with_trace trace = record no_args { trace_id = some trace }

-- `_event`
unfoldable pub event : String → String → String → M (Unit {0})
event name trace id = publish name id trace

unfoldable pub cancel : M (Unit {0})
cancel s = (returned tt, record s { requests = s.requests ++ cancel_output ∷ [] })
