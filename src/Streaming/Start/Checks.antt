-- ===== src/Streaming/Start/Checks.antt =====
-- The records, the validation and the polling of app/usecases/start_stream_session_usecase.py and
-- app/domain/streaming/start.py.
use ai_liver_yura.Common.{
  ℕ, zero, suc, ◌+◌, String, Bool, true, false, not, ◌&&◌, ◌||◌, Option, none, some, [], ◌∷◌, leb,
  if◌then◌else◌, ◌==◌, string_eq, nat_eq, pair_eq, option_eq, bool_eq, list_eq, Result, ok, err,
  contains, nat_beq,
}
use ai_liver_yura.Common.Dict.{Dict, get}
use ai_liver_yura.Streaming.Session.{StreamSession, StreamSessionStatus, ready, start_failed}
use ai_liver_yura.Streaming.Services.{
  Outside, ServiceCall, Site, rejected, out_of_fuel, returned, raised, M, continue, read,
}

pub record ApproveStreamStartCommand : Type 0 where
  pub command_id : String
  pub trace_id : String
  pub session_id : String
  pub expected_state_version : ℕ
  pub approved_by : String
  pub approved_at : ℕ

pub record StreamStartResult : Type 0 where
  pub session_id : String
  pub trace_id : String
  pub command_id : String
  pub status : StreamSessionStatus
  pub successful : Bool
  pub failed_step : Option String
  pub obs_status : String
  pub youtube_stream_status : String
  pub youtube_broadcast_status : String
  pub failure_code : Option String
  pub manual_intervention_required : Bool
  pub started_at : ℕ
  pub completed_at : ℕ
  pub duplicate : Bool

-- The arguments of the constructor; times are ticks of the clock. `is_blank` is Python's test
-- `not text.strip()`.
pub record Settings : Type 0 where
  pub poll_interval : ℕ
  pub step_timeout : ℕ
  pub obs_adapter : String
  pub youtube_adapter : String
  pub allow_fake_youtube : Bool
  pub is_blank : String → Bool

pub record StartUsecase : Type 0 where
  pub site : Site
  pub results : Dict String StreamStartResult
  pub latest : Option StreamStartResult

-- `_failure_code`, with its default.
unfoldable pub failure_code : String → String
failure_code step =
    if step == "obs_start"
    then "stream.start.obs_failed"
    else if step == "obs_active"
    then "stream.start.obs_active_timeout"
    else if step == "youtube_stream_active"
    then "stream.start.youtube_stream_timeout"
    else if step == "broadcast_transition"
    then "stream.start.broadcast_transition_failed"
    else if step == "broadcast_live"
    then "stream.start.broadcast_live_timeout"
    else "stream.start.failed"

-- `self._obs.adapter_type not in {"obs_websocket", "demo_fake"}`, and the test on the other one.
unfoldable pub uses_test_adapter : Settings → Bool
uses_test_adapter c =
    not (contains ("obs_websocket" ∷ "demo_fake" ∷ []) c.obs_adapter)
    || (c.youtube_adapter == "fake" && not c.allow_fake_youtube)

abbrev is_startable : StreamSessionStatus → Bool
is_startable ready = true
is_startable start_failed = true
is_startable _ = false

-- The tests of `validate` on the session, and the session.
unfoldable pub validate_found :
    Settings → ApproveStreamStartCommand → Option StreamSession → Result String StreamSession
unfolding uses_test_adapter
validate_found c command none = err "stream.session.not_found"
validate_found c command (some session) =
    if uses_test_adapter c
    then err "stream.start.test_adapter"
    else if not (nat_beq session.state_version command.expected_state_version)
    then err "stream.start.version_mismatch"
    else if c.is_blank command.approved_by
    then err "request.invalid"
    else if not (is_startable session.status)
    then err "stream.start.not_ready"
    else ok session

unfoldable pub validate : Settings → ApproveStreamStartCommand → Site → Result String StreamSession
unfolding validate_found
validate c command s = validate_found c command (get command.session_id s.sessions)

-- `{"unknown", "failed", "disconnected", "error"}`
abbrev pub is_failure : String → Bool
is_failure v = contains ("unknown" ∷ "failed" ∷ "disconnected" ∷ "error" ∷ []) v

module _ (o : Outside) (c : Settings) where
  -- The loop of `_poll`; `none` of the fuel is left when it would go round once more than the time
  -- out allows.
  unfoldable pub poll_until : ℕ → ℕ → ServiceCall → String → String → M String
  unfolding failure_code
  poll_until zero deadline operation expected step s = (raised out_of_fuel, s)
  poll_until (suc fuel) deadline operation expected step s =
      continue (read o operation s) λ value s'.
        let again =
          poll_until fuel deadline operation expected step
            (record s' { time = s'.time + c.poll_interval }) in
        if value == expected
        then (returned value, s')
        else if is_failure value || leb deadline s'.time
        then (raised (rejected (failure_code step)), s')
        else again

  unfoldable pub poll : ServiceCall → String → String → M String
  unfolding poll_until
  poll operation expected step s =
      poll_until (suc c.step_timeout) (s.time + c.step_timeout) operation expected step s
