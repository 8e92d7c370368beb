-- ===== src/Streaming/End/Stop.antt =====
-- The methods of app/usecases/end_stream_session_usecase.py that stop the stream, `_stop_external`
-- and `_failure`.
use ai_liver_yura.Common.{
  ℕ, String, true, false, not, ◌&&◌, Option, none, some, [], ◌∷◌, if◌then◌else◌, ◌==◌, string_eq,
  nat_eq, pair_eq, option_eq, bool_eq, list_eq, contains,
}
use ai_liver_yura.Streaming.Session.{
  StreamSession, StreamSessionStatus, no_args, completed, emergency_stopped, stop_failed,
}
use ai_liver_yura.Streaming.Services.{
  Outside, get_stream_status, get_broadcast_status, broadcast_to_complete, Site, Failure, rejected,
  returned, M, continue, ◌>>=◌, ◌>>◌, return, require, when, read, request, set_obs, set_stream,
  set_broadcast, save_transition, try_except,
}
use ai_liver_yura.Streaming.End.{
  Mode, normal, emergency, StreamEndResult, Settings, EndCommand, is_normal, reload, can_fail,
  event, stop_obs_output,
}

-- `event_prefix`
abbrev pub prefixed : Mode → String → String → String
prefixed normal a b = a
prefixed emergency a b = b

abbrev pub final_status : Mode → StreamSessionStatus
final_status normal = completed
final_status emergency = emergency_stopped

-- `selected_stream_id or ""`
abbrev pub given_stream : Option String → String
given_stream none = ""
given_stream (some id) = id

module _ (o : Outside) (c : Settings) (command : EndCommand) where
  unfoldable pub fail_session : StreamSession → M (Unit {0})
  fail_session current =
      if can_fail current.status
      then (save_transition current stop_failed no_args >>= λ stored. return tt)
      else return tt

  -- The result of `_failure` and its event.
  unfoldable pub failure_result :
      StreamSession → ℕ → String → String → String → String → M StreamEndResult
  unfolding event
  failure_result session started step closing_status code broadcast s =
      continue
        (event (prefixed command.mode "stream_end.failed" "stream_emergency_stop.failed")
          command.trace_id session.session_id s)
        λ _ s'. (
          returned (record {
            session_id = session.session_id;
            trace_id = command.trace_id;
            command_id = command.command_id;
            end_mode = command.mode;
            successful = false;
            failed_step = some step;
            closing_status = closing_status;
            youtube_broadcast_status = broadcast;
            youtube_stream_status = "unknown";
            obs_output_status = "unknown";
            failure_code = some code;
            retryable = true;
            manual_intervention_required = true;
            started_at = started;
            completed_at = s.time;
          }),
          s',
        )

  -- `_failure`
  unfoldable pub failure : StreamSession → ℕ → String → String → String → String → M StreamEndResult
  unfolding reload fail_session failure_result
  failure session started step closing_status code broadcast = do
    current ← reload session
    fail_session current
    failure_result session started step closing_status code broadcast

  -- The last test, on the local variables.
  unfoldable pub require_stopped : M (Unit {0})
  require_stopped s =
      require (s.obs_status == "idle" && contains ("inactive" ∷ "no_data" ∷ []) s.stream_status)
        "external_state_not_stopped" s

  -- `obs = await self._stop_obs_output()`
  unfoldable pub stop_obs : M (Unit {0})
  unfolding stop_obs_output
  stop_obs = do status ← stop_obs_output o c; set_obs status

  -- The broadcast, within the `try` of `_stop_external`.
  unfoldable pub complete_broadcast : StreamSession → M (Unit {0})
  unfolding event
  complete_broadcast session = do
    before ← read o (get_broadcast_status session.selected_broadcast_id)
    set_broadcast before
    when (not (before == "complete"))
        (request o (broadcast_to_complete session.selected_broadcast_id))
    after ← read o (get_broadcast_status session.selected_broadcast_id)
    set_broadcast after
    require (after == "complete") "broadcast_not_complete"
    event
        (prefixed command.mode "stream_end.broadcast_complete"
          "stream_emergency_stop.broadcast_complete")
        command.trace_id session.session_id

  -- The body of the `try`.
  unfoldable pub stop_services : StreamSession → M (Unit {0})
  unfolding stop_obs complete_broadcast require_stopped
  stop_services session = do
    when (not (is_normal command.mode)) stop_obs
    complete_broadcast session
    when (is_normal command.mode) stop_obs
    stream ← read o (get_stream_status (given_stream session.selected_stream_id))
    set_stream stream
    require_stopped

  -- The result of `_stop_external` and its event.
  unfoldable pub stopped_result : StreamSession → ℕ → String → M StreamEndResult
  unfolding event
  stopped_result session started closing_status s =
      continue
        (event (prefixed command.mode "stream_end.completed" "stream_emergency_stop.completed")
          command.trace_id session.session_id s)
        λ _ s'. (
          returned (record {
            session_id = session.session_id;
            trace_id = command.trace_id;
            command_id = command.command_id;
            end_mode = command.mode;
            successful = true;
            failed_step = none;
            closing_status = closing_status;
            youtube_broadcast_status = s.broadcast_status;
            youtube_stream_status = s.stream_status;
            obs_output_status = s.obs_status;
            failure_code = none;
            retryable = false;
            manual_intervention_required = false;
            started_at = started;
            completed_at = s.time;
          }),
          s',
        )

  abbrev pub blank_locals : Site → Site
  blank_locals s = record s { broadcast_status = "unknown"; obs_status = "unknown" }

  -- What follows the `try`.
  unfoldable pub finish : StreamSession → ℕ → String → M StreamEndResult
  unfolding reload event stopped_result
  finish session started closing_status = do
    current ← reload session
    stored ← save_transition current (final_status command.mode) no_args
    event (prefixed command.mode "stream_end.obs_idle" "stream_emergency_stop.obs_idle")
        command.trace_id session.session_id
    stopped_result session started closing_status

  -- `f"stream.end.{type(error).__name__}"`; what the method itself raises is a RuntimeError.
  unfoldable pub code_of : Failure → String
  code_of (rejected reason) = "stream.end.RuntimeError"
  code_of _ = c.error_code

  unfoldable pub stop_failure : StreamSession → ℕ → String → Failure → M (Option StreamEndResult)
  unfolding failure code_of
  stop_failure session started closing_status error s =
      continue
        (failure session started "external_stop" closing_status (code_of error) s.broadcast_status
          s)
        λ result. return (some result)

  abbrev pub unless_failed : StreamSession → ℕ → String → Option StreamEndResult → M StreamEndResult
  unless_failed session started closing_status (some result) = return result
  unless_failed session started closing_status none = finish session started closing_status

  unfoldable pub stop_or_fail : StreamSession → ℕ → String → M (Option StreamEndResult)
  unfolding stop_services stop_failure
  stop_or_fail session started closing_status s =
      try_except (stop_services session >> return none)
        (stop_failure session started closing_status) (blank_locals s)

  -- `_stop_external`
  unfoldable pub stop_external : StreamSession → ℕ → String → M StreamEndResult
  unfolding stop_or_fail finish
  stop_external session started closing_status = do
    ended ← stop_or_fail session started closing_status
    unless_failed session started closing_status ended
