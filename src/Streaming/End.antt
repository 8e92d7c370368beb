-- ===== src/Streaming/End.antt =====
-- app/usecases/end_stream_session_usecase.py and app/domain/streaming/end.py: the normal end, with
-- its closing talk, and the emergency stop. The use case's lock makes the two one after another;
-- the task that an emergency stop cancels and the further data of an event are left out.
mod Checks
pub mod Stop
pub mod Commands
pub mod Stopped
pub mod Success
pub mod Succeeds
pub mod Parts
pub mod Seen
pub mod Quiet
pub mod Steps
pub mod Outcomes
pub mod Retry
mod Examples
unfoldable pub use Checks.*
use ai_liver_yura.Common.{
  ℕ, zero, suc, ◌+◌, ◌-◌, ◌*◌, ◌≤◌, ◌<◌, String, ◌≡◌, refl, sym, ap, ◌∙◌, subst, ◌≢◌, ◌↔◌, ◌⊎◌, inl,
  inr, Bool, true, false, not, ◌&&◌, ◌||◌, Option, none, some, List, [], ◌∷◌, ◌++◌, map, arith, ltb,
  leb, if◌then◌else◌, Bool-cases, Option-cases, Eq, ◌==◌, string_eq, nat_eq, pair_eq, option_eq,
  bool_eq, list_eq, beq_refl, Result, ok, err, guard, Result-cases, length, length-append, drop,
  take, keep, any, All, All-append, All-map, All-keep, contains, is_empty, or_else, or_none, given,
  is_some, nat_beq, nat_beq_iff,
}
use ai_liver_yura.Common.Dict.{Dict, get, set}
use ai_liver_yura.Streaming.Session.{
  StreamSession, StreamSessionStatus, SessionError, TransitionArgs, no_args, transition, is_live,
  live, closing_requested, closing, stopping, completed, emergency_stop_requested,
  emergency_stopping, emergency_stopped, stop_failed,
}
use ai_liver_yura.Streaming.Lifecycle.{
  LifecycleOperation, LifecycleDecision, start_normal_end, start_emergency_stop, start_closing,
}
use ai_liver_yura.Streaming.Gate.{Gate, Notice, evaluate, reason_text}
use ai_liver_yura.Streaming.Gate.Policy.{ActivityStatus, World, is_stop_failed}
use ai_liver_yura.Streaming.Closing
use ai_liver_yura.Streaming.Closing.{
  StreamClosingActivity, StreamClosingStatus, Turn, with_status, speech_failure,
}
use ai_liver_yura.Streaming.Services.{
  Outside, get_output_status, Request, stop_stream, broadcast_to_complete, cancel_output, Site,
  Failure, rejected, failed, out_of_fuel, Outcome, returned, raised, M, continue, ◌>>=◌, ◌>>◌,
  return, raise, require, when, read, request, publish, called, set_obs, set_stream, set_broadcast,
  save_transition, try_except,
}

module _ (o : Outside) (c : Settings) where
  -- What the gate reads as it is asked.
  abbrev pub world : Site → World
  world s = record {
    sessions = s.sessions;
    openings = c.openings s.calls;
    main_segments = c.main_segments s.calls;
  }

  abbrev pub decided : LifecycleDecision × (Gate × List Notice) → M (Option LifecycleDecision)
  decided (d, (g, ns)) s =
      (returned (some d), record s { gate = some g; notices = s.notices ++ ns })

  abbrev pub asked :
      Option Gate → LifecycleOperation → String → Option ℕ → String → M (Option LifecycleDecision)
  asked none op id expected trace s = (returned none, s)
  asked (some g) op id expected trace s =
      decided (evaluate (world s) g op id none expected trace s.time) s

  -- The decision of the gate, if there is a gate.
  unfoldable pub consult :
      LifecycleOperation → String → Option ℕ → String → M (Option LifecycleDecision)
  consult op id expected trace s = asked s.gate op id expected trace s

  abbrev pub is_allowed : Option LifecycleDecision → Bool
  is_allowed none = true
  is_allowed (some d) = d.allowed

  -- `decision.reason_code or "lifecycle.operation_not_allowed"`
  abbrev pub refusal : Option LifecycleDecision → String
  refusal none = ""
  refusal (some d) = or_else (reason_text d.reason_code) "lifecycle.operation_not_allowed"

  -- `_ensure_adapter_mode`
  unfoldable pub ensure_adapter_mode : M (Unit {0})
  ensure_adapter_mode =
      require (c.test_mode || not (c.obs_adapter == "fake" || c.youtube_adapter == "fake"))
        "stream.end.fake_requires_test_mode"

  unfoldable pub stop_obs_output : M String
  stop_obs_output = do
    status ← read o get_output_status
    when (not (status == "idle")) (request o stop_stream)
    read o get_output_status

  abbrev is_complete : Option ActivityStatus → Bool
  is_complete (some ActivityStatus.completed) = true
  is_complete _ = false

  -- The main segment of the session, at this moment.
  unfoldable pub require_main_completed : String → M (Unit {0})
  require_main_completed id s =
      require (is_complete (c.main_segments s.calls id)) "stream.end.main.not_completed" s

  unfoldable pub store_closing : StreamClosingActivity → M (Unit {0})
  store_closing a s = (returned tt, record s { closings = set a.session_id a s.closings })

  -- `activity.with_status(…)`, stored.
  unfoldable pub settle_closing :
      StreamClosingActivity → StreamClosingStatus → Option String → M (Unit {0})
  unfolding store_closing
  settle_closing a status failure s = store_closing (with_status a status failure s.time) s

  unfoldable pub new_closing : StreamSession → String → String → M StreamClosingActivity
  new_closing session trace segment s =
      let activity : StreamClosingActivity = record {
        session_id = session.session_id;
        trace_id = trace;
        segment_id = segment;
        activity_id = c.fresh s.calls;
        status = Closing.pending;
        failure_code = none;
        started_at = none;
        completed_at = none;
      } in
      (returned (with_status activity Closing.running none s.time), s)

  -- The executor is a call like those of the services.
  unfoldable pub execute_closing : M (Option String)
  execute_closing s = (returned (speech_failure (c.executed s.calls)), called o s)

  abbrev pub closing_ends : StreamClosingActivity → String → Option String → M Bool
  closing_ends a trace (some failure) = do
    settle_closing a Closing.failed (some failure)
    return false
  closing_ends a trace none = do
    settle_closing a Closing.completed none
    event "stream_closing.completed" trace a.session_id
    return true

  unfoldable pub talk : StreamSession → String → String → M Bool
  unfolding settle_closing new_closing execute_closing
  talk session trace segment = do
    activity ← new_closing session trace segment
    store_closing activity
    event "stream_closing.started" trace activity.session_id
    event "stream_closing.output_started" trace activity.session_id
    failure ← execute_closing
    closing_ends activity trace failure

  abbrev pub closing_found : StreamSession → String → Option (Option String) → M Bool
  closing_found session trace none = raise failed
  closing_found session trace (some none) = return false
  closing_found session trace (some (some segment)) = talk session trace segment

  abbrev pub closing_of : StreamSession → String → Option String → M Bool
  closing_of session trace none s = (returned false, s)
  closing_of session trace (some run_of_show) s =
      if is_empty run_of_show
      then (returned false, s)
      else closing_found session trace (c.closing_segment s.calls run_of_show) s

  -- `_run_closing`; whether its answer is "completed".
  unfoldable pub run_closing : StreamSession → String → M Bool
  unfolding consult talk
  run_closing session trace = do
    decision ← consult start_closing session.session_id none trace
    if is_allowed decision then closing_of session trace session.run_of_show_id else return false
