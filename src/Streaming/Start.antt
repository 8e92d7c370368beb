-- ===== src/Streaming/Start.antt =====
-- app/usecases/start_stream_session_usecase.py and app/domain/streaming/start.py: bringing a
-- prepared session on air. The use case's own lock makes its executions one after another. A method
-- that awaits runs on the `Site`; the trace log and the further data of an event are left out.
mod Checks
pub mod Ending
pub mod Steps
pub mod Confirming
pub mod Confirmed
pub mod Effects
pub mod Polling
mod Examples
unfoldable pub use Checks.*
use ai_liver_yura.Common.{
  ℕ, zero, suc, ◌+◌, ◌-◌, ◌*◌, ◌≤◌, ◌<◌, String, ◌≡◌, refl, sym, ap, ◌∙◌, subst, ◌≢◌, ◌↔◌, ◌⊎◌, inl,
  inr, Bool, true, false, not, ◌&&◌, ◌||◌, Option, none, some, List, [], ◌∷◌, ◌++◌, map, arith, ltb,
  leb, if◌then◌else◌, Bool-cases, Option-cases, Eq, ◌==◌, string_eq, nat_eq, pair_eq, option_eq,
  bool_eq, list_eq, beq_refl, Result, ok, err, guard, Result-cases, length, length-append, drop,
  take, keep, any, All, All-append, All-map, All-keep, contains, is_empty, or_else, or_none, given,
  is_some, nat_beq, nat_beq_iff,
}
use ai_liver_yura.Common.Dict.{Dict, get, set}
use ai_liver_yura.Streaming.Session.{
  StreamSession, StreamSessionStatus, SessionError, TransitionArgs, no_args, transition, can_start,
  ready, start_approved, starting, live, start_failed, is_ready,
}
use ai_liver_yura.Streaming.Services.{
  Outside, get_output_status, get_stream_status, get_broadcast_status, Request, start_stream,
  broadcast_to_live, Site, Failure, rejected, failed, out_of_fuel, Outcome, returned, raised, M,
  continue, ◌>>=◌, ◌>>◌, return, raise, require, when, read, request, publish, sleep, set_step,
  set_obs, set_stream, set_broadcast, save_transition, try_except,
}

unfoldable pub with_trace : ApproveStreamStartCommand → TransitionArgs
with_trace command = record no_args { trace_id = some command.trace_id }

unfoldable pub approval : ApproveStreamStartCommand → TransitionArgs
approval command = record no_args {
  trace_id = some command.trace_id;
  start_approved_by = some command.approved_by;
  start_approved_at = some command.approved_at;
}

-- `_event`
unfoldable pub event : String → ApproveStreamStartCommand → M (Unit {0})
event name command = publish name command.session_id command.trace_id

abbrev pub is_start_failed : StreamSessionStatus → Bool
is_start_failed start_failed = true
is_start_failed _ = false

-- A failed start is made ready again.
unfoldable pub reopen : StreamSession → M StreamSession
reopen session =
    if is_start_failed session.status
    then save_transition session ready (record no_args { failure_reasons = some [] })
    else return session

-- From the approval to the session that is starting.
unfoldable pub approve : ApproveStreamStartCommand → StreamSession → M StreamSession
unfolding reopen approval with_trace event
approve command found = do
  session ← reopen found
  require (is_ready session.status && can_start session) "stream.start.not_ready"
  approved ← save_transition session start_approved (approval command)
  event "stream_start.approved" command
  begun ← save_transition approved starting (with_trace command)
  event "stream_start.started" command
  return begun

-- `stream_id`, where the empty text counts as missing.
unfoldable pub chosen_stream : Option String → M String
chosen_stream none = raise (rejected "stream.start.youtube_stream_missing")
chosen_stream (some id) =
    if is_empty id then raise (rejected "stream.start.youtube_stream_missing") else return id

module _ (o : Outside) (c : Settings) (command : ApproveStreamStartCommand) where
  unfoldable pub start_obs : M (Unit {0})
  unfolding event
  start_obs = do
    status ← read o get_output_status
    set_obs status
    require (contains ("active" ∷ "starting" ∷ "idle" ∷ []) status) "stream.start.obs_failed"
    when (status == "idle") (do request o start_stream; event "stream_start.step_updated" command)
    set_step "obs_active"
    active ← poll o c get_output_status "active" "obs_active"
    set_obs active
    event "stream_start.obs_active" command

  unfoldable pub start_youtube : StreamSession → M String
  unfolding chosen_stream event
  start_youtube begun = do
    id ← chosen_stream begun.selected_stream_id
    set_step "youtube_stream_active"
    status ← poll o c (get_stream_status id) "active" "youtube_stream_active"
    set_stream status
    event "stream_start.youtube_stream_active" command
    return id

  unfoldable pub start_broadcast : StreamSession → M (Unit {0})
  unfolding event
  start_broadcast begun = do
    set_step "broadcast_transition"
    status ← read o (get_broadcast_status begun.selected_broadcast_id)
    set_broadcast status
    require (contains ("live" ∷ "ready" ∷ "testing" ∷ []) status)
        "stream.start.broadcast_transition_failed"
    when (not (status == "live")) (do
      request o (broadcast_to_live begun.selected_broadcast_id)
      event "stream_start.broadcast_transition_requested" command)
    set_step "broadcast_live"
    on_air ← poll o c (get_broadcast_status begun.selected_broadcast_id) "live" "broadcast_live"
    set_broadcast on_air
    event "stream_start.broadcast_live" command

  -- "no inferred success is allowed": all three are read again.
  unfoldable pub confirm : StreamSession → String → M StreamSession
  unfolding with_trace
  confirm begun stream_id = do
    obs ← read o get_output_status
    set_obs obs
    stream ← read o (get_stream_status stream_id)
    set_stream stream
    broadcast ← read o (get_broadcast_status begun.selected_broadcast_id)
    set_broadcast broadcast
    require (obs == "active" && stream == "active" && broadcast == "live")
        "stream.start.external_state_changed"
    save_transition begun live (with_trace command)

  unfoldable pub succeeded : StreamSession → ℕ → M StreamStartResult
  unfolding event
  succeeded on_air started_at s = continue (event "stream_start.completed" command s) λ _ s'. (
    returned (record {
      session_id = on_air.session_id;
      trace_id = command.trace_id;
      command_id = command.command_id;
      status = on_air.status;
      successful = true;
      failed_step = none;
      obs_status = s.obs_status;
      youtube_stream_status = s.stream_status;
      youtube_broadcast_status = s.broadcast_status;
      failure_code = none;
      manual_intervention_required = false;
      started_at = started_at;
      completed_at = s.time;
      duplicate = false;
    }),
    s',
  )

  -- The body of the `try`.
  unfoldable pub attempt : StreamSession → ℕ → M StreamStartResult
  unfolding start_obs start_youtube start_broadcast confirm succeeded
  attempt begun started_at = do
    start_obs
    stream_id ← start_youtube begun
    start_broadcast begun
    on_air ← confirm begun stream_id
    succeeded on_air started_at

  unfoldable pub code_of : Failure → String → String
  unfolding failure_code
  code_of (rejected code) step = code
  code_of _ step = failure_code step

  abbrev pub needs_operator : Site → Bool
  needs_operator s =
      s.obs_status == "active" || s.stream_status == "active" || s.broadcast_status == "live"

  unfoldable pub failed_result : StreamSession → String → ℕ → M StreamStartResult
  unfolding event
  failed_result session code started_at s = continue (event "stream_start.failed" command s) λ _ s'.
      (
        returned (record {
          session_id = session.session_id;
          trace_id = command.trace_id;
          command_id = command.command_id;
          status = session.status;
          successful = false;
          failed_step = some s.step;
          obs_status = s.obs_status;
          youtube_stream_status = s.stream_status;
          youtube_broadcast_status = s.broadcast_status;
          failure_code = some code;
          manual_intervention_required = needs_operator s;
          started_at = started_at;
          completed_at = s.time;
          duplicate = false;
        }),
        s',
      )

  unfoldable pub failing : String → TransitionArgs
  failing code = record no_args {
    trace_id = some command.trace_id;
    failure_reasons = some (code ∷ []);
  }

  -- The handler.
  unfoldable pub give_up : StreamSession → ℕ → Failure → M StreamStartResult
  unfolding code_of failing failed_result
  give_up begun started_at error s =
      let code = code_of error s.step in
      let current = given (get command.session_id s.sessions) begun in
      continue (save_transition current start_failed (failing code) s)
        λ session. failed_result session code started_at

  abbrev pub blank_locals : Site → Site
  blank_locals s = record s {
    step = "obs_start";
    obs_status = "unknown";
    stream_status = "unknown";
    broadcast_status = "unknown";
  }

  -- What follows the approval.
  unfoldable pub go_live : StreamSession → M StreamStartResult
  unfolding attempt give_up
  go_live begun s = try_except (attempt begun s.time) (give_up begun s.time) (blank_locals s)

  abbrev pub after_validation : Result String StreamSession → M StreamStartResult
  after_validation (err code) = raise (rejected code)
  after_validation (ok session) = approve command session >>= go_live

  unfoldable pub execute_once : M StreamStartResult
  unfolding validate approve go_live
  execute_once s = after_validation (validate c command s) s

  abbrev pub remember :
      StartUsecase → Outcome StreamStartResult × Site → Outcome StreamStartResult × StartUsecase
  remember u (raised e, s) = (raised e, record u { site = s })
  remember u (returned r, s) = (
    returned r,
    record { site = s; results = set command.command_id r u.results; latest = some r },
  )

  abbrev pub cached :
      Option StreamStartResult → StartUsecase → Outcome StreamStartResult × StartUsecase
  cached none u = remember u (execute_once u.site)
  cached (some r) u = (returned (record r { duplicate = true }), u)

  unfoldable pub execute : StartUsecase → Outcome StreamStartResult × StartUsecase
  unfolding execute_once
  execute u = cached (get command.command_id u.results) u
