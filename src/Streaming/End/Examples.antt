-- ===== src/Streaming/End/Examples.antt =====
-- An emergency stop that succeeds, and a normal end tried again after its closing talk failed.
use ai_liver_yura.Common.{
  ℕ, zero, suc, String, ◌≡◌, refl, ap, true, false, Option, none, some, List, [], ◌∷◌, string_eq,
  nat_eq, pair_eq, option_eq, bool_eq, list_eq, err,
}
use ai_liver_yura.Common.Dict.{get, set, values}
use ai_liver_yura.Streaming.Repository.{save, find_active_or_preparing, first_active, is_active}
use ai_liver_yura.Streaming.Session.{
  StreamSession, no_args, create, can_start, transition, allowed, readiness_of, preparing, ready,
  start_approved, starting, live, closing_requested, closing, stop_failed,
}
use ai_liver_yura.Streaming.Session.History.{transitions, call, run}
use ai_liver_yura.Streaming.Lifecycle.{classify_lifecycle, value}
use ai_liver_yura.Streaming.Gate.{Gate, evaluate, decision, notices}
use ai_liver_yura.Streaming.Gate.Policy.{
  ActivityStatus, judge, judge_session, judge_going, is_live_external_operation,
  is_output_operation,
}
use ai_liver_yura.Streaming.Services.{
  Outside, Site, Outcome, returned, raised, ◌>>=◌, ◌>>◌, return, raise, require, when, read,
  request, publish, set_obs, set_stream, set_broadcast, save_session, save_transition, try_except,
}
use ai_liver_yura.Streaming.Services.Contracts.{Holds, Reached}
use ai_liver_yura.Streaming.End.{
  ApproveNormalStreamEndCommand, normal, emergency, StreamEndResult, Settings, EndUsecase,
  validate_version, validate_emergency, find, reload, can_stop_now, can_fail, with_trace, event,
  cancel, consult, ensure_adapter_mode, stop_obs_output, require_main_completed, run_closing,
}
use ai_liver_yura.Streaming.End.Stop.{
  fail_session, failure_result, failure, require_stopped, stop_obs, complete_broadcast,
  stop_services, stopped_result, finish, stop_or_fail, stop_external,
}
use ai_liver_yura.Streaming.End.Stopped.{IsStopped}
use ai_liver_yura.Streaming.End.Seen.{execute-IsStopped}
use ai_liver_yura.Streaming.End.Steps.{Finished}
use ai_liver_yura.Streaming.End.Outcomes.{execute-Finished}
use ai_liver_yura.Streaming.End.Retry.{execute-retry}
use ai_liver_yura.Streaming.End.Commands.{
  closing_done, now, begin_closing, closed, close_and_stop, normal_locked, emergency_locked, locked,
  Command, approves, stops, execute,
}

abbrev on_air : StreamSession
on_air = run (create "trace" "broadcast" "evening talk" "s1" 1) (
    transitions preparing no_args 2
    ∷ transitions ready (record no_args { selected_stream_id = some "stream" }) 3
    ∷ transitions start_approved (record no_args { start_approved_by = some "operator" }) 4
    ∷ transitions starting no_args 5
    ∷ transitions live no_args 6
    ∷ [])

abbrev half_ended : StreamSession
half_ended = run on_air (
    transitions closing_requested no_args 7
    ∷ transitions closing no_args 8
    ∷ transitions stop_failed no_args 9
    ∷ [])

abbrev nth : List String → ℕ → Option String
nth [] n = none
nth (x ∷ xs) zero = some x
nth (x ∷ xs) (suc n) = nth xs n

abbrev outside : Outside
outside = record {
  answers = λ n call. nth ("active" ∷ "" ∷ "idle" ∷ "live" ∷ "" ∷ "complete" ∷ "inactive" ∷ []) n;
  takes = λ n. 1;
  meanwhile = λ n r. r;
  retold = λ n g. g;
}

abbrev settings : Settings
settings = record {
  test_mode = false;
  obs_adapter = "obs_websocket";
  youtube_adapter = "youtube";
  openings = λ n id. some ActivityStatus.completed;
  main_segments = λ n id. some ActivityStatus.completed;
  closing_segment = λ n id. some (some "closing");
  executed = λ n. err "no voice";
  fresh = λ n. "a1";
  error_code = "stream.end.ConnectionError";
}

abbrev site : StreamSession → Option Gate → Site
site session gate = record {
  sessions = ("s1", session) ∷ [];
  calls = 0;
  time = 10;
  requests = [];
  published = [];
  gate = gate;
  notices = [];
  closings = [];
  step = "";
  obs_status = "";
  stream_status = "";
  broadcast_status = "";
}

abbrev start : EndUsecase
start = record { site = site on_air none; results = []; latest = none }

abbrev gate : Gate
gate = record { external = []; last_notifications = []; current_session_id = some "s1" }

abbrev again : EndUsecase
again = record { site = site half_ended (some gate); results = []; latest = none }

abbrev stop_now : Command
stop_now = stops (record {
  command_id = "c1";
  trace_id = "t1";
  session_id = "s1";
  expected_state_version = on_air.state_version;
  requested_by = "operator";
  reason_code = "noise";
  operator_note = none;
  requested_at = 9;
})

abbrev end_now : ApproveNormalStreamEndCommand
end_now = record {
  command_id = "c2";
  trace_id = "t2";
  session_id = "s1";
  expected_state_version = half_ended.state_version;
  approved_by = "operator";
  approved_at = 9;
}

abbrev result_of : Outcome StreamEndResult → StreamEndResult → StreamEndResult
result_of (returned r) d = r
result_of (raised e) d = d

abbrev dummy : StreamEndResult
dummy = record {
  session_id = "";
  trace_id = "";
  command_id = "";
  end_mode = normal;
  successful = true;
  failed_step = none;
  closing_status = "";
  youtube_broadcast_status = "";
  youtube_stream_status = "";
  obs_output_status = "";
  failure_code = none;
  retryable = false;
  manual_intervention_required = false;
  started_at = 0;
  completed_at = 0;
}

abbrev stopped : Outcome StreamEndResult × EndUsecase
stopped = execute outside settings stop_now start

abbrev stopped_with : StreamEndResult
stopped_with = result_of stopped.0 dummy

abbrev tried : Outcome StreamEndResult × EndUsecase
tried = execute outside settings (approves end_now) again

abbrev tried_with : StreamEndResult
tried_with = result_of tried.0 dummy

stopped_runs : (stopped ≡ (returned stopped_with, stopped.1)) × (stopped_with.successful ≡ true)
unfolding execute locked find consult ensure_adapter_mode now event reload ◌>>=◌ ◌>>◌ return raise
    require when read request publish set_obs set_stream set_broadcast save_session save_transition
    try_except run call create transition allowed readiness_of get set save can_start cancel
    emergency_locked validate_emergency with_trace can_stop_now stop_external stop_or_fail
    stop_services stop_obs stop_obs_output complete_broadcast require_stopped finish stopped_result
stopped_runs = (refl, refl)

tried_runs : (tried ≡ (returned tried_with, tried.1))
unfolding execute locked find consult ensure_adapter_mode now event reload ◌>>=◌ ◌>>◌ return raise
    require when read request publish set_obs set_stream set_broadcast save_session save_transition
    try_except run call create transition allowed readiness_of get set save can_start normal_locked
    validate_version evaluate decision notices judge judge_session judge_going classify_lifecycle
    find_active_or_preparing is_active first_active value require_main_completed begin_closing
    close_and_stop closed closing_done run_closing failure fail_session can_fail failure_result
    values is_live_external_operation is_output_operation
tried_runs = refl

on_air_id : on_air.session_id ≡ "s1"
unfolding run call create transition allowed
on_air_id = refl

half_ended_id : (half_ended.session_id ≡ "s1") × (half_ended.status ≡ stop_failed)
unfolding run call create transition allowed
half_ended_id = (refl, refl)

on_air_stored : get on_air.session_id start.site.sessions ≡ some on_air
unfolding get run call create transition allowed
on_air_stored = refl

execute-IsStopped_example :
    IsStopped outside settings
      (record { command_id = "c1"; trace_id = "t1"; mode = emergency })
      on_air
      0
      stopped.1.site
unfolding get
execute-IsStopped_example =
    execute-IsStopped outside settings (λ n r. refl) stop_now start stopped.1 stopped_with on_air
      refl on_air_stored on_air_id (stopped_runs.0) (stopped_runs.1)

execute-Finished_example :
    Holds
      (Finished emergency start.site.sessions on_air)
      (Reached start.site.sessions on_air)
      (stopped.0, stopped.1.site)
unfolding get
execute-Finished_example =
    execute-Finished outside settings (λ n r. refl) stop_now start on_air refl
      (ap (λ k. get k start.site.sessions) on_air_id) on_air_id

execute-retry_example : tried_with.successful ≡ false
unfolding get
execute-retry_example =
    execute-retry outside settings end_now half_ended gate again tried.1 tried_with refl refl
      (ap (λ k. get k again.site.sessions) (half_ended_id.0)) (half_ended_id.0) (half_ended_id.1)
      refl tried_runs
