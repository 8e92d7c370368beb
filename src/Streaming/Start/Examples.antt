-- ===== src/Streaming/Start/Examples.antt =====
-- A start that goes on air and one that fails.
use ai_liver_yura.Common.{
  ℕ, zero, suc, ◌+◌, ◌*◌, ◌≤◌, ◌<◌, String, ◌≡◌, refl, ◌⊎◌, true, false, Option, none, some, List,
  [], ◌∷◌, arith, string_eq, nat_eq, pair_eq, option_eq, bool_eq, list_eq, is_empty,
}
use ai_liver_yura.Common.Dict.{get, set}
use ai_liver_yura.Streaming.Repository.{save}
use ai_liver_yura.Streaming.Session.{
  StreamSession, no_args, create, can_start, transition, allowed, readiness_of, preparing, live,
  ready,
}
use ai_liver_yura.Streaming.Services.{
  Outside, Site, Outcome, returned, raised, ◌>>=◌, ◌>>◌, return, raise, require, when, read,
  request, publish, set_step, set_obs, set_stream, set_broadcast, save_session, save_transition,
  try_except, get_output_status,
}
use ai_liver_yura.Streaming.Services.Rules.{ended}
use ai_liver_yura.Streaming.Services.Contracts.{Reached}
use ai_liver_yura.Streaming.Start.{
  ApproveStreamStartCommand, StreamStartResult, Settings, StartUsecase, validate, validate_found,
  poll_until, poll, failure_code, event, reopen, approve, chosen_stream, start_obs, start_youtube,
  start_broadcast, confirm, succeeded, attempt, failed_result, failing, give_up, go_live,
  execute_once, execute, code_of, with_trace, approval, uses_test_adapter,
}
use ai_liver_yura.Streaming.Start.Ending.{execute-ends}
use ai_liver_yura.Streaming.Start.Confirmed.{IsOnAir, execute-IsOnAir}
use ai_liver_yura.Streaming.Start.Effects.{execute-again, IsGivenUp, execute-IsGivenUp}
use ai_liver_yura.Streaming.Start.Steps.{execute-Reached}
use ai_liver_yura.Streaming.Start.Polling.{IsPending, poll-IsBounded, poll-notices}
use ai_liver_yura.Streaming.Session.History.{transitions, call, run}

abbrev prepared : StreamSession
prepared = run (create "trace" "broadcast" "evening talk" "s1" 1) (
    transitions preparing no_args 2
    ∷ transitions ready (record no_args { selected_stream_id = some "stream" }) 3
    ∷ [])

abbrev nth : List String → ℕ → Option String
nth [] n = none
nth (x ∷ xs) zero = some x
nth (x ∷ xs) (suc n) = nth xs n

abbrev outside : List String → Outside
outside answers = record {
  answers = λ n call. nth answers n;
  takes = λ n. 1;
  meanwhile = λ n r. r;
  retold = λ n g. g;
}

abbrev good : Outside
good = outside (
    "idle" ∷ "" ∷ "starting" ∷ "active" ∷ "active" ∷ "ready" ∷ "" ∷ "live" ∷ "active" ∷ "active"
    ∷ "live" ∷ [])

abbrev bad : Outside
bad = outside ("idle" ∷ "" ∷ "disconnected" ∷ [])

abbrev settings : Settings
settings = record {
  poll_interval = 1;
  step_timeout = 30;
  obs_adapter = "obs_websocket";
  youtube_adapter = "youtube";
  allow_fake_youtube = false;
  is_blank = λ s. is_empty s;
}

abbrev command : ApproveStreamStartCommand
command = record {
  command_id = "c1";
  trace_id = "t1";
  session_id = "s1";
  expected_state_version = 2;
  approved_by = "operator";
  approved_at = 3;
}

abbrev early : Site
early = record {
  sessions = ("s1", prepared) ∷ [];
  calls = 0;
  time = 4;
  requests = [];
  published = [];
  gate = none;
  notices = [];
  closings = [];
  step = "";
  obs_status = "";
  stream_status = "";
  broadcast_status = "";
}

abbrev fresh : StartUsecase
fresh = record { site = early; results = []; latest = none }

abbrev result_of : Outcome StreamStartResult → StreamStartResult → StreamStartResult
result_of (returned r) d = r
result_of (raised e) d = d

abbrev dummy : StreamStartResult
dummy = record {
  session_id = "";
  trace_id = "";
  command_id = "";
  status = live;
  successful = true;
  failed_step = none;
  obs_status = "";
  youtube_stream_status = "";
  youtube_broadcast_status = "";
  failure_code = none;
  manual_intervention_required = false;
  started_at = 0;
  completed_at = 0;
  duplicate = false;
}

abbrev run_good : Outcome StreamStartResult × StartUsecase
run_good = execute good settings command fresh

abbrev run_bad : Outcome StreamStartResult × StartUsecase
run_bad = execute bad settings command fresh

abbrev good_result : StreamStartResult
good_result = result_of run_good.0 dummy

abbrev bad_result : StreamStartResult
bad_result = result_of run_bad.0 dummy

good_runs : (run_good ≡ (returned good_result, run_good.1)) × (good_result.successful ≡ true)
unfolding execute execute_once validate validate_found uses_test_adapter approve reopen ◌>>=◌ ◌>>◌
    return raise require when read request publish set_step set_obs set_stream set_broadcast
    save_session save_transition try_except approval with_trace event go_live attempt start_obs
    start_youtube start_broadcast chosen_stream poll poll_until confirm succeeded transition run
    call create allowed save can_start get readiness_of set
good_runs = (refl, refl)

bad_runs : (run_bad ≡ (returned bad_result, run_bad.1)) × (bad_result.successful ≡ false)
unfolding execute execute_once validate validate_found uses_test_adapter approve reopen ◌>>=◌ ◌>>◌
    return raise require when read request publish set_step set_obs set_stream set_broadcast
    save_session save_transition try_except approval with_trace event go_live attempt start_obs poll
    poll_until failure_code code_of failing give_up failed_result transition run call create allowed
    save can_start get readiness_of set
bad_runs = (refl, refl)

execute-ends_example : ended run_good.0 ≡ true
execute-ends_example = execute-ends good settings (omega arith) command fresh

execute-IsOnAir_example :
    IsOnAir good settings command (some "operator") good_result run_good.1.site
unfolding get
execute-IsOnAir_example =
    execute-IsOnAir good settings command fresh run_good.1 good_result refl refl (good_runs.0)
      (good_runs.1)

execute-IsGivenUp_example : IsGivenUp bad settings command bad_result run_bad.1.site
unfolding get
execute-IsGivenUp_example =
    execute-IsGivenUp bad settings command fresh run_bad.1 bad_result refl (bad_runs.0) (bad_runs.1)

execute-again_example :
    execute good settings command run_good.1
    ≡ (returned (record good_result { duplicate = true }), run_good.1)
execute-again_example =
    execute-again good settings command fresh run_good.1 good_result (good_runs.0)

prepared_id : prepared.session_id ≡ "s1"
unfolding run call create transition allowed get
prepared_id = refl

execute-Reached_example : Reached early.sessions prepared run_good.1.site.sessions
unfolding get
execute-Reached_example =
    execute-Reached good settings (λ n r. refl) command fresh prepared refl prepared_id

poll-IsBounded_example :
    ((poll good settings get_output_status "active" "obs_active" early).1.calls ≤ early.calls + 1)
    ⊎ ((d : ℕ) × ((poll good settings get_output_status "active" "obs_active" early).1.calls
          ≡ early.calls + 2 + d)
        × (d * settings.poll_interval ≤ settings.step_timeout))
poll-IsBounded_example = poll-IsBounded good settings get_output_status "active" "obs_active" early

starts : Site
starts = record early { calls = 2 }

pends : (j : ℕ) → j < 1 → IsPending good settings get_output_status "active" (starts.calls + j)
unfolding starts
pends zero h = record { value = "starting"; answer = refl; is_other = refl; is_fine = refl }
pends (suc j) h = absurd (omega (arith, h))

poll-notices_example :
    (poll good settings get_output_status "active" "obs_active" starts).0 ≡ returned "active"
unfolding starts
poll-notices_example =
    poll-notices good settings 1 1 get_output_status "active" "obs_active" starts (λ n. omega arith)
      (omega arith) (omega arith) pends refl
