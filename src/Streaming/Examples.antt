-- ===== src/Streaming/Examples.antt =====
-- One stream, followed from its creation to its end.
use ai_liver_yura.Common.{
  ◌≤◌, String, ◌≡◌, refl, ◌≢◌, ◌↔◌, true, false, none, some, List, [], ◌∷◌, arith, string_eq,
  nat_eq, pair_eq, option_eq, bool_eq, list_eq, ok, err, ℕ,
}
use ai_liver_yura.Common.Dict.{get, set, has}
use ai_liver_yura.Streaming.Session.{
  StreamSession, StreamSessionStatus, TransitionArgs, no_args, create, can_start, transition,
  attach_opening, is_ready, allowed, preparing, start_approved, starting, live, closing_requested,
  closing, stopping, completed, is_ready_readiness, is_not_ready, has_failed,
}
use ai_liver_yura.Streaming.Session.Transitions.{is_terminal, phase}
use ai_liver_yura.Streaming.Session.History.{
  Call, transitions, attaches_opening, call, run, run-create-can_start, run-phase, run-terminal,
  run-opening, run-create-on_air,
}
use ai_liver_yura.Streaming.Session.Approval.{run-create-approver, after_approval}
use ai_liver_yura.Streaming.Repository.{Repository, version_gap, save}
use ai_liver_yura.Streaming.Repository.Versions.{save-once}
use ai_liver_yura.Streaming.Lifecycle.{start_speech}
use ai_liver_yura.Streaming.Opening.{
  StreamOpeningActivity, OpeningRepository, new_opening, create_opening,
}
use ai_liver_yura.Streaming.Opening.Attempts
use ai_liver_yura.Streaming.Gate.{init, evaluate}
use ai_liver_yura.Streaming.Gate.Policy.{World, ActivityStatus, running}
use ai_liver_yura.Streaming.Gate.Permission.{Granted, evaluate_iff}
use ai_liver_yura.Streaming.Gate.Notices.{evaluate_twice}

abbrev new : StreamSession
new = create "trace" "broadcast" "evening talk" "s1" 1

abbrev approval : TransitionArgs
approval = record no_args { start_approved_by = some "operator" }

abbrev to_air : List Call
to_air =
    transitions preparing no_args 2
    ∷ transitions StreamSessionStatus.ready no_args 3
    ∷ transitions start_approved approval 4
    ∷ transitions starting no_args 5
    ∷ transitions live no_args 6
    ∷ attaches_opening "greeting" 7
    ∷ []

abbrev to_end : List Call
to_end =
    transitions closing_requested no_args 8
    ∷ transitions closing no_args 9
    ∷ transitions stopping no_args 10
    ∷ transitions completed no_args 11
    ∷ []

abbrev on_air : StreamSession
on_air = run new to_air

abbrev over : StreamSession
over = run on_air to_end

abbrev stored : Repository
stored = ("s1", on_air) ∷ []

abbrev world : World
world = record {
  sessions = stored;
  openings = λ id. some ActivityStatus.completed;
  main_segments = λ id. none;
}

over-terminal : is_terminal over.status ≡ true
unfolding run call create transition allowed attach_opening
over-terminal = refl

run-terminal_example : run over to_air ≡ over
run-terminal_example = run-terminal over to_air over-terminal

run-phase_example : phase on_air.status ≤ phase (run on_air to_end).status
run-phase_example = run-phase on_air to_end

on_air-opening : on_air.opening_activity_id ≡ some "greeting"
unfolding run call create transition allowed attach_opening
on_air-opening = refl

run-opening_example : (run on_air to_end).opening_activity_id ≡ some "greeting"
run-opening_example = run-opening on_air to_end on_air-opening

abbrev one_call : List Call
one_call = transitions preparing no_args 2 ∷ []

run-create-can_start_example :
    (can_start (run new one_call) ≡ is_ready (run new one_call).status)
    × (is_ready_readiness (run new one_call).readiness ≡ is_ready (run new one_call).status)
    × (is_not_ready (run new one_call).readiness ≡ has_failed (run new one_call).status)
run-create-can_start_example =
    run-create-can_start "trace" "broadcast" "evening talk" "s1" 1 one_call

one_call-phase : phase (run new one_call).status ≡ 0
unfolding run call create transition allowed attach_opening
one_call-phase = refl

run-create-on_air_example :
    ((run new one_call).opening_activity_id ≡ none)
    × ((run new one_call).current_segment_activity_id ≡ none)
run-create-on_air_example =
    run-create-on_air "trace" "broadcast" "evening talk" "s1" 1 one_call one_call-phase

on_air-approved : after_approval on_air.status ≡ true
unfolding run call create transition allowed attach_opening
on_air-approved = refl

run-create-approver_example : (name : String) × (on_air.start_approved_by ≡ some name)
run-create-approver_example =
    run-create-approver "trace" "broadcast" "evening talk" "s1" 1 to_air
      (tt, (tt, (refl, (tt, (tt, (tt, tt)))))) on_air-approved

evaluate_iff_example :
    ((evaluate world (init stored) start_speech "s1" none none "t" 8).0.allowed ≡ true)
    ↔ Granted world (init stored) start_speech "s1" none none
evaluate_iff_example = evaluate_iff world (init stored) start_speech "s1" none none "t" 8

evaluate_twice_example :
    let g' = (evaluate world (init stored) start_speech "s1" none none "t" 8).1.0 in
    (evaluate world g' start_speech "s1" none none "u" 9).1 ≡ (g', [])
evaluate_twice_example = evaluate_twice world (init stored) start_speech "s1" none none "t" "u" 8 9

abbrev next : StreamSession
next = record on_air { title = "late talk"; state_version = 7 }

abbrev rival : StreamSession
rival = record on_air { title = "other talk"; state_version = 7 }

abbrev stored_next : Repository
stored_next = ("s1", next) ∷ []

saved : save stored next ≡ ok stored_next
unfolding run call create transition allowed attach_opening save get set
saved = refl

other_id : "s2" ≢ next.session_id
unfolding run call create transition allowed attach_opening
other_id e = absurd (ground (arith, string_eq.beq_iff "s2" "s1", e))

save-once_example :
    (get next.session_id stored_next ≡ some next)
    × (get "s2" stored_next ≡ get "s2" stored)
    × (save stored_next rival ≡ err version_gap)
save-once_example = save-once stored stored_next next rival "s2" saved refl refl other_id

abbrev greeting_calls : List (Attempts.Call ℕ)
greeting_calls =
    Attempts.moves running (record { failure_code = none; activity_turn_id = none; result = none })
      7
    ∷ []

run-new_opening-IsOpening_example :
    Attempts.IsOpening (Attempts.run (new_opening "s1" "trace" none "o1") greeting_calls)
run-new_opening-IsOpening_example =
    Attempts.run-new_opening-IsOpening "s1" "trace" "o1" none greeting_calls

abbrev greeting : StreamOpeningActivity ℕ
greeting = record {
  session_id = "s1";
  trace_id = "trace";
  segment_id = none;
  activity_id = "o1";
  status = ActivityStatus.completed;
  attempt = 1;
  failure_code = none;
  manual_intervention_required = false;
  started_at = some 7;
  completed_at = some 9;
  activity_turn_id = none;
  result = none;
  version = 3;
}

abbrev no_openings : OpeningRepository ℕ
no_openings = record { activities = []; session_index = []; commands = [] }

abbrev one_opening : OpeningRepository ℕ
one_opening = record {
  activities = ("o1", greeting) ∷ [];
  session_index = ("s1", "o1") ∷ [];
  commands = [];
}

opening_created : create_opening no_openings greeting ≡ ok one_opening
unfolding create_opening set get has
opening_created = refl
