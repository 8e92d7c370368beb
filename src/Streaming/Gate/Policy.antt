-- ===== src/Streaming/Gate/Policy.antt =====
-- app/usecases/stream_lifecycle_gate.py, `evaluate`: its returns in the order of the source. A
-- `Verdict` holds the arguments that each return hands to `_decision`.
use ai_liver_yura.Common.{
  ℕ, String, Bool, true, false, not, ◌&&◌, ◌||◌, Option, none, some, [], ◌∷◌, if◌then◌else◌, ◌==◌,
  string_eq, nat_eq, pair_eq, option_eq, contains, nat_beq,
}
use ai_liver_yura.Common.Dict.{Dict, get, values, dict_eq}
use ai_liver_yura.Streaming.Session.{
  StreamSession, StreamSessionStatus, live, closing_requested, closing, stopping, emergency_stopped,
  stop_failed, is_live,
}
use ai_liver_yura.Streaming.Repository.{Repository, find_active_or_preparing, is_other}
use ai_liver_yura.Streaming.Lifecycle.{
  StreamLifecycleClass, normal_ending, emergency_ending, lifecycle_failed, classify_lifecycle,
  LifecycleOperation, start_opening, start_main_segment, start_closing, start_comment_polling,
  continue_comment_polling, evaluate_comment, emit_comment_candidate,
  select_comment_response_target, start_comment_response, generate_comment_response,
  enqueue_comment_response_action, start_comment_response_speech, start_autonomous_talk,
  select_topic, start_llm_generation, create_action_plan, enqueue_action, start_speech,
  update_subtitle, change_expression, start_motion, start_normal_end, start_emergency_stop, Reason,
  stale_session, version_mismatch, operation_not_allowed, emergency_stopping, ending, not_live,
  opening_not_completed, main_segment_not_completed, external_state_unknown,
  external_state_mismatch,
}

-- app/domain/streaming/opening.py and main_segment.py, the statuses that the gate asks for.
pub data ActivityStatus : Type 0 where
  pending running waiting_for_output completed failed canceled : ActivityStatus

abbrev pub is_completed : Option ActivityStatus → Bool
is_completed (some ActivityStatus.completed) = true
is_completed _ = false

-- What the gate reads when it is called. `openings` and `main_segments` are the status of the
-- activity that `find_by_session` finds, if it finds one.
pub record World : Type 0 where
  pub sessions : Repository
  pub openings : String → Option ActivityStatus
  pub main_segments : String → Option ActivityStatus

abbrev pub External : Type 0
External = Dict String String

unfoldable pub is_live_external_operation : LifecycleOperation → Bool
is_live_external_operation start_opening = true
is_live_external_operation start_main_segment = true
is_live_external_operation start_comment_polling = true
is_live_external_operation continue_comment_polling = true
is_live_external_operation evaluate_comment = true
is_live_external_operation emit_comment_candidate = true
is_live_external_operation select_comment_response_target = true
is_live_external_operation start_comment_response = true
is_live_external_operation generate_comment_response = true
is_live_external_operation enqueue_comment_response_action = true
is_live_external_operation start_comment_response_speech = true
is_live_external_operation start_autonomous_talk = true
is_live_external_operation select_topic = true
is_live_external_operation _ = false

unfoldable pub is_output_operation : LifecycleOperation → Bool
is_output_operation start_llm_generation = true
is_output_operation create_action_plan = true
is_output_operation enqueue_action = true
is_output_operation start_speech = true
is_output_operation update_subtitle = true
is_output_operation change_expression = true
is_output_operation start_motion = true
is_output_operation _ = false

-- The set literal that guards the comment responses.
unfoldable pub is_comment_response_operation : LifecycleOperation → Bool
is_comment_response_operation select_comment_response_target = true
is_comment_response_operation start_comment_response = true
is_comment_response_operation generate_comment_response = true
is_comment_response_operation enqueue_comment_response_action = true
is_comment_response_operation start_comment_response_speech = true
is_comment_response_operation _ = false

abbrev pub needs_external : LifecycleOperation → Bool
needs_external op = is_live_external_operation op || is_output_operation op

abbrev pub is_main_segment_start : LifecycleOperation → Bool
is_main_segment_start start_main_segment = true
is_main_segment_start _ = false

-- The set literals over the status.
unfoldable pub can_emergency_stop : StreamSessionStatus → Bool
can_emergency_stop live = true
can_emergency_stop closing_requested = true
can_emergency_stop closing = true
can_emergency_stop stopping = true
can_emergency_stop stop_failed = true
can_emergency_stop StreamSessionStatus.completed = true
can_emergency_stop emergency_stopped = true
can_emergency_stop _ = false

abbrev pub is_stop_failed : StreamSessionStatus → Bool
is_stop_failed stop_failed = true
is_stop_failed _ = false

abbrev pub can_close : StreamSessionStatus → Bool
can_close closing_requested = true
can_close closing = true
can_close _ = false

abbrev pub closing_greeting : Option String → Bool
closing_greeting none = false
closing_greeting (some activity) = activity == "stream_closing_greeting"

pub record Verdict : Type 0 where
  pub allowed : Bool
  pub reason : Option Reason
  pub manual : Bool

abbrev refuse : Reason → Bool → Verdict
refuse reason manual = record { allowed = false; reason = some reason; manual = manual }

abbrev permit : Verdict
permit = record { allowed = true; reason = none; manual = false }

-- `None if allowed else reason`
abbrev permit_if : Bool → Reason → Bool → Verdict
permit_if allowed reason manual = record {
  allowed = allowed;
  reason = if allowed then none else some reason;
  manual = manual;
}

abbrev pub confirmed_live : External
confirmed_live =
    ("obs_output", "active")
    ∷ ("youtube_stream", "active")
    ∷ ("youtube_broadcast", "live")
    ∷ ("stream_session", "live")
    ∷ []

-- The last test of `evaluate`: what the gate was told of the outside.
unfoldable pub judge_external : Option External → Verdict
unfolding dict_eq
judge_external none = refuse external_state_unknown true
judge_external (some external) =
    if contains (values external) "unknown"
    then refuse external_state_unknown true
    else if dict_eq external confirmed_live
    then permit
    else refuse external_state_mismatch true

-- From `if session.status != LIVE` on.
unfoldable pub judge_live :
    StreamSessionStatus
    → LifecycleOperation
    → (opening main : Option ActivityStatus) → Option External
    → Verdict
unfolding is_live_external_operation is_output_operation is_comment_response_operation
judge_live status op opening main external =
    if not (is_live status)
    then refuse not_live false
    else if is_main_segment_start op && not (is_completed opening)
    then refuse opening_not_completed false
    else if is_comment_response_operation op && not (is_completed main)
    then refuse main_segment_not_completed false
    else if needs_external op
    then judge_external external
    else permit

-- From `if operation in self._OUTPUT_OPERATIONS and ...` on.
unfoldable pub judge_work :
    StreamSessionStatus
    → LifecycleOperation
    → Option String
    → (opening main : Option ActivityStatus) → Option External
    → Verdict
unfolding is_output_operation
judge_work status op activity opening main external =
    if is_output_operation op && closing_greeting activity
    then permit_if (can_close status) operation_not_allowed false
    else elim (classify_lifecycle status) [
      | normal_ending ↦ refuse ending false
      | lifecycle_failed ↦ refuse Reason.failed true
      | _ ↦ judge_live status op opening main external
    ]

-- From `if operation == LifecycleOperation.START_NORMAL_END` on.
unfoldable pub judge_going :
    StreamSessionStatus
    → LifecycleOperation
    → Option String
    → (opening main : Option ActivityStatus) → Option External
    → Verdict
unfolding judge_work
judge_going status start_normal_end activity opening main external =
    permit_if (is_live status || is_stop_failed status) operation_not_allowed
      (is_stop_failed status)
judge_going status start_closing activity opening main external =
    permit_if (can_close status) ending false
judge_going status op activity opening main external =
    judge_work status op activity opening main external

-- From `category = classify_lifecycle(session.status)` on.
unfoldable pub judge_session :
    StreamSessionStatus
    → LifecycleOperation
    → Option String
    → (opening main : Option ActivityStatus) → Option External
    → Verdict
unfolding classify_lifecycle can_emergency_stop judge_going
judge_session status start_emergency_stop activity opening main external =
    permit_if (can_emergency_stop status) operation_not_allowed (not (can_emergency_stop status))
judge_session status op activity opening main external = elim (classify_lifecycle status) [
  | StreamLifecycleClass.terminal ↦ refuse Reason.terminal false
  | emergency_ending ↦ refuse emergency_stopping true
  | _ ↦ judge_going status op activity opening main external
]

-- `expected_version is not None and session.state_version != expected_version`
abbrev pub version_differs : Option ℕ → ℕ → Bool
version_differs none version = false
version_differs (some expected) version = not (nat_beq version expected)

abbrev pub judge_found :
    World
    → Option External
    → LifecycleOperation
    → String
    → Option String
    → Option ℕ
    → Option StreamSession
    → Verdict
judge_found w external op id activity expected none = refuse stale_session true
judge_found w external op id activity expected (some session) =
    if is_other (find_active_or_preparing w.sessions) id
    then refuse stale_session true
    else if version_differs expected session.state_version
    then refuse version_mismatch false
    else judge_session session.status op activity (w.openings id) (w.main_segments id) external

unfoldable pub judge :
    World → Option External → LifecycleOperation → String → Option String → Option ℕ → Verdict
judge w external op id activity expected =
    judge_found w external op id activity expected (get id w.sessions)
