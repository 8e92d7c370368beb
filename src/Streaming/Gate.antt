-- ===== src/Streaming/Gate.antt =====
-- app/usecases/stream_lifecycle_gate.py: the one place that decides which operation may run. The
-- gate reads the session repository and the opening and main segment activities, which other
-- components write, so they are the argument `World` of each call; the gate's own state is `Gate`,
-- and what it publishes is returned.
pub mod Policy
pub mod Permission
pub mod Notices
use ai_liver_yura.Common.{
  ℕ, String, Bool, true, false, not, ◌&&◌, ◌||◌, Option, none, some, List, [], ◌∷◌, ◌++◌, map,
  if◌then◌else◌, ◌==◌, string_eq, nat_eq, pair_eq, option_eq, bool_eq,
}
use ai_liver_yura.Common.Dict.{Dict, get, set}
use ai_liver_yura.Streaming.Session.{StreamSession, StreamSessionStatus}
use ai_liver_yura.Streaming.Repository.{Repository, find_active_or_preparing}
use ai_liver_yura.Streaming.Lifecycle.{
  LifecycleOperation, start_opening, start_main_segment, start_closing, start_comment_polling,
  continue_comment_polling, evaluate_comment, emit_comment_candidate,
  select_comment_response_target, start_comment_response, generate_comment_response,
  enqueue_comment_response_action, start_comment_response_speech, start_autonomous_talk,
  select_topic, start_llm_generation, create_action_plan, enqueue_action, start_speech,
  update_subtitle, change_expression, start_motion, start_normal_end, start_emergency_stop, value,
  Reason, code, LifecycleDecision, StreamLifecycleClass, lifecycle_failed, classify_lifecycle,
}
use Policy.{World, External, Verdict, judge, is_live_external_operation, is_output_operation}

-- (allowed, reason, version), with `none` for the version -1 of a missing session.
abbrev pub Signature : Type 0
Signature = Bool × (Option String × Option ℕ)

pub record Gate : Type 0 where
  pub external : Dict String External
  pub last_notifications : Dict (String × String) Signature
  pub current_session_id : Option String

pub record Publication : Type 0 where
  pub event : String
  pub session_id : String
  pub operation : String
  pub allowed : Bool
  pub reason_code : Option String
  pub session_status : Option StreamSessionStatus
  pub state_version : Option ℕ
  pub external_state_summary : Option External
  pub evaluated_at : ℕ

-- One call of the publisher, with its trace id.
pub data Notice : Type 0 where
  lifecycle : Publication → String → Notice
  polling_stop_required actions_blocked :
      (session_id : String) (reason_code : Option String) (trace_id : String) → Notice

abbrev id_of : Option StreamSession → Option String
id_of none = none
id_of (some s) = some s.session_id

unfoldable pub init : Repository → Gate
init sessions = record {
  external = [];
  last_notifications = [];
  current_session_id = id_of (find_active_or_preparing sessions);
}

unfoldable pub update_external_state : Gate → String → External → Gate
update_external_state g id state = record g { external = set id state g.external }

abbrev pub remember : Gate → Option StreamSession → Gate
remember g none = g
remember g (some s) = record g { current_session_id = some s.session_id }

-- `active_session_id`: the gate keeps the last session that it saw active.
unfoldable pub active_session_id : World → Gate → Option String × Gate
active_session_id w g =
    let g' = remember g (find_active_or_preparing w.sessions) in (g'.current_session_id, g')

abbrev is_polling : LifecycleOperation → Bool
is_polling start_comment_polling = true
is_polling continue_comment_polling = true
is_polling _ = false

abbrev pub status_of : Option StreamSession → Option StreamSessionStatus
status_of none = none
status_of (some s) = some s.status

abbrev pub version_of : Option StreamSession → Option ℕ
version_of none = none
version_of (some s) = some s.state_version

abbrev pub reason_text : Option Reason → Option String
reason_text none = none
reason_text (some r) = some (code r)

module _ (g : Gate) (op : LifecycleOperation) (id : String) (session : Option StreamSession)
    (v : Verdict) (trace : String) (now : ℕ) where
  abbrev publication : Publication
  publication = record {
    event = if v.allowed then "stream_lifecycle.updated" else "stream_lifecycle.operation_blocked";
    session_id = id;
    operation = value op;
    allowed = v.allowed;
    reason_code = reason_text v.reason;
    session_status = status_of session;
    state_version = version_of session;
    external_state_summary = get id g.external;
    evaluated_at = now;
  }

  -- The publisher's calls of `_decision`, in their order.
  unfoldable pub notices : List Notice
  unfolding is_output_operation
  notices =
      lifecycle publication trace
        ∷ (if not v.allowed && is_polling op
            then polling_stop_required id (reason_text v.reason) trace ∷ []
            else [])
      ++ (if not v.allowed && is_output_operation op
          then actions_blocked id (reason_text v.reason) trace ∷ []
          else [])

  unfoldable pub decision : LifecycleDecision × (Gate × List Notice)
  unfolding notices is_live_external_operation is_output_operation
  decision =
      let key : String × String = (id, value op) in
      let signature : Signature = (v.allowed, (reason_text v.reason, version_of session)) in
      let made : LifecycleDecision = record {
        allowed = v.allowed;
        reason_code = v.reason;
        session_status = status_of session;
        external_state_required = is_live_external_operation op || is_output_operation op;
        manual_intervention_required = v.manual;
        evaluated_at = now;
      } in
      if get key g.last_notifications == some signature then (made, (g, [])) else (
        made,
        (record g { last_notifications = set key signature g.last_notifications }, notices),
      )

unfoldable pub evaluate :
    World
    → Gate
    → LifecycleOperation
    → String
    → Option String
    → Option ℕ
    → String
    → ℕ
    → LifecycleDecision × (Gate × List Notice)
evaluate w g op id activity expected trace now =
    decision g op id (get id w.sessions) (judge w (get id g.external) op id activity expected) trace
      now

-- `for operation in LifecycleOperation`, in the order of the enumeration.
abbrev pub operations : List LifecycleOperation
operations =
    start_opening ∷ start_main_segment ∷ start_closing ∷ start_comment_polling
    ∷ continue_comment_polling ∷ evaluate_comment ∷ emit_comment_candidate
    ∷ select_comment_response_target ∷ start_comment_response ∷ generate_comment_response
    ∷ enqueue_comment_response_action ∷ start_comment_response_speech ∷ start_autonomous_talk
    ∷ select_topic ∷ start_llm_generation ∷ create_action_plan ∷ enqueue_action ∷ start_speech
    ∷ update_subtitle ∷ change_expression ∷ start_motion ∷ start_normal_end ∷ start_emergency_stop
    ∷ []

pub record Snapshot : Type 0 where
  pub session_id : String
  pub session_status : Option StreamSessionStatus
  pub lifecycle_class : StreamLifecycleClass
  pub state_version : Option ℕ
  pub operations : List (String × (Bool × Option Reason))

unfoldable pub evaluate_all :
    World
    → String
    → ℕ
    → Gate
    → List LifecycleOperation
    → List (String × (Bool × Option Reason)) × (Gate × List Notice)
evaluate_all w id now g [] = ([], (g, []))
evaluate_all w id now g (op ∷ ops) =
    let (d, rest) = evaluate w g op id none none "" now in
    let (rows, final) = evaluate_all w id now rest.0 ops in
    ((value op, (d.allowed, d.reason_code)) ∷ rows, (final.0, rest.1 ++ final.1))

abbrev class_of : Option StreamSession → StreamLifecycleClass
class_of none = lifecycle_failed
class_of (some s) = classify_lifecycle s.status

unfoldable pub snapshot : World → Gate → String → ℕ → Snapshot × (Gate × List Notice)
unfolding evaluate_all
snapshot w g id now =
    let session = get id w.sessions in
    let (rows, rest) = evaluate_all w id now g operations in
    let shot : Snapshot = record {
      session_id = id;
      session_status = status_of session;
      lifecycle_class = class_of session;
      state_version = version_of session;
      operations = rows;
    } in
    (shot, rest)
