-- ===== src/Streaming/Lifecycle.antt =====
-- app/domain/streaming/lifecycle.py: the lifecycle classes, the operations and the decision.
use ai_liver_yura.Common.{ℕ, String, Bool, Option, string_eq, nat_eq, pair_eq, option_eq}
use ai_liver_yura.Streaming.Session.{
  StreamSessionStatus, live, aborted, closing_requested, closing, stopping, completed,
  emergency_stop_requested, emergency_stopped, stop_failed,
}

pub data StreamLifecycleClass : Type 0 where
  pre_live live_active normal_ending emergency_ending terminal lifecycle_failed :
      StreamLifecycleClass

unfoldable pub classify_lifecycle : StreamSessionStatus → StreamLifecycleClass
classify_lifecycle live = live_active
classify_lifecycle closing_requested = normal_ending
classify_lifecycle closing = normal_ending
classify_lifecycle stopping = normal_ending
classify_lifecycle emergency_stop_requested = emergency_ending
classify_lifecycle StreamSessionStatus.emergency_stopping = emergency_ending
classify_lifecycle completed = terminal
classify_lifecycle emergency_stopped = terminal
classify_lifecycle aborted = terminal
classify_lifecycle StreamSessionStatus.failed = lifecycle_failed
classify_lifecycle stop_failed = lifecycle_failed
classify_lifecycle _ = pre_live

pub data LifecycleOperation : Type 0 where
  start_opening start_main_segment start_closing start_comment_polling continue_comment_polling
        evaluate_comment emit_comment_candidate select_comment_response_target
        start_comment_response generate_comment_response enqueue_comment_response_action
        start_comment_response_speech start_autonomous_talk select_topic start_llm_generation
        create_action_plan enqueue_action start_speech update_subtitle change_expression
        start_motion start_normal_end start_emergency_stop :
      LifecycleOperation

-- `operation.value`
unfoldable pub value : LifecycleOperation → String
value start_opening = "start_opening"
value start_main_segment = "start_main_segment"
value start_closing = "start_closing"
value start_comment_polling = "start_comment_polling"
value continue_comment_polling = "continue_comment_polling"
value evaluate_comment = "evaluate_comment"
value emit_comment_candidate = "emit_comment_candidate"
value select_comment_response_target = "select_comment_response_target"
value start_comment_response = "start_comment_response"
value generate_comment_response = "generate_comment_response"
value enqueue_comment_response_action = "enqueue_comment_response_action"
value start_comment_response_speech = "start_comment_response_speech"
value start_autonomous_talk = "start_autonomous_talk"
value select_topic = "select_topic"
value start_llm_generation = "start_llm_generation"
value create_action_plan = "create_action_plan"
value enqueue_action = "enqueue_action"
value start_speech = "start_speech"
value update_subtitle = "update_subtitle"
value change_expression = "change_expression"
value start_motion = "start_motion"
value start_normal_end = "start_normal_end"
value start_emergency_stop = "start_emergency_stop"

-- The reason codes, "lifecycle.stale_session" and so on.
pub data Reason : Type 0 where
  stale_session version_mismatch operation_not_allowed terminal emergency_stopping ending failed
        not_live opening_not_completed main_segment_not_completed external_state_unknown
        external_state_mismatch :
      Reason

unfoldable pub code : Reason → String
code stale_session = "lifecycle.stale_session"
code version_mismatch = "lifecycle.version_mismatch"
code operation_not_allowed = "lifecycle.operation_not_allowed"
code Reason.terminal = "lifecycle.terminal"
code emergency_stopping = "lifecycle.emergency_stopping"
code ending = "lifecycle.ending"
code Reason.failed = "lifecycle.failed"
code not_live = "lifecycle.not_live"
code opening_not_completed = "lifecycle.opening_not_completed"
code main_segment_not_completed = "lifecycle.main_segment_not_completed"
code external_state_unknown = "lifecycle.external_state_unknown"
code external_state_mismatch = "lifecycle.external_state_mismatch"

-- `session_status` is `none` where the source writes "missing".
pub record LifecycleDecision : Type 0 where
  pub allowed : Bool
  pub reason_code : Option Reason
  pub session_status : Option StreamSessionStatus
  pub external_state_required : Bool
  pub manual_intervention_required : Bool
  pub evaluated_at : ℕ
