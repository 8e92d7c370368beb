-- ===== src/Streaming/Closing.antt =====
-- app/domain/streaming/end.py, the closing activity and its statuses, and of
-- app/domain/activity_turn_result.py what the closing reads of a turn.
use ai_liver_yura.Common.{
  ℕ, String, Bool, true, false, Option, none, some, List, [], ◌∷◌, if◌then◌else◌, ◌==◌, string_eq,
  nat_eq, pair_eq, option_eq, bool_eq, list_eq, Result, ok, err, or_else, given,
}

pub data StreamClosingStatus : Type 0 where
  pending running waiting_for_output completed failed canceled : StreamClosingStatus

pub record StreamClosingActivity : Type 0 where
  pub session_id : String
  pub trace_id : String
  pub segment_id : String
  pub activity_id : String
  pub status : StreamClosingStatus
  pub failure_code : Option String
  pub started_at : Option ℕ
  pub completed_at : Option ℕ

abbrev pub is_running : StreamClosingStatus → Bool
is_running running = true
is_running _ = false

abbrev pub is_completed : StreamClosingStatus → Bool
is_completed completed = true
is_completed _ = false

-- The set literal that decides over `completed_at`.
abbrev pub is_settled : StreamClosingStatus → Bool
is_settled completed = true
is_settled failed = true
is_settled canceled = true
is_settled _ = false

unfoldable pub with_status :
    StreamClosingActivity → StreamClosingStatus → Option String → ℕ → StreamClosingActivity
with_status a status failure now = record a {
  status = status;
  failure_code = failure;
  started_at = if is_running status then some now else a.started_at;
  completed_at = if is_settled status then some now else none;
}

-- A result of an action: its type, and whether its status is COMPLETED.
pub record ActionResult : Type 0 where
  pub action_type : String
  pub is_done : Bool

-- `action_results` is `none` where there is no output result.
pub record Turn : Type 0 where
  pub action_results : Option (List ActionResult)
  pub failure_stage : Option String

unfoldable pub first_speech : List ActionResult → Option ActionResult
first_speech [] = none
first_speech (r ∷ rs) = if r.action_type == "speak" then some r else first_speech rs

abbrev has_spoken : Option ActionResult → Bool
has_spoken none = false
has_spoken (some r) = r.is_done

-- `error`, or the turn without a speech that completed.
unfoldable pub speech_failure : Result String Turn → Option String
unfolding first_speech
speech_failure (err e) = some e
speech_failure (ok turn) =
    if has_spoken (first_speech (given turn.action_results []))
    then none
    else some (or_else turn.failure_stage "closing.speech.failed")
