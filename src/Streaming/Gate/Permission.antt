-- ===== src/Streaming/Gate/Permission.antt =====
-- When the lifecycle gate lets an operation run: the policy as a table over kinds of operations,
-- written apart from the order in which the code makes its tests.
use ai_liver_yura.Common.{
  ℕ, String, ◌≡◌, ◌↔◌, ◌⊎◌, inl, inr, true, false, ◌&&◌, ◌||◌, Option, none, some, arith,
  if◌then◌else◌, Option-cases, string_eq, nat_eq, pair_eq, option_eq, bool_eq, contains,
}
use ai_liver_yura.Common.Dict.{get, values, dict_eq}
use ai_liver_yura.Streaming.Session.{StreamSession, StreamSessionStatus, created, is_live}
use ai_liver_yura.Streaming.Lifecycle.{
  LifecycleOperation, start_main_segment, start_closing, start_normal_end, start_emergency_stop,
  classify_lifecycle,
}
use ai_liver_yura.Streaming.Repository.{find_active_or_preparing, is_other}
use ai_liver_yura.Streaming.Gate.{Gate, evaluate, decision}
use ai_liver_yura.Streaming.Gate.Policy.{
  World, judge, judge_found, ActivityStatus, External, judge_external, confirmed_live,
  closing_greeting, can_close, can_emergency_stop, is_stop_failed, is_output_operation,
  is_comment_response_operation, judge_live, is_main_segment_start, needs_external, judge_work,
  judge_session, is_live_external_operation,
}

-- The outside is known, and is exactly the state of a stream on air.
abbrev pub Confirmed : Option External → Type 0
Confirmed none = ⊥
Confirmed (some external) =
    (contains (values external) "unknown" ≡ false) × (dict_eq external confirmed_live ≡ true)

-- The condition on a session that is found, is the current one and has the expected version.
abbrev pub Permits :
    StreamSessionStatus
    → LifecycleOperation
    → Option String
    → (opening main : Option ActivityStatus) → Option External
    → Type 0
Permits status start_emergency_stop activity opening main external =
    can_emergency_stop status ≡ true
Permits status start_normal_end activity opening main external =
    (is_live status || is_stop_failed status) ≡ true
Permits status start_closing activity opening main external = can_close status ≡ true
Permits status start_main_segment activity opening main external =
    (is_live status ≡ true) × (opening ≡ some ActivityStatus.completed) × Confirmed external
Permits status op activity opening main external =
    if is_output_operation op && closing_greeting activity
    then can_close status ≡ true
    else (is_live status ≡ true)
      × ((is_comment_response_operation op ≡ false) ⊎ (main ≡ some ActivityStatus.completed))
      × Confirmed external

judge_external_iff :
    (external : Option External) → ((judge_external external).allowed ≡ true) ↔ Confirmed external
unfolding judge_external
judge_external_iff none = ground arith
judge_external_iff (some external) = ground arith

judge_live_iff :
    (status : StreamSessionStatus) (op : LifecycleOperation) (opening main : Option ActivityStatus)
    (external : Option External)
    → ((judge_live status op opening main external).allowed ≡ true) ↔ (
        (is_live status ≡ true)
        × (is_main_segment_start op ≡ true → opening ≡ some ActivityStatus.completed)
        × (is_comment_response_operation op ≡ true → main ≡ some ActivityStatus.completed)
        × (needs_external op ≡ true → Confirmed external))
unfolding judge_live
judge_live_iff status op opening main external = ground (arith, judge_external_iff external)

judge_work_iff :
    (status : StreamSessionStatus) (op : LifecycleOperation) (activity : Option String)
    (opening main : Option ActivityStatus) (external : Option External)
    → ((judge_work status op activity opening main external).allowed ≡ true) ↔ (
        if is_output_operation op && closing_greeting activity
        then can_close status ≡ true
        else (judge_live status op opening main external).allowed ≡ true)
unfolding judge_work classify_lifecycle judge_live
judge_work_iff created op activity opening main external = ground arith
judge_work_iff _ op activity opening main external = ground arith

judge_session_iff :
    (status : StreamSessionStatus) (op : LifecycleOperation) (activity : Option String)
    (opening main : Option ActivityStatus) (external : Option External)
    → ((judge_session status op activity opening main external).allowed ≡ true)
      ↔ Permits status op activity opening main external
unfolding judge_session is_live_external_operation is_comment_response_operation is_output_operation
judge_session_iff status start_emergency_stop activity opening main external = ground arith
judge_session_iff status start_normal_end activity opening main external = ground arith
judge_session_iff status start_closing activity opening main external = ground arith
judge_session_iff status op activity opening main external = ground (
  arith,
  judge_work_iff status op activity opening main external,
  judge_live_iff status op opening main external,
)

abbrev pub Expects : Option ℕ → ℕ → Type 0
Expects none version = Unit
Expects (some expected) version = version ≡ expected

-- The whole condition: the session is known, no other session is the active one, its version is
-- the one that the caller Expects, and the policy for its status permits the operation.
abbrev GrantedFor :
    World
    → Gate
    → LifecycleOperation
    → String
    → Option String
    → Option ℕ
    → Option StreamSession
    → Type 0
GrantedFor w g op id activity expected none = ⊥
GrantedFor w g op id activity expected (some s) =
    (is_other (find_active_or_preparing w.sessions) id ≡ false)
    × Expects expected s.state_version
    × Permits s.status op activity (w.openings id) (w.main_segments id) (get id g.external)

abbrev pub Granted : World → Gate → LifecycleOperation → String → Option String → Option ℕ → Type 0
Granted w g op id activity expected = GrantedFor w g op id activity expected (get id w.sessions)

pub evaluate-judge :
    (w : World) (g : Gate) (op : LifecycleOperation) (id : String) (activity : Option String)
    (expected : Option ℕ) (trace : String) (now : ℕ)
    → (evaluate w g op id activity expected trace now).0.allowed
      ≡ (judge w (get id g.external) op id activity expected).allowed
unfolding evaluate decision
evaluate-judge w g op id activity expected trace now = ground arith

judge_some_iff :
    (w : World) (g : Gate) (op : LifecycleOperation) (id : String) (activity : Option String)
    (expected : Option ℕ) (s : StreamSession)
    → ((judge_found w (get id g.external) op id activity expected (some s)).allowed ≡ true)
      ↔ GrantedFor w g op id activity expected (some s)
judge_some_iff w g op id activity none s = ground (
  arith,
  judge_session_iff s.status op activity (w.openings id) (w.main_segments id) (get id g.external),
)
judge_some_iff w g op id activity (some v) s = ground (
  arith,
  judge_session_iff s.status op activity (w.openings id) (w.main_segments id) (get id g.external),
)

judge_iff :
    (w : World) (g : Gate) (op : LifecycleOperation) (id : String) (activity : Option String)
    (expected : Option ℕ)
    → ((judge w (get id g.external) op id activity expected).allowed ≡ true)
      ↔ Granted w g op id activity expected
unfolding judge
judge_iff w g op id activity expected = elim (Option-cases (get id w.sessions)) [
  | inl e ↦ rw e (ground arith)
  | inr (s, e) ↦ rw e (judge_some_iff w g op id activity expected s)
]

-- The gate allows an operation exactly when the policy grants it.
pub evaluate_iff :
    (w : World) (g : Gate) (op : LifecycleOperation) (id : String) (activity : Option String)
    (expected : Option ℕ) (trace : String) (now : ℕ)
    → ((evaluate w g op id activity expected trace now).0.allowed ≡ true)
      ↔ Granted w g op id activity expected
evaluate_iff w g op id activity expected trace now =
    rw (evaluate-judge w g op id activity expected trace now)
      (judge_iff w g op id activity expected)
