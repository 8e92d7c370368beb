-- ===== src/Streaming/Gate/Notices.antt =====
-- What the lifecycle gate publishes, and what its memory of the last notifications is for.
use ai_liver_yura.Common.{
  ℕ, String, ◌≡◌, inl, inr, true, Option, some, [], arith, Bool-cases, ◌==◌, string_eq, nat_eq,
  pair_eq, option_eq, bool_eq,
}
use ai_liver_yura.Common.Dict.{get, get-set_self}
use ai_liver_yura.Streaming.Lifecycle.{LifecycleOperation, value}
use ai_liver_yura.Streaming.Gate.Policy.{World, judge, Verdict}
use ai_liver_yura.Streaming.Gate.{Gate, Signature, evaluate, decision, reason_text, version_of}
use ai_liver_yura.Streaming.Session.{StreamSession}

-- A decision leaves in the memory what it was about.
decision-remembers :
    (g : Gate) (op : LifecycleOperation) (id : String) (s : Option StreamSession) (v : Verdict)
    (trace : String) (now : ℕ)
    → get (id, value op) (decision g op id s v trace now).1.0.last_notifications
      ≡ some (v.allowed, (reason_text v.reason, version_of s))
unfolding decision
decision-remembers g op id s v trace now =
    let key : String × String = (id, value op) in
    let sig : Signature = (v.allowed, (reason_text v.reason, version_of s)) in
    elim (Bool-cases (get key g.last_notifications == some sig)) [
      | inl same ↦
          rw same
            (((option_eq {A = Signature}).beq_iff (get key g.last_notifications) (some sig)).0 same)
      | inr new ↦ rw new (get-set_self key sig g.last_notifications)
    ]

decision-external :
    (g : Gate) (op : LifecycleOperation) (id : String) (s : Option StreamSession) (v : Verdict)
    (trace : String) (now : ℕ)
    → (decision g op id s v trace now).1.0.external ≡ g.external
unfolding decision
decision-external g op id s v trace now = ground arith

decision_known :
    (g : Gate) (op : LifecycleOperation) (id : String) (s : Option StreamSession) (v : Verdict)
    (trace : String) (now : ℕ)
    → get (id, value op) g.last_notifications
      ≡ some (v.allowed, (reason_text v.reason, version_of s))
    → (decision g op id s v trace now).1 ≡ (g, [])
unfolding decision
decision_known g op id s v trace now e =
    let key : String × String = (id, value op) in
    let sig : Signature = (v.allowed, (reason_text v.reason, version_of s)) in
    let same : (get key g.last_notifications == some sig) ≡ true =
      ((option_eq {A = Signature}).beq_iff (get key g.last_notifications) (some sig)).1 e in
    rw same

-- An evaluation that is repeated, at any later time and under any trace, while the session and the
-- outside stay as they are publishes nothing and changes nothing.
pub evaluate_twice :
    (w : World) (g : Gate) (op : LifecycleOperation) (id : String) (activity : Option String)
    (expected : Option ℕ) (trace trace' : String) (now later : ℕ)
    → let g' = (evaluate w g op id activity expected trace now).1.0 in
      (evaluate w g' op id activity expected trace' later).1 ≡ (g', [])
unfolding evaluate
evaluate_twice w g op id activity expected trace trace' now later =
    let s = get id w.sessions in
    let v = judge w (get id g.external) op id activity expected in
    let g' = (decision g op id s v trace now).1.0 in
    rw (decision-external g op id s v trace now)
      (decision_known g' op id s v trace' later (decision-remembers g op id s v trace now))
