-- ===== src/Streaming/End/Retry.antt =====
-- A normal end whose closing talk failed, tried again: app/usecases/end_stream_session_usecase.py
-- together with app/usecases/stream_lifecycle_gate.py.
use ai_liver_yura.Common.{
  ℕ, String, ◌≡◌, refl, sym, ap, ◌∙◌, subst, inl, inr, Bool, true, false, Option, none, some, List,
  arith, if◌then◌else◌, Bool-cases, string_eq, nat_eq, pair_eq, option_eq, bool_eq, list_eq,
}
use ai_liver_yura.Common.Dict.{get}
use ai_liver_yura.Streaming.Session.{StreamSession, stop_failed}
use ai_liver_yura.Streaming.Repository.{is_other, find_active_or_preparing}
use ai_liver_yura.Streaming.Lifecycle.{
  LifecycleOperation, LifecycleDecision, classify_lifecycle, start_closing, start_normal_end,
}
use ai_liver_yura.Streaming.Gate.{Gate, Notice, evaluate}
use ai_liver_yura.Streaming.Gate.Permission.{evaluate-judge}
use ai_liver_yura.Streaming.Gate.Policy.{
  World, External, judge, judge_found, judge_session, judge_going,
}
use ai_liver_yura.Streaming.Services.{Outside, Site, returned, return, require}
use ai_liver_yura.Streaming.Services.Returns.{bind-returned, then-returned, require-returned}
use ai_liver_yura.Streaming.End.{
  ApproveNormalStreamEndCommand, StreamEndResult, Settings, EndUsecase, find, consult, asked,
  decided, world, is_allowed, validate_version, run_closing, require_main_completed,
  ensure_adapter_mode,
}
use ai_liver_yura.Streaming.End.Stop.{failure}
use ai_liver_yura.Streaming.End.Success.{failure-unsuccessful}
use ai_liver_yura.Streaming.End.Seen.{remembered}
use ai_liver_yura.Streaming.End.Commands.{
  as_command, begin_closing, closing_done, closed, close_and_stop, stop_normally, now,
  normal_locked, approves, locked, cached, execute, is_done,
}

judge_found-stop_failed :
    (w : World) (external : Option External) (id : String) (x : StreamSession)
    → x.status ≡ stop_failed
    → (judge_found w external start_closing id none none (some x)).allowed ≡ false
unfolding judge_session judge_going classify_lifecycle
judge_found-stop_failed w external id x h =
    elim (Bool-cases (is_other (find_active_or_preparing w.sessions) id)) [
      | inl y ↦ rw y refl
      | inr n ↦ rw (n, h) refl
    ]

module _ (o : Outside) (c : Settings) where
  -- The repository, the closing activities and whether there is a gate.
  record IsSame (s s' : Site) : Type 0 where
    sessions : s'.sessions ≡ s.sessions
    closings : s'.closings ≡ s.closings
    gate : Gate
    has_gate : s'.gate ≡ some gate

  decided-IsSame :
      (r : LifecycleDecision × (Gate × List Notice)) (s s' : Site) (d : Option LifecycleDecision)
      → decided o c r s ≡ (returned d, s')
      → IsSame s s' × (d ≡ some r.0)
  decided-IsSame (e, (g, ns)) s s' d h = (
    record { sessions = ground arith; closings = ground arith; gate = g; has_gate = ground arith },
    ground arith,
  )

  consult-IsSame :
      (g : Gate) (op : LifecycleOperation) (id : String) (expected : Option ℕ) (trace : String)
      (s s' : Site) (d : Option LifecycleDecision)
      → s.gate ≡ some g
      → consult o c op id expected trace s ≡ (returned d, s')
      → IsSame s s' × (d ≡ some (evaluate (world o c s) g op id none expected trace s.time).0)
  unfolding consult
  consult-IsSame g op id expected trace s s' d has h =
      decided-IsSame (evaluate (world o c s) g op id none expected trace s.time) s s' d
        (subst (λ z. asked o c z op id expected trace s ≡ (returned d, s')) has h)

  -- The gate refuses the closing talk of a session whose stop failed.
  run_closing-refused :
      (g : Gate) (x : StreamSession) (trace : String) (s s' : Site) (done : Bool)
      → s.gate ≡ some g
      → get x.session_id s.sessions ≡ some x
      → x.status ≡ stop_failed
      → run_closing o c x trace s ≡ (returned done, s')
      → done ≡ false
  unfolding run_closing return judge
  run_closing-refused g x trace s s' done has there failed_ h =
      let p = bind-returned (consult o c start_closing x.session_id none trace) _ s done s' h in
      let (same, is) =
        consult-IsSame g start_closing x.session_id none trace s p.middle p.value has p.first in
      let refused =
        evaluate-judge (world o c s) g start_closing x.session_id none none trace s.time
        ∙ ap
            (λ z.
              (judge_found (world o c s) (get x.session_id g.external) start_closing x.session_id
                none none z).allowed)
            there
        ∙ judge_found-stop_failed (world o c s) (get x.session_id g.external) x.session_id x
            failed_ in
      let no = ap (is_allowed o c) is ∙ refused in ap (λ b. b) (ground (arith, no, p.second))

  -- Where a normal end that is tried again stands until it comes to the closing talk.
  record IsStuck (x : StreamSession) (s : Site) : Type 0 where
    gate : Gate
    has_gate : s.gate ≡ some gate
    there : get x.session_id s.sessions ≡ some x
    not_closed : is_done (get x.session_id s.closings) ≡ false

  IsStuck-same : (x : StreamSession) (s s' : Site) → IsSame s s' → IsStuck x s → IsStuck x s'
  IsStuck-same x s s' same stuck = record {
    gate = same.gate;
    has_gate = same.has_gate;
    there = ap (get x.session_id) same.sessions ∙ stuck.there;
    not_closed = ap (λ z. is_done (get x.session_id z)) same.closings ∙ stuck.not_closed;
  }

  closing_done-stuck :
      (x : StreamSession) (s s' : Site) (done : Bool)
      → IsStuck x s
      → closing_done x.session_id s ≡ (returned done, s')
      → (done ≡ false) × (s' ≡ s)
  unfolding closing_done
  closing_done-stuck x s s' done stuck h = let no = stuck.not_closed in ground arith

  closed-refused :
      (command : ApproveNormalStreamEndCommand) (x : StreamSession) (s s' : Site) (done : Bool)
      → IsStuck x s
      → x.status ≡ stop_failed
      → closed o c command x s ≡ (returned done, s')
      → done ≡ false
  unfolding closed
  closed-refused command x s s' done stuck failed_ h =
      let p = bind-returned (closing_done x.session_id) _ s done s' h in
      let (open_, same) = closing_done-stuck x s p.middle p.value stuck p.first in
      let tried =
        subst
          (λ b.
            (if b then return true else run_closing o c x command.trace_id) p.middle
            ≡ (returned done, s'))
          open_ p.second in
      run_closing-refused stuck.gate x command.trace_id s s' done stuck.has_gate stuck.there failed_
        (subst (λ z. run_closing o c x command.trace_id z ≡ (returned done, s')) same tried)

  close_and_stop-refused :
      (command : ApproveNormalStreamEndCommand) (x : StreamSession) (started : ℕ) (s s' : Site)
      (r : StreamEndResult)
      → IsStuck x s
      → x.status ≡ stop_failed
      → close_and_stop o c command x started s ≡ (returned r, s')
      → r.successful ≡ false
  unfolding close_and_stop
  close_and_stop-refused command x started s s' r stuck failed_ h =
      let p = bind-returned (closed o c command x) _ s r s' h in
      let refused = closed-refused command x s p.middle p.value stuck failed_ p.first in
      let gave_up =
        subst
          (λ b.
            (if b
                then stop_normally o c command x started
                else failure o c (as_command command) x started "closing" "failed"
                    "stream.end.closing_failed" "unknown")
              p.middle
            ≡ (returned r, s'))
          refused p.second in
      failure-unsuccessful o c (as_command command) x started "closing" "failed"
        "stream.end.closing_failed" "unknown" p.middle s' r gave_up

  find-stuck :
      (version : ℕ) (id : String) (x y : StreamSession) (s s' : Site)
      → get id s.sessions ≡ some x
      → find id (validate_version version) s ≡ (returned y, s')
      → (y ≡ x) × (s' ≡ s)
  unfolding find validate_version return
  find-stuck version id x y s s' there h =
      let found = subst (λ z. validate_version version z s ≡ (returned y, s')) there h in
      let p = then-returned (require _ _) (return x) s y s' found in
      let (valid, same) = require-returned _ _ s p.middle p.value p.first in
      let end = p.second in (ground arith, ap (λ z. z.1) (sym end) ∙ same)

  begin_closing-not_live :
      (command : ApproveNormalStreamEndCommand) (x : StreamSession)
      → x.status ≡ stop_failed
      → begin_closing o c command x ≡ return x
  unfolding begin_closing
  begin_closing-not_live command x failed_ = rw failed_ refl

  begin_closing-stuck :
      (command : ApproveNormalStreamEndCommand) (x y : StreamSession) (s s' : Site)
      → x.status ≡ stop_failed
      → begin_closing o c command x s ≡ (returned y, s')
      → (y ≡ x) × (s' ≡ s)
  unfolding return
  begin_closing-stuck command x y s s' failed_ h =
      let same = ap (λ m. m s) (begin_closing-not_live command x failed_) in
      let end = sym same ∙ h in (ground arith, ap (λ z. z.1) (sym end))

  normal_locked-refused :
      (command : ApproveNormalStreamEndCommand) (x : StreamSession) (s s' : Site)
      (r : StreamEndResult)
      → IsStuck x s
      → x.status ≡ stop_failed
      → x.session_id ≡ command.session_id
      → normal_locked o c command s ≡ (returned r, s')
      → r.successful ≡ false
  unfolding normal_locked require_main_completed ensure_adapter_mode now
  normal_locked-refused command x s s' r stuck failed_ own h =
      let p =
        bind-returned (find command.session_id (validate_version command.expected_state_version)) _
          s r s' h in
      let (is, same) =
        find-stuck command.expected_state_version command.session_id x p.value s p.middle
          (ap (λ z. get z s.sessions) (sym own) ∙ stuck.there) p.first in
      let q =
        bind-returned (consult o c start_normal_end p.value.session_id _ command.trace_id) _
          p.middle r s' p.second in
      let (kept, asked_) =
        consult-IsSame stuck.gate start_normal_end p.value.session_id _ command.trace_id p.middle
          q.middle q.value (ap (λ z. z.gate) same ∙ stuck.has_gate) q.first in
      let t = then-returned (require _ _) _ q.middle r s' q.second in
      let (_, same_t) = require-returned _ _ q.middle t.middle t.value t.first in
      let v = then-returned (require _ _) _ t.middle r s' t.second in
      let (_, same_v) = require-returned _ _ t.middle v.middle v.value v.first in
      let w =
        then-returned (require_main_completed o c p.value.session_id) _ v.middle r s' v.second in
      let (_, same_w) = require-returned _ _ v.middle w.middle w.value w.first in
      let a = then-returned (ensure_adapter_mode o c) _ w.middle r s' w.second in
      let (_, same_a) = require-returned _ _ w.middle a.middle a.value a.first in
      let b = bind-returned now _ a.middle r s' a.second in
      let same_b = sym (ap (λ z. z.1) b.first) in
      let d = bind-returned (begin_closing o c command p.value) _ b.middle r s' b.second in
      let (ending, same_d) =
        begin_closing-stuck command p.value d.value b.middle d.middle
          (ap (λ z. z.status) is ∙ failed_) d.first in
      let all = same_d ∙ same_b ∙ same_a ∙ same_w ∙ same_v ∙ same_t in
      let here = IsStuck-same x s q.middle (subst (λ z. IsSame z q.middle) same kept) stuck in
      close_and_stop-refused command x b.value d.middle s' r (subst (IsStuck x) (sym all) here)
        failed_
        (subst (λ z. close_and_stop o c command z b.value d.middle ≡ (returned r, s')) (ending ∙ is)
          d.second)

  -- Where the use case has a gate, the stored session is one whose stop failed and its closing talk
  -- is not completed, a normal end of this session that was not carried out before never returns a
  -- success, whatever the services, the talk and the other components do.
  pub execute-retry :
      (command : ApproveNormalStreamEndCommand) (x : StreamSession) (g : Gate) (u u' : EndUsecase)
      (r : StreamEndResult)
      → get command.command_id u.results ≡ none
      → u.site.gate ≡ some g
      → get x.session_id u.site.sessions ≡ some x
      → x.session_id ≡ command.session_id
      → x.status ≡ stop_failed
      → is_done (get x.session_id u.site.closings) ≡ false
      → execute o c (approves command) u ≡ (returned r, u')
      → r.successful ≡ false
  unfolding execute locked
  execute-retry command x g u u' r fresh has stored own failed_ open_ h =
      let made = remembered o c command.command_id u u' (normal_locked o c command u.site) r (
        subst
          (λ z. cached o c command.command_id (normal_locked o c command) z u ≡ (returned r, u'))
          fresh h) in
      normal_locked-refused command x u.site u'.site r
        (record { gate = g; has_gate = has; there = stored; not_closed = open_ }) failed_ own made
