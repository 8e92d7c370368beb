-- ===== src/Streaming/Start/Confirmed.antt =====
-- What a start that succeeds has seen of the outside, in
-- app/usecases/start_stream_session_usecase.py.
use ai_liver_yura.Common.{
  ℕ, String, ◌≡◌, refl, ap, ◌∙◌, subst, inl, inr, true, false, Option, none, some, arith,
  Bool-cases, string_eq, nat_eq, pair_eq, option_eq, bool_eq, list_eq, Result, ok, err, is_empty,
  or_none,
}
use text.Mathlib.TextEquality.{eq_iff}
use ai_liver_yura.Common.Dict.{get}
use ai_liver_yura.Streaming.Session.{StreamSession, live, start_approved, starting, start_failed}
use ai_liver_yura.Streaming.Services.{
  Outside, Site, Failure, Outcome, returned, raised, return, raise, require, publish,
  save_transition, try_except,
}
use ai_liver_yura.Streaming.Services.Returns.{
  continue-returned, bind-returned, then-returned, save_transition-returned, handled-returned,
}
use ai_liver_yura.Streaming.Start.{
  ApproveStreamStartCommand, StreamStartResult, Settings, StartUsecase, validate, validate_found,
  approval, with_trace, reopen, approve, start_obs, start_youtube, start_broadcast, confirm,
  succeeded, attempt, failed_result, give_up, blank_locals, go_live, after_validation, execute_once,
  remember, cached, execute, event,
}
use ai_liver_yura.Streaming.Start.Confirming.{IsConfirmed, confirm-returned, start_youtube-returned}

abbrev start_approver : StreamSession → Option String
start_approver x = x.start_approved_by

returned_same : (x y : StreamSession) (s s' : Site) → return x s ≡ (returned y, s') → y ≡ x
unfolding return
returned_same x y s s' h = ground arith

module _ (o : Outside) (c : Settings) (command : ApproveStreamStartCommand) where
  -- Only `succeeded` makes a result that is successful.
  succeeded-returned :
      (on_air : StreamSession) (started_at : ℕ) (r : StreamStartResult) (s s' : Site)
      → succeeded o c command on_air started_at s ≡ (returned r, s')
      → (s'.calls ≡ s.calls) × (s'.sessions ≡ s.sessions) × (r.session_id ≡ on_air.session_id)
  unfolding succeeded publish
  succeeded-returned on_air started_at r s s' h = ground arith

  give_up-returned :
      (begun : StreamSession) (started_at : ℕ) (e : Failure) (r : StreamStartResult) (s s' : Site)
      → give_up o c command begun started_at e s ≡ (returned r, s')
      → r.successful ≡ false
  unfolding give_up failed_result publish
  give_up-returned begun started_at e r s s' h =
      let p = continue-returned (save_transition _ start_failed _ s) _ r s' h in
      let t = p.second in ground arith

  -- The session that a result is about is stored, on air, and has the approver on record; OBS, the
  -- stream and the broadcast of that session were asked last.
  pub record IsOnAir (approver : Option String) (r : StreamStartResult) (s : Site) : Type 0 where
    pub session : StreamSession
    pub is_stored : get r.session_id s.sessions ≡ some session
    pub is_live : session.status ≡ live
    pub is_approved : session.start_approved_by ≡ approver
    pub stream_id : String
    pub has_stream : session.selected_stream_id ≡ some stream_id
    pub is_confirmed : IsConfirmed o c command stream_id session.selected_broadcast_id s

  attempt-returned :
      (begun : StreamSession) (started_at : ℕ) (r : StreamStartResult) (s s' : Site)
      → attempt o c command begun started_at s ≡ (returned r, s')
      → IsOnAir begun.start_approved_by r s'
  unfolding attempt
  attempt-returned begun started_at r s s' h =
      let p = then-returned (start_obs o c command) _ s r s' h in
      let q = bind-returned (start_youtube o c command begun) _ p.middle r s' p.second in
      let t = then-returned (start_broadcast o c command begun) _ q.middle r s' q.second in
      let v = bind-returned (confirm o c command begun q.value) _ t.middle r s' t.second in
      let (seen, stored, on_air, approver, stream) =
        confirm-returned o c command begun v.value q.value t.middle v.middle v.first in
      let (calls, sessions, id) = succeeded-returned v.value started_at r v.middle s' v.second in
      record {
        session = v.value;
        is_stored = ap (λ k. get k s'.sessions) id ∙ ap (get v.value.session_id) sessions ∙ stored;
        is_live = on_air;
        is_approved = approver;
        stream_id = q.value;
        has_stream =
            stream ∙ start_youtube-returned o c command begun q.value p.middle q.middle q.first;
        is_confirmed = record {
          since = seen.since;
          last = calls ∙ seen.last;
          obs = seen.obs;
          stream = seen.stream;
          broadcast = seen.broadcast;
        };
      }

  go_live-returned :
      (begun : StreamSession) (r : StreamStartResult) (s s' : Site)
      → go_live o c command begun s ≡ (returned r, s')
      → r.successful ≡ true
      → IsOnAir begun.start_approved_by r s'
  unfolding go_live try_except
  go_live-returned begun r s s' h ok_ =
      elim (handled-returned (attempt o c command begun s.time (blank_locals o c command s))
        (give_up o c command begun s.time) r s' h) [
          | inl done ↦ attempt-returned begun s.time r (blank_locals o c command s) s' done
          | inr (e, s1, gave_up) ↦
              absurd (ground (arith, give_up-returned begun s.time e r s1 s' gave_up))
        ]

  approve-returned :
      (found begun : StreamSession) (s s' : Site)
      → approve command found s ≡ (returned begun, s')
      → (old : Option String) × (begun.start_approved_by ≡ or_none (some command.approved_by) old)
  unfolding approve approval with_trace event return
  approve-returned found begun s s' h =
      let p = bind-returned (reopen found) _ s begun s' h in
      let q = then-returned (require _ _) _ p.middle begun s' p.second in
      let t =
        bind-returned (save_transition p.value start_approved _) _ q.middle begun s' q.second in
      let (approved, _, _) =
        save_transition-returned p.value t.value start_approved _ q.middle t.middle t.first in
      let u = then-returned (publish _ _ _) _ t.middle begun s' t.second in
      let v = bind-returned (save_transition t.value starting _) _ u.middle begun s' u.second in
      let (begun_is, _, _) =
        save_transition-returned t.value v.value starting _ u.middle v.middle v.first in
      let w = then-returned (publish _ _ _) _ v.middle begun s' v.second in
      (
        p.value.start_approved_by,
        ap start_approver (returned_same v.value begun w.middle s' w.second)
            ∙ ap start_approver begun_is
            ∙ ap start_approver approved,
      )

  validate_found-ok :
      (found : Option StreamSession) (x : StreamSession)
      → validate_found c command found ≡ ok x
      → c.is_blank command.approved_by ≡ false
  unfolding validate_found
  validate_found-ok none x h = absurd (ground arith)
  validate_found-ok (some y) x h = ground arith

  validated-returned :
      (v : Result String StreamSession) (r : StreamStartResult) (s s' : Site)
      → after_validation o c command v s ≡ (returned r, s')
      → r.successful ≡ true
      → (x : StreamSession) × (v ≡ ok x)
        × (old : Option String) × IsOnAir (or_none (some command.approved_by) old) r s'
  unfolding raise
  validated-returned (err code) r s s' h done = absurd (ground arith)
  validated-returned (ok x) r s s' h done =
      let p = bind-returned (approve command x) (go_live o c command) s r s' h in
      let (old, approver) = approve-returned x p.value s p.middle p.first in
      (
        x,
        refl,
        old,
        subst (λ a. IsOnAir a r s') approver (go_live-returned p.value r p.middle s' p.second done),
      )

  pub remembered_new :
      (u u' : StartUsecase) (m : Outcome StreamStartResult × Site) (r : StreamStartResult)
      → remember o c command u m ≡ (returned r, u')
      → m ≡ (returned r, u'.site)
  remembered_new u u' (returned x, s) r h = ground arith
  remembered_new u u' (raised e, s) r h = absurd (ground arith)

  or_none-kept :
      (name : String) (old : Option String)
      → c.is_blank "" ≡ true
      → c.is_blank name ≡ false
      → or_none (some name) old ≡ some name
  or_none-kept name old blank h = elim (Bool-cases (is_empty name)) [
    | inl y ↦ absurd (let same = eq_iff name "" in ground (arith, ap c.is_blank (same.0 y)))
    | inr n ↦ rw n refl
  ]

  -- Where a command that was not executed before is executed and the result says that it was
  -- successful, the session of the result is stored, is live and names the one who approved the
  -- command, and the last three calls of the services asked for the output of OBS, for the stream
  -- that this session has selected and for the broadcast that it has selected, and were answered
  -- that OBS is active, the stream is active and the broadcast is live. The empty text counts as
  -- blank.
  pub execute-IsOnAir :
      (u u' : StartUsecase) (r : StreamStartResult)
      → c.is_blank "" ≡ true
      → get command.command_id u.results ≡ none
      → execute o c command u ≡ (returned r, u')
      → r.successful ≡ true
      → IsOnAir (some command.approved_by) r u'.site
  unfolding execute execute_once validate
  execute-IsOnAir u u' r blank fresh h done =
      let made =
        remembered_new u u' (execute_once o c command u.site) r
          (subst (λ z. cached o c command z u ≡ (returned r, u')) fresh h) in
      let (x, valid, old, on_air) =
        validated-returned (validate c command u.site) r u.site u'.site made done in
      let named = validate_found-ok (get command.session_id u.site.sessions) x valid in
      subst (λ a. IsOnAir a r u'.site) (or_none-kept command.approved_by old blank named) on_air
