-- ===== src/Streaming/Start/Effects.antt =====
-- What an execution leaves behind, in app/usecases/start_stream_session_usecase.py: the results it
-- remembers, and what a failure has changed.
use ai_liver_yura.Common.{
  ℕ, String, ◌≡◌, refl, sym, ap, ◌∙◌, subst, inl, inr, true, false, ◌||◌, Option, none, some, [],
  ◌∷◌, arith, ◌==◌, string_eq, nat_eq, pair_eq, option_eq, bool_eq, list_eq, Result, ok, err,
}
use ai_liver_yura.Common.Dict.{get, get-set_self}
use ai_liver_yura.Streaming.Session.{StreamSession, start_failed}
use ai_liver_yura.Streaming.Services.{
  Outside, Site, Failure, Outcome, returned, raised, publish, raise, save_transition, try_except,
}
use ai_liver_yura.Streaming.Services.Returns.{
  continue-returned, bind-returned, then-returned, save_transition-returned, handled-returned,
}
use ai_liver_yura.Streaming.Start.{
  ApproveStreamStartCommand, StreamStartResult, Settings, StartUsecase, validate, approve, attempt,
  succeeded, failed_result, failing, give_up, blank_locals, go_live, after_validation, execute_once,
  remember, cached, execute, code_of, confirm, start_obs, start_youtube, start_broadcast,
}
use ai_liver_yura.Streaming.Start.Confirmed.{remembered_new}

module _ (o : Outside) (c : Settings) (command : ApproveStreamStartCommand) where
  cached-remembers :
      (known : Option StreamStartResult) (u u' : StartUsecase) (r : StreamStartResult)
      → get command.command_id u.results ≡ known
      → cached o c command known u ≡ (returned r, u')
      → (kept : StreamStartResult) × (get command.command_id u'.results ≡ some kept)
        × (record r { duplicate = true } ≡ record kept { duplicate = true })
  cached-remembers (some kept) u u' r e h = (kept, ground arith, ground arith)
  cached-remembers none u u' r e h = remembered (execute_once o c command u.site) h
    where
      remembered :
          (m : Outcome StreamStartResult × Site)
          → remember o c command u m ≡ (returned r, u')
          → (kept : StreamStartResult) × (get command.command_id u'.results ≡ some kept)
            × (record r { duplicate = true } ≡ record kept { duplicate = true })
      remembered (raised e, s) h = absurd (ground arith)
      remembered (returned x, s) h =
          (x, ground (arith, get-set_self command.command_id x u.results), ground arith)

  -- After a command has returned a result, the same command returns that result again, marked as a
  -- duplicate, and changes nothing: neither the sessions nor what the services were asked.
  pub execute-again :
      (u u' : StartUsecase) (r : StreamStartResult)
      → execute o c command u ≡ (returned r, u')
      → execute o c command u' ≡ (returned (record r { duplicate = true }), u')
  unfolding execute
  execute-again u u' r h =
      let (kept, known, same) = cached-remembers (get command.command_id u.results) u u' r refl h in
      ap (λ z. cached o c command z u') known ∙ ap (λ x. (returned x, u')) (sym same)

  -- What a failed start leaves: the session of the result is stored as failed for the one reason
  -- that the result names.
  pub record IsGivenUp (r : StreamStartResult) (s : Site) : Type 0 where
    pub session : StreamSession
    pub code : String
    pub is_stored : get r.session_id s.sessions ≡ some session
    pub has_failed : session.status ≡ start_failed
    pub is_reason : session.failure_reasons ≡ code ∷ []
    pub is_code : r.failure_code ≡ some code
    pub needs_operator : r.manual_intervention_required ≡ (
        r.obs_status == "active"
        || r.youtube_stream_status == "active"
        || r.youtube_broadcast_status == "live")

  failed_result-IsGivenUp :
      (session : StreamSession) (code : String) (started_at : ℕ) (r : StreamStartResult)
      (s s' : Site)
      → get session.session_id s.sessions ≡ some session
      → session.status ≡ start_failed
      → session.failure_reasons ≡ code ∷ []
      → failed_result o c command session code started_at s ≡ (returned r, s')
      → IsGivenUp r s'
  unfolding failed_result publish
  failed_result-IsGivenUp session code started_at r s s' stored status reasons h = record {
    session = session;
    code = code;
    is_stored = ground (arith, stored);
    has_failed = status;
    is_reason = reasons;
    is_code = ground arith;
    needs_operator = ground arith;
  }

  give_up-IsGivenUp :
      (begun : StreamSession) (started_at : ℕ) (e : Failure) (r : StreamStartResult) (s s' : Site)
      → give_up o c command begun started_at e s ≡ (returned r, s')
      → IsGivenUp r s'
  unfolding give_up failing
  give_up-IsGivenUp begun started_at e r s s' h =
      let p = continue-returned (save_transition _ start_failed _ s) _ r s' h in
      let (is, stored, calls) =
        save_transition-returned _ p.value start_failed _ s p.middle p.first in
      failed_result-IsGivenUp p.value (code_of o c command e s.step) started_at r p.middle s' stored
        (ap (λ x. x.status) is) (ap (λ x. x.failure_reasons) is) p.second

  succeeded-successful :
      (on_air : StreamSession) (started_at : ℕ) (r : StreamStartResult) (s s' : Site)
      → succeeded o c command on_air started_at s ≡ (returned r, s')
      → r.successful ≡ true
  unfolding succeeded publish
  succeeded-successful on_air started_at r s s' h = ground arith

  attempt-successful :
      (begun : StreamSession) (started_at : ℕ) (r : StreamStartResult) (s s' : Site)
      → attempt o c command begun started_at s ≡ (returned r, s')
      → r.successful ≡ true
  unfolding attempt
  attempt-successful begun started_at r s s' h =
      let p = then-returned (start_obs o c command) _ s r s' h in
      let q = bind-returned (start_youtube o c command begun) _ p.middle r s' p.second in
      let t = then-returned (start_broadcast o c command begun) _ q.middle r s' q.second in
      let v = bind-returned (confirm o c command begun q.value) _ t.middle r s' t.second in
      succeeded-successful v.value started_at r v.middle s' v.second

  go_live-IsGivenUp :
      (begun : StreamSession) (r : StreamStartResult) (s s' : Site)
      → go_live o c command begun s ≡ (returned r, s')
      → r.successful ≡ false
      → IsGivenUp r s'
  unfolding go_live try_except
  go_live-IsGivenUp begun r s s' h failed_ =
      elim (handled-returned (attempt o c command begun s.time (blank_locals o c command s))
        (give_up o c command begun s.time) r s' h) [
          | inl done ↦ absurd (
              ground
                (arith, attempt-successful begun s.time r (blank_locals o c command s) s' done))
          | inr (e, s1, gave_up) ↦ give_up-IsGivenUp begun s.time e r s1 s' gave_up
        ]

  validated-IsGivenUp :
      (v : Result String StreamSession) (r : StreamStartResult) (s s' : Site)
      → after_validation o c command v s ≡ (returned r, s')
      → r.successful ≡ false
      → IsGivenUp r s'
  unfolding raise
  validated-IsGivenUp (err code) r s s' h failed_ = absurd (ground arith)
  validated-IsGivenUp (ok x) r s s' h failed_ =
      let p = bind-returned (approve command x) (go_live o c command) s r s' h in
      go_live-IsGivenUp p.value r p.middle s' p.second failed_

  -- Where a command that was not executed before returns a result that says it was not successful,
  -- the session of the result is stored as a failed start whose only reason is the failure code of
  -- the result, and the result asks for an operator exactly where one of its statuses says that
  -- something is on air already.
  pub execute-IsGivenUp :
      (u u' : StartUsecase) (r : StreamStartResult)
      → get command.command_id u.results ≡ none
      → execute o c command u ≡ (returned r, u')
      → r.successful ≡ false
      → IsGivenUp r u'.site
  unfolding execute execute_once
  execute-IsGivenUp u u' r fresh h failed_ =
      validated-IsGivenUp (validate c command u.site) r u.site u'.site
        (remembered_new o c command u u' (execute_once o c command u.site) r
          (subst (λ z. cached o c command z u ≡ (returned r, u')) fresh h))
        failed_
