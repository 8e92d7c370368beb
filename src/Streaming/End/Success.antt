-- ===== src/Streaming/End/Success.antt =====
-- What a command of app/usecases/end_stream_session_usecase.py has seen when it succeeds.
use ai_liver_yura.Common.{
  ℕ, ◌≤◌, String, ◌≡◌, refl, sym, ap, ◌∙◌, subst, inl, inr, true, false, Option, none, some, arith,
  string_eq, nat_eq, pair_eq, option_eq, bool_eq, list_eq,
}
use ai_liver_yura.Streaming.Session.{StreamSession, no_args}
use ai_liver_yura.Streaming.Services.{
  Outside, get_broadcast_status, get_stream_status, Site, returned, ◌>>◌, return, publish,
  save_transition, try_except,
}
use ai_liver_yura.Streaming.Services.Returns.{
  continue-returned, bind-returned, then-returned, handled-returned, save_transition-returned,
}
use ai_liver_yura.Streaming.End.{StreamEndResult, Settings, EndCommand, reload, event}
use ai_liver_yura.Streaming.End.Stop.{
  given_stream, failure, failure_result, fail_session, stop_services, stopped_result, blank_locals,
  finish, stop_failure, unless_failed, stop_or_fail, stop_external,
}
use ai_liver_yura.Streaming.End.Stopped.{IsStopped, stop_services-IsStopped, event-same}

module _ (o : Outside) (c : Settings) (command : EndCommand) where
  failure_result-unsuccessful :
      (session : StreamSession) (started : ℕ) (step closing_status code broadcast : String)
      (s s' : Site) (r : StreamEndResult)
      → failure_result o c command session started step closing_status code broadcast s
        ≡ (returned r, s')
      → r.successful ≡ false
  unfolding failure_result event publish
  failure_result-unsuccessful session started step closing_status code broadcast s s' r h =
      ground arith

  pub failure-unsuccessful :
      (session : StreamSession) (started : ℕ) (step closing_status code broadcast : String)
      (s s' : Site) (r : StreamEndResult)
      → failure o c command session started step closing_status code broadcast s ≡ (returned r, s')
      → r.successful ≡ false
  unfolding failure
  failure-unsuccessful session started step closing_status code broadcast s s' r h =
      let p = bind-returned (reload session) _ s r s' h in
      let q = then-returned (fail_session o c command p.value) _ p.middle r s' p.second in
      failure_result-unsuccessful session started step closing_status code broadcast q.middle s' r
        q.second

  stopped_result-calls :
      (session : StreamSession) (started : ℕ) (closing_status : String) (s s' : Site)
      (r : StreamEndResult)
      → stopped_result o c command session started closing_status s ≡ (returned r, s')
      → (s'.calls ≡ s.calls) × (r.session_id ≡ session.session_id)
  unfolding stopped_result event publish
  stopped_result-calls session started closing_status s s' r h = ground arith

  finish-calls :
      (session : StreamSession) (started : ℕ) (closing_status : String) (s s' : Site)
      (r : StreamEndResult)
      → finish o c command session started closing_status s ≡ (returned r, s')
      → (s'.calls ≡ s.calls) × (r.session_id ≡ session.session_id)
  unfolding finish reload
  finish-calls session started closing_status s s' r h =
      let p = bind-returned (reload session) _ s r s' h in
      let reloaded = ap (λ z. z.1.calls) p.first in
      let q = bind-returned (save_transition p.value _ no_args) _ p.middle r s' p.second in
      let (is, stored, calls) =
        save_transition-returned p.value q.value _ no_args p.middle q.middle q.first in
      let t = then-returned (event _ _ _) _ q.middle r s' q.second in
      let (calls_then, _, _) = event-same _ _ _ q.middle t.middle t.value t.first in
      let (calls_last, id) =
        stopped_result-calls session started closing_status t.middle s' r t.second in
      (calls_last ∙ calls_then ∙ calls ∙ sym reloaded, id)

  stop_or_fail-none :
      (session : StreamSession) (started : ℕ) (closing_status : String) (s s' : Site)
      → stop_or_fail o c command session started closing_status s ≡ (returned none, s')
      → IsStopped o c command session s.calls s'
  unfolding stop_or_fail try_except return stop_failure
  stop_or_fail-none session started closing_status s s' h =
      elim (handled-returned
        ((stop_services o c command session >> return none) (blank_locals o c command s))
        (stop_failure o c command session started closing_status) none s' h) [
          | inl done ↦
              let p =
                then-returned (stop_services o c command session) (return none)
                  (blank_locals o c command s) none s' done in
              let same = ap (λ z. z.1) p.second in
              subst (IsStopped o c command session s.calls) same (
                stop_services-IsStopped o c command session (blank_locals o c command s) p.middle
                  p.value p.first)
          | inr (e, s1, gave_up) ↦
              let p =
                continue-returned
                  (failure o c command session started "external_stop" closing_status _
                    s1.broadcast_status s1)
                  _ none s' gave_up in
              absurd (ground (arith, ap (λ z. z.0) p.second))
        ]

  stop_or_fail-some :
      (session : StreamSession) (started : ℕ) (closing_status : String) (s s' : Site)
      (result : StreamEndResult)
      → stop_or_fail o c command session started closing_status s ≡ (returned (some result), s')
      → result.successful ≡ false
  unfolding stop_or_fail try_except return stop_failure
  stop_or_fail-some session started closing_status s s' result h =
      elim (handled-returned
        ((stop_services o c command session >> return none) (blank_locals o c command s))
        (stop_failure o c command session started closing_status) (some result) s' h) [
          | inl done ↦
              let p =
                then-returned (stop_services o c command session) (return none)
                  (blank_locals o c command s) (some result) s' done in
              absurd (ground (arith, ap (λ z. z.0) p.second))
          | inr (e, s1, gave_up) ↦
              let p =
                continue-returned
                  (failure o c command session started "external_stop" closing_status _
                    s1.broadcast_status s1)
                  _ (some result) s' gave_up in
              let same = ap (λ z. z.0) p.second in
              let refused =
                failure-unsuccessful session started "external_stop" closing_status _
                  s1.broadcast_status s1 p.middle p.value p.first in
              ground arith
        ]

  IsStopped-later :
      (session : StreamSession) (first since : ℕ) (s s' : Site)
      → first ≤ since
      → s'.calls ≡ s.calls
      → IsStopped o c command session since s
      → IsStopped o c command session first s'
  IsStopped-later session first since s s' earlier same seen = record {
    broadcast_seen = seen.broadcast_seen;
    is_since = omega (arith, earlier, seen.is_since);
    broadcast = seen.broadcast;
    obs_seen = seen.obs_seen;
    is_obs_since = omega (arith, earlier, seen.is_obs_since);
    obs = seen.obs;
    stream_seen = seen.stream_seen;
    is_last = same ∙ seen.is_last;
    stream_status = seen.stream_status;
    stream = seen.stream;
    is_inactive = seen.is_inactive;
  }

  -- Of another session with the same selections.
  pub IsStopped-same :
      (session x : StreamSession) (first since : ℕ) (s : Site)
      → first ≤ since
      → session.selected_broadcast_id ≡ x.selected_broadcast_id
      → session.selected_stream_id ≡ x.selected_stream_id
      → IsStopped o c command session since s
      → IsStopped o c command x first s
  IsStopped-same session x first since s earlier same_broadcast same_stream seen =
      let later = IsStopped-later session first since s s earlier refl seen in
      record {
        broadcast_seen = later.broadcast_seen;
        is_since = later.is_since;
        broadcast =
            subst (λ id. o.answers later.broadcast_seen (get_broadcast_status id) ≡ some "complete")
              same_broadcast later.broadcast;
        obs_seen = later.obs_seen;
        is_obs_since = later.is_obs_since;
        obs = later.obs;
        stream_seen = later.stream_seen;
        is_last = later.is_last;
        stream_status = later.stream_status;
        stream =
            subst
              (λ id.
                o.answers later.stream_seen (get_stream_status (given_stream id))
                ≡ some later.stream_status)
              same_stream later.stream;
        is_inactive = later.is_inactive;
      }

  unless_failed-IsStopped :
      (first : ℕ) (session : StreamSession) (started : ℕ) (closing_status : String)
      (ended : Option StreamEndResult) (s0 s s' : Site) (r : StreamEndResult)
      → first ≤ s0.calls
      → stop_or_fail o c command session started closing_status s0 ≡ (returned ended, s)
      → unless_failed o c command session started closing_status ended s ≡ (returned r, s')
      → r.successful ≡ true
      → (r.session_id ≡ session.session_id) × IsStopped o c command session first s'
  unfolding return
  unless_failed-IsStopped first session started closing_status none s0 s s' r h e f done =
      let (calls, id) = finish-calls session started closing_status s s' r f in
      (
        id,
        IsStopped-later session first s0.calls s s' h calls
            (stop_or_fail-none session started closing_status s0 s e),
      )
  unless_failed-IsStopped first session started closing_status (some result) s0 s s' r h e f done =
      let refused = stop_or_fail-some session started closing_status s0 s result e in
      absurd (ground arith)

  -- Where `_stop_external` of a session returns a result that says it was successful, the result is
  -- about that session, and since it was called the services have answered that the broadcast that
  -- the session has selected is complete and that the output of OBS is idle, and the last answer was
  -- that the stream that the session has selected is inactive or has no data.
  pub stop_external-IsStopped :
      (session : StreamSession) (started : ℕ) (closing_status : String) (s s' : Site)
      (r : StreamEndResult)
      → stop_external o c command session started closing_status s ≡ (returned r, s')
      → r.successful ≡ true
      → (r.session_id ≡ session.session_id) × IsStopped o c command session s.calls s'
  unfolding stop_external
  stop_external-IsStopped session started closing_status s s' r e done =
      let p = bind-returned (stop_or_fail o c command session started closing_status) _ s r s' e in
      unless_failed-IsStopped s.calls session started closing_status p.value s p.middle s' r
        (omega arith) p.first p.second done
