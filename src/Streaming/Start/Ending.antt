-- ===== src/Streaming/Start/Ending.antt =====
-- How an execution of app/usecases/start_stream_session_usecase.py ends.
use ai_liver_yura.Common.{
  ℕ, zero, suc, ◌+◌, ◌≤◌, ◌<◌, String, ◌≡◌, refl, inl, inr, true, ◌||◌, Option, none, some, arith,
  leb, Bool-cases, Option-cases, ◌==◌, string_eq, nat_eq, pair_eq, option_eq, bool_eq, list_eq,
  Result, ok, err, is_empty,
}
use ai_liver_yura.Common.Dict.{get}
use ai_liver_yura.Streaming.Session.{
  StreamSession, StreamSessionStatus, TransitionArgs, start_failed,
}
use ai_liver_yura.Streaming.Services.{
  Outside, ServiceCall, Site, Failure, rejected, failed, out_of_fuel, Outcome, returned, raised, M,
  continue, raise, read, save_transition, handled, try_except, publish,
}
use ai_liver_yura.Streaming.Services.Rules.{
  IsTotal, total, ended, continue-IsTotal, bind-IsTotal, save_session-IsTotal, return-IsTotal,
  publish-IsTotal,
}
use ai_liver_yura.Streaming.Start.{
  ApproveStreamStartCommand, StreamStartResult, Settings, StartUsecase, poll_until, poll,
  is_failure, event, reopen, approve, is_start_failed, chosen_stream, start_obs, start_youtube,
  start_broadcast, confirm, succeeded, attempt, failed_result, give_up, blank_locals, go_live,
  after_validation, execute_once, remember, cached, execute, validate,
}

pub save_transition-IsTotal :
    (x : StreamSession) (status : StreamSessionStatus) (args : TransitionArgs)
    → IsTotal (save_transition x status args)
unfolding save_transition
save_transition-IsTotal x status args = record { ends = λ s. (save_session-IsTotal _).ends s }

pub event-IsTotal :
    (name : String) (command : ApproveStreamStartCommand) → IsTotal (event name command)
unfolding event
event-IsTotal name command = publish-IsTotal name command.session_id command.trace_id

pub raise-rejected-IsTotal : {A : Type 0} (code : String) → IsTotal (raise {A = A} (rejected code))
unfolding raise
raise-rejected-IsTotal code = record { ends = λ s. refl }

reopen-IsTotal : (session : StreamSession) → IsTotal (reopen session)
unfolding reopen
reopen-IsTotal session = elim (Bool-cases (is_start_failed session.status)) [
  | inl y ↦ rw y (save_transition-IsTotal _ _ _)
  | inr n ↦ rw n (return-IsTotal session)
]

approve-IsTotal :
    (command : ApproveStreamStartCommand) (found : StreamSession) → IsTotal (approve command found)
unfolding approve
approve-IsTotal command found =
    search (total, reopen-IsTotal, save_transition-IsTotal, event-IsTotal) depth 20

chosen_stream-IsTotal : (id : Option String) → IsTotal (chosen_stream id)
unfolding chosen_stream
chosen_stream-IsTotal none = raise-rejected-IsTotal _
chosen_stream-IsTotal (some id) = elim (Bool-cases (is_empty id)) [
  | inl y ↦ rw y (raise-rejected-IsTotal _)
  | inr n ↦ rw n (return-IsTotal id)
]

try_except-IsTotal :
    {A : Type 0} (m : M A) (h : Failure → M A)
    → IsTotal m
    → ((code : String) → IsTotal (h (rejected code)))
    → IsTotal (h failed)
    → IsTotal (try_except m h)
unfolding try_except
try_except-IsTotal {A} m h t r f = record { ends = λ s. handled_lem (m s) (t.ends s) }
  where
    handled_lem : (x : Outcome A × Site) → ended x.0 ≡ true → ended (handled x h).0 ≡ true
    handled_lem (returned a, s) e = refl
    handled_lem (raised (rejected code), s) e = (r code).ends s
    handled_lem (raised failed, s) e = f.ends s
    handled_lem (raised out_of_fuel, s) e = absurd (ground arith)

module _ (o : Outside) (c : Settings) (waits : 1 ≤ c.poll_interval) where
  poll_until-ends :
      (fuel deadline : ℕ) (operation : ServiceCall) (expected step : String) (s : Site)
      → 1 ≤ fuel
      → deadline < s.time + fuel
      → ended (poll_until o c fuel deadline operation expected step s).0 ≡ true
  unfolding poll_until read
  poll_until-ends zero deadline operation expected step s p h = absurd (omega (arith, p))
  poll_until-ends (suc fuel) deadline operation expected step s p h =
      elim (Option-cases (o.answers s.calls operation)) [
        | inl none_there ↦ rw none_there refl
        | inr (v, there) ↦
            rw (there, continue)
              (elim (Bool-cases (v == expected)) [
                | inl y ↦ rw y refl
                | inr n ↦
                    elim (Bool-cases (is_failure v || leb deadline (s.time + o.takes s.calls))) [
                      | inl stop ↦ rw (n, stop) refl
                      | inr more ↦
                          rw (n, more)
                            (poll_until-ends fuel deadline operation expected step _ (ground arith)
                              (ground arith))
                    ]
              ])
      ]

  poll-IsTotal :
      (operation : ServiceCall) (expected step : String)
      → IsTotal (poll o c operation expected step)
  unfolding poll
  poll-IsTotal operation expected step = record {
    ends = λ s.
        poll_until-ends (suc c.step_timeout) (s.time + c.step_timeout) operation expected step s
          (omega arith) (omega arith);
  }

  module _ (command : ApproveStreamStartCommand) where
    start_obs-IsTotal : IsTotal (start_obs o c command)
    unfolding start_obs
    start_obs-IsTotal = search (total, poll-IsTotal, event-IsTotal) depth 20

    start_youtube-IsTotal : (begun : StreamSession) → IsTotal (start_youtube o c command begun)
    unfolding start_youtube
    start_youtube-IsTotal begun =
        search (total, poll-IsTotal, event-IsTotal, chosen_stream-IsTotal) depth 20

    start_broadcast-IsTotal : (begun : StreamSession) → IsTotal (start_broadcast o c command begun)
    unfolding start_broadcast
    start_broadcast-IsTotal begun = search (total, poll-IsTotal, event-IsTotal) depth 20

    confirm-IsTotal :
        (begun : StreamSession) (stream_id : String) → IsTotal (confirm o c command begun stream_id)
    unfolding confirm
    confirm-IsTotal begun stream_id = search (total, save_transition-IsTotal) depth 20

    succeeded-IsTotal :
        (on_air : StreamSession) (started_at : ℕ)
        → IsTotal (succeeded o c command on_air started_at)
    unfolding succeeded publish
    succeeded-IsTotal on_air started_at = record { ends = λ s. refl }

    attempt-IsTotal :
        (begun : StreamSession) (started_at : ℕ) → IsTotal (attempt o c command begun started_at)
    unfolding attempt
    attempt-IsTotal begun started_at =
        search
          (
            total, start_obs-IsTotal, start_youtube-IsTotal, start_broadcast-IsTotal,
            confirm-IsTotal, succeeded-IsTotal,
          )
          depth 20

    failed_result-IsTotal :
        (session : StreamSession) (code : String) (started_at : ℕ)
        → IsTotal (failed_result o c command session code started_at)
    unfolding failed_result publish
    failed_result-IsTotal session code started_at = record { ends = λ s. refl }

    give_up-IsTotal :
        (begun : StreamSession) (started_at : ℕ) (e : Failure)
        → IsTotal (give_up o c command begun started_at e)
    unfolding give_up
    give_up-IsTotal begun started_at e = record {
      ends = λ s.
          continue-IsTotal (save_transition _ start_failed _ s) _
            ((save_transition-IsTotal _ _ _).ends s)
            (λ session. failed_result-IsTotal session _ started_at);
    }

    go_live-IsTotal : (begun : StreamSession) → IsTotal (go_live o c command begun)
    unfolding go_live
    go_live-IsTotal begun = record {
      ends = λ s.
          (try_except-IsTotal (attempt o c command begun s.time) (give_up o c command begun s.time)
              (attempt-IsTotal begun s.time) (λ code. give_up-IsTotal begun s.time (rejected code))
              (give_up-IsTotal begun s.time failed)).ends
            (blank_locals o c command s);
    }

    after_validation-IsTotal :
        (r : Result String StreamSession) → IsTotal (after_validation o c command r)
    after_validation-IsTotal (err code) = raise-rejected-IsTotal code
    after_validation-IsTotal (ok session) =
        bind-IsTotal (approve-IsTotal command session) go_live-IsTotal

    cached-ends :
        (known : Option StreamStartResult) (u : StartUsecase)
        → ended (cached o c command known u).0 ≡ true
    unfolding execute_once
    cached-ends (some r) u = refl
    cached-ends none u =
        remembered (execute_once o c command u.site)
          ((after_validation-IsTotal (validate c command u.site)).ends u.site)
      where
        remembered :
            (r : Outcome StreamStartResult × Site)
            → ended r.0 ≡ true
            → ended (remember o c command u r).0 ≡ true
        remembered (returned r, s) h = h
        remembered (raised e, s) h = h

    -- Where the polling interval is at least one tick of the clock, every execution ends, by a
    -- result or by an exception, whatever the services answer and however long they take.
    pub execute-ends : (u : StartUsecase) → ended (execute o c command u).0 ≡ true
    unfolding execute
    execute-ends u = cached-ends (get command.command_id u.results) u
