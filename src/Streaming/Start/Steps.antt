-- ===== src/Streaming/Start/Steps.antt =====
-- The stored session under app/usecases/start_stream_session_usecase.py: what an execution does to it.
use ai_liver_yura.Common.{
  ℕ, zero, suc, ◌+◌, String, ◌≡◌, refl, sym, ap, ◌∙◌, subst, inl, inr, ◌||◌, Option, none, some,
  arith, leb, Bool-cases, Option-cases, ◌==◌, string_eq, nat_eq, pair_eq, option_eq, bool_eq,
  list_eq, Result, ok, err, is_empty, given,
}
use ai_liver_yura.Common.Dict.{get}
use ai_liver_yura.Streaming.Repository.{Repository}
use ai_liver_yura.Streaming.Session.{
  StreamSession, live, ready, start_approved, starting, start_failed,
}
use ai_liver_yura.Streaming.Services.{
  Outside, ServiceCall, Site, Failure, Outcome, returned, raised, continue, raise, read, publish,
  save_transition,
}
use ai_liver_yura.Streaming.Services.Rules.{
  IsQuiet, quietly, read-IsQuiet, request-IsQuiet, return-IsQuiet, raise-IsQuiet, publish-IsQuiet,
  require-IsQuiet, set_obs-IsQuiet, set_stream-IsQuiet, set_broadcast-IsQuiet,
}
use ai_liver_yura.Streaming.Services.Contracts.{
  Holds, Meets, bind-Meets, then-Meets, quiet-Meets, return-Meets, continue-Holds, try_except-Meets,
  Follows, Reached, reached, save_transition-Meets, unmoved,
}
use ai_liver_yura.Streaming.Start.{
  ApproveStreamStartCommand, StreamStartResult, Settings, StartUsecase, poll_until, poll,
  is_failure, event, reopen, approve, is_start_failed, chosen_stream, start_obs, start_youtube,
  start_broadcast, confirm, succeeded, attempt, failed_result, give_up, blank_locals, go_live,
  after_validation, execute_once, remember, cached, execute, validate, validate_found, with_trace,
}

event-IsQuiet : (name : String) (command : ApproveStreamStartCommand) → IsQuiet (event name command)
unfolding event
event-IsQuiet name command = publish-IsQuiet name command.session_id command.trace_id

chosen_stream-IsQuiet : (id : Option String) → IsQuiet (chosen_stream id)
unfolding chosen_stream
chosen_stream-IsQuiet none = raise-IsQuiet _
chosen_stream-IsQuiet (some id) = elim (Bool-cases (is_empty id)) [
  | inl y ↦ rw y (raise-IsQuiet _)
  | inr n ↦ rw n (return-IsQuiet id)
]

module _ {before : Repository} {x : StreamSession} where
  reopen-Meets :
      (y : StreamSession)
      → Meets (Follows before x y) (reopen y) (Follows before x) (Reached before x)
  unfolding reopen
  reopen-Meets y = elim (Bool-cases (is_start_failed y.status)) [
    | inl h ↦ rw h (save_transition-Meets ready _ refl)
    | inr h ↦ rw h (return-Meets y (λ r f. f))
  ]

  approve-Meets :
      (command : ApproveStreamStartCommand) (y : StreamSession)
      → Meets (Follows before x y) (approve command y) (Follows before x) (Reached before x)
  unfolding approve
  approve-Meets command y = bind-Meets (reopen-Meets y) λ opened.
      then-Meets (quiet-Meets (search quietly) reached) λ _.
        bind-Meets (save_transition-Meets start_approved _ refl) λ approved.
          then-Meets (quiet-Meets (event-IsQuiet _ command) reached) λ _.
            bind-Meets (save_transition-Meets starting _ refl) λ begun.
              then-Meets (quiet-Meets (event-IsQuiet _ command) reached)
                λ _. return-Meets begun (λ r f. f)

validated_same :
    (c : Settings) (command : ApproveStreamStartCommand) (x y : StreamSession)
    → validate_found c command (some x) ≡ ok y
    → y ≡ x
unfolding validate_found
validated_same c command x y h = ground arith

module _ (o : Outside) (c : Settings) (alone : (n : ℕ) (r : Repository) → o.meanwhile n r ≡ r) where
  poll_until-quiet :
      (fuel deadline : ℕ) (operation : ServiceCall) (expected step : String) (s : Site)
      → (poll_until o c fuel deadline operation expected step s).1.sessions ≡ s.sessions
  unfolding poll_until read
  poll_until-quiet zero deadline operation expected step s = refl
  poll_until-quiet (suc fuel) deadline operation expected step s =
      elim (Option-cases (o.answers s.calls operation)) [
        | inl none_there ↦ rw none_there (alone s.calls s.sessions)
        | inr (v, there) ↦
            rw (there, continue)
              (elim (Bool-cases (v == expected)) [
                | inl y ↦ rw y (alone s.calls s.sessions)
                | inr n ↦
                    elim (Bool-cases (is_failure v || leb deadline (s.time + o.takes s.calls))) [
                      | inl stop ↦ rw (n, stop) (alone s.calls s.sessions)
                      | inr more ↦
                          rw (n, more)
                            (poll_until-quiet fuel deadline operation expected step _
                              ∙ alone s.calls s.sessions)
                    ]
              ])
      ]

  poll-IsQuiet :
      (operation : ServiceCall) (expected step : String)
      → IsQuiet (poll o c operation expected step)
  unfolding poll
  poll-IsQuiet operation expected step = record {
    quiet = λ s.
        poll_until-quiet (suc c.step_timeout) (s.time + c.step_timeout) operation expected step s;
  }

  module _ (command : ApproveStreamStartCommand) where
    start_obs-IsQuiet : IsQuiet (start_obs o c command)
    unfolding start_obs
    start_obs-IsQuiet =
        search (quietly, poll-IsQuiet, event-IsQuiet, read-IsQuiet, request-IsQuiet) depth 20

    start_youtube-IsQuiet : (begun : StreamSession) → IsQuiet (start_youtube o c command begun)
    unfolding start_youtube
    start_youtube-IsQuiet begun =
        search (quietly, poll-IsQuiet, event-IsQuiet, chosen_stream-IsQuiet) depth 20

    start_broadcast-IsQuiet : (begun : StreamSession) → IsQuiet (start_broadcast o c command begun)
    unfolding start_broadcast
    start_broadcast-IsQuiet begun =
        search (quietly, poll-IsQuiet, event-IsQuiet, read-IsQuiet, request-IsQuiet) depth 20

    succeeded-IsQuiet :
        (on_air : StreamSession) (started_at : ℕ)
        → IsQuiet (succeeded o c command on_air started_at)
    unfolding succeeded publish
    succeeded-IsQuiet on_air started_at = record { quiet = λ s. refl }

    failed_result-IsQuiet :
        (session : StreamSession) (code : String) (started_at : ℕ)
        → IsQuiet (failed_result o c command session code started_at)
    unfolding failed_result publish
    failed_result-IsQuiet session code started_at = record { quiet = λ s. refl }

    module _ {before : Repository} {x : StreamSession} where
      confirm-Meets :
          (y : StreamSession) (stream_id : String)
          → Meets
              (Follows before x y)
              (confirm o c command y stream_id)
              (Follows before x)
              (Reached before x)
      unfolding confirm
      confirm-Meets y stream_id = bind-Meets (quiet-Meets (read-IsQuiet o alone _) reached) λ obs.
          then-Meets (quiet-Meets (set_obs-IsQuiet obs) reached) λ _.
            bind-Meets (quiet-Meets (read-IsQuiet o alone _) reached) λ stream.
              then-Meets (quiet-Meets (set_stream-IsQuiet stream) reached) λ _.
                bind-Meets (quiet-Meets (read-IsQuiet o alone _) reached) λ broadcast.
                  then-Meets (quiet-Meets (set_broadcast-IsQuiet broadcast) reached) λ _.
                    then-Meets (quiet-Meets (require-IsQuiet _ _) reached)
                      λ _. save_transition-Meets live (with_trace command) refl

      attempt-Meets :
          (y : StreamSession) (started_at : ℕ)
          → Meets
              (Follows before x y)
              (attempt o c command y started_at)
              (λ _. Reached before x)
              (Reached before x)
      unfolding attempt
      attempt-Meets y started_at = then-Meets (quiet-Meets start_obs-IsQuiet reached) λ _.
          bind-Meets (quiet-Meets (start_youtube-IsQuiet y) reached) λ id.
            then-Meets (quiet-Meets (start_broadcast-IsQuiet y) reached) λ _.
              bind-Meets (confirm-Meets y id) λ on_air. record {
                meets = λ s f.
                    (quiet-Meets (succeeded-IsQuiet on_air started_at) (λ r g. g)).meets s
                      (reached s.sessions f);
              }

      module _ (own : x.session_id ≡ command.session_id) where
        give_up-Meets :
            (y : StreamSession) (started_at : ℕ) (e : Failure)
            → Meets
                (Reached before x)
                (give_up o c command y started_at e)
                (λ _. Reached before x)
                (Reached before x)
        unfolding give_up
        give_up-Meets y started_at e = record {
          meets = λ s f.
              let current =
                ap (λ id. given (get id s.sessions) y) (sym own)
                ∙ ap (λ z. given z y) f.follows.is_stored in
              continue-Holds (save_transition _ start_failed _ s) _
                ((save_transition-Meets start_failed _ refl).meets s
                  (subst (λ z. Follows before x z s.sessions) (sym current) f.follows))
                λ session. record {
                  meets = λ s' g.
                      (quiet-Meets (failed_result-IsQuiet session _ started_at) (λ r g'. g')).meets
                        s' (reached s'.sessions g);
                };
        }

        go_live-Meets :
            (y : StreamSession)
            → Meets
                (Follows before x y)
                (go_live o c command y)
                (λ _. Reached before x)
                (Reached before x)
        unfolding go_live
        go_live-Meets y = record {
          meets = λ s f.
              (try_except-Meets (attempt-Meets y s.time) (λ r g. g) (give_up-Meets y s.time)).meets
                (blank_locals o c command s) f;
        }

  Reached-remembered :
      (command : ApproveStreamStartCommand) (u : StartUsecase) (before : Repository)
      (x : StreamSession) (m : Outcome StreamStartResult × Site)
      → Holds (λ _. Reached before x) (Reached before x) m
      → Reached before x (remember o c command u m).1.site.sessions
  Reached-remembered command u before x (returned r, s) h = h
  Reached-remembered command u before x (raised e, s) h = h

  after_validation-Reached :
      (command : ApproveStreamStartCommand) (x : StreamSession) (v : Result String StreamSession)
      (s : Site)
      → validate_found c command (some x) ≡ v
      → get x.session_id s.sessions ≡ some x
      → x.session_id ≡ command.session_id
      → Holds (λ _. Reached s.sessions x) (Reached s.sessions x) (after_validation o c command v s)
  unfolding raise validate_found
  after_validation-Reached command x (err code) s valid there own =
      reached s.sessions (unmoved s.sessions there)
  after_validation-Reached command x (ok y) s valid there own =
      (bind-Meets (approve-Meets command y) (go_live-Meets command own)).meets s (
        subst (λ z. Follows s.sessions x z s.sessions) (sym (validated_same c command x y valid))
          (unmoved s.sessions there))

  cached-Reached :
      (command : ApproveStreamStartCommand) (known : Option StreamStartResult) (u : StartUsecase)
      (x : StreamSession)
      → get command.session_id u.site.sessions ≡ some x
      → x.session_id ≡ command.session_id
      → Reached u.site.sessions x (cached o c command known u).1.site.sessions
  unfolding execute_once validate
  cached-Reached command (some r) u x there own =
      reached u.site.sessions
        (unmoved u.site.sessions (ap (λ k. get k u.site.sessions) own ∙ there))
  cached-Reached command none u x there own =
      Reached-remembered command u u.site.sessions x (execute_once o c command u.site) (
        after_validation-Reached command x (validate c command u.site) u.site
          (ap (validate_found c command) (sym there)) (ap (λ k. get k u.site.sessions) own ∙ there)
          own)

  -- Where nobody else changes the repository meanwhile and the session of the command is stored
  -- under its own identifier, then whatever happens in an execution, a result or an exception, what
  -- is stored for the session afterwards came from it by calls of its own operations, and every
  -- other session is as it was.
  pub execute-Reached :
      (command : ApproveStreamStartCommand) (u : StartUsecase) (x : StreamSession)
      → get command.session_id u.site.sessions ≡ some x
      → x.session_id ≡ command.session_id
      → Reached u.site.sessions x (execute o c command u).1.site.sessions
  unfolding execute
  execute-Reached command u x there own =
      cached-Reached command (get command.command_id u.results) u x there own
