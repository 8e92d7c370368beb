-- ===== src/Streaming/End/Steps.antt =====
-- The stored session under app/usecases/end_stream_session_usecase.py: what a command does to it.
use ai_liver_yura.Common.{
  ℕ, String, ◌≡◌, refl, sym, ap, ◌∙◌, subst, ◌⊎◌, inl, inr, false, Option, none, some, Bool-cases,
  string_eq, nat_eq, pair_eq, option_eq, bool_eq, list_eq, given,
}
use ai_liver_yura.Common.Dict.{get}
use ai_liver_yura.Streaming.Repository.{Repository}
use ai_liver_yura.Streaming.Session.{StreamSession, no_args, stop_failed}
use ai_liver_yura.Streaming.Services.{Outside, publish, save_transition}
use ai_liver_yura.Streaming.Services.Rules.{
  IsQuiet, quietly, read-IsQuiet, request-IsQuiet, require-IsQuiet,
}
use ai_liver_yura.Streaming.Services.Contracts.{
  Meets, bind-Meets, then-Meets, quiet-Meets, return-Meets, continue-Holds, try_except-Meets,
  Follows, Moved, Reached, reached, save_transition-Meets, save_transition-Moved,
}
use ai_liver_yura.Streaming.End.{
  StreamEndResult, Settings, EndCommand, Mode, reload, event, can_fail, stop_obs_output,
}
use ai_liver_yura.Streaming.End.Stop.{
  final_status, failure, failure_result, fail_session, require_stopped, stop_obs,
  complete_broadcast, stop_services, stopped_result, blank_locals, finish, stop_failure,
  unless_failed, stop_or_fail, stop_external,
}
use ai_liver_yura.Streaming.End.Quiet.{event-IsQuiet}

-- What a command that was about the session `x` leaves: the session has come from `x` by calls of
-- its operations, and a success has brought it to its final status.
pub record Finished (mode : Mode) (before : Repository) (x : StreamSession) (r : StreamEndResult)
    (s : Repository) : Type 0 where
  pub session : StreamSession
  pub follows : Follows before x session s
  pub ends : (r.successful ≡ false) ⊎ (session.status ≡ final_status mode)

module _ (o : Outside) (c : Settings) (command : EndCommand) where
  failure_result-Finished :
      (session : StreamSession) (started : ℕ) (step closing_status code broadcast : String)
      {before : Repository} {x : StreamSession}
      → Meets
          (Reached before x)
          (failure_result o c command session started step closing_status code broadcast)
          (Finished command.mode before x)
          (Reached before x)
  unfolding failure_result event publish
  failure_result-Finished session started step closing_status code broadcast = record {
    meets = λ s f. record { session = f.session; follows = f.follows; ends = inl refl };
  }

  require_stopped-IsQuiet : IsQuiet (require_stopped o c command)
  unfolding require_stopped
  require_stopped-IsQuiet = record { quiet = λ s. (require-IsQuiet _ _).quiet s }

  module _ {before : Repository} {x : StreamSession} where
    pub reload-Meets :
        (session : StreamSession)
        → session.session_id ≡ x.session_id
        → Meets (Reached before x) (reload session) (Follows before x) (Reached before x)
    unfolding reload
    reload-Meets session own = record {
      meets = λ s f.
          let current =
            ap (λ id. given (get id s.sessions) session) own
            ∙ ap (λ z. given z session) f.follows.is_stored in
          subst (λ z. Follows before x z s.sessions) (sym current) f.follows;
    }

    fail_session-Meets :
        (y : StreamSession)
        → Meets
            (Follows before x y)
            (fail_session o c command y)
            (λ _. Reached before x)
            (Reached before x)
    unfolding fail_session
    fail_session-Meets y = elim (Bool-cases (can_fail y.status)) [
      | inl h ↦
          rw h (
            bind-Meets (save_transition-Meets stop_failed no_args refl)
              λ z. return-Meets tt reached)
      | inr h ↦ rw h (return-Meets tt reached)
    ]

    pub failure-Meets :
        (session : StreamSession) (started : ℕ) (step closing_status code broadcast : String)
        → session.session_id ≡ x.session_id
        → Meets
            (Reached before x)
            (failure o c command session started step closing_status code broadcast)
            (Finished command.mode before x)
            (Reached before x)
    unfolding failure
    failure-Meets session started step closing_status code broadcast own =
        bind-Meets (reload-Meets session own) λ current.
          then-Meets (fail_session-Meets current)
            λ _. failure_result-Finished session started step closing_status code broadcast

    stopped_result-Finished :
        (session : StreamSession) (started : ℕ) (closing_status : String) (z : StreamSession)
        → Meets
            (Moved before x (final_status command.mode) z)
            (stopped_result o c command session started closing_status)
            (Finished command.mode before x)
            (Reached before x)
    unfolding stopped_result event publish
    stopped_result-Finished session started closing_status z = record {
      meets = λ s f. record { session = z; follows = f.0; ends = inr f.1 };
    }

    final-Meets :
        (y : StreamSession)
        → Meets
            (Follows before x y)
            (save_transition y (final_status command.mode) no_args)
            (Moved before x (final_status command.mode))
            (Reached before x)
    final-Meets y = save_transition-Moved (final_status command.mode) no_args refl

    finish-Meets :
        (session : StreamSession) (started : ℕ) (closing_status : String)
        → session.session_id ≡ x.session_id
        → Meets
            (Reached before x)
            (finish o c command session started closing_status)
            (Finished command.mode before x)
            (Reached before x)
    unfolding finish
    finish-Meets session started closing_status own =
        bind-Meets (reload-Meets session own) λ current. bind-Meets (final-Meets current) λ z.
          then-Meets (quiet-Meets (event-IsQuiet _ _ _) (λ r f. reached r f.0))
            λ _. stopped_result-Finished session started closing_status z

  module _ (alone : (n : ℕ) (r : Repository) → o.meanwhile n r ≡ r) where
    stop_obs-IsQuiet : IsQuiet (stop_obs o c command)
    unfolding stop_obs stop_obs_output
    stop_obs-IsQuiet = search (quietly, read-IsQuiet, request-IsQuiet) depth 20

    complete_broadcast-IsQuiet :
        (session : StreamSession) → IsQuiet (complete_broadcast o c command session)
    unfolding complete_broadcast
    complete_broadcast-IsQuiet session =
        search (quietly, read-IsQuiet, request-IsQuiet, event-IsQuiet) depth 20

    stop_services-IsQuiet : (session : StreamSession) → IsQuiet (stop_services o c command session)
    unfolding stop_services
    stop_services-IsQuiet session =
        search
          (
            quietly, stop_obs-IsQuiet, complete_broadcast-IsQuiet, read-IsQuiet,
            require_stopped-IsQuiet,
          )
          depth 20

    -- What `_stop_external` has once its `try` is over.
    Tried : (before : Repository) (x : StreamSession) → Option StreamEndResult → Repository → Type 0
    Tried before x none s = Reached before x s
    Tried before x (some r) s = Finished command.mode before x r s

    module _ {before : Repository} {x : StreamSession} where
      stop_or_fail-Meets :
          (session : StreamSession) (started : ℕ) (closing_status : String)
          → session.session_id ≡ x.session_id
          → Meets
              (Reached before x)
              (stop_or_fail o c command session started closing_status)
              (Tried before x)
              (Reached before x)
      unfolding stop_or_fail stop_failure Tried
      stop_or_fail-Meets session started closing_status own = record {
        meets = λ s f.
            (try_except-Meets
                (then-Meets (quiet-Meets (stop_services-IsQuiet session) (λ r g. g))
                  (λ _. return-Meets none (λ r g. g)))
                (λ r g. g)
                (λ e. record {
                  meets = λ s' g.
                      continue-Holds
                        (failure o c command session started "external_stop" closing_status _
                          s'.broadcast_status s')
                        _
                        ((failure-Meets session started "external_stop" closing_status _
                            s'.broadcast_status own).meets
                          s' g)
                        (λ result. return-Meets (some result) (λ r f'. f'));
                })).meets
              (blank_locals o c command s) f;
      }

      unless_failed-Meets :
          (session : StreamSession) (started : ℕ) (closing_status : String)
          (ended : Option StreamEndResult)
          → session.session_id ≡ x.session_id
          → Meets
              (Tried before x ended)
              (unless_failed o c command session started closing_status ended)
              (Finished command.mode before x)
              (Reached before x)
      unfolding Tried
      unless_failed-Meets session started closing_status none own =
          finish-Meets session started closing_status own
      unless_failed-Meets session started closing_status (some result) own =
          return-Meets result (λ r f. f)

      pub stop_external-Meets :
          (session : StreamSession) (started : ℕ) (closing_status : String)
          → session.session_id ≡ x.session_id
          → Meets
              (Reached before x)
              (stop_external o c command session started closing_status)
              (Finished command.mode before x)
              (Reached before x)
      unfolding stop_external
      stop_external-Meets session started closing_status own =
          bind-Meets (stop_or_fail-Meets session started closing_status own)
            λ ended. unless_failed-Meets session started closing_status ended own
