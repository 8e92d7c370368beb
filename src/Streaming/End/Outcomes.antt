-- ===== src/Streaming/End/Outcomes.antt =====
-- The two commands of app/usecases/end_stream_session_usecase.py as a whole: what they do to the
-- stored session.
use ai_liver_yura.Common.{
  ℕ, String, ◌≡◌, refl, sym, ap, ◌∙◌, subst, inl, inr, Option, none, some, Bool-cases, string_eq,
  nat_eq, pair_eq, option_eq, bool_eq, list_eq,
}
use ai_liver_yura.Common.Dict.{get}
use ai_liver_yura.Streaming.Repository.{Repository}
use ai_liver_yura.Streaming.Session.{
  StreamSession, is_live, no_args, closing, closing_requested, stopping, emergency_stop_requested,
  emergency_stopping,
}
use ai_liver_yura.Streaming.Services.{Outside, Site, Outcome, returned, raised, M}
use ai_liver_yura.Streaming.Services.Rules.{require-IsQuiet}
use ai_liver_yura.Streaming.Services.Contracts.{
  Holds, Meets, bind-Meets, then-Meets, quiet-Meets, return-Meets, Follows, Reached, reached,
  save_transition-Meets, unmoved,
}
use ai_liver_yura.Streaming.End.{
  ApproveNormalStreamEndCommand, EmergencyStopStreamCommand, StreamEndResult, Settings, EndUsecase,
  Mode, find, with_trace, validate_version, validate_emergency,
}
use ai_liver_yura.Streaming.End.Quiet.{
  event-IsQuiet, cancel-IsQuiet, now-IsQuiet, consult-IsQuiet, ensure_adapter_mode-IsQuiet,
  require_main_completed-IsQuiet, closed-IsQuiet,
}
use ai_liver_yura.Streaming.End.Steps.{Finished, reload-Meets, failure-Meets, stop_external-Meets}
use ai_liver_yura.Streaming.End.Commands.{
  is_stopping, as_command, as_stop, begin_closing, begin_stopping, stop_normally, close_and_stop,
  normal_locked, emergency_locked, Command, approves, stops, command_of, session_of, locked,
  remember, cached, execute,
}

module _ {before : Repository} {x : StreamSession} where
  pub find-Meets :
      {A : Type 0} {Q : A → Repository → Type 0} {E : Repository → Type 0} (id : String)
      (k : Option StreamSession → M A)
      → x.session_id ≡ id
      → Meets (Follows before x x) (k (some x)) Q E
      → Meets (Follows before x x) (find id k) Q E
  unfolding find
  find-Meets {Q = Q} {E = E} id k own h = record {
    meets = λ s f.
        let found = ap (λ z. get z s.sessions) (sym own) ∙ f.is_stored in
        subst (λ w. Holds Q E (k w s)) (sym found) (h.meets s f);
  }

  -- The session that is stored has kept its identifier.
  pub own-Meets :
      {A : Type 0} {Q : A → Repository → Type 0} {E : Repository → Type 0} {z : StreamSession}
      {m : M A}
      → (z.session_id ≡ x.session_id → Meets (Reached before x) m Q E)
      → Meets (Follows before x z) m Q E
  own-Meets h = record { meets = λ s f. (h f.same_id).meets s (reached s.sessions f) }

  pub validate_version-Meets :
      (version : ℕ)
      → Meets
          (Follows before x x)
          (validate_version version (some x))
          (Follows before x)
          (Reached before x)
  unfolding validate_version
  validate_version-Meets version =
      then-Meets (quiet-Meets (require-IsQuiet _ _) reached) λ _. return-Meets x (λ r f. f)

  pub validate_emergency-Meets :
      (version : ℕ)
      → Meets
          (Follows before x x)
          (validate_emergency version (some x))
          (Follows before x)
          (Reached before x)
  unfolding validate_emergency
  validate_emergency-Meets version =
      then-Meets (quiet-Meets (require-IsQuiet _ _) reached) λ _. return-Meets x (λ r f. f)

  module _ (o : Outside) (c : Settings) where
    pub begin_stopping-Meets :
        (y : StreamSession)
        → Meets (Follows before x y) (begin_stopping o c y) (Follows before x) (Reached before x)
    unfolding begin_stopping
    begin_stopping-Meets y = elim (Bool-cases (is_stopping y.status)) [
      | inl h ↦ rw h (return-Meets y (λ r f. f))
      | inr h ↦ rw h (save_transition-Meets stopping no_args refl)
    ]

    pub begin_closing-Meets :
        (command : ApproveNormalStreamEndCommand) (y : StreamSession)
        → Meets
            (Follows before x y)
            (begin_closing o c command y)
            (Follows before x)
            (Reached before x)
    unfolding begin_closing with_trace
    begin_closing-Meets command y = elim (Bool-cases (is_live y.status)) [
      | inl h ↦ rw h (
          bind-Meets (save_transition-Meets closing_requested _ refl) λ z.
            then-Meets (quiet-Meets (event-IsQuiet _ _ _) reached)
              λ _. save_transition-Meets closing no_args refl)
      | inr h ↦ rw h (return-Meets y (λ r f. f))
    ]

    module _ (alone : (n : ℕ) (r : Repository) → o.meanwhile n r ≡ r) where
      stop_normally-Meets :
          (command : ApproveNormalStreamEndCommand) (session : StreamSession) (started : ℕ)
          → session.session_id ≡ x.session_id
          → Meets
              (Reached before x)
              (stop_normally o c command session started)
              (Finished (as_command command).mode before x)
              (Reached before x)
      unfolding stop_normally
      stop_normally-Meets command session started own =
          bind-Meets (reload-Meets o c (as_command command) session own) λ current.
            bind-Meets (begin_stopping-Meets current) λ ending.
              then-Meets (quiet-Meets (event-IsQuiet _ _ _) reached) λ _.
                own-Meets
                  (stop_external-Meets o c (as_command command) alone ending started "completed")

      close_and_stop-Meets :
          (command : ApproveNormalStreamEndCommand) (session : StreamSession) (started : ℕ)
          → Meets
              (Follows before x session)
              (close_and_stop o c command session started)
              (Finished (as_command command).mode before x)
              (Reached before x)
      unfolding close_and_stop
      close_and_stop-Meets command session started = own-Meets λ own.
          bind-Meets (quiet-Meets (closed-IsQuiet o c alone command session) (λ r f. f)) λ complete.
            elim (Bool-cases complete) [
              | inl h ↦ rw h (stop_normally-Meets command session started own)
              | inr h ↦ rw h (
                  failure-Meets o c (as_command command) session started "closing" "failed"
                    "stream.end.closing_failed" "unknown" own)
            ]

      normal_locked-Meets :
          (command : ApproveNormalStreamEndCommand)
          → x.session_id ≡ command.session_id
          → Meets
              (Follows before x x)
              (normal_locked o c command)
              (Finished (as_command command).mode before x)
              (Reached before x)
      unfolding normal_locked
      normal_locked-Meets command own =
          bind-Meets
            (find-Meets command.session_id (validate_version command.expected_state_version) own
              (validate_version-Meets command.expected_state_version))
            λ session.
              bind-Meets (quiet-Meets (consult-IsQuiet o c alone _ _ _ _) reached) λ decision.
                then-Meets (quiet-Meets (require-IsQuiet _ _) reached) λ _.
                  then-Meets (quiet-Meets (require-IsQuiet _ _) reached) λ _.
                    then-Meets (quiet-Meets (require_main_completed-IsQuiet o c alone _) reached)
                      λ _.
                        then-Meets (quiet-Meets (ensure_adapter_mode-IsQuiet o c alone) reached)
                          λ _. bind-Meets (quiet-Meets now-IsQuiet reached) λ started.
                            bind-Meets (begin_closing-Meets command session)
                              λ ending. close_and_stop-Meets command ending started

      emergency_locked-Meets :
          (command : EmergencyStopStreamCommand)
          → x.session_id ≡ command.session_id
          → Meets
              (Follows before x x)
              (emergency_locked o c command)
              (Finished (as_stop command).mode before x)
              (Reached before x)
      unfolding emergency_locked with_trace
      emergency_locked-Meets command own =
          bind-Meets
            (find-Meets command.session_id (validate_emergency command.expected_state_version) own
              (validate_emergency-Meets command.expected_state_version))
            λ session.
              bind-Meets (quiet-Meets (consult-IsQuiet o c alone _ _ _ _) reached) λ decision.
                then-Meets (quiet-Meets (require-IsQuiet _ _) reached) λ _.
                  then-Meets (quiet-Meets (require-IsQuiet _ _) reached) λ _.
                    then-Meets (quiet-Meets (ensure_adapter_mode-IsQuiet o c alone) reached) λ _.
                      bind-Meets (quiet-Meets now-IsQuiet reached) λ started.
                        bind-Meets (save_transition-Meets emergency_stop_requested _ refl)
                          λ requested. then-Meets (quiet-Meets (event-IsQuiet _ _ _) reached) λ _.
                            then-Meets (quiet-Meets cancel-IsQuiet reached) λ _.
                              then-Meets (quiet-Meets (event-IsQuiet _ _ _) reached) λ _.
                                bind-Meets (save_transition-Meets emergency_stopping no_args refl)
                                  λ ending.
                                    then-Meets (quiet-Meets (event-IsQuiet _ _ _) reached) λ _.
                                      own-Meets (
                                        stop_external-Meets o c (as_stop command) alone ending
                                          started "canceled")

      locked-Meets :
          (command : Command)
          → x.session_id ≡ session_of command
          → Meets
              (Follows before x x)
              (locked o c command)
              (Finished (command_of command).mode before x)
              (Reached before x)
      unfolding locked
      locked-Meets (approves command) own = normal_locked-Meets command own
      locked-Meets (stops command) own =
          then-Meets (quiet-Meets cancel-IsQuiet reached) λ _. emergency_locked-Meets command own

Holds-remembered :
    (o : Outside) (c : Settings) (id : String) (mode : Mode) (u : EndUsecase) (before : Repository)
    (x : StreamSession) (m : Outcome StreamEndResult × Site)
    → Holds (Finished mode before x) (Reached before x) m
    → Holds
        (Finished mode before x)
        (Reached before x)
        ((remember o c id u m).0, (remember o c id u m).1.site)
Holds-remembered o c id mode u before x (returned r, s) h = h
Holds-remembered o c id mode u before x (raised e, s) h = h

-- Where nobody else changes the repository meanwhile and the session of the command is stored
-- under its own identifier, a normal end or an emergency stop that was not carried out before
-- leaves in its place a session that came from it by calls of its own operations, with every other
-- session as it was, whether it returns or raises; if its result says that it was successful, the
-- stored session is completed, or stopped by emergency, as was asked.
pub execute-Finished :
    (o : Outside) (c : Settings)
    → ((n : ℕ) (r : Repository) → o.meanwhile n r ≡ r)
    → (command : Command) (u : EndUsecase) (x : StreamSession)
    → get (command_of command).command_id u.results ≡ none
    → get x.session_id u.site.sessions ≡ some x
    → x.session_id ≡ session_of command
    → Holds
        (Finished (command_of command).mode u.site.sessions x)
        (Reached u.site.sessions x)
        ((execute o c command u).0, (execute o c command u).1.site)
unfolding execute
execute-Finished o c alone command u x fresh there own =
    let id = (command_of command).command_id in
    let mode = (command_of command).mode in
    subst
      (λ z. Holds (Finished mode u.site.sessions x) (Reached u.site.sessions x) (
        (cached o c id (locked o c command) z u).0,
        (cached o c id (locked o c command) z u).1.site,
      ))
      (sym fresh)
      (Holds-remembered o c id mode u u.site.sessions x (locked o c command u.site)
        ((locked-Meets o c alone command own).meets u.site (unmoved u.site.sessions there)))
