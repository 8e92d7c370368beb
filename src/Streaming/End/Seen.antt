-- ===== src/Streaming/End/Seen.antt =====
-- The two commands of app/usecases/end_stream_session_usecase.py as a whole: what they have seen.
use ai_liver_yura.Common.{
  ℕ, String, ◌≡◌, refl, subst, true, none, some, arith, string_eq, nat_eq, pair_eq, option_eq,
  bool_eq, list_eq,
}
use ai_liver_yura.Common.Dict.{get}
use ai_liver_yura.Streaming.Session.{
  StreamSession, no_args, emergency_stop_requested, emergency_stopping,
}
use ai_liver_yura.Streaming.Services.{
  Outside, Site, Outcome, returned, raised, ◌>>=◌, ◌>>◌, save_transition,
}
use ai_liver_yura.Streaming.Services.Forward.{require-IsForward, save_transition-IsForward}
use ai_liver_yura.Streaming.End.{
  ApproveNormalStreamEndCommand, EmergencyStopStreamCommand, StreamEndResult, Settings, EndUsecase,
  with_trace, event, cancel, validate_version, validate_emergency,
}
use ai_liver_yura.Streaming.End.Stopped.{IsStopped}
use ai_liver_yura.Streaming.End.Succeeds.{
  Succeeds, bind-Succeeds, then-Succeeds, if-Succeeds, own-Succeeds, failure-Succeeds,
  stop_external-Succeeds,
}
use ai_liver_yura.Streaming.Repository.{Repository}
use ai_liver_yura.Streaming.Services.Rules.{require-IsQuiet}
use ai_liver_yura.Streaming.Services.Contracts.{
  Follows, Reached, reached, unmoved, quiet-Meets, save_transition-Meets,
}
use ai_liver_yura.Streaming.End.Quiet.{
  event-IsQuiet, cancel-IsQuiet, now-IsQuiet, consult-IsQuiet, ensure_adapter_mode-IsQuiet,
  require_main_completed-IsQuiet, closed-IsQuiet,
}
use ai_liver_yura.Streaming.End.Steps.{reload-Meets}
use ai_liver_yura.Streaming.End.Outcomes.{
  find-Meets, validate_version-Meets, validate_emergency-Meets, begin_stopping-Meets,
  begin_closing-Meets,
}
use ai_liver_yura.Streaming.End.Stop.{stop_external}
use ai_liver_yura.Streaming.End.Parts.{
  event-IsForward, cancel-IsForward, now-IsForward, reload-IsForward, find-IsForward,
  validate_version-IsForward, validate_emergency-IsForward, begin_stopping-IsForward,
  begin_closing-IsForward, consult-IsForward, ensure_adapter_mode-IsForward,
  require_main_completed-IsForward, closed-IsForward,
}
use ai_liver_yura.Streaming.End.Commands.{
  as_command, as_stop, stop_normally, close_and_stop, normal_locked, emergency_locked, Command,
  approves, stops, command_of, session_of, locked, remember, cached, execute,
}

module _ (o : Outside) (c : Settings) (alone : (n : ℕ) (r : Repository) → o.meanwhile n r ≡ r)
    (first : ℕ) {before : Repository} {x : StreamSession} where
  stop_normally-Succeeds :
      (command : ApproveNormalStreamEndCommand) (session : StreamSession) (started : ℕ)
      → session.session_id ≡ x.session_id
      → Succeeds o c
          (as_command command)
          first
          before
          x
          (Reached before x)
          (stop_normally o c command session started)
  unfolding stop_normally
  stop_normally-Succeeds command session started own =
      let by = as_command command in
      bind-Succeeds o c by first before x (reload-IsForward session)
        (reload-Meets o c by session own)
        λ current.
          bind-Succeeds o c by first before x (begin_stopping-IsForward o c current)
            (begin_stopping-Meets o c current)
            λ ending.
              then-Succeeds o c by first before x (event-IsForward _ _ _)
                (quiet-Meets (event-IsQuiet _ _ _) reached)
                λ _. stop_external-Succeeds o c by first before x ending started "completed"

  close_and_stop-Succeeds :
      (command : ApproveNormalStreamEndCommand) (session : StreamSession) (started : ℕ)
      → Succeeds o c
          (as_command command)
          first
          before
          x
          (Follows before x session)
          (close_and_stop o c command session started)
  unfolding close_and_stop
  close_and_stop-Succeeds command session started =
      let by = as_command command in
      own-Succeeds o c by first before x λ own.
        bind-Succeeds o c by first before x (closed-IsForward o c command session)
          (quiet-Meets (closed-IsQuiet o c alone command session) (λ r f. f))
          λ complete.
            if-Succeeds o c by first before x complete
              (stop_normally-Succeeds command session started own)
              (failure-Succeeds o c by first before x session started _ _ _ _)

  normal_locked-Succeeds :
      (command : ApproveNormalStreamEndCommand)
      → x.session_id ≡ command.session_id
      → Succeeds o c
          (as_command command)
          first
          before
          x
          (Follows before x x)
          (normal_locked o c command)
  unfolding normal_locked
  normal_locked-Succeeds command own =
      let by = as_command command in
      let version = command.expected_state_version in
      bind-Succeeds o c by first before x
        (find-IsForward command.session_id (validate_version-IsForward version))
        (find-Meets command.session_id (validate_version version) own
          (validate_version-Meets version))
        λ session.
          bind-Succeeds o c by first before x (consult-IsForward o c _ _ _ _)
            (quiet-Meets (consult-IsQuiet o c alone _ _ _ _) reached)
            λ decision.
              then-Succeeds o c by first before x (require-IsForward _ _)
                (quiet-Meets (require-IsQuiet _ _) reached)
                λ _.
                  then-Succeeds o c by first before x (require-IsForward _ _)
                    (quiet-Meets (require-IsQuiet _ _) reached)
                    λ _.
                      then-Succeeds o c by first before x (require_main_completed-IsForward o c _)
                        (quiet-Meets (require_main_completed-IsQuiet o c alone _) reached)
                        λ _.
                          then-Succeeds o c by first before x (ensure_adapter_mode-IsForward o c)
                            (quiet-Meets (ensure_adapter_mode-IsQuiet o c alone) reached)
                            λ _.
                              bind-Succeeds o c by first before x now-IsForward
                                (quiet-Meets now-IsQuiet reached)
                                λ started.
                                  bind-Succeeds o c by first before x
                                    (begin_closing-IsForward o c command session)
                                    (begin_closing-Meets o c command session)
                                    λ ending. close_and_stop-Succeeds command ending started

  -- From the request of an emergency stop on.
  stopping-Succeeds :
      (command : EmergencyStopStreamCommand) (session : StreamSession) (started : ℕ)
      → Succeeds o c (as_stop command) first before x (Follows before x session) (do
        requested ← save_transition session emergency_stop_requested (with_trace command.trace_id)
        event "stream_emergency_stop.requested" command.trace_id requested.session_id
        cancel
        event "stream_emergency_stop.output_cancel_requested" command.trace_id requested.session_id
        ending ← save_transition requested emergency_stopping no_args
        event "stream_emergency_stop.stopping" command.trace_id ending.session_id
        stop_external o c (as_stop command) ending started "canceled")
  unfolding with_trace
  stopping-Succeeds command session started =
      let by = as_stop command in
      bind-Succeeds o c by first before x (save_transition-IsForward _ _ _)
        (save_transition-Meets emergency_stop_requested _ refl)
        λ requested.
          then-Succeeds o c by first before x (event-IsForward _ _ _)
            (quiet-Meets (event-IsQuiet _ _ _) reached)
            λ _.
              then-Succeeds o c by first before x cancel-IsForward
                (quiet-Meets cancel-IsQuiet reached)
                λ _.
                  then-Succeeds o c by first before x (event-IsForward _ _ _)
                    (quiet-Meets (event-IsQuiet _ _ _) reached)
                    λ _.
                      bind-Succeeds o c by first before x (save_transition-IsForward _ _ _)
                        (save_transition-Meets emergency_stopping no_args refl)
                        λ ending.
                          then-Succeeds o c by first before x (event-IsForward _ _ _)
                            (quiet-Meets (event-IsQuiet _ _ _) reached)
                            λ _.
                              stop_external-Succeeds o c by first before x ending started "canceled"

  emergency_locked-Succeeds :
      (command : EmergencyStopStreamCommand)
      → x.session_id ≡ command.session_id
      → Succeeds o c
          (as_stop command)
          first
          before
          x
          (Follows before x x)
          (emergency_locked o c command)
  unfolding emergency_locked with_trace
  emergency_locked-Succeeds command own =
      let by = as_stop command in
      let version = command.expected_state_version in
      bind-Succeeds o c by first before x
        (find-IsForward command.session_id (validate_emergency-IsForward version))
        (find-Meets command.session_id (validate_emergency version) own
          (validate_emergency-Meets version))
        λ session.
          bind-Succeeds o c by first before x (consult-IsForward o c _ _ _ _)
            (quiet-Meets (consult-IsQuiet o c alone _ _ _ _) reached)
            λ decision.
              then-Succeeds o c by first before x (require-IsForward _ _)
                (quiet-Meets (require-IsQuiet _ _) reached)
                λ _.
                  then-Succeeds o c by first before x (require-IsForward _ _)
                    (quiet-Meets (require-IsQuiet _ _) reached)
                    λ _.
                      then-Succeeds o c by first before x (ensure_adapter_mode-IsForward o c)
                        (quiet-Meets (ensure_adapter_mode-IsQuiet o c alone) reached)
                        λ _.
                          bind-Succeeds o c by first before x now-IsForward
                            (quiet-Meets now-IsQuiet reached)
                            λ started. stopping-Succeeds command session started

  locked-Succeeds :
      (command : Command)
      → x.session_id ≡ session_of command
      → Succeeds o c (command_of command) first before x (Follows before x x) (locked o c command)
  unfolding locked
  locked-Succeeds (approves command) own = normal_locked-Succeeds command own
  locked-Succeeds (stops command) own =
      then-Succeeds o c (as_stop command) first before x cancel-IsForward
        (quiet-Meets cancel-IsQuiet reached) λ _. emergency_locked-Succeeds command own

pub remembered :
    (o : Outside) (c : Settings) (id : String) (u u' : EndUsecase)
    (m : Outcome StreamEndResult × Site) (r : StreamEndResult)
    → remember o c id u m ≡ (returned r, u')
    → m ≡ (returned r, u'.site)
remembered o c id u u' (returned x, s) r h = ground arith
remembered o c id u u' (raised e, s) r h = absurd (ground arith)

-- Where nobody else changes the repository meanwhile, the session of the command is stored under its
-- own identifier, and a normal end or an emergency stop that was not carried out before returns a
-- result that says it was successful: since it began, the services were asked for the broadcast that
-- this session has selected and answered that it is complete, and for the output of OBS and answered
-- that it is idle, and the last call asked for the stream that this session has selected and was
-- answered that it is inactive or has no data.
pub execute-IsStopped :
    (o : Outside) (c : Settings)
    → ((n : ℕ) (r : Repository) → o.meanwhile n r ≡ r)
    → (command : Command) (u u' : EndUsecase) (r : StreamEndResult) (x : StreamSession)
    → get (command_of command).command_id u.results ≡ none
    → get x.session_id u.site.sessions ≡ some x
    → x.session_id ≡ session_of command
    → execute o c command u ≡ (returned r, u')
    → r.successful ≡ true
    → IsStopped o c (command_of command) x u.site.calls u'.site
unfolding execute
execute-IsStopped o c alone command u u' r x fresh there own h done =
    let id = (command_of command).command_id in
    let made =
      remembered o c id u u' (locked o c command u.site) r
        (subst (λ z. cached o c id (locked o c command) z u ≡ (returned r, u')) fresh h) in
    (locked-Succeeds o c alone u.site.calls {before = u.site.sessions} {x = x} command own).stopped
      u.site u'.site r (omega arith) (unmoved u.site.sessions there) made done
