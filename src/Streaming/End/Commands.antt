-- ===== src/Streaming/End/Commands.antt =====
-- `normal` and `emergency` of app/usecases/end_stream_session_usecase.py.
use ai_liver_yura.Common.{
  ℕ, String, Bool, true, false, ◌||◌, Option, none, some, if◌then◌else◌, string_eq, nat_eq, pair_eq,
  option_eq, bool_eq, list_eq,
}
use ai_liver_yura.Common.Dict.{get, set}
use ai_liver_yura.Streaming.Session.{
  StreamSession, StreamSessionStatus, no_args, is_live, closing_requested, closing, stopping,
  emergency_stop_requested, emergency_stopping,
}
use ai_liver_yura.Streaming.Lifecycle.{start_normal_end, start_emergency_stop}
use ai_liver_yura.Streaming.Gate.Policy.{is_stop_failed}
use ai_liver_yura.Streaming.Closing
use ai_liver_yura.Streaming.Closing.{StreamClosingActivity}
use ai_liver_yura.Streaming.Services.{
  Outside, Site, Outcome, returned, raised, M, ◌>>=◌, ◌>>◌, return, require, save_transition,
}
use ai_liver_yura.Streaming.End.{
  ApproveNormalStreamEndCommand, EmergencyStopStreamCommand, normal, emergency, StreamEndResult,
  Settings, EndUsecase, EndCommand, validate_version, validate_emergency, find, reload,
  can_stop_now, with_trace, event, cancel, consult, is_allowed, refusal, ensure_adapter_mode,
  require_main_completed, run_closing,
}
use ai_liver_yura.Streaming.End.Stop.{failure, stop_external}

abbrev pub is_stopping : StreamSessionStatus → Bool
is_stopping stopping = true
is_stopping _ = false

abbrev pub is_done : Option StreamClosingActivity → Bool
is_done none = false
is_done (some a) = Closing.is_completed a.status

-- Whether the closing of the session is already completed.
unfoldable pub closing_done : String → M Bool
closing_done id s = (returned (is_done (get id s.closings)), s)

unfoldable pub now : M ℕ
now s = (returned s.time, s)

abbrev pub as_command : ApproveNormalStreamEndCommand → EndCommand
as_command command = record {
  command_id = command.command_id;
  trace_id = command.trace_id;
  mode = normal;
}

abbrev pub as_stop : EmergencyStopStreamCommand → EndCommand
as_stop command = record {
  command_id = command.command_id;
  trace_id = command.trace_id;
  mode = emergency;
}

-- `ApproveNormalStreamEndCommand | EmergencyStopStreamCommand`
pub data Command : Type 0 where
  approves : ApproveNormalStreamEndCommand → Command
  stops : EmergencyStopStreamCommand → Command

abbrev pub command_of : Command → EndCommand
command_of (approves command) = as_command command
command_of (stops command) = as_stop command

abbrev pub session_of : Command → String
session_of (approves command) = command.session_id
session_of (stops command) = command.session_id

module _ (o : Outside) (c : Settings) where
  -- LIVE goes on to CLOSING.
  unfoldable pub begin_closing : ApproveNormalStreamEndCommand → StreamSession → M StreamSession
  unfolding with_trace event
  begin_closing command session =
      if is_live session.status
      then (do
        requested ← save_transition session closing_requested (with_trace command.trace_id)
        event "stream_end.approved" command.trace_id requested.session_id
        save_transition requested closing no_args)
      else return session

  unfoldable pub begin_stopping : StreamSession → M StreamSession
  begin_stopping session =
      if is_stopping session.status
      then return session
      else save_transition session stopping no_args

  -- From the completed closing on.
  unfoldable pub stop_normally :
      ApproveNormalStreamEndCommand → StreamSession → ℕ → M StreamEndResult
  unfolding reload begin_stopping event stop_external
  stop_normally command session started = do
    current ← reload session
    ending ← begin_stopping current
    event "stream_end.stopping" command.trace_id ending.session_id
    stop_external o c (as_command command) ending started "completed"

  -- The closing talk, unless it is done already.
  unfoldable pub closed : ApproveNormalStreamEndCommand → StreamSession → M Bool
  unfolding closing_done run_closing
  closed command session = do
    done ← closing_done session.session_id
    if done then return true else run_closing o c session command.trace_id

  -- From the approval on.
  unfoldable pub close_and_stop :
      ApproveNormalStreamEndCommand → StreamSession → ℕ → M StreamEndResult
  unfolding closed stop_normally failure
  close_and_stop command session started = do
    complete ← closed command session
    if complete
        then stop_normally command session started
        else failure o c (as_command command) session started "closing" "failed"
            "stream.end.closing_failed" "unknown"

  -- `_normal_locked`
  unfoldable pub normal_locked : ApproveNormalStreamEndCommand → M StreamEndResult
  unfolding find validate_version consult require_main_completed ensure_adapter_mode now
      begin_closing close_and_stop
  normal_locked command = do
    session ← find command.session_id (validate_version command.expected_state_version)
    decision ←
        consult o c start_normal_end session.session_id (some command.expected_state_version)
          command.trace_id
    require (is_allowed o c decision) (refusal o c decision)
    require (is_live session.status || is_stop_failed session.status)
        "stream.end.normal.invalid_state"
    require_main_completed o c session.session_id
    ensure_adapter_mode o c
    started ← now
    ending ← begin_closing command session
    close_and_stop command ending started

  -- What `emergency` does under the lock.
  unfoldable pub emergency_locked : EmergencyStopStreamCommand → M StreamEndResult
  unfolding find validate_emergency consult ensure_adapter_mode now with_trace event cancel
      stop_external can_stop_now
  emergency_locked command = do
    session ← find command.session_id (validate_emergency command.expected_state_version)
    decision ← consult o c start_emergency_stop session.session_id none command.trace_id
    require (is_allowed o c decision) (refusal o c decision)
    require (can_stop_now session.status) "stream.end.emergency.invalid_state"
    ensure_adapter_mode o c
    started ← now
    requested ← save_transition session emergency_stop_requested (with_trace command.trace_id)
    event "stream_emergency_stop.requested" command.trace_id requested.session_id
    cancel
    event "stream_emergency_stop.output_cancel_requested" command.trace_id requested.session_id
    ending ← save_transition requested emergency_stopping no_args
    event "stream_emergency_stop.stopping" command.trace_id ending.session_id
    stop_external o c (as_stop command) ending started "canceled"

  -- A method that returns has stored its result in `_results` and `_latest`.
  abbrev pub remember :
      String → EndUsecase → Outcome StreamEndResult × Site → Outcome StreamEndResult × EndUsecase
  remember id u (raised e, s) = (raised e, record u { site = s })
  remember id u (returned r, s) =
      (returned r, record { site = s; results = set id r u.results; latest = some r })

  abbrev pub cached :
      String
      → M StreamEndResult
      → Option StreamEndResult
      → EndUsecase
      → Outcome StreamEndResult × EndUsecase
  cached id m (some r) u = (returned r, u)
  cached id m none u = remember id u (m u.site)

  -- The two commands; an emergency stop cancels the output before it waits for the lock.
  unfoldable pub locked : Command → M StreamEndResult
  unfolding normal_locked cancel emergency_locked
  locked (approves command) = normal_locked command
  locked (stops command) = cancel >> emergency_locked command

  -- `normal` and `emergency`
  unfoldable pub execute : Command → EndUsecase → Outcome StreamEndResult × EndUsecase
  unfolding locked
  execute command u =
      cached (command_of command).command_id (locked command)
        (get (command_of command).command_id u.results) u
