-- ===== src/Streaming/End/Parts.antt =====
-- The calls of the methods of app/usecases/end_stream_session_usecase.py up to the stop.
use ai_liver_yura.Common.{
  ℕ, ◌≤◌, String, inl, inr, Option, none, some, arith, Bool-cases, string_eq, nat_eq, pair_eq,
  option_eq, bool_eq, list_eq, is_empty,
}
use ai_liver_yura.Common.Dict.{get}
use ai_liver_yura.Streaming.Session.{StreamSession}
use ai_liver_yura.Streaming.Gate.{Gate}
use ai_liver_yura.Streaming.Lifecycle.{LifecycleOperation}
use ai_liver_yura.Streaming.Closing.{StreamClosingActivity, StreamClosingStatus}
use ai_liver_yura.Streaming.Services.{Outside, Site, M}
use ai_liver_yura.Streaming.Services.Forward.{
  IsForward, forwards, publish-IsForward, return-IsForward, raise-IsForward, require-IsForward,
}
use ai_liver_yura.Streaming.End.{
  ApproveNormalStreamEndCommand, Settings, validate_version, validate_emergency, find, reload,
  event, cancel, consult, asked, ensure_adapter_mode, require_main_completed, run_closing, talk,
  closing_found, closing_of, closing_ends, store_closing, settle_closing, new_closing,
  execute_closing,
}
use ai_liver_yura.Streaming.End.Commands.{closing_done, now, begin_closing, begin_stopping, closed}

pub event-IsForward : (name trace id : String) → IsForward (event name trace id)
unfolding event
event-IsForward name trace id = publish-IsForward name id trace

pub cancel-IsForward : IsForward cancel
unfolding cancel
cancel-IsForward = record { forward = λ s. omega arith }

pub now-IsForward : IsForward now
unfolding now
now-IsForward = record { forward = λ s. omega arith }

pub reload-IsForward : (session : StreamSession) → IsForward (reload session)
unfolding reload
reload-IsForward session = record { forward = λ s. omega arith }

pub find-IsForward :
    {A : Type 0} (id : String) {k : Option StreamSession → M A}
    → ((found : Option StreamSession) → IsForward (k found))
    → IsForward (find id k)
unfolding find
find-IsForward id h = record { forward = λ s. (h (get id s.sessions)).forward s }

pub validate_version-IsForward :
    (version : ℕ) (found : Option StreamSession) → IsForward (validate_version version found)
unfolding validate_version
validate_version-IsForward version none = raise-IsForward _
validate_version-IsForward version (some session) = search forwards

pub validate_emergency-IsForward :
    (version : ℕ) (found : Option StreamSession) → IsForward (validate_emergency version found)
unfolding validate_emergency
validate_emergency-IsForward version none = raise-IsForward _
validate_emergency-IsForward version (some session) = search forwards

pub begin_stopping-IsForward :
    (o : Outside) (c : Settings) (session : StreamSession) → IsForward (begin_stopping o c session)
unfolding begin_stopping
begin_stopping-IsForward o c session = search forwards

pub begin_closing-IsForward :
    (o : Outside) (c : Settings) (command : ApproveNormalStreamEndCommand) (session : StreamSession)
    → IsForward (begin_closing o c command session)
unfolding begin_closing
begin_closing-IsForward o c command session = search (forwards, event-IsForward) depth 20

module _ (o : Outside) (c : Settings) where
  asked-forward :
      (gate : Option Gate) (op : LifecycleOperation) (id : String) (expected : Option ℕ)
      (trace : String) (s : Site)
      → s.calls ≤ (asked o c gate op id expected trace s).1.calls
  asked-forward none op id expected trace s = omega arith
  asked-forward (some g) op id expected trace s = omega arith

  pub consult-IsForward :
      (op : LifecycleOperation) (id : String) (expected : Option ℕ) (trace : String)
      → IsForward (consult o c op id expected trace)
  unfolding consult
  consult-IsForward op id expected trace = record {
    forward = λ s. asked-forward s.gate op id expected trace s;
  }

  pub ensure_adapter_mode-IsForward : IsForward (ensure_adapter_mode o c)
  unfolding ensure_adapter_mode
  ensure_adapter_mode-IsForward = search forwards

  pub require_main_completed-IsForward : (id : String) → IsForward (require_main_completed o c id)
  unfolding require_main_completed
  require_main_completed-IsForward id = record { forward = λ s. (require-IsForward _ _).forward s }

  store_closing-IsForward : (a : StreamClosingActivity) → IsForward (store_closing o c a)
  unfolding store_closing
  store_closing-IsForward a = record { forward = λ s. omega arith }

  settle_closing-IsForward :
      (a : StreamClosingActivity) (status : StreamClosingStatus) (failure : Option String)
      → IsForward (settle_closing o c a status failure)
  unfolding settle_closing store_closing
  settle_closing-IsForward a status failure = record { forward = λ s. omega arith }

  new_closing-IsForward :
      (session : StreamSession) (trace segment : String)
      → IsForward (new_closing o c session trace segment)
  unfolding new_closing
  new_closing-IsForward session trace segment = record { forward = λ s. omega arith }

  execute_closing-IsForward : IsForward (execute_closing o c)
  unfolding execute_closing
  execute_closing-IsForward = record { forward = λ s. omega arith }

  closing_ends-IsForward :
      (a : StreamClosingActivity) (trace : String) (failure : Option String)
      → IsForward (closing_ends o c a trace failure)
  closing_ends-IsForward a trace none =
      search (forwards, settle_closing-IsForward, event-IsForward) depth 20
  closing_ends-IsForward a trace (some failure) =
      search (forwards, settle_closing-IsForward, event-IsForward) depth 20

  talk-IsForward :
      (session : StreamSession) (trace segment : String)
      → IsForward (talk o c session trace segment)
  unfolding talk
  talk-IsForward session trace segment =
      search
        (
          forwards, new_closing-IsForward, store_closing-IsForward, event-IsForward,
          execute_closing-IsForward, closing_ends-IsForward,
        )
        depth 20

  closing_found-IsForward :
      (session : StreamSession) (trace : String) (found : Option (Option String))
      → IsForward (closing_found o c session trace found)
  closing_found-IsForward session trace none = raise-IsForward _
  closing_found-IsForward session trace (some none) = return-IsForward _
  closing_found-IsForward session trace (some (some segment)) = talk-IsForward session trace segment

  closing_of-IsForward :
      (session : StreamSession) (trace : String) (run_of_show : Option String)
      → IsForward (closing_of o c session trace run_of_show)
  closing_of-IsForward session trace none = record { forward = λ s. omega arith }
  closing_of-IsForward session trace (some id) = record {
    forward = λ s. elim (Bool-cases (is_empty id)) [
      | inl y ↦ rw y (omega arith)
      | inr n ↦ rw n ((closing_found-IsForward session trace _).forward s)
    ];
  }

  run_closing-IsForward :
      (session : StreamSession) (trace : String) → IsForward (run_closing o c session trace)
  unfolding run_closing
  run_closing-IsForward session trace =
      search (forwards, consult-IsForward, closing_of-IsForward) depth 20

  closing_done-IsForward : (id : String) → IsForward (closing_done id)
  unfolding closing_done
  closing_done-IsForward id = record { forward = λ s. omega arith }

  pub closed-IsForward :
      (command : ApproveNormalStreamEndCommand) (session : StreamSession)
      → IsForward (closed o c command session)
  unfolding closed
  closed-IsForward command session =
      search (forwards, closing_done-IsForward, run_closing-IsForward) depth 20
