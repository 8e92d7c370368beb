-- ===== src/Streaming/Services.antt =====
-- What the use cases of app/usecases/start_stream_session_usecase.py and its neighbours run on: the
-- session repository, the services behind app/ports/streaming_control.py, the clock and the event
-- publisher. A method that awaits is a function on this state which may raise.
pub mod Rules
pub mod Returns
pub mod Contracts
pub mod Forward
use ai_liver_yura.Common.{
  ℕ, ◌+◌, String, Bool, true, false, Option, none, some, List, [], ◌∷◌, ◌++◌, Result, ok, err,
}
use ai_liver_yura.Streaming.Session.{
  StreamSession, StreamSessionStatus, TransitionArgs, SessionError, transition,
}
use ai_liver_yura.Common.Dict.{Dict}
use ai_liver_yura.Streaming.Gate.{Gate, Notice}
use ai_liver_yura.Streaming.Closing.{StreamClosingActivity}
use ai_liver_yura.Streaming.Repository.{Repository, RepositoryError, save}

-- What a use case asks of a service that changes something there.
pub data Request : Type 0 where
  start_stream stop_stream cancel_output : Request
  broadcast_to_live broadcast_to_complete : String → Request

-- A call of a service: the statuses that it can be asked for, with the identifier, and the requests.
pub data ServiceCall : Type 0 where
  get_output_status : ServiceCall
  get_stream_status get_broadcast_status : String → ServiceCall
  asks : Request → ServiceCall

-- The outside of a use case. The call with number `n` answers `answers n call` if it is `call`, or
-- raises if that is `none`, and takes `takes n`; until its end the other users of the repository
-- have changed it by `meanwhile n`, and the gate by `retold n`.
pub record Outside : Type 0 where
  pub answers : ℕ → ServiceCall → Option String
  pub takes : ℕ → ℕ
  pub meanwhile : ℕ → Repository → Repository
  pub retold : ℕ → Gate → Gate

-- A call of the publisher: the event, the session and the trace.
pub record Published : Type 0 where
  pub event : String
  pub session_id : String
  pub trace_id : String

-- The state that the use cases share: the repository, the gate with what it has published, the
-- closing activities and what was asked of the services. `step` and the three statuses are the
-- local variables that the handler of an exception reads.
pub record Site : Type 0 where
  pub sessions : Repository
  pub calls : ℕ
  pub time : ℕ
  pub requests : List Request
  pub published : List Published
  pub gate : Option Gate
  pub notices : List Notice
  pub closings : Dict String StreamClosingActivity
  pub step : String
  pub obs_status : String
  pub stream_status : String
  pub broadcast_status : String

-- A rejection with its code, any other exception, and the model's own end of fuel.
pub data Failure : Type 0 where
  rejected : String → Failure
  failed out_of_fuel : Failure

pub data Outcome (A : Type 0) : Type 0 where
  returned : A → Outcome A
  raised : Failure → Outcome A

abbrev pub M : Type 0 → Type 0
M A = Site → Outcome A × Site

abbrev pub continue : {A B : Type 0} → Outcome A × Site → (A → M B) → Outcome B × Site
continue (returned a, s) k = k a s
continue (raised e, s) k = (raised e, s)

infixl 5 ◌>>=◌ ◌>>◌
unfoldable pub ◌>>=◌ : {A B : Type 0} → M A → (A → M B) → M B
◌>>=◌ m k s = continue (m s) k

unfoldable pub ◌>>◌ : {B : Type 0} → M (Unit {0}) → M B → M B
◌>>◌ m k s = continue (m s) (λ _. k)

unfoldable pub return : {A : Type 0} → A → M A
return a s = (returned a, s)

unfoldable pub raise : {A : Type 0} → Failure → M A
raise e s = (raised e, s)

-- `if not test: raise …`
unfoldable pub require : Bool → String → M (Unit {0})
require true code s = (returned tt, s)
require false code s = (raised (rejected code), s)

unfoldable pub when : Bool → M (Unit {0}) → M (Unit {0})
when true m s = m s
when false m s = (returned tt, s)

abbrev pub answered : Option String → Outcome String
answered none = raised failed
answered (some value) = returned value

abbrev pub acknowledged : Option String → Outcome (Unit {0})
acknowledged none = raised failed
acknowledged (some value) = returned tt

abbrev pub changed : (Gate → Gate) → Option Gate → Option Gate
changed f none = none
changed f (some g) = some (f g)

module _ (o : Outside) where
  abbrev pub called : Site → Site
  called s = record s {
    sessions = o.meanwhile s.calls s.sessions;
    gate = changed (o.retold s.calls) s.gate;
    calls = s.calls + 1;
    time = s.time + o.takes s.calls;
  }

  -- A status that is read of a service.
  unfoldable pub read : ServiceCall → M String
  read call s = (answered (o.answers s.calls call), called s)

  unfoldable pub request : Request → M (Unit {0})
  request r s = (
    acknowledged (o.answers s.calls (asks r)),
    record (called s) { requests = s.requests ++ r ∷ [] },
  )

unfoldable pub publish : String → String → String → M (Unit {0})
publish event session trace s = (
  returned tt,
  record s {
    published =
        s.published ++ (record { event = event; session_id = session; trace_id = trace }) ∷ [];
  },
)

unfoldable pub sleep : ℕ → M (Unit {0})
sleep n s = (returned tt, record s { time = s.time + n })

unfoldable pub set_step : String → M (Unit {0})
set_step step s = (returned tt, record s { step = step })

unfoldable pub set_obs : String → M (Unit {0})
set_obs status s = (returned tt, record s { obs_status = status })

unfoldable pub set_stream : String → M (Unit {0})
set_stream status s = (returned tt, record s { stream_status = status })

unfoldable pub set_broadcast : String → M (Unit {0})
set_broadcast status s = (returned tt, record s { broadcast_status = status })

abbrev pub stored :
    Result RepositoryError Repository → StreamSession → Site → Outcome StreamSession × Site
stored (err e) x s = (raised failed, s)
stored (ok r) x s = (returned x, record s { sessions = r })

-- `self._sessions.save(session.transition(…))`
unfoldable pub save_session : Result SessionError StreamSession → M StreamSession
save_session (err e) s = (raised failed, s)
save_session (ok x) s = stored (save s.sessions x) x s

-- The same, with the clock that `transition` reads.
unfoldable pub save_transition :
    StreamSession → StreamSessionStatus → TransitionArgs → M StreamSession
unfolding save_session transition
save_transition x status args s = save_session (transition x status args s.time) s

abbrev pub handled : {A : Type 0} → Outcome A × Site → (Failure → M A) → Outcome A × Site
handled (returned a, s) h = (returned a, s)
handled (raised (rejected code), s) h = h (rejected code) s
handled (raised failed, s) h = h failed s
handled (raised out_of_fuel, s) h = (raised out_of_fuel, s)

-- `try` with `except Exception`.
unfoldable pub try_except : {A : Type 0} → M A → (Failure → M A) → M A
try_except m h s = handled (m s) h
