-- ===== src/Streaming/Services/Forward.antt =====
-- Methods whose calls of the services are counted on from the calls before them: that is all of
-- them, block by block.
use ai_liver_yura.Common.{
  ℕ, ◌≤◌, String, Bool, true, false, arith, if◌then◌else◌, string_eq, nat_eq, pair_eq, option_eq,
  bool_eq, list_eq, Result, ok, err,
}
use ai_liver_yura.Streaming.Repository.{Repository, RepositoryError, save}
use ai_liver_yura.Streaming.Session.{
  StreamSession, StreamSessionStatus, TransitionArgs, SessionError, transition,
}
use ai_liver_yura.Streaming.Services.{
  Outside, Request, Site, Failure, Outcome, returned, raised, M, continue, ◌>>=◌, ◌>>◌, return,
  ServiceCall, raise, require, when, read, request, publish, set_obs, set_stream, set_broadcast,
  save_session, save_transition, stored,
}

pub record IsForward {A : Type 0} (m : M A) : Type 0 where
  pub forward : (s : Site) → s.calls ≤ (m s).1.calls

continue-forward :
    {A B : Type 0} (r : Outcome A × Site) (k : A → M B) (first : ℕ)
    → first ≤ r.1.calls
    → ((a : A) → IsForward (k a))
    → first ≤ (continue r k).1.calls
continue-forward (returned a, s) k first h t = omega (arith, h, (t a).forward s)
continue-forward (raised e, s) k first h t = h

pub bind-IsForward :
    {A B : Type 0} {m : M A} {k : A → M B}
    → IsForward m
    → ((a : A) → IsForward (k a))
    → IsForward (m >>= k)
unfolding ◌>>=◌
bind-IsForward {m = m} {k = k} h t = record {
  forward = λ s. continue-forward (m s) k s.calls (h.forward s) t;
}

pub then-IsForward :
    {B : Type 0} {m : M (Unit {0})} {k : M B} → IsForward m → IsForward k → IsForward (m >> k)
unfolding ◌>>◌
then-IsForward {m = m} {k = k} h t = record {
  forward = λ s. continue-forward (m s) (λ _. k) s.calls (h.forward s) (λ _. t);
}

pub return-IsForward : {A : Type 0} (a : A) → IsForward (return a)
unfolding return
return-IsForward a = record { forward = λ s. omega arith }

pub raise-IsForward : {A : Type 0} (e : Failure) → IsForward (raise {A = A} e)
unfolding raise
raise-IsForward e = record { forward = λ s. omega arith }

pub require-IsForward : (b : Bool) (code : String) → IsForward (require b code)
unfolding require
require-IsForward true code = record { forward = λ s. omega arith }
require-IsForward false code = record { forward = λ s. omega arith }

pub when-IsForward : (b : Bool) {m : M (Unit {0})} → IsForward m → IsForward (when b m)
unfolding when
when-IsForward true h = record { forward = h.forward }
when-IsForward false h = record { forward = λ s. omega arith }

pub if-IsForward :
    {A : Type 0} (b : Bool) {m k : M A} → IsForward m → IsForward k → IsForward (if b then m else k)
if-IsForward true h t = h
if-IsForward false h t = t

pub read-IsForward : (o : Outside) (call : ServiceCall) → IsForward (read o call)
unfolding read
read-IsForward o call = record { forward = λ s. omega arith }

pub request-IsForward : (o : Outside) (r : Request) → IsForward (request o r)
unfolding request
request-IsForward o r = record { forward = λ s. omega arith }

pub publish-IsForward : (event session trace : String) → IsForward (publish event session trace)
unfolding publish
publish-IsForward event session trace = record { forward = λ s. omega arith }

pub set_obs-IsForward : (v : String) → IsForward (set_obs v)
unfolding set_obs
set_obs-IsForward v = record { forward = λ s. omega arith }

pub set_stream-IsForward : (v : String) → IsForward (set_stream v)
unfolding set_stream
set_stream-IsForward v = record { forward = λ s. omega arith }

pub set_broadcast-IsForward : (v : String) → IsForward (set_broadcast v)
unfolding set_broadcast
set_broadcast-IsForward v = record { forward = λ s. omega arith }

stored-forward :
    (r : Result RepositoryError Repository) (x : StreamSession) (s : Site)
    → s.calls ≤ (stored r x s).1.calls
stored-forward (ok r) x s = omega arith
stored-forward (err e) x s = omega arith

save_session-forward :
    (r : Result SessionError StreamSession) (s : Site) → s.calls ≤ (save_session r s).1.calls
unfolding save_session
save_session-forward (ok x) s = stored-forward (save s.sessions x) x s
save_session-forward (err e) s = omega arith

pub save_transition-IsForward :
    (x : StreamSession) (status : StreamSessionStatus) (args : TransitionArgs)
    → IsForward (save_transition x status args)
unfolding save_transition
save_transition-IsForward x status args = record {
  forward = λ s. save_session-forward (transition x status args s.time) s;
}

pub ruleset forwards = (
  bind-IsForward, then-IsForward, return-IsForward, raise-IsForward, require-IsForward,
  when-IsForward, if-IsForward, read-IsForward, request-IsForward, publish-IsForward,
  set_obs-IsForward, set_stream-IsForward, set_broadcast-IsForward, save_transition-IsForward,
)
