-- ===== src/Streaming/Services/Rules.antt =====
-- Two properties of methods that hold of a whole do block once they hold of its parts: to leave the
-- session repository alone, and never to run out of fuel.
use ai_liver_yura.Common.{
  ℕ, String, ◌≡◌, refl, ◌∙◌, Bool, true, false, Option, none, some, arith, string_eq, nat_eq,
  pair_eq, option_eq, bool_eq, list_eq, Result, ok, err, if◌then◌else◌,
}
use ai_liver_yura.Streaming.Repository.{Repository, RepositoryError, save}
use ai_liver_yura.Streaming.Session.{StreamSession, SessionError}
use ai_liver_yura.Streaming.Services.{
  Outside, Request, Site, Failure, rejected, failed, out_of_fuel, Outcome, returned, raised, M,
  ServiceCall, asks, continue, ◌>>=◌, ◌>>◌, return, raise, require, when, read, request, publish,
  sleep, set_step, set_obs, set_stream, set_broadcast, save_session, answered, acknowledged, stored,
}

abbrev pub ended : {A : Type 0} → Outcome A → Bool
ended (returned a) = true
ended (raised (rejected code)) = true
ended (raised failed) = true
ended (raised out_of_fuel) = false

pub record IsTotal {A : Type 0} (m : M A) : Type 0 where
  pub ends : (s : Site) → ended (m s).0 ≡ true

pub record IsQuiet {A : Type 0} (m : M A) : Type 0 where
  pub quiet : (s : Site) → (m s).1.sessions ≡ s.sessions

pub continue-IsTotal :
    {A B : Type 0} (r : Outcome A × Site) (k : A → M B)
    → ended r.0 ≡ true
    → ((a : A) → IsTotal (k a))
    → ended (continue r k).0 ≡ true
continue-IsTotal (returned a, s) k h t = (t a).ends s
continue-IsTotal (raised (rejected code), s) k h t = refl
continue-IsTotal (raised failed, s) k h t = refl
continue-IsTotal (raised out_of_fuel, s) k h t = absurd (ground arith)

pub bind-IsTotal :
    {A B : Type 0} {m : M A} {k : A → M B}
    → IsTotal m
    → ((a : A) → IsTotal (k a))
    → IsTotal (m >>= k)
unfolding ◌>>=◌
bind-IsTotal {m = m} {k = k} h t = record { ends = λ s. continue-IsTotal (m s) k (h.ends s) t }

pub then-IsTotal :
    {B : Type 0} {m : M (Unit {0})} {k : M B} → IsTotal m → IsTotal k → IsTotal (m >> k)
unfolding ◌>>◌
then-IsTotal {m = m} {k = k} h t = record {
  ends = λ s. continue-IsTotal (m s) (λ _. k) (h.ends s) (λ _. t);
}

pub return-IsTotal : {A : Type 0} (a : A) → IsTotal (return a)
unfolding return
return-IsTotal a = record { ends = λ s. refl }

pub require-IsTotal : (b : Bool) (code : String) → IsTotal (require b code)
unfolding require
require-IsTotal true code = record { ends = λ s. refl }
require-IsTotal false code = record { ends = λ s. refl }

pub when-IsTotal : (b : Bool) {m : M (Unit {0})} → IsTotal m → IsTotal (when b m)
unfolding when
when-IsTotal true h = record { ends = h.ends }
when-IsTotal false h = record { ends = λ s. refl }

ended-answered : (a : Option String) → ended (answered a) ≡ true
ended-answered none = refl
ended-answered (some v) = refl

ended-acknowledged : (a : Option String) → ended (acknowledged a) ≡ true
ended-acknowledged none = refl
ended-acknowledged (some v) = refl

pub read-IsTotal : (o : Outside) (call : ServiceCall) → IsTotal (read o call)
unfolding read
read-IsTotal o call = record { ends = λ s. ended-answered (o.answers s.calls call) }

pub request-IsTotal : (o : Outside) (r : Request) → IsTotal (request o r)
unfolding request
request-IsTotal o r = record { ends = λ s. ended-acknowledged (o.answers s.calls (asks r)) }

pub publish-IsTotal : (event session trace : String) → IsTotal (publish event session trace)
unfolding publish
publish-IsTotal event session trace = record { ends = λ s. refl }

pub set_step-IsTotal : (v : String) → IsTotal (set_step v)
unfolding set_step
set_step-IsTotal v = record { ends = λ s. refl }

pub set_obs-IsTotal : (v : String) → IsTotal (set_obs v)
unfolding set_obs
set_obs-IsTotal v = record { ends = λ s. refl }

pub set_stream-IsTotal : (v : String) → IsTotal (set_stream v)
unfolding set_stream
set_stream-IsTotal v = record { ends = λ s. refl }

pub set_broadcast-IsTotal : (v : String) → IsTotal (set_broadcast v)
unfolding set_broadcast
set_broadcast-IsTotal v = record { ends = λ s. refl }

ended-stored :
    (r : Result RepositoryError Repository) (x : StreamSession) (s : Site)
    → ended (stored r x s).0 ≡ true
ended-stored (ok r) x s = refl
ended-stored (err e) x s = refl

pub save_session-IsTotal : (r : Result SessionError StreamSession) → IsTotal (save_session r)
unfolding save_session
save_session-IsTotal (ok x) = record { ends = λ s. ended-stored (save s.sessions x) x s }
save_session-IsTotal (err e) = record { ends = λ s. refl }

pub ruleset total = (
  bind-IsTotal, then-IsTotal, return-IsTotal, require-IsTotal, when-IsTotal, read-IsTotal,
  request-IsTotal, publish-IsTotal, set_step-IsTotal, set_obs-IsTotal, set_stream-IsTotal,
  set_broadcast-IsTotal, save_session-IsTotal,
)

-- A method that leaves the repository alone.
continue-IsQuiet :
    {A B : Type 0} (r : Outcome A × Site) (k : A → M B) (before : Repository)
    → r.1.sessions ≡ before
    → ((a : A) → IsQuiet (k a))
    → (continue r k).1.sessions ≡ before
continue-IsQuiet (returned a, s) k before h t = (t a).quiet s ∙ h
continue-IsQuiet (raised e, s) k before h t = h

pub bind-IsQuiet :
    {A B : Type 0} {m : M A} {k : A → M B}
    → IsQuiet m
    → ((a : A) → IsQuiet (k a))
    → IsQuiet (m >>= k)
unfolding ◌>>=◌
bind-IsQuiet {m = m} {k = k} h t = record {
  quiet = λ s. continue-IsQuiet (m s) k s.sessions (h.quiet s) t;
}

pub then-IsQuiet :
    {B : Type 0} {m : M (Unit {0})} {k : M B} → IsQuiet m → IsQuiet k → IsQuiet (m >> k)
unfolding ◌>>◌
then-IsQuiet {m = m} {k = k} h t = record {
  quiet = λ s. continue-IsQuiet (m s) (λ _. k) s.sessions (h.quiet s) (λ _. t);
}

pub return-IsQuiet : {A : Type 0} (a : A) → IsQuiet (return a)
unfolding return
return-IsQuiet a = record { quiet = λ s. refl }

pub raise-IsQuiet : {A : Type 0} (e : Failure) → IsQuiet (raise {A = A} e)
unfolding raise
raise-IsQuiet e = record { quiet = λ s. refl }

pub require-IsQuiet : (b : Bool) (code : String) → IsQuiet (require b code)
unfolding require
require-IsQuiet true code = record { quiet = λ s. refl }
require-IsQuiet false code = record { quiet = λ s. refl }

pub when-IsQuiet : (b : Bool) {m : M (Unit {0})} → IsQuiet m → IsQuiet (when b m)
unfolding when
when-IsQuiet true h = record { quiet = h.quiet }
when-IsQuiet false h = record { quiet = λ s. refl }

pub if-IsQuiet :
    {A : Type 0} (b : Bool) {m k : M A} → IsQuiet m → IsQuiet k → IsQuiet (if b then m else k)
if-IsQuiet true h t = h
if-IsQuiet false h t = t

pub publish-IsQuiet : (event session trace : String) → IsQuiet (publish event session trace)
unfolding publish
publish-IsQuiet event session trace = record { quiet = λ s. refl }

pub sleep-IsQuiet : (n : ℕ) → IsQuiet (sleep n)
unfolding sleep
sleep-IsQuiet n = record { quiet = λ s. refl }

pub set_step-IsQuiet : (v : String) → IsQuiet (set_step v)
unfolding set_step
set_step-IsQuiet v = record { quiet = λ s. refl }

pub set_obs-IsQuiet : (v : String) → IsQuiet (set_obs v)
unfolding set_obs
set_obs-IsQuiet v = record { quiet = λ s. refl }

pub set_stream-IsQuiet : (v : String) → IsQuiet (set_stream v)
unfolding set_stream
set_stream-IsQuiet v = record { quiet = λ s. refl }

pub set_broadcast-IsQuiet : (v : String) → IsQuiet (set_broadcast v)
unfolding set_broadcast
set_broadcast-IsQuiet v = record { quiet = λ s. refl }

pub ruleset quietly = (
  bind-IsQuiet, then-IsQuiet, return-IsQuiet, raise-IsQuiet, require-IsQuiet, when-IsQuiet,
  if-IsQuiet, publish-IsQuiet, sleep-IsQuiet, set_step-IsQuiet, set_obs-IsQuiet, set_stream-IsQuiet,
  set_broadcast-IsQuiet,
)

module _ (o : Outside) (alone : (n : ℕ) (r : Repository) → o.meanwhile n r ≡ r) where
  pub read-IsQuiet : (call : ServiceCall) → IsQuiet (read o call)
  unfolding read
  read-IsQuiet call = record { quiet = λ s. alone s.calls s.sessions }

  pub request-IsQuiet : (r : Request) → IsQuiet (request o r)
  unfolding request
  request-IsQuiet r = record { quiet = λ s. alone s.calls s.sessions }
