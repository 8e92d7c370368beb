-- ===== src/Streaming/Services/Returns.antt =====
-- What a method has done once it returns: each step of a do block, taken apart.
use ai_liver_yura.Common.{
  ℕ, String, ◌≡◌, refl, sym, ap, ◌∙◌, subst, ◌⊎◌, inl, inr, Bool, true, false, some, arith,
  Option-cases, string_eq, nat_eq, pair_eq, option_eq, bool_eq, list_eq, Result, ok, err,
}
use ai_liver_yura.Common.Dict.{get, get-set_self}
use ai_liver_yura.Streaming.Repository.{Repository, RepositoryError, save}
use ai_liver_yura.Streaming.Repository.Versions.{saved_over}
use ai_liver_yura.Streaming.Session.{
  StreamSession, StreamSessionStatus, TransitionArgs, SessionError, transition, moved,
}
use ai_liver_yura.Streaming.Services.{
  Outside, Site, Failure, rejected, failed, out_of_fuel, Outcome, returned, raised, M, continue,
  ServiceCall, ◌>>=◌, ◌>>◌, require, read, save_session, save_transition, called, stored, handled,
}

-- Where the method that was begun stands after a part of it.
pub record Part {A B : Type 0} (r : Outcome A × Site) (k : A → M B) (b : B) (s' : Site)
    : Type 0 where
  pub value : A
  pub middle : Site
  pub first : r ≡ (returned value, middle)
  pub second : k value middle ≡ (returned b, s')

pub continue-returned :
    {A B : Type 0} (r : Outcome A × Site) (k : A → M B) (b : B) (s' : Site)
    → continue r k ≡ (returned b, s')
    → Part r k b s'
continue-returned (returned a, s) k b s' h = record {
  value = a;
  middle = s;
  first = refl;
  second = h;
}
continue-returned (raised e, s) k b s' h = absurd (ground arith)

pub bind-returned :
    {A B : Type 0} (m : M A) (k : A → M B) (s : Site) (b : B) (s' : Site)
    → (m >>= k) s ≡ (returned b, s')
    → Part (m s) k b s'
unfolding ◌>>=◌
bind-returned m k s b s' h = continue-returned (m s) k b s' h

pub then-returned :
    {B : Type 0} (m : M (Unit {0})) (k : M B) (s : Site) (b : B) (s' : Site)
    → (m >> k) s ≡ (returned b, s')
    → Part (m s) (λ _. k) b s'
unfolding ◌>>◌
then-returned m k s b s' h = continue-returned (m s) (λ _. k) b s' h

pub require-returned :
    (b : Bool) (code : String) (s s' : Site) (u : Unit {0})
    → require b code s ≡ (returned u, s')
    → (b ≡ true) × (s' ≡ s)
unfolding require
require-returned true code s s' u h = ground arith
require-returned false code s s' u h = absurd (ground arith)

pub read-returned :
    (o : Outside) (call : ServiceCall) (s s' : Site) (v : String)
    → read o call s ≡ (returned v, s')
    → (o.answers s.calls call ≡ some v) × (s' ≡ called o s)
unfolding read
read-returned o call s s' v h = elim (Option-cases (o.answers s.calls call)) [
  | inl e ↦ absurd (ground arith)
  | inr (w, e) ↦ ground arith
]

stored-returned :
    (r : Result RepositoryError Repository) (x y : StreamSession) (s s' : Site)
    → stored r x s ≡ (returned y, s')
    → (r ≡ ok s'.sessions) × (y ≡ x) × (s'.calls ≡ s.calls)
stored-returned (ok r) x y s s' h = ground arith
stored-returned (err e) x y s s' h = absurd (ground arith)

-- A session that `save_session` returns is stored, and the rest of the state is as it was.
pub save_session-returned :
    (r : Result SessionError StreamSession) (x : StreamSession) (s s' : Site)
    → save_session r s ≡ (returned x, s')
    → (r ≡ ok x) × (save s.sessions x ≡ ok s'.sessions) × (s'.calls ≡ s.calls)
unfolding save_session
save_session-returned (err e) x s s' h = absurd (ground arith)
save_session-returned (ok y) x s s' h =
    let (saved, same, calls) = stored-returned (save s.sessions y) y x s s' h in
    (ap ok (sym same), subst (λ z. save s.sessions z ≡ ok s'.sessions) (sym same) saved, calls)

pub get-saved :
    (r r' : Repository) (x : StreamSession) → save r x ≡ ok r' → get x.session_id r' ≡ some x
unfolding save
get-saved r r' x h =
    ap (get x.session_id) (saved_over (get x.session_id r) r r' x h) ∙ get-set_self x.session_id x r

pub moved_lem :
    (x y : StreamSession) (status : StreamSessionStatus) (args : TransitionArgs) (now : ℕ)
    → transition x status args now ≡ ok y
    → y ≡ moved x status args now
unfolding transition
moved_lem x y status args now h = ground arith

pub save_transition-returned :
    (x y : StreamSession) (status : StreamSessionStatus) (args : TransitionArgs) (s s' : Site)
    → save_transition x status args s ≡ (returned y, s')
    → (y ≡ moved x status args s.time)
      × (get y.session_id s'.sessions ≡ some y)
      × (s'.calls ≡ s.calls)
unfolding save_transition
save_transition-returned x y status args s s' h =
    let (made, saved, calls) = save_session-returned (transition x status args s.time) y s s' h in
    (moved_lem x y status args s.time made, get-saved s.sessions s'.sessions y saved, calls)

-- A `try` returns what its body returned, or what the handler returned of a failure of the body.
pub handled-returned :
    {A : Type 0} (r : Outcome A × Site) (h : Failure → M A) (a : A) (s' : Site)
    → handled r h ≡ (returned a, s')
    → (r ≡ (returned a, s')) ⊎ ((e : Failure) × (s : Site) × (h e s ≡ (returned a, s')))
handled-returned (returned b, s) h a s' e = inl e
handled-returned (raised (rejected code), s) h a s' e = inr (rejected code, s, e)
handled-returned (raised failed, s) h a s' e = inr (failed, s, e)
handled-returned (raised out_of_fuel, s) h a s' e = absurd (ground arith)
