-- ===== src/Streaming/Services/Contracts.antt =====
-- What a method does to the session repository, as a contract: what holds of the repository before
-- it, what holds after it has returned and what holds after it has raised.
use ai_liver_yura.Common.{
  ℕ, String, ◌≡◌, refl, sym, ap, ◌∙◌, subst, ◌≢◌, none, or_none, some, List, [], ◌∷◌, ◌++◌, arith,
  string_eq, nat_eq, pair_eq, option_eq, bool_eq, list_eq, Result, ok, err,
}
use ai_liver_yura.Common.Dict.{get, set, get-set_self, get-set}
use ai_liver_yura.Streaming.Repository.{Repository, RepositoryError, save}
use ai_liver_yura.Streaming.Repository.Versions.{saved_over}
use ai_liver_yura.Streaming.Session.{
  StreamSession, StreamSessionStatus, TransitionArgs, SessionError, transition,
}
use ai_liver_yura.Streaming.Session.History.{Call, transitions, call, after, run}
use ai_liver_yura.Streaming.Services.{
  Site, Failure, rejected, failed, out_of_fuel, Outcome, returned, raised, M, continue, ◌>>=◌, ◌>>◌,
  return, raise, save_session, save_transition, stored, handled, try_except,
}
use ai_liver_yura.Streaming.Services.Rules.{IsQuiet}
use ai_liver_yura.Streaming.Services.Returns.{moved_lem}

abbrev pub Holds :
    {A : Type 0} → (A → Repository → Type 0) → (Repository → Type 0) → Outcome A × Site → Type 0
Holds Q E (returned a, s) = Q a s.sessions
Holds Q E (raised e, s) = E s.sessions

pub record Meets {A : Type 0} (P : Repository → Type 0) (m : M A) (Q : A → Repository → Type 0)
    (E : Repository → Type 0) : Type 0 where
  pub meets : (s : Site) → P s.sessions → Holds Q E (m s)

module _ {E : Repository → Type 0} where
  pub continue-Holds :
      {A B : Type 0} {Q : A → Repository → Type 0} {R : B → Repository → Type 0}
      (r : Outcome A × Site) (k : A → M B)
      → Holds Q E r
      → ((a : A) → Meets (Q a) (k a) R E)
      → Holds R E (continue r k)
  continue-Holds (returned a, s) k h t = (t a).meets s h
  continue-Holds (raised e, s) k h t = h

  pub bind-Meets :
      {P : Repository → Type 0} {A B : Type 0} {Q : A → Repository → Type 0}
      {R : B → Repository → Type 0} {m : M A} {k : A → M B}
      → Meets P m Q E
      → ((a : A) → Meets (Q a) (k a) R E)
      → Meets P (m >>= k) R E
  unfolding ◌>>=◌
  bind-Meets {m = m} {k = k} h t = record { meets = λ s p. continue-Holds (m s) k (h.meets s p) t }

  pub then-Meets :
      {P : Repository → Type 0} {B : Type 0} {R : B → Repository → Type 0}
      {Q : Unit {0} → Repository → Type 0} {m : M (Unit {0})} {k : M B}
      → Meets P m Q E
      → ((a : Unit {0}) → Meets (Q a) k R E)
      → Meets P (m >> k) R E
  unfolding ◌>>◌
  then-Meets {m = m} {k = k} h t = record {
    meets = λ s p. continue-Holds (m s) (λ _. k) (h.meets s p) t;
  }

  quiet_lem :
      {P : Repository → Type 0} {A : Type 0} (r : Outcome A × Site) (before : Repository)
      → r.1.sessions ≡ before
      → P before
      → ((x : Repository) → P x → E x)
      → Holds (λ _. P) E r
  quiet_lem {P = P} (returned a, s) before h p w = subst P (sym h) p
  quiet_lem {P = P} (raised e, s) before h p w = w s.sessions (subst P (sym h) p)

  -- A method that leaves the repository alone keeps what holds of it.
  pub quiet-Meets :
      {P : Repository → Type 0} {A : Type 0} {m : M A}
      → IsQuiet m
      → ((r : Repository) → P r → E r)
      → Meets P m (λ _. P) E
  quiet-Meets {m = m} q w = record { meets = λ s p. quiet_lem (m s) s.sessions (q.quiet s) p w }

  pub raise-Meets :
      {P : Repository → Type 0} {A : Type 0} {Q : A → Repository → Type 0} (e : Failure)
      → ((r : Repository) → P r → E r)
      → Meets P (raise {A = A} e) Q E
  unfolding raise
  raise-Meets e w = record { meets = λ s p. w s.sessions p }

  pub return-Meets :
      {P : Repository → Type 0} {A : Type 0} {Q : A → Repository → Type 0} (a : A)
      → ((r : Repository) → P r → Q a r)
      → Meets P (return a) Q E
  unfolding return
  return-Meets a w = record { meets = λ s p. w s.sessions p }

-- A handler that the body's failure meets.
handled-Holds :
    {A : Type 0} {Q : A → Repository → Type 0} {E F : Repository → Type 0} (r : Outcome A × Site)
    (h : Failure → M A)
    → Holds Q F r
    → ((x : Repository) → F x → E x)
    → ((e : Failure) → Meets F (h e) Q E)
    → Holds Q E (handled r h)
handled-Holds (returned a, s) h p w t = p
handled-Holds (raised (rejected code), s) h p w t = (t (rejected code)).meets s p
handled-Holds (raised failed, s) h p w t = (t failed).meets s p
handled-Holds (raised out_of_fuel, s) h p w t = w s.sessions p

pub try_except-Meets :
    {A : Type 0} {Q : A → Repository → Type 0} {P E F : Repository → Type 0} {m : M A}
    {h : Failure → M A}
    → Meets P m Q F
    → ((x : Repository) → F x → E x)
    → ((e : Failure) → Meets F (h e) Q E)
    → Meets P (try_except m h) Q E
unfolding try_except
try_except-Meets {m = m} {h = h} p w t = record {
  meets = λ s q. handled-Holds (m s) h (p.meets s q) w t;
}

weaker_lem :
    {A : Type 0} {Q R : A → Repository → Type 0} (E : Repository → Type 0) (r : Outcome A × Site)
    → ((a : A) (s : Repository) → Q a s → R a s)
    → Holds Q E r
    → Holds R E r
weaker_lem E (returned a, s) w h = w a s.sessions h
weaker_lem E (raised e, s) w h = h

pub weaker-Meets :
    {A : Type 0} {P : Repository → Type 0} {Q R : A → Repository → Type 0} {E : Repository → Type 0}
    {m : M A}
    → Meets P m Q E
    → ((a : A) (s : Repository) → Q a s → R a s)
    → Meets P m R E
weaker-Meets {E = E} {m = m} h w = record { meets = λ s p. weaker_lem E (m s) w (h.meets s p) }

run-snoc :
    (x : StreamSession) (cs : List Call) (c : Call)
    → run x (cs ++ c ∷ []) ≡ after (run x cs) (call (run x cs) c)
unfolding run
run-snoc x [] c = refl
run-snoc x (d ∷ cs) c = run-snoc (after x (call x d)) cs c

-- The session that `x` of the repository `before` has become: `y` is stored in its place, came from
-- it by calls of its operations that keep what was selected, and no other session was touched.
pub record Follows (before : Repository) (x y : StreamSession) (r : Repository) : Type 0 where
  pub calls : List Call
  pub is_run : run x calls ≡ y
  pub is_stored : get x.session_id r ≡ some y
  pub same_id : y.session_id ≡ x.session_id
  pub same_broadcast : y.selected_broadcast_id ≡ x.selected_broadcast_id
  pub same_stream : y.selected_stream_id ≡ x.selected_stream_id
  pub others : (j : String) → j ≢ x.session_id → get j r ≡ get j before

pub record Reached (before : Repository) (x : StreamSession) (r : Repository) : Type 0 where
  pub session : StreamSession
  pub follows : Follows before x session r

pub reached :
    {before : Repository} {x y : StreamSession} (r : Repository)
    → Follows before x y r
    → Reached before x r
reached {y = y} r f = record { session = y; follows = f }

-- Before anything is done.
pub unmoved : {x : StreamSession} (r : Repository) → get x.session_id r ≡ some x → Follows r x x r
unfolding run
unmoved r h = record {
  calls = [];
  is_run = refl;
  is_stored = h;
  same_id = refl;
  same_broadcast = refl;
  same_stream = refl;
  others = λ j n. refl;
}

-- What a stored transition leaves.
abbrev pub Moved :
    Repository → StreamSession → StreamSessionStatus → StreamSession → Repository → Type 0
Moved before x status z r = Follows before x z r × (z.status ≡ status)

module _ {before : Repository} {x y : StreamSession} where
  saved-Follows :
      (z : StreamSession) (status : StreamSessionStatus) (args : TransitionArgs) (now : ℕ)
      (r : Repository)
      → transition y status args now ≡ ok z
      → args.selected_stream_id ≡ none
      → Follows before x y r
      → Follows before x z (set z.session_id z r)
  unfolding call
  saved-Follows z status args now r made unselected f =
      let moved_is = moved_lem y z status args now made in
      let same = ap (λ w. w.session_id) moved_is ∙ f.same_id in
      record {
        calls = f.calls ++ transitions status args now ∷ [];
        is_run =
            run-snoc x f.calls _
            ∙ ap (λ w. after w (call w (transitions status args now))) f.is_run
            ∙ ap (after y) made;
        is_stored =
            ap (λ k. get k (set z.session_id z r)) (sym same) ∙ get-set_self z.session_id z r;
        same_id = same;
        same_broadcast = ap (λ w. w.selected_broadcast_id) moved_is ∙ f.same_broadcast;
        same_stream =
            ap (λ w. w.selected_stream_id) moved_is
            ∙ ap (λ a. or_none a y.selected_stream_id) unselected
            ∙ f.same_stream;
        others = λ j n.
            get-set z.session_id j z r
            ∙ ground (arith, string_eq.beq_iff z.session_id j, ap (λ k. k) same, n)
            ∙ f.others j n;
      }

  stored-Follows :
      (z : StreamSession) (status : StreamSessionStatus) (args : TransitionArgs) (s : Site)
      (saved : Result RepositoryError Repository)
      → save s.sessions z ≡ saved
      → transition y status args s.time ≡ ok z
      → args.selected_stream_id ≡ none
      → Follows before x y s.sessions
      → Holds (Moved before x status) (Reached before x) (stored saved z s)
  unfolding save
  stored-Follows z status args s (err e) h made unselected f = reached s.sessions f
  stored-Follows z status args s (ok r) h made unselected f = (
    subst (Follows before x z) (sym (saved_over (get z.session_id s.sessions) s.sessions r z h))
        (saved-Follows z status args s.time s.sessions made unselected f),
    ap (λ w. w.status) (moved_lem y z status args s.time made),
  )

  save_session-Follows :
      (status : StreamSessionStatus) (args : TransitionArgs) (s : Site)
      (made : Result SessionError StreamSession)
      → transition y status args s.time ≡ made
      → args.selected_stream_id ≡ none
      → Follows before x y s.sessions
      → Holds (Moved before x status) (Reached before x) (save_session made s)
  unfolding save_session
  save_session-Follows status args s (err e) h unselected f = reached s.sessions f
  save_session-Follows status args s (ok z) h unselected f =
      stored-Follows z status args s (save s.sessions z) refl h unselected f

  -- `self._sessions.save(session.transition(…))` of the session that is stored.
  pub save_transition-Moved :
      (status : StreamSessionStatus) (args : TransitionArgs)
      → args.selected_stream_id ≡ none
      → Meets
          (Follows before x y)
          (save_transition y status args)
          (Moved before x status)
          (Reached before x)
  unfolding save_transition
  save_transition-Moved status args unselected = record {
    meets = λ s f.
        save_session-Follows status args s (transition y status args s.time) refl unselected f;
  }

  pub save_transition-Meets :
      (status : StreamSessionStatus) (args : TransitionArgs)
      → args.selected_stream_id ≡ none
      → Meets
          (Follows before x y)
          (save_transition y status args)
          (Follows before x)
          (Reached before x)
  save_transition-Meets status args unselected =
      weaker-Meets (save_transition-Moved status args unselected) (λ z r f. f.0)
