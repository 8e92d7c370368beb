-- ===== src/Streaming/Session/History.antt =====
-- What holds of a stream session after any history of calls. A call that raises leaves the session,
-- which is immutable, as it was.
use ai_liver_yura.Common.{
  ◌&&◌, ℕ, String, ◌+◌, ◌≤◌, ◌≡◌, refl, ◌⊎◌, inl, inr, true, none, some, Result, ok, err, List, [],
  ◌∷◌, arith, Bool-cases, Result-cases, ap,
}
use ai_liver_yura.Streaming.Session.Status.{
  StreamSessionStatus, live, allowed, is_ready, is_live, readiness_of, is_ready_readiness,
  is_not_ready, has_failed,
}
use ai_liver_yura.Streaming.Session.Transitions.{
  phase, is_terminal, allowed-phase, attach_opening-ok, attach_main_segment-ok,
}
use ai_liver_yura.Streaming.Session.{
  StreamSession, TransitionArgs, SessionError, transition, moved, attach_opening,
  attach_main_segment, opened, segmented, create, can_start,
}

pub data Call : Type 0 where
  transitions : StreamSessionStatus → TransitionArgs → ℕ → Call
  attaches_opening : String → ℕ → Call
  attaches_segment : String → String → ℕ → Call

unfoldable pub call : StreamSession → Call → Result SessionError StreamSession
call s (transitions t args now) = transition s t args now
call s (attaches_opening a now) = attach_opening s a now
call s (attaches_segment g a now) = attach_main_segment s g a now

abbrev pub after : StreamSession → Result SessionError StreamSession → StreamSession
after s (ok s') = s'
after s (err e) = s

unfoldable pub run : StreamSession → List Call → StreamSession
run s [] = s
run s (c ∷ cs) = run (after s (call s c)) cs

-- The number of calls that returned.
pub successes : StreamSession → List Call → ℕ
unfolding call
successes s [] = 0
successes s (c ∷ cs) = elim (call s c) [ ok s' ↦ 1 + successes s' cs | err e ↦ successes s cs ]

-- A property that every transition and attachment keeps holds after any history.
pub record IsKept (P : StreamSession → Type 0) : Type 0 where
  pub on_transition :
      (s : StreamSession) (t : StreamSessionStatus) (args : TransitionArgs) (now : ℕ)
      → allowed s.status t ≡ true
      → P s
      → P (moved s t args now)
  pub on_opening :
      (s : StreamSession) (a : String) (now : ℕ)
      → s.status ≡ live
      → (s.opening_activity_id ≡ none) ⊎ (s.opening_activity_id ≡ some a)
      → P s
      → P (opened s a now)
  pub on_segment :
      (s : StreamSession) (g a : String) (now : ℕ) → s.status ≡ live → P s → P (segmented s g a now)

is_live-eq : (t : StreamSessionStatus) → is_live t ≡ true → t ≡ live
is_live-eq live h = refl
is_live-eq _ h = absurd (ground arith)

module _ {P : StreamSession → Type 0} (rule : IsKept P) where
  open rule use {on_transition, on_opening, on_segment}

  call-IsKept : (s : StreamSession) (c : Call) → P s → P (after s (call s c))
  unfolding call transition attach_opening attach_main_segment
  call-IsKept s (transitions t args now) p = elim (Bool-cases (allowed s.status t)) [
    | inl y ↦ rw (y, call, transition) (on_transition s t args now y p)
    | inr n ↦ rw (n, call, transition) p
  ]
  call-IsKept s (attaches_opening a now) p = elim (Result-cases (attach_opening s a now)) [
    | inl (s', e) ↦
        let (on_air, same, is) = attach_opening-ok s s' a now e in
        rw (e, is) (on_opening s a now (is_live-eq s.status on_air) same p)
    | inr (x, e) ↦ rw e p
  ]
  call-IsKept s (attaches_segment g a now) p = elim (Result-cases (attach_main_segment s g a now)) [
    | inl (s', e) ↦
        let (on_air, is) = attach_main_segment-ok s s' g a now e in
        rw (e, is) (on_segment s g a now (is_live-eq s.status on_air) p)
    | inr (x, e) ↦ rw e p
  ]

  pub run-IsKept : (s : StreamSession) (cs : List Call) → P s → P (run s cs)
  unfolding run
  run-IsKept s [] p = p
  run-IsKept s (c ∷ cs) p = run-IsKept (after s (call s c)) cs (call-IsKept s c p)

readiness_agrees :
    (s : StreamSession)
    → s.readiness ≡ readiness_of s.status
    → ((is_ready s.status && is_ready_readiness s.readiness) ≡ is_ready s.status)
      × (is_ready_readiness s.readiness ≡ is_ready s.status)
      × (is_not_ready s.readiness ≡ has_failed s.status)
unfolding readiness_of
readiness_agrees s h = (ground arith, ground arith, ground arith)

call-version :
    (s : StreamSession) (c : Call) (s' : StreamSession)
    → call s c ≡ ok s'
    → s'.state_version ≡ s.state_version + 1
unfolding call transition attach_opening attach_main_segment
call-version s (transitions t args now) s' h = ground arith
call-version s (attaches_opening a now) s' h = ground arith
call-version s (attaches_segment g a now) s' h = ground arith

-- From its creation on, whatever is called, a session can be started exactly while its status is
-- `ready`; its stored readiness is ready exactly then, and not ready exactly while it has failed.
pub run-create-can_start :
    (trace broadcast title id : String) (now : ℕ) (cs : List Call)
    → let s = run (create trace broadcast title id now) cs in
      (can_start s ≡ is_ready s.status)
      × (is_ready_readiness s.readiness ≡ is_ready s.status)
      × (is_not_ready s.readiness ≡ has_failed s.status)
unfolding can_start
run-create-can_start trace broadcast title id now cs =
    readiness_agrees (run (create trace broadcast title id now) cs)
      (run-IsKept rule (create trace broadcast title id now) cs start)
  where
    start :
        (create trace broadcast title id now).readiness
        ≡ readiness_of (create trace broadcast title id now).status
    start = unfold create readiness_of in refl

    rule : IsKept (λ s. s.readiness ≡ readiness_of s.status)
    rule = record {
      on_transition = λ s t args now' y p. refl;
      on_opening = λ s a now' l o p. p;
      on_segment = λ s g a now' l p. p;
    }

-- The phases (before the air, on air, after it) never go back: a stream that has left the air is
-- never live again, and no call takes it back to preparation.
pub run-phase : (s : StreamSession) (cs : List Call) → phase s.status ≤ phase (run s cs).status
run-phase s cs = run-IsKept rule s cs (omega arith)
  where
    rule : IsKept (λ s'. phase s.status ≤ phase s'.status)
    rule = record {
      on_transition = λ s' t args now y p. omega (arith, (allowed-phase s'.status t y).0);
      on_opening = λ s' a now l o p. p;
      on_segment = λ s' g a now l p. p;
    }

-- No history of calls changes anything of a session that is completed, stopped or aborted.
pub run-terminal : (s : StreamSession) (cs : List Call) → is_terminal s.status ≡ true → run s cs ≡ s
run-terminal s cs done = run-IsKept rule s cs refl
  where
    rule : IsKept (λ s'. s' ≡ s)
    rule = record {
      on_transition = λ s' t args now y p.
          absurd (
            ground
              (arith, (allowed-phase s'.status t y).1, ap (λ (r : StreamSession). r.status) p));
      on_opening =
          λ s' a now l o p. absurd (ground (arith, ap (λ (r : StreamSession). r.status) p));
      on_segment =
          λ s' g a now l p. absurd (ground (arith, ap (λ (r : StreamSession). r.status) p));
    }

-- The first opening activity of a session stays attached through any history.
pub run-opening :
    (s : StreamSession) (cs : List Call) {a : String}
    → s.opening_activity_id ≡ some a
    → (run s cs).opening_activity_id ≡ some a
run-opening s cs {a} e = run-IsKept rule s cs e
  where
    rule : IsKept (λ s'. s'.opening_activity_id ≡ some a)
    rule = record {
      on_transition = λ s' t args now y p. p;
      on_opening = λ s' b now l o p. ground arith;
      on_segment = λ s' g b now l p. p;
    }

-- A created session has an opening or a main segment attached only once it has been on air.
pub run-create-on_air :
    (trace broadcast title id : String) (now : ℕ) (cs : List Call)
    → phase (run (create trace broadcast title id now) cs).status ≡ 0
    → let s = run (create trace broadcast title id now) cs in
      (s.opening_activity_id ≡ none) × (s.current_segment_activity_id ≡ none)
run-create-on_air trace broadcast title id now cs =
    run-IsKept rule (create trace broadcast title id now) cs start
  where
    start :
        phase (create trace broadcast title id now).status ≡ 0
        → ((create trace broadcast title id now).opening_activity_id ≡ none)
          × ((create trace broadcast title id now).current_segment_activity_id ≡ none)
    start h = unfold create in (refl, refl)

    rule : IsKept (λ s.
        phase s.status ≡ 0
        → (s.opening_activity_id ≡ none) × (s.current_segment_activity_id ≡ none))
    rule = record {
      on_transition = λ s t args now' y p h. p (omega (arith, (allowed-phase s.status t y).0));
      on_opening = λ s a now' l o p h. absurd (omega (arith, ap phase l));
      on_segment = λ s g a now' l p h. absurd (omega (arith, ap phase l));
    }

-- `state_version` counts the calls that returned.
pub run-version :
    (s : StreamSession) (cs : List Call)
    → (run s cs).state_version ≡ s.state_version + successes s cs
unfolding run successes
run-version s [] = omega arith
run-version s (c ∷ cs) = elim (Result-cases (call s c)) [
  | inl (s', e) ↦ rw (e, run, successes) (omega (arith, run-version s' cs, call-version s c s' e))
  | inr (x, e) ↦ rw (e, run, successes) (run-version s cs)
]
