-- ===== src/Games/Engine/Life.antt =====
-- The life of the current game session, over any sequence of calls. A method that raises changes
-- nothing.
use ai_liver_yura.Common.Int.{ℤ}
use ai_liver_yura.Common.{
  ℕ, String, ◌≡◌, inl, inr, Bool, true, false, All, Bool-cases, none, some, List, [], ◌∷◌, arith,
  string_eq, nat_eq, pair_eq, option_eq, bool_eq, list_eq, ok, ◌>>=◌,
}
use ai_liver_yura.Common.Dict.{Dict, has}
use ai_liver_yura.Games.Session.{
  playing, paused, completed, canceled, is_ended, GameSession, GameDefinition, allowed, transition,
}
use ai_liver_yura.Games.Engine.{
  GameEngine, empty, register_game, start_game, update_active_session, link_ongoing_activity,
  transition_active, pause_game, complete_game, cancel_game, resume_game, require_active_session,
  get_active_session,
}
use ai_liver_yura.Games.Engine.Invariant.{
  registered, after, IsEngine, start-IsEngine, active-IsEngine, resume-IsEngine, update-IsEngine,
  link-IsEngine, register-IsEngine,
}

pub data Call (Value : Type 0) : Type 0 where
  registers : GameDefinition Value → Call Value
  starts : (game : String) (metadata : Dict String Value) (id : String) (now : ℕ) → Call Value
  updates : (metadata : Dict String Value) (turn : ℤ) (now : ℕ) → Call Value
  links : (activity : String) (now : ℕ) → Call Value
  pauses cancels : (reason : String) (now : ℕ) → Call Value
  resumes : ℕ → Call Value
  completes : (result : Dict String Value) (reason : String) (now : ℕ) → Call Value

abbrev pub is_start : {Value : Type 0} → Call Value → Bool
is_start (starts game metadata id now) = true
is_start _ = false

module _ {Value : Type 0} where
  module _ (linked : String → Value) where
    unfoldable pub step : GameEngine Value → Call Value → GameEngine Value
    unfolding pause_game cancel_game complete_game
    step e (registers d) = registered e (register_game e d)
    step e (starts game metadata id now) = after e (start_game e game metadata id now)
    step e (updates metadata turn now) = after e (update_active_session e metadata turn now)
    step e (links activity now) = after e (link_ongoing_activity linked e activity now)
    step e (pauses reason now) = after e (pause_game e reason now)
    step e (cancels reason now) = after e (cancel_game e reason now)
    step e (resumes now) = after e (resume_game e now)
    step e (completes result reason now) = after e (complete_game e result reason now)

    unfoldable pub run : GameEngine Value → List (Call Value) → GameEngine Value
    unfolding step
    run e [] = e
    run e (c ∷ cs) = run (step e c) cs

    step-over :
        (e : GameEngine Value) (c : Call Value) (s : GameSession Value)
        → is_start c ≡ false
        → e.current_session ≡ some s
        → is_ended s.status ≡ true
        → (step e c).current_session ≡ some s
    unfolding step register_game update_active_session link_ongoing_activity pause_game cancel_game
        complete_game resume_game transition_active require_active_session get_active_session
    step-over e (registers d) s n h over = elim (Bool-cases (has d.game_type e.definitions)) [
      | inl y ↦ rw y h
      | inr y ↦ rw y h
    ]
    step-over e (starts game metadata id now) s n h over = absurd (ground arith)
    step-over e (updates metadata turn now) s n h over = ground arith
    step-over e (links activity now) s n h over = ground arith
    step-over e (pauses reason now) s n h over = ground arith
    step-over e (cancels reason now) s n h over = ground arith
    step-over e (resumes now) s n h over = ground arith
    step-over e (completes result reason now) s n h over = ground arith

    step-IsEngine : (e : GameEngine Value) (c : Call Value) → IsEngine e → IsEngine (step e c)
    unfolding step
    step-IsEngine e (registers d) i = register-IsEngine e d i
    step-IsEngine e (starts game metadata id now) i = start-IsEngine e game metadata id now i
    step-IsEngine e (updates metadata turn now) i = update-IsEngine e metadata turn now i
    step-IsEngine e (links activity now) i = link-IsEngine linked e activity now i
    step-IsEngine e (pauses reason now) i = active-IsEngine e paused reason none now i
    step-IsEngine e (cancels reason now) i = active-IsEngine e canceled reason none now i
    step-IsEngine e (resumes now) i = resume-IsEngine e now i
    step-IsEngine e (completes result reason now) i =
        active-IsEngine e completed reason (some result) now i

    run-IsEngine :
        (e : GameEngine Value) (cs : List (Call Value)) → IsEngine e → IsEngine (run e cs)
    unfolding run
    run-IsEngine e [] i = i
    run-IsEngine e (c ∷ cs) i = run-IsEngine (step e c) cs (step-IsEngine e c i)

    -- After any calls on a new engine its session, if there is one, is of a registered and
    -- supported game, has begun, has an end time exactly if it is over, and no reason while it is
    -- being played.
    pub run-empty-IsEngine : (cs : List (Call Value)) → IsEngine (run empty cs)
    run-empty-IsEngine cs = run-IsEngine empty cs (unfold empty in tt)

    -- Once its session is over no calls change it any more, as long as no new game is started.
    pub run-over :
        (e : GameEngine Value) (cs : List (Call Value)) (s : GameSession Value)
        → All (λ c. is_start c ≡ false) cs
        → e.current_session ≡ some s
        → is_ended s.status ≡ true
        → (run e cs).current_session ≡ some s
    unfolding run
    run-over e [] s n h over = h
    run-over e (c ∷ cs) s n h over = run-over (step e c) cs s n.1 (step-over e c s n.0 h over) over

  -- A game that is paused and resumed is the same game again, but for the time of its last change.
  pub resume-pause :
      (e : GameEngine Value) (s : GameSession Value) (reason : String) (now later : ℕ)
      → e.current_session ≡ some s
      → s.status ≡ playing
      → s.ended_at ≡ none
      → s.end_reason ≡ none
      → let back = record s { updated_at = later } in
        (pause_game e reason now >>= λ r. resume_game r.1 later)
        ≡ ok (back, record e { current_session = some back })
  unfolding pause_game resume_game transition_active require_active_session transition allowed
  resume-pause e s reason now later c p d r = ground arith
