-- ===== src/Games/Engine/Invariant.antt =====
-- What each method of the game engine keeps of the current session. A method that raises changes
-- nothing.
use ai_liver_yura.Common.Int.{ℤ}
use ai_liver_yura.Common.{
  is_some, ℕ, String, ◌≡◌, refl, subst, inl, inr, true, false, ◌&&◌, ◌||◌, Option, none, some,
  arith, if◌then◌else◌, Bool-cases, Option-cases, string_eq, nat_eq, pair_eq, option_eq, bool_eq,
  list_eq, Result, ok, err, Result-cases,
}
use ai_liver_yura.Common.Dict.{Dict, get, set, has, get-set}
use ai_liver_yura.Games.Session.{
  GameSessionStatus, playing, is_active, is_ended, GameSession, GameDefinition, GameError, allowed,
  transition,
}
use ai_liver_yura.Games.Engine.{
  GameEngine, Returns, is_paused, usable, register_game, start_game, update_active_session,
  link_ongoing_activity, transition_active, resume_game, none_active, starting_session,
  get_active_session, require_active_session, get_game_definition,
}

open_reason_of :
    (t : GameSessionStatus) (reason : String)
    → is_active t ≡ true
    → (if is_ended t then some reason else none) ≡ none
open_reason_of t reason h = ground arith

abbrev pub Games : Type 0 → Type 0
Games Value = Dict String (GameDefinition Value)

module _ {Value : Type 0} where
  abbrev pub registered : GameEngine Value → Result GameError (GameEngine Value) → GameEngine Value
  registered e (ok e') = e'
  registered e (err x) = e

  abbrev pub after : GameEngine Value → Returns Value → GameEngine Value
  after e (ok (s, e')) = e'
  after e (err x) = e

  -- What holds of the current session.
  pub record IsSession (games : Games Value) (s : GameSession Value) : Type 0 where
    pub known : usable (get s.game_type games) ≡ true
    pub begun : (is_active s.status || is_ended s.status) ≡ true
    pub dated : is_some s.ended_at ≡ is_ended s.status
    pub open_reason : (is_active s.status && is_some s.end_reason) ≡ false

  abbrev pub OfSession : Games Value → Option (GameSession Value) → Type 0
  OfSession games none = Unit
  OfSession games (some s) = IsSession games s

  abbrev pub IsEngine : GameEngine Value → Type 0
  IsEngine e = OfSession e.definitions e.current_session

  register-known :
      (games : Games Value) (d : GameDefinition Value) (game : String)
      → has d.game_type games ≡ false
      → usable (get game games) ≡ true
      → usable (get game (set d.game_type d games)) ≡ true
  unfolding has
  register-known games d game new known =
      ground (arith, get-set d.game_type game d games, string_eq.beq_iff d.game_type game)

  transition-IsSession :
      (games : Games Value) (s s' : GameSession Value) (t : GameSessionStatus) (now : ℕ)
      (result : Option (Dict String Value)) (reason : Option String)
      → (is_active t ≡ true → reason ≡ none)
      → transition s t now result reason ≡ ok s'
      → usable (get s.game_type games) ≡ true
      → IsSession games s'
  unfolding transition allowed
  transition-IsSession games s s' t now result reason open_end h known = record {
    known = ground arith;
    begun = ground arith;
    dated = ground arith;
    open_reason = ground arith;
  }

  active_lem :
      (e : GameEngine Value) (s : GameSession Value)
      → require_active_session e ≡ ok s
      → (e.current_session ≡ some s) × (is_active s.status ≡ true)
  unfolding require_active_session
  active_lem e s h = ground arith

  current-IsSession :
      (e : GameEngine Value) (s : GameSession Value)
      → IsEngine e
      → e.current_session ≡ some s
      → IsSession e.definitions s
  current-IsSession e s i h = subst (OfSession e.definitions) h i

  definition-usable :
      (e : GameEngine Value) (game : String) (d : GameDefinition Value)
      → get_game_definition e game ≡ ok d
      → usable (get game e.definitions) ≡ true
  unfolding get_game_definition
  definition-usable e game d h = ground arith

  pub start-IsEngine :
      (e : GameEngine Value) (game : String) (metadata : Dict String Value) (id : String) (now : ℕ)
      → IsEngine e
      → IsEngine (after e (start_game e game metadata id now))
  unfolding start_game
  start-IsEngine e game metadata id now i = elim (Result-cases (get_game_definition e game)) [
    | inr (x, h) ↦ rw (h, start_game) i
    | inl (d, h) ↦ elim (Bool-cases (none_active (get_active_session e))) [
      | inr busy ↦ rw (h, busy, start_game) i
      | inl free ↦
          let fresh : GameSession Value = starting_session d metadata game id now in
          elim (Result-cases (transition fresh playing now none none)) [
            | inr (x, k) ↦ rw (h, free, k, start_game) i
            | inl (s, k) ↦
                rw (h, free, k, start_game)
                  (transition-IsSession e.definitions fresh s playing now none none (λ _. refl) k
                    (definition-usable e game d h))
          ]
    ]
  ]

  pub active-IsEngine :
      (e : GameEngine Value) (t : GameSessionStatus) (reason : String)
      (result : Option (Dict String Value)) (now : ℕ)
      → IsEngine e
      → IsEngine (after e (transition_active e t reason result now))
  unfolding transition_active
  active-IsEngine e t reason result now i = elim (Result-cases (require_active_session e)) [
    | inr (x, h) ↦ rw (h, transition_active) i
    | inl (s, h) ↦
        let why : Option String = if is_ended t then some reason else none in
        elim (Result-cases (transition s t now result why)) [
          | inr (x, k) ↦ rw (h, k, transition_active) i
          | inl (s', k) ↦
              rw (h, k, transition_active)
                (transition-IsSession e.definitions s s' t now result why (open_reason_of t reason)
                  k (current-IsSession e s i (active_lem e s h).0).known)
        ]
  ]

  pub resume-IsEngine :
      (e : GameEngine Value) (now : ℕ) → IsEngine e → IsEngine (after e (resume_game e now))
  unfolding resume_game
  resume-IsEngine e now i = elim (Option-cases e.current_session) [
    | inl h ↦ rw (h, resume_game) tt
    | inr (s, h) ↦ elim (Bool-cases (is_paused s.status)) [
      | inr n ↦ rw (h, n, resume_game) (current-IsSession e s i h)
      | inl y ↦ elim (Result-cases (transition s playing now none none)) [
        | inr (x, k) ↦ rw (h, y, k, resume_game) (current-IsSession e s i h)
        | inl (s', k) ↦
            rw (h, y, k, resume_game)
              (transition-IsSession e.definitions s s' playing now none none (λ _. refl) k
                (current-IsSession e s i h).known)
      ]
    ]
  ]

  pub update-IsEngine :
      (e : GameEngine Value) (metadata : Dict String Value) (turn : ℤ) (now : ℕ)
      → IsEngine e
      → IsEngine (after e (update_active_session e metadata turn now))
  unfolding update_active_session
  update-IsEngine e metadata turn now i = elim (Result-cases (require_active_session e)) [
    | inr (x, h) ↦ rw (h, update_active_session) i
    | inl (s, h) ↦
        let is = current-IsSession e s i (active_lem e s h).0 in
        rw (h, update_active_session)
          (record {
            known = is.known;
            begun = is.begun;
            dated = is.dated;
            open_reason = is.open_reason;
          })
  ]

  pub link-IsEngine :
      (linked : String → Value) (e : GameEngine Value) (activity : String) (now : ℕ)
      → IsEngine e
      → IsEngine (after e (link_ongoing_activity linked e activity now))
  unfolding link_ongoing_activity
  link-IsEngine linked e activity now i = elim (Result-cases (require_active_session e)) [
    | inr (x, h) ↦ rw (h, link_ongoing_activity) i
    | inl (s, h) ↦
        let is = current-IsSession e s i (active_lem e s h).0 in
        rw (h, link_ongoing_activity)
          (record {
            known = is.known;
            begun = is.begun;
            dated = is.dated;
            open_reason = is.open_reason;
          })
  ]

  known-register :
      (games : Games Value) (d : GameDefinition Value) (o : Option (GameSession Value))
      → has d.game_type games ≡ false
      → OfSession games o
      → OfSession (set d.game_type d games) o
  known-register games d none new i = tt
  known-register games d (some s) new i = record {
    known = register-known games d s.game_type new i.known;
    begun = i.begun;
    dated = i.dated;
    open_reason = i.open_reason;
  }

  pub register-IsEngine :
      (e : GameEngine Value) (d : GameDefinition Value)
      → IsEngine e
      → IsEngine (registered e (register_game e d))
  unfolding register_game
  register-IsEngine e d i = elim (Bool-cases (has d.game_type e.definitions)) [
    | inl y ↦ rw (y, register_game) i
    | inr n ↦ rw (n, register_game) (known-register e.definitions d e.current_session n i)
  ]
