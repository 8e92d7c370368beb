-- ===== src/Games/Engine.antt =====
-- app/runtime/game_engine.py: the registered games and the one current session. The lock makes each
-- method one step; `now` is the clock and `id` the identifier that `uuid4` gives a new session.
pub mod Invariant
pub mod Life
use ai_liver_yura.Common.Int.{ℤ, pos}
use ai_liver_yura.Common.{
  ℕ, zero, suc, ◌+◌, ◌-◌, ◌*◌, ◌≤◌, ◌<◌, String, ◌≡◌, refl, sym, ap, ◌∙◌, subst, ◌≢◌, ◌↔◌, ◌⊎◌, inl,
  inr, Bool, true, false, not, ◌&&◌, ◌||◌, Option, none, some, List, [], ◌∷◌, ◌++◌, map, arith, ltb,
  leb, if◌then◌else◌, Bool-cases, Option-cases, Eq, ◌==◌, string_eq, nat_eq, pair_eq, option_eq,
  bool_eq, list_eq, beq_refl, Result, ok, err, ◌>>=◌, ◌>>◌, guard, Result-cases, length,
  length-append, drop, take, keep, any, All, All-append, All-map, All-keep, contains, is_empty,
  or_else, or_none, given,
}
use ai_liver_yura.Common.Dict.{Dict, get, set, has, values}
use ai_liver_yura.Games.Session.{
  GameSessionStatus, starting, playing, paused, completed, canceled, is_active, is_ended,
  GameSession, GameDefinition, GameError, already_registered, unsupported_game,
  active_session_exists, no_active_session, no_session, cannot_resume, transition,
}

pub record GameEngine (Value : Type 0) : Type 0 where
  pub definitions : Dict String (GameDefinition Value)
  pub current_session : Option (GameSession Value)

-- `{**first, **second}`
unfoldable pub merge {ℓ} : {V : Type ℓ} → Dict String V → Dict String V → Dict String V
merge d [] = d
merge d ((k, v) ∷ rest) = merge (set k v d) rest

-- What a method that changes the session returns, with the engine after it.
abbrev pub Returns : Type 0 → Type 0
Returns Value = Result GameError (GameSession Value × GameEngine Value)

abbrev pub is_paused : GameSessionStatus → Bool
is_paused paused = true
is_paused _ = false

module _ {Value : Type 0} where
  unfoldable pub empty : GameEngine Value
  empty = record { definitions = []; current_session = none }

  unfoldable pub register_game :
      GameEngine Value → GameDefinition Value → Result GameError (GameEngine Value)
  register_game e d = do
    guard (not (has d.game_type e.definitions)) already_registered
    ok (record e { definitions = set d.game_type d e.definitions })

  unfoldable pub list_supported_games : GameEngine Value → List (GameDefinition Value)
  list_supported_games e = keep (λ d. d.supported) (values e.definitions)

  abbrev pub usable : Option (GameDefinition Value) → Bool
  usable none = false
  usable (some d) = d.supported

  unfoldable pub is_supported : GameEngine Value → String → Bool
  is_supported e game = usable (get game e.definitions)

  abbrev supported_one : Option (GameDefinition Value) → Result GameError (GameDefinition Value)
  supported_one none = err unsupported_game
  supported_one (some d) = if d.supported then ok d else err unsupported_game

  unfoldable pub get_game_definition :
      GameEngine Value → String → Result GameError (GameDefinition Value)
  get_game_definition e game = supported_one (get game e.definitions)

  abbrev active_only : Option (GameSession Value) → Option (GameSession Value)
  active_only none = none
  active_only (some s) = if is_active s.status then some s else none

  unfoldable pub get_active_session : GameEngine Value → Option (GameSession Value)
  get_active_session e = active_only e.current_session

  abbrev pub install : GameEngine Value → GameSession Value → Returns Value
  install e s = ok (s, record e { current_session = some s })

  abbrev pub none_active : Option (GameSession Value) → Bool
  none_active none = true
  none_active (some s) = false

  abbrev pub starting_session :
      GameDefinition Value → Dict String Value → String → String → ℕ → GameSession Value
  starting_session d metadata game id now = record {
    game_type = game;
    status = starting;
    started_at = now;
    updated_at = now;
    metadata = merge d.initial_state metadata;
    session_id = id;
    ended_at = none;
    current_turn = pos 0;
    result = none;
    end_reason = none;
  }

  unfoldable pub start_game :
      GameEngine Value → String → Dict String Value → String → ℕ → Returns Value
  start_game e game metadata id now = do
    d ← get_game_definition e game
    guard (none_active (get_active_session e)) active_session_exists
    playing_session ← transition (starting_session d metadata game id now) playing now none none
    install e playing_session

  abbrev or_error : Option (GameSession Value) → GameError → Result GameError (GameSession Value)
  or_error none x = err x
  or_error (some s) x = ok s

  unfoldable pub require_active_session : GameEngine Value → Result GameError (GameSession Value)
  unfolding get_active_session
  require_active_session e = or_error (get_active_session e) no_active_session

  unfoldable pub update_active_session :
      GameEngine Value → Dict String Value → ℤ → ℕ → Returns Value
  update_active_session e metadata turn now = do
    s ← require_active_session e
    install e (record s { metadata = metadata; current_turn = turn; updated_at = now })

  -- `linked` is how the metadata holds an identifier.
  unfoldable pub link_ongoing_activity :
      (String → Value) → GameEngine Value → String → ℕ → Returns Value
  link_ongoing_activity linked e activity now = do
    s ← require_active_session e
    install e (record s {
      metadata = set "ongoing_activity_id" (linked activity) s.metadata;
      updated_at = now;
    })

  unfoldable pub transition_active :
      GameEngine Value → GameSessionStatus → String → Option (Dict String Value) → ℕ → Returns Value
  transition_active e status reason result now = do
    s ← require_active_session e
    s' ← transition s status now result (if is_ended status then some reason else none)
    install e s'

  unfoldable pub pause_game : GameEngine Value → String → ℕ → Returns Value
  pause_game e reason now = transition_active e paused reason none now

  unfoldable pub complete_game : GameEngine Value → Dict String Value → String → ℕ → Returns Value
  complete_game e result reason now = transition_active e completed reason (some result) now

  unfoldable pub cancel_game : GameEngine Value → String → ℕ → Returns Value
  cancel_game e reason now = transition_active e canceled reason none now

  unfoldable pub resume_game : GameEngine Value → ℕ → Returns Value
  resume_game e now = do
    s ← or_error e.current_session no_session
    guard (is_paused s.status) (cannot_resume s.status)
    s' ← transition s playing now none none
    install e s'
