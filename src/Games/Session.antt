-- ===== src/Games/Session.antt =====
-- app/domain/games/game_models.py: the session of one game and its transitions. `Value` is the type
-- of what the metadata and the result hold (`Any` in the source).
use ai_liver_yura.Common.Int.{ℤ}
use ai_liver_yura.Common.{
  ℕ, String, Bool, true, false, Option, none, some, if◌then◌else◌, string_eq, nat_eq, pair_eq,
  option_eq, bool_eq, list_eq, Result, ok, ◌>>◌, guard,
}
use ai_liver_yura.Common.Dict.{Dict}

pub data GameSessionStatus : Type 0 where
  starting playing paused completed canceled : GameSessionStatus

-- `target in _ALLOWED_TRANSITIONS[source]`
unfoldable pub allowed : (source target : GameSessionStatus) → Bool
allowed starting playing = true
allowed starting canceled = true
allowed playing paused = true
allowed playing completed = true
allowed playing canceled = true
allowed paused playing = true
allowed paused canceled = true
allowed _ _ = false

-- `status in {COMPLETED, CANCELED}`
abbrev pub is_ended : GameSessionStatus → Bool
is_ended completed = true
is_ended canceled = true
is_ended _ = false

-- `status in {PLAYING, PAUSED}`
abbrev pub is_active : GameSessionStatus → Bool
is_active playing = true
is_active paused = true
is_active _ = false

pub record GameSession (Value : Type 0) : Type 0 where
  pub game_type : String
  pub status : GameSessionStatus
  pub started_at : ℕ
  pub updated_at : ℕ
  pub metadata : Dict String Value
  pub session_id : String
  pub ended_at : Option ℕ
  pub current_turn : ℤ
  pub result : Option (Dict String Value)
  pub end_reason : Option String

pub record GameDefinition (Value : Type 0) : Type 0 where
  pub game_type : String
  pub display_name : String
  pub description : String
  pub supported : Bool
  pub initial_state : Dict String Value

pub data GameError : Type 0 where
  already_registered unsupported_game active_session_exists no_active_session no_session : GameError
  invalid_transition : GameSessionStatus → GameSessionStatus → GameError
  cannot_resume : GameSessionStatus → GameError

-- `result if result is not None else self.result`
abbrev pub keep_result {ℓ} : {A : Type ℓ} → Option A → Option A → Option A
keep_result none old = old
keep_result (some new) old = some new

module _ {Value : Type 0} where
  unfoldable pub transition :
      GameSession Value
      → GameSessionStatus
      → ℕ
      → Option (Dict String Value)
      → Option String
      → Result GameError (GameSession Value)
  transition s status now result reason = do
    guard (allowed s.status status) (invalid_transition s.status status)
    ok (record s {
      status = status;
      updated_at = now;
      ended_at = if is_ended status then some now else none;
      result = keep_result result s.result;
      end_reason = reason;
    })
