-- ===== src/Games/Shiritori.antt =====
-- app/domain/games/shiritori.py: the rules of the word chain game. A text is the list of its code
-- points. NFKC normalisation and the white space test are Python's own and stand as parameters.
mod Words
pub mod Kana
pub mod Rules
pub mod Match
unfoldable pub use Words.*
use ai_liver_yura.Common.{
  is_some, ℕ, zero, suc, ◌+◌, ◌-◌, ◌*◌, ◌≤◌, ◌<◌, String, ◌≡◌, refl, sym, ap, ◌∙◌, subst, ◌≢◌, ◌↔◌,
  ◌⊎◌, inl, inr, Bool, true, false, not, ◌&&◌, ◌||◌, Option, none, some, List, [], ◌∷◌, ◌++◌, map,
  arith, ltb, leb, if◌then◌else◌, Bool-cases, Option-cases, Eq, ◌==◌, string_eq, nat_eq, pair_eq,
  option_eq, bool_eq, list_eq, beq_refl, Result, ok, err, ◌>>=◌, ◌>>◌, guard, Result-cases, length,
  length-append, drop, take, keep, any, All, All-append, All-map, All-keep, contains, is_empty,
  or_else, or_none, given,
}

pub data ShiritoriPlayer : Type 0 where
  user ai : ShiritoriPlayer

pub data ShiritoriValidation : Type 0 where
  valid invalid_head already_used ends_with_n not_user_turn not_ai_turn game_finished invalid_word :
      ShiritoriValidation

pub record ShiritoriState : Type 0 where
  pub current_turn : ShiritoriPlayer
  pub last_word : Option Text
  pub expected_head : Option ℕ
  pub used_words : List Text
  pub turn_count : ℕ
  pub winner : Option ShiritoriPlayer
  pub loser : Option ShiritoriPlayer
  pub end_reason : Option String

pub record ShiritoriWordResult : Type 0 where
  pub validation : ShiritoriValidation
  pub word : Option Text
  pub state : ShiritoriState

-- `ShiritoriState(current_turn=…)`
unfoldable pub initial : ShiritoriPlayer → ShiritoriState
initial player = record {
  current_turn = player;
  last_word = none;
  expected_head = none;
  used_words = [];
  turn_count = 0;
  winner = none;
  loser = none;
  end_reason = none;
}

abbrev pub opponent : ShiritoriPlayer → ShiritoriPlayer
opponent user = ai
opponent ai = user

abbrev pub same_player : ShiritoriPlayer → ShiritoriPlayer → Bool
same_player user user = true
same_player ai ai = true
same_player _ _ = false

abbrev not_turn : ShiritoriPlayer → ShiritoriValidation
not_turn user = not_user_turn
not_turn ai = not_ai_turn

abbrev pub end_text : ShiritoriPlayer → String
end_text user = "user_word_ends_with_n"
end_text ai = "ai_word_ends_with_n"

-- `state.winner is not None or state.end_reason is not None`
abbrev pub is_finished : ShiritoriState → Bool
is_finished s = is_some s.winner || is_some s.end_reason

abbrev rejected : ShiritoriValidation → Option Text → ShiritoriState → ShiritoriWordResult
rejected v w s = record { validation = v; word = w; state = s }

module _ (u : Unicode) where
  -- `state.expected_head is not None and get_shiritori_head(word) != state.expected_head`
  abbrev pub wrong_head : Option ℕ → Text → Bool
  wrong_head none word = false
  wrong_head (some expected) word = not (head u word == some expected)

  -- The two replaced states.
  abbrev pub ended : ShiritoriState → Text → ShiritoriPlayer → ShiritoriState
  ended s word player = record s {
    last_word = some word;
    used_words = s.used_words ++ word ∷ [];
    turn_count = s.turn_count + 1;
    winner = some (opponent player);
    loser = some player;
    end_reason = some (end_text player);
  }

  abbrev pub advanced : ShiritoriState → Text → ShiritoriPlayer → ShiritoriState
  advanced s word player = record s {
    current_turn = opponent player;
    last_word = some word;
    expected_head = tail u word;
    used_words = s.used_words ++ word ∷ [];
    turn_count = s.turn_count + 1;
  }

  -- The tests on the normalised word.
  unfoldable pub judge_word : ShiritoriState → Text → ShiritoriPlayer → ShiritoriWordResult
  judge_word s word player =
      if not (is_kana_word word)
      then rejected invalid_word none s
      else if wrong_head s.expected_head word
      then rejected invalid_head (some word) s
      else if contains s.used_words word
      then rejected already_used (some word) s
      else if tail u word == some letter_n
      then record { validation = ends_with_n; word = some word; state = ended s word player }
      else record { validation = valid; word = some word; state = advanced s word player }

  unfoldable pub validate : ShiritoriState → Text → ShiritoriPlayer → ShiritoriWordResult
  unfolding judge_word
  validate s value player =
      if is_finished s
      then rejected game_finished none s
      else if not (same_player s.current_turn player)
      then rejected (not_turn player) none s
      else judge_word s (normalize u value) player
