-- ===== src/Games/Examples.antt =====
-- A short word chain and one game session.
use ai_liver_yura.Common.{
  ℕ, String, ◌≡◌, refl, true, false, none, some, List, [], ◌∷◌, arith, string_eq, nat_eq, pair_eq,
  option_eq, bool_eq, list_eq, nat_beq,
}
use ai_liver_yura.Games.Shiritori.{
  Text, Unicode, ShiritoriPlayer, user, ai, ShiritoriState, initial, validate, head, tail, enlarge,
  is_kana_word, drop_while, normalize, is_kana,
}
use ai_liver_yura.Games.Shiritori.Kana.{IsUnicode}
use ai_liver_yura.Games.Shiritori.Rules.{Inv}
use ai_liver_yura.Games.Shiritori.Match.{play, play-initial-Inv}
use ai_liver_yura.Games.Session.{GameSession, GameDefinition, playing, completed}
use ai_liver_yura.Games.Engine.{GameEngine, empty}
use ai_liver_yura.Common.Int.{pos}
use ai_liver_yura.Games.Engine.Invariant.{IsEngine}
use ai_liver_yura.Games.Engine.Life.{
  Call, registers, starts, pauses, resumes, completes, run, run-empty-IsEngine, run-over, links,
  updates,
}

-- A world in which texts are normalised already.
abbrev plain : Unicode
plain = record { nfkc = λ t. t; is_space = λ c. nat_beq c 32 }

kana_not_blank : (c : ℕ) → is_kana c ≡ true → nat_beq c 32 ≡ false
kana_not_blank c h = ground arith

plain-IsUnicode : IsUnicode plain
plain-IsUnicode = record { nfkc_kana = λ w h. refl; kana_visible = kana_not_blank }

-- "いす" and "すいかん"
abbrev chair : Text
chair = 0x3044 ∷ 0x3059 ∷ []

abbrev drain_pipe : Text
drain_pipe = 0x3059 ∷ 0x3044 ∷ 0x304b ∷ 0x3093 ∷ []

abbrev moves : List (ShiritoriPlayer × Text)
moves = (user, chair) ∷ (user, chair) ∷ (ai, drain_pipe) ∷ []

play-initial-Inv_example : Inv plain user (play plain (initial user) moves)
play-initial-Inv_example = play-initial-Inv plain user moves

abbrev final : ShiritoriState
final = record {
  current_turn = ai;
  last_word = some drain_pipe;
  expected_head = some 0x3059;
  used_words = chair ∷ drain_pipe ∷ [];
  turn_count = 2;
  winner = some user;
  loser = some ai;
  end_reason = some "ai_word_ends_with_n";
}

-- The moves do end in this state.
final-played : play plain (initial user) moves ≡ final
unfolding play initial validate is_kana_word normalize drop_while tail enlarge head
final-played = refl

abbrev shiritori : GameDefinition ℕ
shiritori = record {
  game_type = "shiritori";
  display_name = "Shiritori";
  description = "a word chain";
  supported = true;
  initial_state = [];
}

abbrev session : GameSession ℕ
session = record {
  game_type = "shiritori";
  status = playing;
  started_at = 1;
  updated_at = 1;
  metadata = [];
  session_id = "g1";
  ended_at = none;
  current_turn = pos 0;
  result = none;
  end_reason = none;
}

abbrev engine : GameEngine ℕ
engine = record { definitions = ("shiritori", shiritori) ∷ []; current_session = some session }

abbrev linked : String → ℕ
linked id = 0

abbrev calls : List (Call ℕ)
calls =
    registers shiritori
    ∷ starts "shiritori" [] "g1" 1
    ∷ pauses "comment" 2
    ∷ resumes 3
    ∷ completes [] "done" 4
    ∷ []

run-empty-IsEngine_example : IsEngine (run linked empty calls)
run-empty-IsEngine_example = run-empty-IsEngine linked calls

abbrev done : GameSession ℕ
done = record session { status = completed; ended_at = some 4; end_reason = some "done" }

abbrev idle : GameEngine ℕ
idle = record engine { current_session = some done }

abbrev later_calls : List (Call ℕ)
later_calls =
    resumes 5
    ∷ links "a1" 6
    ∷ updates [] (pos 3) 7
    ∷ pauses "comment" 8
    ∷ completes [] "again" 9
    ∷ []

run-over_example : (run linked idle later_calls).current_session ≡ some done
run-over_example =
    run-over linked idle later_calls done (refl, (refl, (refl, (refl, (refl, tt))))) refl refl
