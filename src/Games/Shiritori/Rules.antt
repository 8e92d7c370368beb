-- ===== src/Games/Shiritori/Rules.antt =====
-- The rules of shiritori as an invariant of its state, and what a submitted word does to the state.
use ai_liver_yura.Common.{
  ℕ, zero, suc, ◌≡◌, refl, ◌⊎◌, inl, inr, Bool, true, false, Option, none, some, List, [], ◌∷◌,
  ◌++◌, arith, Bool-cases, ◌==◌, string_eq, nat_eq, pair_eq, option_eq, bool_eq, list_eq, length,
  All, contains, contains-append, list_beq_iff,
}
use ai_liver_yura.Games.Shiritori.Words.{
  Text, Unicode, letter_n, normalize, head, tail, is_kana_word,
}
use ai_liver_yura.Games.Shiritori.{
  ShiritoriPlayer, ShiritoriState, opponent, same_player, is_finished, wrong_head, ended, advanced,
  judge_word, validate, end_text,
}

-- No word stands twice.
abbrev pub Distinct : List Text → Type 0
Distinct [] = Unit
Distinct (w ∷ ws) = (contains ws w ≡ false) × Distinct ws

contains-snoc :
    (ws : List Text) (w x : Text)
    → contains ws w ≡ false
    → (x == w) ≡ false
    → contains (ws ++ x ∷ []) w ≡ false
contains-snoc ws w x h k = rw (contains-append ws (x ∷ []) w) (ground arith)

pub Distinct-snoc :
    (ws : List Text) (x : Text) → Distinct ws → contains ws x ≡ false → Distinct (ws ++ x ∷ [])
Distinct-snoc [] x d h = (refl, tt)
Distinct-snoc (w ∷ ws) x d h = (
  contains-snoc ws w x d.0 (ground (arith, list_beq_iff x w, list_beq_iff w x)),
  Distinct-snoc ws x d.1 (ground arith),
)

same_player-eq : (p q : ShiritoriPlayer) → same_player p q ≡ true → p ≡ q
same_player-eq p q h = ground arith

module _ (u : Unicode) where
  -- A word may follow another: it begins with the sound on which that one ends, if it has one.
  abbrev pub Link : Option Text → Text → Type 0
  Link none w = Unit
  Link (some v) w = (tail u v ≡ none) ⊎ (head u w ≡ tail u v)

  abbrev pub ChainFrom : Option Text → List Text → Type 0
  ChainFrom before [] = Unit
  ChainFrom before (w ∷ ws) = Link before w × ChainFrom (some w) ws

  abbrev pub last_from : Option Text → List Text → Option Text
  last_from before [] = before
  last_from before (w ∷ ws) = last_from (some w) ws

  pub ChainFrom-snoc :
      (before : Option Text) (ws : List Text) (x : Text)
      → ChainFrom before ws
      → Link (last_from before ws) x
      → ChainFrom before (ws ++ x ∷ [])
  ChainFrom-snoc before [] x c l = (l, tt)
  ChainFrom-snoc before (w ∷ ws) x c l = (c.0, ChainFrom-snoc (some w) ws x c.1 l)

  pub last_from-snoc :
      (before : Option Text) (ws : List Text) (x : Text) → last_from before (ws ++ x ∷ []) ≡ some x
  last_from-snoc before [] x = refl
  last_from-snoc before (w ∷ ws) x = last_from-snoc (some w) ws x

  abbrev pub tail_of : Option Text → Option ℕ
  tail_of none = none
  tail_of (some w) = tail u w

  abbrev pub ends_with_letter_n : Text → Bool
  ends_with_letter_n w = tail u w == some letter_n

  -- Who plays the word number `n`, counted from zero.
  abbrev pub turn_after : ShiritoriPlayer → ℕ → ShiritoriPlayer
  turn_after p zero = p
  turn_after p (suc n) = opponent (turn_after p n)

  -- A game still running, and a game over.
  pub record IsRunning (start : ShiritoriPlayer) (s : ShiritoriState) : Type 0 where
    pub no_winner : s.winner ≡ none
    pub no_loser : s.loser ≡ none
    pub no_reason : s.end_reason ≡ none
    pub turn : s.current_turn ≡ turn_after start (length s.used_words)
    pub expected : s.expected_head ≡ tail_of s.last_word
    pub quiet : All (λ w. ends_with_letter_n w ≡ false) s.used_words

  pub record IsOver (start : ShiritoriPlayer) (s : ShiritoriState) : Type 0 where
    pub last : Text
    pub is_last : s.last_word ≡ some last
    pub ends : ends_with_letter_n last ≡ true
    pub lost : s.loser ≡ some s.current_turn
    pub won : s.winner ≡ some (opponent s.current_turn)
    pub reason : s.end_reason ≡ some (end_text s.current_turn)
    pub turn : opponent s.current_turn ≡ turn_after start (length s.used_words)

  pub record Inv (start : ShiritoriPlayer) (s : ShiritoriState) : Type 0 where
    pub counted : s.turn_count ≡ length s.used_words
    pub distinct : Distinct s.used_words
    pub kana : All (λ w. is_kana_word w ≡ true) s.used_words
    pub chained : ChainFrom none s.used_words
    pub last : s.last_word ≡ last_from none s.used_words
    pub phase : IsRunning start s ⊎ IsOver start s

  -- What a submitted word does to the state.
  pub data Move (s : ShiritoriState) (player : ShiritoriPlayer) : ShiritoriState → Type 0 where
    refused : Move s player s
    lost :
        (w : Text)
        → is_finished s ≡ false
        → s.current_turn ≡ player
        → is_kana_word w ≡ true
        → wrong_head u s.expected_head w ≡ false
        → contains s.used_words w ≡ false
        → ends_with_letter_n w ≡ true
        → Move s player (ended u s w player)
    played :
        (w : Text)
        → is_finished s ≡ false
        → s.current_turn ≡ player
        → is_kana_word w ≡ true
        → wrong_head u s.expected_head w ≡ false
        → contains s.used_words w ≡ false
        → ends_with_letter_n w ≡ false
        → Move s player (advanced u s w player)

  judge_word-Move :
      (s : ShiritoriState) (w : Text) (player : ShiritoriPlayer)
      → is_finished s ≡ false
      → s.current_turn ≡ player
      → Move s player (judge_word u s w player).state
  unfolding judge_word
  judge_word-Move s w player f t = elim (Bool-cases (is_kana_word w)) [
    | inr k ↦ rw k refused
    | inl k ↦ elim (Bool-cases (wrong_head u s.expected_head w)) [
      | inl h ↦ rw (k, h) refused
      | inr h ↦ elim (Bool-cases (contains s.used_words w)) [
        | inl c ↦ rw (k, h, c) refused
        | inr c ↦ elim (Bool-cases (ends_with_letter_n w)) [
          | inl n ↦ rw (k, h, c, n) (lost w f t k h c n)
          | inr n ↦ rw (k, h, c, n) (played w f t k h c n)
        ]
      ]
    ]
  ]

  pub validate-Move :
      (s : ShiritoriState) (v : Text) (player : ShiritoriPlayer)
      → Move s player (validate u s v player).state
  unfolding validate
  validate-Move s v player = elim (Bool-cases (is_finished s)) [
    | inl f ↦ rw f refused
    | inr f ↦ elim (Bool-cases (same_player s.current_turn player)) [
      | inr t ↦ rw (f, t) refused
      | inl t ↦
          rw (f, t)
            (judge_word-Move s (normalize u v) player f (same_player-eq s.current_turn player t))
    ]
  ]
