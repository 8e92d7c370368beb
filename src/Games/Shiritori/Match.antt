-- ===== src/Games/Shiritori/Match.antt =====
-- A whole game of shiritori: what holds after any sequence of submitted words.
use ai_liver_yura.Common.{
  ℕ, suc, ◌+◌, ◌≡◌, refl, sym, ap, ◌∙◌, inl, inr, true, false, not, Option, none, some, List, [],
  ◌∷◌, ◌++◌, arith, Option-cases, ◌==◌, string_eq, nat_eq, pair_eq, option_eq, bool_eq, list_eq,
  length, length-append, All, All-append, contains,
}
use ai_liver_yura.Games.Shiritori.Words.{Text, Unicode, head, tail, is_kana_word}
use ai_liver_yura.Games.Shiritori.{
  ShiritoriPlayer, ShiritoriState, initial, opponent, is_finished, wrong_head, ended, advanced,
  validate, game_finished, end_text,
}
use ai_liver_yura.Games.Shiritori.Rules.{
  Distinct-snoc, Link, ChainFrom, ChainFrom-snoc, last_from, last_from-snoc, tail_of,
  ends_with_letter_n, turn_after, IsRunning, IsOver, Inv, Move, refused, lost, played,
  validate-Move,
}

module _ (u : Unicode) where
  link_some :
      (c : ℕ) (w v : Text)
      → tail u v ≡ some c
      → not (head u w == some c) ≡ false
      → head u w ≡ tail u v
  link_some c w v t h = ((option_eq {A = ℕ}).beq_iff (head u w) (some c)).0 (ground arith) ∙ sym t

  Link-of :
      (expected : Option ℕ) (before : Option Text) (w : Text)
      → wrong_head u expected w ≡ false
      → expected ≡ tail_of u before
      → Link u before w
  Link-of expected none w h e = tt
  Link-of expected (some v) w h e = elim (Option-cases (tail u v)) [
    | inl t ↦ inl t
    | inr (c, t) ↦ inr (link_some c w v t (rw (e, t) at h))
  ]

  module _ (start : ShiritoriPlayer) where
    finished-IsOver : (s : ShiritoriState) → IsOver u start s → is_finished s ≡ true
    finished-IsOver s o = ground (arith, o.won)

    turn_after-snoc :
        (ws : List Text) (w : Text) (p : ShiritoriPlayer)
        → p ≡ turn_after u start (length ws)
        → opponent p ≡ turn_after u start (length (ws ++ w ∷ []))
    turn_after-snoc ws w p e =
        let longer : length (ws ++ w ∷ []) ≡ suc (length ws) =
          omega (arith, length-append ws (w ∷ [])) in
        rw (longer, e)

    module _ (s : ShiritoriState) (w : Text) (player : ShiritoriPlayer) (i : Inv u start s)
        (r : IsRunning u start s) (t : s.current_turn ≡ player) (k : is_kana_word w ≡ true)
        (h : wrong_head u s.expected_head w ≡ false) (c : contains s.used_words w ≡ false) where
      snoc-counted : s.turn_count + 1 ≡ length (s.used_words ++ w ∷ [])
      snoc-counted = omega (arith, i.counted, length-append s.used_words (w ∷ []))

      snoc-kana : All (λ x. is_kana_word x ≡ true) (s.used_words ++ w ∷ [])
      snoc-kana = All-append (λ x. is_kana_word x ≡ true) s.used_words (w ∷ []) i.kana (k, tt)

      snoc-chained : ChainFrom u none (s.used_words ++ w ∷ [])
      snoc-chained = ChainFrom-snoc u none s.used_words w i.chained (
          Link-of s.expected_head (last_from u none s.used_words) w h
            (r.expected ∙ ap (tail_of u) i.last))

      ended-Inv : ends_with_letter_n u w ≡ true → Inv u start (ended u s w player)
      ended-Inv n = record {
        counted = snoc-counted;
        distinct = Distinct-snoc s.used_words w i.distinct c;
        kana = snoc-kana;
        chained = snoc-chained;
        last = sym (last_from-snoc u none s.used_words w);
        phase = inr (record {
          last = w;
          is_last = refl;
          ends = n;
          lost = ap some (sym t);
          won = ap (λ p. some (opponent p)) (sym t);
          reason = ap (λ p. some (end_text p)) (sym t);
          turn = turn_after-snoc s.used_words w s.current_turn r.turn;
        });
      }

      advanced-Inv : ends_with_letter_n u w ≡ false → Inv u start (advanced u s w player)
      advanced-Inv n = record {
        counted = snoc-counted;
        distinct = Distinct-snoc s.used_words w i.distinct c;
        kana = snoc-kana;
        chained = snoc-chained;
        last = sym (last_from-snoc u none s.used_words w);
        phase = inl (record {
          no_winner = r.no_winner;
          no_loser = r.no_loser;
          no_reason = r.no_reason;
          turn = turn_after-snoc s.used_words w player (sym t ∙ r.turn);
          expected = refl;
          quiet =
              All-append (λ x. ends_with_letter_n u x ≡ false) s.used_words (w ∷ []) r.quiet
                (n, tt);
        });
      }

    running : (s : ShiritoriState) → Inv u start s → is_finished s ≡ false → IsRunning u start s
    running s i f = elim i.phase [
      | inl r ↦ r
      | inr o ↦ absurd (ground (arith, finished-IsOver s o))
    ]

    Move-Inv :
        (s s' : ShiritoriState) (player : ShiritoriPlayer)
        → Move u s player s'
        → Inv u start s
        → Inv u start s'
    Move-Inv s _ player refused i = i
    Move-Inv s _ player (lost w f t k h c n) i = ended-Inv s w player i (running s i f) t k h c n
    Move-Inv s _ player (played w f t k h c n) i =
        advanced-Inv s w player i (running s i f) t k h c n

    initial-Inv : Inv u start (initial start)
    unfolding initial
    initial-Inv = record {
      counted = refl;
      distinct = tt;
      kana = tt;
      chained = tt;
      last = refl;
      phase = inl (record {
        no_winner = refl;
        no_loser = refl;
        no_reason = refl;
        turn = refl;
        expected = refl;
        quiet = tt;
      });
    }

  unfoldable pub play : ShiritoriState → List (ShiritoriPlayer × Text) → ShiritoriState
  play s [] = s
  play s ((player, value) ∷ rest) = play (validate u s value player).state rest

  play-Inv :
      (start : ShiritoriPlayer) (s : ShiritoriState) (moves : List (ShiritoriPlayer × Text))
      → Inv u start s
      → Inv u start (play s moves)
  unfolding play
  play-Inv start s [] i = i
  play-Inv start s ((player, value) ∷ rest) i =
      play-Inv start (validate u s value player).state rest (
        Move-Inv start s (validate u s value player).state player (validate-Move u s value player)
          i)

  -- Whatever words the two players submit, in and out of turn, the state of the game keeps its
  -- invariant: no word is accepted twice, all are kana, each begins with the last sound of the one
  -- before if that has one, the turns alternate from the player who starts, and a game is over
  -- exactly with a word ending in the letter that loses, whose player is the loser.
  pub play-initial-Inv :
      (start : ShiritoriPlayer) (moves : List (ShiritoriPlayer × Text))
      → Inv u start (play (initial start) moves)
  play-initial-Inv start moves = play-Inv start (initial start) moves (initial-Inv start)

  -- A game that is over stays as it is, and every further word is answered `game_finished`.
  pub play-finished :
      (s : ShiritoriState) (moves : List (ShiritoriPlayer × Text)) (player : ShiritoriPlayer)
      (value : Text)
      → is_finished s ≡ true
      → (play s moves ≡ s) × ((validate u s value player).validation ≡ game_finished)
  unfolding play validate
  play-finished s [] player value f = (refl, rw f)
  play-finished s ((p, v) ∷ rest) player value f =
      (rw (f, play, validate) (play-finished s rest player value f).0, rw f)
