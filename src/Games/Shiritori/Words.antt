-- ===== src/Games/Shiritori/Words.antt =====
-- app/domain/games/shiritori.py, the functions on words: normalisation, first and last sound.
use mathlib.Core.List.{reverse}
use ai_liver_yura.Common.{
  ℕ, ◌-◌, Bool, true, false, not, ◌&&◌, ◌||◌, Option, none, some, List, [], ◌∷◌, map, leb,
  if◌then◌else◌, string_eq, nat_eq, pair_eq, option_eq, bool_eq, list_eq, keep, contains, nat_beq,
}

abbrev pub Text : Type 0
Text = List ℕ

-- `unicodedata.normalize("NFKC", …)`, and white space as `str.strip` and `\s` know it.
pub record Unicode : Type 0 where
  pub nfkc : Text → Text
  pub is_space : ℕ → Bool

-- `_REMOVE_CHARACTERS`
abbrev pub remove_characters : List ℕ
remove_characters =
    0x3001 ∷ 0x3002 ∷ 0x2c ∷ 0x2e ∷ 0x21 ∷ 0xff01 ∷ 0x3f ∷ 0xff1f ∷ 0x300e ∷ 0x300f ∷ 0x300c
    ∷ 0x300d ∷ 0x22 ∷ 0x27 ∷ 0xff08 ∷ 0xff09 ∷ 0x28 ∷ 0x29 ∷ 0x3010 ∷ 0x3011 ∷ 0x5b ∷ 0x5d ∷ 0x3008
    ∷ 0x3009 ∷ 0x300a ∷ 0x300b ∷ []

-- `_SMALL_TO_LARGE`
abbrev small_to_large : List (ℕ × ℕ)
small_to_large =
    (0x3083, 0x3084)
    ∷ (0x3085, 0x3086)
    ∷ (0x3087, 0x3088)
    ∷ (0x3041, 0x3042)
    ∷ (0x3043, 0x3044)
    ∷ (0x3045, 0x3046)
    ∷ (0x3047, 0x3048)
    ∷ (0x3049, 0x304a)
    ∷ (0x3063, 0x3064)
    ∷ (0x308e, 0x308f)
    ∷ []

abbrev lookup_or : List (ℕ × ℕ) → ℕ → ℕ → ℕ
lookup_or [] c d = d
lookup_or ((k, v) ∷ r) c d = if nat_beq k c then v else lookup_or r c d

-- `_SMALL_TO_LARGE.get(c, c)`
unfoldable pub enlarge : ℕ → ℕ
enlarge c = lookup_or small_to_large c c

-- The long vowel mark, and the letter that loses the game.
abbrev pub long_mark : ℕ
long_mark = 0x30fc

abbrev pub letter_n : ℕ
letter_n = 0x3093

unfoldable pub to_hiragana : ℕ → ℕ
to_hiragana c = if leb 0x30a1 c && leb c 0x30f6 then c - 0x60 else c

unfoldable pub drop_while : (ℕ → Bool) → Text → Text
drop_while test [] = []
drop_while test (c ∷ cs) = if test c then drop_while test cs else c ∷ cs

unfoldable pub is_removed : ℕ → Bool
is_removed c = contains remove_characters c

module _ (u : Unicode) where
  abbrev pub strip : Text → Text
  strip t = reverse (drop_while u.is_space (reverse (drop_while u.is_space t)))

  unfoldable pub normalize : Text → Text
  unfolding to_hiragana is_removed
  normalize value =
      let spaced = keep (λ c. not (u.is_space c || nat_beq c 0x3000)) (strip (u.nfkc value)) in
      map to_hiragana (keep (λ c. not (is_removed c)) spaced)

  abbrev first : Text → Option ℕ
  first [] = none
  first (c ∷ cs) = some (enlarge c)

  unfoldable pub head : Text → Option ℕ
  head word = first (normalize word)

  -- The loop runs from the end over the long vowel marks.
  unfoldable pub tail : Text → Option ℕ
  unfolding drop_while
  tail word = first (drop_while (λ c. nat_beq c long_mark) (reverse (normalize word)))

-- `[ぁ-ゖー]`
abbrev pub is_kana : ℕ → Bool
is_kana c = (leb 0x3041 c && leb c 0x3096) || nat_beq c long_mark

abbrev pub all_kana : Text → Bool
all_kana [] = true
all_kana (c ∷ cs) = is_kana c && all_kana cs

-- `word and re.fullmatch(r"[ぁ-ゖー]+", word)`
unfoldable pub is_kana_word : Text → Bool
is_kana_word [] = false
is_kana_word (c ∷ cs) = all_kana (c ∷ cs)
