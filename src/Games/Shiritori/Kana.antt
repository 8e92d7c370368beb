-- ===== src/Games/Shiritori/Kana.antt =====
-- Words of kana: normalising such a word changes nothing, so the sounds on which a submitted word
-- begins and ends are those of the word that the game records.
use mathlib.Core.List.{reverse, reverse-cons, reverse-reverse}
use ai_liver_yura.Common.{
  ℕ, ◌≡◌, refl, ap, inl, inr, Bool, true, false, not, ◌||◌, List, [], ◌∷◌, ◌++◌, map, arith,
  Bool-cases, string_eq, nat_eq, pair_eq, option_eq, bool_eq, list_eq, keep, any, contains, nat_beq,
  nat_beq_iff,
}
use ai_liver_yura.Games.Shiritori.Words.{
  Text, Unicode, normalize, to_hiragana, is_removed, remove_characters, strip, drop_while, is_kana,
  all_kana,
}

-- What the rules rely on of Python's text functions: NFKC leaves a text of kana alone, and no kana
-- is white space.
pub record IsUnicode (u : Unicode) : Type 0 where
  pub nfkc_kana : (w : Text) → all_kana w ≡ true → u.nfkc w ≡ w
  pub kana_visible : (c : ℕ) → is_kana c ≡ true → u.is_space c ≡ false

contains-any :
    (p : ℕ → Bool) (xs : List ℕ) (c : ℕ) → any p xs ≡ false → p c ≡ true → contains xs c ≡ false
contains-any p [] c h k = refl
contains-any p (x ∷ xs) c h k = elim (Bool-cases (nat_beq x c)) [
  | inl same ↦ let e : x ≡ c = (nat_beq_iff x c).0 same in absurd (ground (arith, ap p e))
  | inr other ↦ rw other (contains-any p xs c (ground arith) k)
]

kana-unremoved : (c : ℕ) → is_kana c ≡ true → is_removed c ≡ false
unfolding is_removed
kana-unremoved c h = contains-any is_kana remove_characters c refl h

kana-to_hiragana : (c : ℕ) → is_kana c ≡ true → to_hiragana c ≡ c
unfolding to_hiragana
kana-to_hiragana c h = ground arith

kana-not_ideographic_space : (c : ℕ) → is_kana c ≡ true → nat_beq c 0x3000 ≡ false
kana-not_ideographic_space c h = ground arith

all_kana-snoc :
    (w : Text) (c : ℕ) → all_kana w ≡ true → is_kana c ≡ true → all_kana (w ++ c ∷ []) ≡ true
all_kana-snoc [] c h k = rw k
all_kana-snoc (x ∷ w) c h k = ground (arith, all_kana-snoc w c)

all_kana-reverse : (w : Text) → all_kana w ≡ true → all_kana (reverse w) ≡ true
all_kana-reverse [] h = refl
all_kana-reverse (c ∷ w) h =
    rw (reverse-cons c w)
      (all_kana-snoc (reverse w) c (all_kana-reverse w (ground arith)) (ground arith))

keep-all_kana :
    (test : ℕ → Bool) (w : Text)
    → ((c : ℕ) → is_kana c ≡ true → test c ≡ true)
    → all_kana w ≡ true
    → keep test w ≡ w
keep-all_kana test [] f h = refl
keep-all_kana test (c ∷ w) f h = ground (arith, f c, keep-all_kana test w f)

map-all_kana : (w : Text) → all_kana w ≡ true → map to_hiragana w ≡ w
map-all_kana [] h = refl
map-all_kana (c ∷ w) h = ground (arith, kana-to_hiragana c, map-all_kana w)

module _ (u : Unicode) (known : IsUnicode u) where
  drop_while-kana : (w : Text) → all_kana w ≡ true → drop_while u.is_space w ≡ w
  unfolding drop_while
  drop_while-kana [] h = refl
  drop_while-kana (c ∷ w) h = ground (arith, known.kana_visible c)

  strip-kana : (w : Text) → all_kana w ≡ true → strip u w ≡ w
  strip-kana w h =
      rw
        (drop_while-kana w h, drop_while-kana (reverse w) (all_kana-reverse w h), reverse-reverse w)

  -- A word of kana is its own normal form.
  pub normalize-kana : (w : Text) → all_kana w ≡ true → normalize u w ≡ w
  unfolding normalize
  normalize-kana w h =
      rw
        (
          known.nfkc_kana w h,
          strip-kana w h,
          keep-all_kana (λ c. not (u.is_space c || nat_beq c 0x3000)) w
              (λ c k. ground (arith, known.kana_visible c k, kana-not_ideographic_space c k)) h,
          keep-all_kana (λ c. not (is_removed c)) w (λ c k. ground (arith, kana-unremoved c k)) h,
        )
        (map-all_kana w h)
