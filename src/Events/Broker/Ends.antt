-- ===== src/Events/Broker/Ends.antt =====
-- Ends of lists: what a `deque` with a maximal length keeps of what is appended to it.
use ai_liver_yura.Common.{
  ℕ, zero, suc, ◌+◌, ◌-◌, ◌≤◌, ◌≡◌, refl, sym, ap, ◌∙◌, List, [], ◌∷◌, ◌++◌, arith, string_eq,
  nat_eq, pair_eq, option_eq, bool_eq, list_eq, length, length-append, drop, length-drop,
}
use ai_liver_yura.Events.Broker.{last_of}

module _ {ℓ} {A : Type ℓ} where
  pub drop-append : (n : ℕ) (xs ys : List A) → n ≤ length xs → drop n (xs ++ ys) ≡ drop n xs ++ ys
  drop-append zero xs ys h = refl
  drop-append (suc n) [] ys h = absurd (omega (arith, h))
  drop-append (suc n) (x ∷ xs) ys h = drop-append n xs ys (omega (arith, h))

  pub drop-nil : (n : ℕ) → ◌≡◌ {A = List A} (drop n []) []
  drop-nil zero = refl
  drop-nil (suc n) = refl

  drop-drop : (m n : ℕ) (xs : List A) → drop m (drop n xs) ≡ drop (n + m) xs
  drop-drop m zero xs = ap (λ k. drop k xs) (omega arith)
  drop-drop m (suc n) [] = drop-nil m ∙ sym (drop-nil (suc n + m))
  drop-drop m (suc n) (x ∷ xs) =
      let e : suc (n + m) ≡ suc n + m = omega arith in
      drop-drop m n xs ∙ ap (λ k. drop k (x ∷ xs)) e

  pub drop-length : (xs : List A) → drop (length xs) xs ≡ []
  drop-length [] = refl
  drop-length (x ∷ xs) = drop-length xs

  -- Trimming after each arrival keeps what trimming once at the end keeps.
  pub last_of-last_of :
      (n : ℕ) (xs : List A) (x : A) → last_of n (last_of n xs ++ x ∷ []) ≡ last_of n (xs ++ x ∷ [])
  last_of-last_of n xs x =
      let k = length xs - n in
      let joined = sym (drop-append k xs (x ∷ []) (omega arith)) in
      ap (last_of n) joined
      ∙ drop-drop _ k (xs ++ x ∷ [])
      ∙ ap (λ j. drop j (xs ++ x ∷ []))
          (omega (arith, length-drop k (xs ++ x ∷ []), length-append xs (x ∷ [])))
