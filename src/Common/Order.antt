-- ===== src/Common/Order.antt =====
-- Python's `list.sort`: stable. The order is a test `before a b`, "a need not stand behind b".
use mathlib.Core.Path.{◌≡◌, refl, ◌∙◌}
use mathlib.Core.Bool.{Bool, true}
use mathlib.Core.List.{List, [], ◌∷◌, Perm}
use mathlib.Core.List.Perm
use native.Mathlib.Omega.{arith}
use mathlib.Core.Logic.{◌⊎◌, inl, inr}
use ai_liver_yura.Common.Tests.{if◌then◌else◌, Bool-cases}
use ai_liver_yura.Common.Lists.{All, All-map, All-keep, keep}

pub record IsOrder {ℓ} {A : Type ℓ} (before : A → A → Bool) : Type ℓ where
  pub total : (a b : A) → (before a b ≡ true) ⊎ (before b a ≡ true)
  pub trans : (a b c : A) → before a b ≡ true → before b c ≡ true → before a c ≡ true

module _ {ℓ} {A : Type ℓ} (before : A → A → Bool) where
  unfoldable pub insert : A → List A → List A
  insert x [] = x ∷ []
  insert x (y ∷ ys) = if before x y then x ∷ y ∷ ys else y ∷ insert x ys

  unfoldable pub sort : List A → List A
  unfolding insert
  sort [] = []
  sort (x ∷ xs) = insert x (sort xs)

  abbrev pub IsSorted : List A → Type ℓ
  IsSorted [] = Unit
  IsSorted (x ∷ xs) = All (λ y. before x y ≡ true) xs × IsSorted xs

  insert-perm : (x : A) (xs : List A) → Perm (insert x xs) (x ∷ xs)
  unfolding insert
  insert-perm x [] = Perm.rfl
  insert-perm x (y ∷ ys) = elim (Bool-cases (before x y)) [
    | inl b ↦ rw b Perm.rfl
    | inr n ↦ rw n (Perm.trans (Perm.cons y (insert-perm x ys)) (Perm.swap x y ys))
  ]

  pub sort-perm : (xs : List A) → Perm (sort xs) xs
  unfolding sort
  sort-perm [] = Perm.rfl
  sort-perm (x ∷ xs) = Perm.trans (insert-perm x (sort xs)) (Perm.cons x (sort-perm xs))

  insert-All {κ} : (P : A → Type κ) (x : A) (xs : List A) → P x → All P xs → All P (insert x xs)
  unfolding insert
  insert-All P x [] p h = (p, tt)
  insert-All P x (y ∷ ys) p h = ground (arith, insert-All P x ys p h.1)

  pub sort-All {κ} : (P : A → Type κ) (xs : List A) → All P xs → All P (sort xs)
  unfolding sort
  sort-All P [] h = tt
  sort-All P (x ∷ xs) h = insert-All P x (sort xs) h.0 (sort-All P xs h.1)

  -- Members that are all equal for the order keep their places among each other.
  keep-insert :
      (p : A → Bool)
      → ((a b : A) → p a ≡ true → p b ≡ true → before a b ≡ true)
      → (x : A) (xs : List A) → keep p (insert x xs) ≡ keep p (x ∷ xs)
  unfolding insert
  keep-insert p tie x [] = refl
  keep-insert p tie x (y ∷ ys) = ground (arith, keep-insert p tie x ys, tie x y)

  pub keep-sort :
      (p : A → Bool)
      → ((a b : A) → p a ≡ true → p b ≡ true → before a b ≡ true)
      → (xs : List A) → keep p (sort xs) ≡ keep p xs
  unfolding sort
  keep-sort p tie [] = refl
  keep-sort p tie (x ∷ xs) = keep-insert p tie x (sort xs) ∙ ground (arith, keep-sort p tie xs)

  module _ (o : IsOrder before) where
    open o use {total, trans}

    insert-IsSorted : (x : A) (xs : List A) → IsSorted xs → IsSorted (insert x xs)
    unfolding insert
    insert-IsSorted x [] h = (tt, tt)
    insert-IsSorted x (y ∷ ys) h = elim (Bool-cases (before x y)) [
      | inl b ↦ rw b (
        (
          b,
          All-map (λ z. before y z ≡ true) (λ z. before x z ≡ true) ys (λ z q. trans x y z b q) h.0,
        ),
        h,
      )
      | inr n ↦ rw n (
        insert-All (λ z. before y z ≡ true) x ys (ground (arith, total x y)) h.0,
        insert-IsSorted x ys h.1,
      )
    ]

    pub sort-IsSorted : (xs : List A) → IsSorted (sort xs)
    unfolding sort
    sort-IsSorted [] = tt
    sort-IsSorted (x ∷ xs) = insert-IsSorted x (sort xs) (sort-IsSorted xs)

  pub keep-IsSorted : (p : A → Bool) (xs : List A) → IsSorted xs → IsSorted (keep p xs)
  keep-IsSorted p [] h = tt
  keep-IsSorted p (x ∷ xs) h = elim (Bool-cases (p x)) [
    | inl y ↦ rw y (All-keep (λ z. before x z ≡ true) p xs h.0, keep-IsSorted p xs h.1)
    | inr n ↦ rw n (keep-IsSorted p xs h.1)
  ]
