-- ===== src/Common/Dict.antt =====
-- A Python dict as an association list in insertion order: an assignment to a present key keeps
-- its place, a new key goes to the end.
use mathlib.Core.Path.{◌≡◌, refl, subst, sym}
use mathlib.Core.Bool.{Bool, true, false, ◌&&◌}
use mathlib.Core.Option.{Option, none, some}
use mathlib.Core.List.{List, [], ◌∷◌, ◌++◌, map}
use native.Mathlib.Omega.{arith}
use ai_liver_yura.Common.Tests.{if◌then◌else◌, nat_beq}
use ai_liver_yura.Common.Lists.{length, All, All-map, All-append}
use ai_liver_yura.Common.Keys.{Eq, ◌==◌, beq_refl, option_eq}

abbrev pub Dict {ℓ κ} : Type ℓ → Type κ → Type (ℓ ⊔ κ)
Dict K V = List (K × V)

module _ {ℓ κ} {K : Type ℓ} {V : Type κ} ⦃e : Eq K⦄ where
  unfoldable pub get : K → Dict K V → Option V
  get k [] = none
  get k ((j, v) ∷ d) = if j == k then some v else get k d

  unfoldable pub set : K → V → Dict K V → Dict K V
  set k v [] = (k, v) ∷ []
  set k v ((j, w) ∷ d) = if j == k then (j, v) ∷ d else (j, w) ∷ set k v d

  unfoldable pub delete : K → Dict K V → Dict K V
  delete k [] = []
  delete k ((j, v) ∷ d) = if j == k then delete k d else (j, v) ∷ delete k d

  unfoldable pub has : K → Dict K V → Bool
  unfolding get
  has k d = elim (get k d) [ none ↦ false | some v ↦ true ]

  pub get-set :
      (k j : K) (v : V) (d : Dict K V) → get j (set k v d) ≡ (if k == j then some v else get j d)
  unfolding get set
  get-set k j v [] = refl
  get-set k j v ((i, w) ∷ d) =
      ground (arith, e.beq_iff k j, e.beq_iff i k, e.beq_iff i j, get-set k j v d)

  pub get-set_self : (k : K) (v : V) (d : Dict K V) → get k (set k v d) ≡ some v
  get-set_self k v d = ground (arith, get-set k k v d, beq_refl k)

  pub get-delete :
      (k j : K) (d : Dict K V) → get j (delete k d) ≡ (if k == j then none else get j d)
  unfolding get delete
  get-delete k j [] = ground arith
  get-delete k j ((i, w) ∷ d) =
      ground (arith, e.beq_iff k j, e.beq_iff i k, e.beq_iff i j, get-delete k j d)

abbrev pub values {ℓ κ} : {K : Type ℓ} {V : Type κ} → Dict K V → List V
values d = map (λ p. p.1) d

abbrev pub keys {ℓ κ} : {K : Type ℓ} {V : Type κ} → Dict K V → List K
keys d = map (λ p. p.0) d

-- `d == d'` for two dicts, whatever their order: as many entries, and each is found in the other.
unfoldable pub entries_in {ℓ κ} :
    {K : Type ℓ} {V : Type κ} ⦃e : Eq K⦄ ⦃f : Eq V⦄ → Dict K V → Dict K V → Bool
unfolding get
entries_in [] d = true
entries_in ⦃e⦄ ⦃f⦄ ((k, v) ∷ r) d = (get k d == some v) && entries_in r d

unfoldable pub dict_eq {ℓ κ} :
    {K : Type ℓ} {V : Type κ} ⦃e : Eq K⦄ ⦃f : Eq V⦄ → Dict K V → Dict K V → Bool
unfolding entries_in
dict_eq d d' = nat_beq (length d) (length d') && entries_in d' d

-- Every entry is the one that its key finds, as in a dict, whose keys are distinct.
abbrev pub Finds {ℓ κ} : {K : Type ℓ} {V : Type κ} ⦃e : Eq K⦄ → Dict K V → K × V → Type κ
Finds d (k, v) = get k d ≡ some v

module _ {ℓ κ} {K : Type ℓ} {V : Type κ} ⦃e : Eq K⦄ where
  pub set-fresh : (k : K) (v : V) (d : Dict K V) → get k d ≡ none → set k v d ≡ d ++ (k, v) ∷ []
  unfolding get set
  set-fresh k v [] h = refl
  set-fresh k v ((j, w) ∷ d) h = ground (arith, set-fresh k v d)

  Finds-set :
      (k : K) (v : V) (d : Dict K V) (p : K × V) → get k d ≡ none → Finds d p → Finds (set k v d) p
  Finds-set k v d (j, w) h f = ground (arith, get-set k j v d, e.beq_iff k j)

  -- A new key keeps the entries where they are found.
  pub All-Finds-set :
      (k : K) (v : V) (d : Dict K V)
      → get k d ≡ none
      → All (Finds d) d
      → All (Finds (set k v d)) (set k v d)
  All-Finds-set k v d h a = subst (All (Finds (set k v d))) (sym (set-fresh k v d h)) (
      All-append (Finds (set k v d)) d ((k, v) ∷ [])
        (All-map (Finds d) (Finds (set k v d)) d (λ p f. Finds-set k v d p h f) a)
        (get-set_self k v d, tt))

  pub has-none : (k : K) (d : Dict K V) → has k d ≡ false → get k d ≡ none
  unfolding has
  has-none k d h = ground arith
