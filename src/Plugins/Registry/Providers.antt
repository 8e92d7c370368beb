-- ===== src/Plugins/Registry/Providers.antt =====
-- The choice of a provider in app/core/application/plugins/registry.py: `_resolve_handler` and
-- `_select_provider`. `earlier a b` is Python's `a <= b` on texts.
use ai_liver_yura.Common.{
  String, ◌≡◌, refl, ap, ◌∙◌, subst, inl, inr, Bool, true, false, not, ◌&&◌, ◌||◌, Option, none,
  some, List, [], ◌∷◌, arith, if◌then◌else◌, Bool-cases, ◌==◌, string_eq, nat_eq, pair_eq,
  option_eq, bool_eq, list_eq, Result, ok, err, ◌>>=◌, any, All, All-map, contains,
}
use mathlib.Core.List.{Perm}
use mathlib.Core.List.Perm
use ai_liver_yura.Common.Int.{ltb_ℤ, leb_ℤ}
use ai_liver_yura.Common.Order.{IsOrder, IsSorted, sort, sort-perm, sort-All, sort-IsSorted}
use ai_liver_yura.Common.Dict.{get}
use ai_liver_yura.Plugins.Registry.{
  CapabilityPolicy, named_provider, explicit_selection, PluginRegistration, Provider,
  PluginRegistry, providers_for,
}

pub data Unresolved : Type 0 where
  capability_unavailable : String → Option String → Unresolved
  unknown_plugin : Unresolved

abbrev found_enabled : Option PluginRegistration → Result Unresolved PluginRegistration
found_enabled none = err unknown_plugin
found_enabled (some p) = if p.enabled then ok p else err unknown_plugin

-- `registration` is `get id r.registrations`.
pub resolve_plugin : PluginRegistry → String → Result Unresolved PluginRegistration
resolve_plugin r id = found_enabled (get id r.registrations)

abbrev must_be_named : CapabilityPolicy → Bool
must_be_named named_provider = true
must_be_named explicit_selection = true
must_be_named _ = false

abbrev is_priority : CapabilityPolicy → Bool
is_priority CapabilityPolicy.priority = true
is_priority _ = false

module _ (earlier : String → String → Bool) where
  -- The order of the key `(-priority, plugin_id)`.
  abbrev pub ranked_before : Provider → Provider → Bool
  ranked_before a b = ltb_ℤ b.1.rank a.1.rank || (not (ltb_ℤ a.1.rank b.1.rank) && earlier a.0 b.0)

  abbrev same_rank : Provider → Provider → Bool
  same_rank a b = leb_ℤ a.1.rank b.1.rank && leb_ℤ b.1.rank a.1.rank

  -- `ranked[0]`, unless `ranked[1]` has the same priority.
  abbrev top_of : String → List Provider → Result Unresolved String
  top_of capability (a ∷ b ∷ ps) =
      if same_rank a b then err (capability_unavailable capability none) else ok a.0
  top_of capability _ = err (capability_unavailable capability none)

  abbrev choose : String → List Provider → Result Unresolved String
  choose capability [] = err (capability_unavailable capability none)
  choose capability (p ∷ []) =
      if must_be_named p.1.policy then err (capability_unavailable capability none) else ok p.0
  choose capability (p ∷ q ∷ ps) =
      if must_be_named p.1.policy
      then err (capability_unavailable capability none)
      else if is_priority p.1.policy
      then top_of capability (sort ranked_before (p ∷ q ∷ ps))
      else err (capability_unavailable capability none)

  -- `_select_provider`
  unfoldable pub select_provider : String → List Provider → Option String → Result Unresolved String
  select_provider capability available (some requested) =
      if any (λ p. p.0 == requested) available
      then ok requested
      else err (capability_unavailable capability (some requested))
  select_provider capability available none = choose capability available

  abbrev with_member :
      (PluginRegistration → List String)
      → String
      → Option PluginRegistration
      → Provider
      → List Provider
      → Result Unresolved (List Provider)
  with_member member capability none p ps = err unknown_plugin
  with_member member capability (some r) p ps =
      ok (if contains (member r) capability then p ∷ ps else ps)

  -- The providers that have a handler of the kind `member`: commands, queries or activities.
  unfoldable pub eligible :
      PluginRegistry
      → (PluginRegistration → List String)
      → String
      → List Provider
      → Result Unresolved (List Provider)
  eligible r member capability [] = ok []
  eligible r member capability (p ∷ ps) = eligible r member capability ps >>= λ rest.
      with_member member capability (get p.0 r.registrations) p rest

  -- `_resolve_handler`; the plugin whose handler it hands out.
  unfoldable pub resolve :
      PluginRegistry
      → (PluginRegistration → List String)
      → String
      → Option String
      → Result Unresolved String
  unfolding eligible select_provider providers_for
  resolve r member capability requested =
      eligible r member capability (providers_for r.capabilities capability) >>= λ available.
      select_provider capability available requested

  module _ (texts : IsOrder earlier) where
    ranked_before-IsOrder : IsOrder ranked_before
    ranked_before-IsOrder = record {
      total = λ a b. let either = texts.total a.0 b.0 in ground arith;
      trans = λ a b c h k. let next = texts.trans a.0 b.0 c.0 in ground arith;
    }

    -- The provider chosen: `p`, of a priority greater than that of all others.
    pub record IsBest (available : List Provider) (id : String) : Type 0 where
      pub best : Provider
      pub rest : List Provider
      pub is : best.0 ≡ id
      pub all : Perm (best ∷ rest) available
      pub greater : All (λ q. ltb_ℤ q.1.rank best.1.rank ≡ true) rest

    top_of-IsBest :
        (capability id : String) (ps available : List Provider)
        → IsSorted ranked_before ps
        → Perm ps available
        → top_of capability ps ≡ ok id
        → IsBest available id
    top_of-IsBest capability id [] available s p h = absurd (ground arith)
    top_of-IsBest capability id (a ∷ []) available s p h = absurd (ground arith)
    top_of-IsBest capability id (a ∷ b ∷ ps) available s p h = record {
      best = a;
      rest = b ∷ ps;
      is = ground arith;
      all = p;
      greater = (ground (arith, s.0.0), All-map _ _ ps (λ q k. ground (arith, s.0.0)) s.1.0);
    }

    choose-IsBest :
        (capability id : String) (available : List Provider)
        → choose capability available ≡ ok id
        → IsBest available id
    choose-IsBest capability id [] h = absurd (ground arith)
    choose-IsBest capability id (p ∷ []) h = record {
      best = p;
      rest = [];
      is = ground arith;
      all = Perm.rfl;
      greater = tt;
    }
    choose-IsBest capability id (p ∷ q ∷ ps) h =
        top_of-IsBest capability id (sort ranked_before (p ∷ q ∷ ps)) (p ∷ q ∷ ps)
          (sort-IsSorted ranked_before ranked_before-IsOrder (p ∷ q ∷ ps))
          (sort-perm ranked_before (p ∷ q ∷ ps)) (ground arith)

    -- Where texts are totally ordered, a provider that is selected without a request for one stands
    -- among the available ones, and each of the others has a smaller priority.
    pub select_provider-IsBest :
        (capability id : String) (available : List Provider)
        → select_provider capability available none ≡ ok id
        → IsBest available id
    unfolding select_provider
    select_provider-IsBest capability id available h = choose-IsBest capability id available h

  -- The handler of a kind that a plugin has for a capability.
  abbrev pub has_handler :
      (PluginRegistration → List String) → String → Option PluginRegistration → Bool
  has_handler member capability none = false
  has_handler member capability (some r) = contains (member r) capability

  Offers :
      PluginRegistry
      → (PluginRegistration → List String)
      → String
      → Result Unresolved (List Provider)
      → Type 0
  Offers r member capability (err e) = Unit
  Offers r member capability (ok ps) =
      All (λ p. has_handler member capability (get p.0 r.registrations) ≡ true) ps

  with_member-Offers :
      (r : PluginRegistry) (member : PluginRegistration → List String) (capability : String)
      (found : Option PluginRegistration) (p : Provider) (ps : List Provider)
      → get p.0 r.registrations ≡ found
      → All (λ q. has_handler member capability (get q.0 r.registrations) ≡ true) ps
      → Offers r member capability (with_member member capability found p ps)
  unfolding Offers
  with_member-Offers r member capability none p ps h a = tt
  with_member-Offers r member capability (some x) p ps h a =
      elim (Bool-cases (contains (member x) capability)) [
        | inl y ↦ rw y (ap (has_handler member capability) h ∙ y, a)
        | inr n ↦ rw n a
      ]

  eligible-Offers :
      (r : PluginRegistry) (member : PluginRegistration → List String) (capability : String)
      (ps : List Provider)
      → Offers r member capability (eligible r member capability ps)
  unfolding eligible Offers
  eligible-Offers r member capability [] = tt
  eligible-Offers r member capability (p ∷ ps) =
      go (eligible r member capability ps) (eligible-Offers r member capability ps)
    where
      go :
          (rest : Result Unresolved (List Provider))
          → Offers r member capability rest
          → Offers r member capability
              (rest >>= λ qs. with_member member capability (get p.0 r.registrations) p qs)
      go (err e) a = tt
      go (ok qs) a = with_member-Offers r member capability (get p.0 r.registrations) p qs refl a

  module _ (P : String → Type 0) where
    requested-All :
        (requested : String) (ps : List Provider)
        → All (λ p. P p.0) ps
        → any (λ p. p.0 == requested) ps ≡ true
        → P requested
    requested-All requested [] a h = absurd (ground arith)
    requested-All requested (p ∷ ps) a h = elim (Bool-cases (p.0 == requested)) [
      | inl y ↦ let is = string_eq.beq_iff p.0 requested in subst P (ground arith) a.0
      | inr n ↦ requested-All requested ps a.1 (ground arith)
    ]

    top_of-All :
        (capability id : String) (ps : List Provider)
        → All (λ p. P p.0) ps
        → top_of capability ps ≡ ok id
        → P id
    top_of-All capability id [] a h = absurd (ground arith)
    top_of-All capability id (p ∷ []) a h = absurd (ground arith)
    top_of-All capability id (p ∷ q ∷ ps) a h = subst P (ground arith) a.0

    choose-All :
        (capability id : String) (ps : List Provider)
        → All (λ p. P p.0) ps
        → choose capability ps ≡ ok id
        → P id
    choose-All capability id [] a h = absurd (ground arith)
    choose-All capability id (p ∷ []) a h = subst P (ground arith) a.0
    choose-All capability id (p ∷ q ∷ ps) a h =
        top_of-All capability id (sort ranked_before (p ∷ q ∷ ps))
          (sort-All ranked_before (λ x. P x.0) (p ∷ q ∷ ps) a) (ground arith)

    select_provider-All :
        (capability id : String) (ps : List Provider) (requested : Option String)
        → All (λ p. P p.0) ps
        → select_provider capability ps requested ≡ ok id
        → P id
    unfolding select_provider
    select_provider-All capability id ps none a h = choose-All capability id ps a h
    select_provider-All capability id ps (some requested) a h =
        subst P (ground arith) (requested-All requested ps a (ground arith))

  resolved-has_handler :
      (r : PluginRegistry) (member : PluginRegistration → List String) (capability id : String)
      (requested : Option String) (found : Result Unresolved (List Provider))
      → Offers r member capability found
      → (found >>= λ available. select_provider capability available requested) ≡ ok id
      → has_handler member capability (get id r.registrations) ≡ true
  unfolding Offers
  resolved-has_handler r member capability id requested (err e) a h = absurd (ground arith)
  resolved-has_handler r member capability id requested (ok ps) a h =
      select_provider-All (λ k. has_handler member capability (get k r.registrations) ≡ true)
        capability id ps requested a h

  -- A plugin that is resolved for a capability, requested by name or not, is registered and has a
  -- handler of the kind that was asked for: commands, queries or activities.
  pub resolve-has_handler :
      (r : PluginRegistry) (member : PluginRegistration → List String) (capability id : String)
      (requested : Option String)
      → resolve r member capability requested ≡ ok id
      → has_handler member capability (get id r.registrations) ≡ true
  unfolding resolve
  resolve-has_handler r member capability id requested h =
      resolved-has_handler r member capability id requested
        (eligible r member capability (providers_for r.capabilities capability))
        (eligible-Offers r member capability (providers_for r.capabilities capability)) h
