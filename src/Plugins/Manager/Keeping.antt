-- ===== src/Plugins/Manager/Keeping.antt =====
-- What each method of the plugin manager keeps, whatever its plugins do.
use ai_liver_yura.Common.{
  ℕ, String, ◌≡◌, sym, subst, inl, inr, Bool, true, Option, none, some, List, [], ◌∷◌, arith,
  Bool-cases, ◌==◌, string_eq, nat_eq, pair_eq, option_eq, bool_eq, list_eq, Result, ok, err, All,
}
use ai_liver_yura.Common.Dict.{Dict, get, set, Finds, get-set_self}
use ai_liver_yura.Plugins.Capabilities.{Plugin}
use ai_liver_yura.Plugins.Manager.{
  disabled, initialized, failed, shutdown, PluginManager, Behaviour, ManagerError, is_initialized,
  has_more, disable, reject, offer, is_enabled, initialize_one, initialize_each, shutdown_one,
  shutdown_each,
}
use ai_liver_yura.Plugins.Manager.Honesty.{
  Honest, drop-Honest, initialized-Honest, register_each-Honest,
}

-- The plugins stay, and what the manager offers is backed.
abbrev pub Kept : Dict String Plugin → PluginManager → Type 0
Kept plugins m = (m.plugins ≡ plugins) × Honest plugins m.statuses m.capabilities

-- An entry of the table of plugins: found under its key, which is its own identifier.
abbrev pub Entry : Dict String Plugin → String × Plugin → Type 0
Entry plugins (id, p) = (get id plugins ≡ some p) × (p.plugin_id ≡ id)

abbrev pub IsKeyed : String × Plugin → Type 0
IsKeyed (id, p) = p.plugin_id ≡ id

pub record IsManager (m : PluginManager) : Type 0 where
  pub found : All (Finds m.plugins) m.plugins
  pub keyed : All IsKeyed m.plugins
  pub honest : Honest m.plugins m.statuses m.capabilities

module _ (plugins : Dict String Plugin) where
  disable-Kept :
      (m : PluginManager) (id : String) (now : ℕ) → Kept plugins m → Kept plugins (disable m id now)
  unfolding disable
  disable-Kept m id now k = elim (Bool-cases (is_initialized (get id m.statuses))) [
    | inl y ↦ rw y (k.0, drop-Honest plugins m.statuses m.capabilities id disabled now k.1)
    | inr n ↦ rw n (k.0, drop-Honest plugins m.statuses m.capabilities id disabled now k.1)
  ]

  reject-Kept :
      (m : PluginManager) (id : String) (now : ℕ) → Kept plugins m → Kept plugins (reject m id now)
  unfolding reject
  reject-Kept m id now k = (k.0, drop-Honest plugins m.statuses m.capabilities id failed now k.1)

  offer-Kept :
      (m : PluginManager) (id : String) (p : Plugin) (offered : Option (List String)) (now : ℕ)
      → Entry plugins (id, p)
      → is_initialized (get id m.statuses) ≡ true
      → Kept plugins m
      → Kept plugins (offer m id p offered now)
  unfolding offer
  offer-Kept m id p none now e on k = reject-Kept m id now k
  offer-Kept m id p (some cs) now e on k = elim (Bool-cases (has_more cs p.capabilities)) [
    | inl y ↦ rw y (reject-Kept m id now k)
    | inr n ↦ rw n (
      k.0,
      register_each-Honest plugins m.statuses p now cs m.capabilities
          (subst (λ j. get j plugins ≡ some p) (sym e.1) e.0)
          (subst (λ j. is_initialized (get j m.statuses) ≡ true) (sym e.1) on) n k.1,
    )
  ]

  initialize_one-Kept :
      (b : Behaviour) (enabled : Dict String Bool) (now : ℕ) (m : PluginManager)
      (entry : String × Plugin)
      → Entry plugins entry
      → Kept plugins m
      → Kept plugins (initialize_one b enabled now m entry)
  unfolding initialize_one
  initialize_one-Kept b enabled now m (id, p) e k = elim (Bool-cases (is_enabled enabled id)) [
    | inr off ↦ rw off (disable-Kept m id now k)
    | inl wanted ↦ elim (Bool-cases (b.initializes id)) [
      | inr raises ↦
          rw (wanted, raises) (k.0, drop-Honest plugins m.statuses m.capabilities id failed now k.1)
      | inl done ↦
          rw (wanted, done)
            (offer-Kept (record m { statuses = set id initialized m.statuses }) id p (b.offers id)
              now e (rw (get-set_self id initialized m.statuses))
              (k.0, initialized-Honest plugins m.statuses m.capabilities id k.1))
    ]
  ]

  pub initialize_each-Kept :
      (b : Behaviour) (enabled : Dict String Bool) (now : ℕ) (m : PluginManager)
      (ps : List (String × Plugin))
      → All (Entry plugins) ps
      → Kept plugins m
      → Kept plugins (initialize_each b enabled now m ps)
  unfolding initialize_each
  initialize_each-Kept b enabled now m [] a k = k
  initialize_each-Kept b enabled now m (p ∷ ps) a k =
      initialize_each-Kept b enabled now (initialize_one b enabled now m p) ps a.1
        (initialize_one-Kept b enabled now m p a.0 k)

  shutdown_one-Kept :
      (now : ℕ) (m : PluginManager) (entry : String × Plugin)
      → Kept plugins m
      → Kept plugins (shutdown_one now m entry)
  unfolding shutdown_one
  shutdown_one-Kept now m (id, p) k = elim (Bool-cases (is_initialized (get id m.statuses))) [
    | inl y ↦ rw y (k.0, drop-Honest plugins m.statuses m.capabilities id shutdown now k.1)
    | inr n ↦ rw n k
  ]

  pub shutdown_each-Kept :
      (now : ℕ) (m : PluginManager) (ps : List (String × Plugin))
      → Kept plugins m
      → Kept plugins (shutdown_each now m ps)
  unfolding shutdown_each
  shutdown_each-Kept now m [] k = k
  shutdown_each-Kept now m (p ∷ ps) k =
      shutdown_each-Kept now (shutdown_one now m p) ps (shutdown_one-Kept now m p k)

abbrev pub after : PluginManager → Result ManagerError PluginManager → PluginManager
after m (ok m') = m'
after m (err e) = m

pub Kept-IsManager : (m m' : PluginManager) → IsManager m → Kept m.plugins m' → IsManager m'
Kept-IsManager m m' i k = record {
  found = subst (λ d. All (Finds d) d) (sym k.0) i.found;
  keyed = subst (All IsKeyed) (sym k.0) i.keyed;
  honest = subst (λ d. Honest d m'.statuses m'.capabilities) (sym k.0) k.1;
}

pub entries :
    (plugins : Dict String Plugin) (ps : List (String × Plugin))
    → All (Finds plugins) ps
    → All IsKeyed ps
    → All (Entry plugins) ps
entries plugins [] f k = tt
entries plugins ((id, p) ∷ ps) f k = ((f.0, k.0), entries plugins ps f.1 k.1)

pub All-get {ℓ} :
    (P : String × Plugin → Type ℓ) (d : Dict String Plugin) (id : String) (p : Plugin)
    → All P d
    → get id d ≡ some p
    → P (id, p)
unfolding get
All-get P [] id p a h = absurd (ground arith)
All-get P ((j, q) ∷ d) id p a h = elim (Bool-cases (j == id)) [
  | inl y ↦
      let same : j ≡ id = (string_eq.beq_iff j id).0 y in
      let got : q ≡ p = ground arith in subst (λ k. P (k, p)) same (subst (λ r. P (j, r)) got a.0)
  | inr n ↦ All-get P d id p a.1 (ground arith)
]
