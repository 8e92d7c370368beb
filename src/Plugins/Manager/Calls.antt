-- ===== src/Plugins/Manager/Calls.antt =====
-- Each call of the plugin manager that registers a plugin or changes one capability keeps the
-- manager's invariant.
use ai_liver_yura.Common.{
  ℕ, String, ◌≡◌, refl, sym, subst, inl, inr, true, false, Option, some, [], ◌∷◌, arith, Bool-cases,
  Option-cases, string_eq, nat_eq, pair_eq, option_eq, bool_eq, list_eq, All, All-append, contains,
}
use ai_liver_yura.Common.Dict.{get, has, get-set, All-Finds-set, set-fresh, has-none}
use ai_liver_yura.Plugins.Capabilities.{
  Plugin, CapabilityRegistry, CapabilityAvailability, register, unregister,
}
use ai_liver_yura.Plugins.Manager.{
  registered, PluginManager, Behaviour, is_initialized, register_plugin,
  set_capability_availability, set_capability_health, settle, is_usable,
}
use ai_liver_yura.Plugins.Manager.Honesty.{
  Honest, unregister-Honest, register-Honest, update_health-Honest,
}
use ai_liver_yura.Plugins.Manager.Keeping.{IsManager, after, IsKeyed, All-get}

pub register-IsManager :
    (m : PluginManager) (p : Plugin) → IsManager m → IsManager (after m (register_plugin m p))
unfolding register_plugin
register-IsManager m p i = elim (Bool-cases (has p.plugin_id m.plugins)) [
  | inl old ↦ rw (old, register_plugin) i
  | inr new ↦
      let fresh = has-none p.plugin_id m.plugins new in
      rw (new, register_plugin)
        (record {
          found = All-Finds-set p.plugin_id p m.plugins fresh i.found;
          keyed =
              subst (All IsKeyed) (sym (set-fresh p.plugin_id p m.plugins fresh))
                (All-append IsKeyed m.plugins ((p.plugin_id, p) ∷ []) i.keyed (refl, tt));
          honest = λ c q o. ground (
            arith,
            i.honest c q,
            get-set p.plugin_id q p m.plugins,
            get-set p.plugin_id q registered m.statuses,
            string_eq.beq_iff p.plugin_id q,
            fresh,
          );
        })
]

-- A manager whose capabilities alone have changed, to backed ones.
backed :
    (m : PluginManager) (caps : CapabilityRegistry)
    → IsManager m
    → Honest m.plugins m.statuses caps
    → IsManager (record m { capabilities = caps })
backed m caps i h = record { found = i.found; keyed = i.keyed; honest = h }

register-backed :
    (m : PluginManager) (id c : String) (p : Plugin) (now : ℕ)
    → IsManager m
    → get id m.plugins ≡ some p
    → is_initialized (get id m.statuses) ≡ true
    → contains p.capabilities c ≡ true
    → Honest m.plugins m.statuses (register m.capabilities p c now)
register-backed m id c p now i e on declared =
    let own : p.plugin_id ≡ id = All-get IsKeyed m.plugins id p i.keyed e in
    register-Honest m.plugins m.statuses m.capabilities p c now
      (subst (λ j. get j m.plugins ≡ some p) (sym own) e)
      (subst (λ j. is_initialized (get j m.statuses) ≡ true) (sym own) on) declared i.honest

module _ (m : PluginManager) (id c : String) (now : ℕ) (i : IsManager m) where
  pub enable-IsManager :
      (b : Behaviour) → IsManager (after m (set_capability_availability b m id c true now))
  unfolding set_capability_availability
  enable-IsManager b = elim (Option-cases (get id m.plugins)) [
    | inl e ↦ rw (e, set_capability_availability) i
    | inr (p, e) ↦ elim (Bool-cases (is_initialized (get id m.statuses))) [
      | inr off ↦ rw (e, off, set_capability_availability) i
      | inl on ↦ elim (Bool-cases (contains p.capabilities c)) [
        | inr hidden ↦ rw (e, on, hidden, set_capability_availability) i
        | inl declared ↦ elim (Option-cases (b.offers id)) [
          | inl raises ↦ rw (e, on, declared, raises, set_capability_availability) i
          | inr (cs, offers) ↦ elim (Bool-cases (contains cs c)) [
            | inr missing ↦ rw (e, on, declared, offers, missing, set_capability_availability) i
            | inl there ↦
                rw (e, on, declared, offers, there, set_capability_availability)
                  (backed m (register m.capabilities p c now) i
                    (register-backed m id c p now i e on declared))
          ]
        ]
      ]
    ]
  ]

  pub withdraw-IsManager :
      (b : Behaviour) → IsManager (after m (set_capability_availability b m id c false now))
  unfolding set_capability_availability
  withdraw-IsManager b = elim (Option-cases (get id m.plugins)) [
    | inl e ↦ rw (e, set_capability_availability) i
    | inr (p, e) ↦ elim (Bool-cases (is_initialized (get id m.statuses))) [
      | inr off ↦ rw (e, off, set_capability_availability) i
      | inl on ↦ elim (Bool-cases (contains p.capabilities c)) [
        | inr hidden ↦ rw (e, on, hidden, set_capability_availability) i
        | inl declared ↦
            rw (e, on, declared, set_capability_availability)
              (backed m (unregister m.capabilities id (some c) now) i
                (unregister-Honest m.plugins m.statuses m.capabilities id (some c) now i.honest))
      ]
    ]
  ]

  settle-Honest :
      (p : Plugin) (status : CapabilityAvailability)
      → get id m.plugins ≡ some p
      → contains p.capabilities c ≡ true
      → Honest m.plugins m.statuses (settle m p id c status now)
  settle-Honest p status e declared = elim (Bool-cases (is_initialized (get id m.statuses))) [
    | inr off ↦ rw off i.honest
    | inl on ↦ elim (Bool-cases (is_usable status)) [
      | inl y ↦ rw (on, y) (register-backed m id c p now i e on declared)
      | inr n ↦
          rw (on, n)
            (unregister-Honest m.plugins m.statuses m.capabilities id (some c) now i.honest)
    ]
  ]

  pub health-IsManager :
      (status : CapabilityAvailability) (reason : Option String) (observed : ℕ)
      → IsManager (after m (set_capability_health m id c status reason observed now))
  unfolding set_capability_health
  health-IsManager status reason observed = elim (Option-cases (get id m.plugins)) [
    | inl e ↦ rw (e, set_capability_health) i
    | inr (p, e) ↦ elim (Bool-cases (contains p.capabilities c)) [
      | inr hidden ↦ rw (e, hidden, set_capability_health) i
      | inl declared ↦
          rw (e, declared, set_capability_health)
            (backed m _ i (
              update_health-Honest m.plugins m.statuses (settle m p id c status now) id c status
                reason observed (settle-Honest p status e declared)))
    ]
  ]
