-- ===== src/Plugins/Manager/Honesty.antt =====
-- The manager offers a capability of a plugin only while that plugin is initialized, and only one
-- that the plugin declares.
use ai_liver_yura.Common.{
  ℕ, String, ◌≡◌, inl, inr, Bool, true, false, ◌&&◌, Option, none, some, List, [], ◌∷◌, arith,
  Bool-cases, ◌==◌, string_eq, nat_eq, pair_eq, option_eq, bool_eq, list_eq, contains,
}
use ai_liver_yura.Common.Dict.{Dict, get, set, get-set}
use ai_liver_yura.Plugins.Capabilities.{
  Plugin, CapabilityRegistry, CapabilityAvailability, register, unregister, update_health,
}
use ai_liver_yura.Plugins.Capabilities.Availability.{
  provides, provides-register, provides-unregister, provides-update_health,
}
use ai_liver_yura.Plugins.Manager.{
  PluginStatus, initialized, is_initialized, has_more, register_each,
}

abbrev pub declares : Option Plugin → String → Bool
declares none c = false
declares (some p) c = contains p.capabilities c

-- What is offered is backed by the statuses and the declarations.
abbrev pub Honest : Dict String Plugin → Dict String PluginStatus → CapabilityRegistry → Type 0
Honest plugins statuses caps =
    (c p : String)
    → provides caps c p ≡ true
    → (is_initialized (get p statuses) ≡ true) × (declares (get p plugins) c ≡ true)

module _ (plugins : Dict String Plugin) where
  pub drop-Honest :
      (statuses : Dict String PluginStatus) (caps : CapabilityRegistry) (id : String)
      (status : PluginStatus) (now : ℕ)
      → Honest plugins statuses caps
      → Honest plugins (set id status statuses) (unregister caps id none now)
  drop-Honest statuses caps id status now h c p o =
      ground (arith, provides-unregister caps id none now c p, get-set id p status statuses, h c p)

  pub initialized-Honest :
      (statuses : Dict String PluginStatus) (caps : CapabilityRegistry) (id : String)
      → Honest plugins statuses caps
      → Honest plugins (set id initialized statuses) caps
  initialized-Honest statuses caps id h c p o =
      ground (arith, get-set id p initialized statuses, h c p)

  module _ (statuses : Dict String PluginStatus) where
    pub unregister-Honest :
        (caps : CapabilityRegistry) (id : String) (o : Option String) (now : ℕ)
        → Honest plugins statuses caps
        → Honest plugins statuses (unregister caps id o now)
    unregister-Honest caps id o now h c p q =
        h c p (ground (arith, provides-unregister caps id o now c p))

    pub register-Honest :
        (caps : CapabilityRegistry) (p : Plugin) (c : String) (now : ℕ)
        → get p.plugin_id plugins ≡ some p
        → is_initialized (get p.plugin_id statuses) ≡ true
        → contains p.capabilities c ≡ true
        → Honest plugins statuses caps
        → Honest plugins statuses (register caps p c now)
    register-Honest caps p c now found on declared h c' p' o =
        elim (Bool-cases ((c == c') && (p.plugin_id == p'))) [
          | inl same ↦
              let e : c ≡ c' = (string_eq.beq_iff c c').0 (ground arith) in
              let f : p.plugin_id ≡ p' = (string_eq.beq_iff p.plugin_id p').0 (ground arith) in
              rw (← e, ← f, found) (on, declared)
          | inr other ↦ h c' p' (ground (arith, provides-register caps p c now c' p'))
        ]

    pub register_each-Honest :
        (p : Plugin) (now : ℕ) (cs : List String) (caps : CapabilityRegistry)
        → get p.plugin_id plugins ≡ some p
        → is_initialized (get p.plugin_id statuses) ≡ true
        → has_more cs p.capabilities ≡ false
        → Honest plugins statuses caps
        → Honest plugins statuses (register_each caps p now cs)
    unfolding register_each
    register_each-Honest p now [] caps found on d h = h
    register_each-Honest p now (c ∷ cs) caps found on d h =
        register_each-Honest p now cs (register caps p c now) found on (ground arith)
          (register-Honest caps p c now found on (ground arith) h)

    pub update_health-Honest :
        (caps : CapabilityRegistry) (id c : String) (status : CapabilityAvailability)
        (reason : Option String) (now : ℕ)
        → Honest plugins statuses caps
        → Honest plugins statuses (update_health caps id c status reason now)
    update_health-Honest caps id c status reason now h c' p' o =
        h c' p' (ground (arith, provides-update_health caps id c status reason now c' p'))
