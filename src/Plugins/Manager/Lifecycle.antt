-- ===== src/Plugins/Manager/Lifecycle.antt =====
-- The manager over any history of calls, whatever its plugins do.
use mathlib.Core.List.{reverse}
use ai_liver_yura.Common.{
  ℕ, String, ◌≡◌, refl, Bool, true, false, Option, List, [], ◌∷◌, arith, string_eq, nat_eq, pair_eq,
  option_eq, bool_eq, list_eq,
}
use ai_liver_yura.Common.Dict.{Dict, get, has}
use ai_liver_yura.Plugins.Capabilities.{Plugin, CapabilityAvailability, is_available}
use ai_liver_yura.Plugins.Capabilities.Availability.{provides}
use ai_liver_yura.Plugins.Manager.{
  PluginManager, Behaviour, init, is_initialized, register_plugin, initialize_enabled_plugins,
  shutdown_plugins, set_capability_availability, set_capability_health,
}
use ai_liver_yura.Plugins.Manager.Honesty.{declares}
use ai_liver_yura.Plugins.Manager.Keeping.{
  IsManager, after, entries, Kept-IsManager, initialize_each-Kept, shutdown_each-Kept,
}
use ai_liver_yura.Plugins.Manager.Calls.{
  register-IsManager, enable-IsManager, withdraw-IsManager, health-IsManager,
}

pub data Call : Type 0 where
  registers : Plugin → Call
  initializes : Behaviour → Dict String Bool → ℕ → Call
  shuts_down : ℕ → Call
  sets_availability : Behaviour → (id capability : String) → Bool → ℕ → Call
  sets_health :
      (id capability : String) → CapabilityAvailability → Option String → (observed now : ℕ) → Call

unfoldable pub step : PluginManager → Call → PluginManager
step m (registers p) = after m (register_plugin m p)
step m (initializes b enabled now) = initialize_enabled_plugins b enabled now m
step m (shuts_down now) = shutdown_plugins now m
step m (sets_availability b id capability available now) =
    after m (set_capability_availability b m id capability available now)
step m (sets_health id capability status reason observed now) =
    after m (set_capability_health m id capability status reason observed now)

unfoldable pub run : PluginManager → List Call → PluginManager
unfolding step
run m [] = m
run m (c ∷ cs) = run (step m c) cs

pub step-IsManager : (m : PluginManager) (c : Call) → IsManager m → IsManager (step m c)
unfolding step initialize_enabled_plugins shutdown_plugins
step-IsManager m (registers p) i = register-IsManager m p i
step-IsManager m (initializes b enabled now) i = Kept-IsManager m _ i (
    initialize_each-Kept m.plugins b enabled now m m.plugins
      (entries m.plugins m.plugins i.found i.keyed) (refl, i.honest))
step-IsManager m (shuts_down now) i =
    Kept-IsManager m _ i (shutdown_each-Kept m.plugins now m (reverse m.plugins) (refl, i.honest))
step-IsManager m (sets_availability b id c true now) i = enable-IsManager m id c now i b
step-IsManager m (sets_availability b id c false now) i = withdraw-IsManager m id c now i b
step-IsManager m (sets_health id c status reason observed now) i =
    health-IsManager m id c now i status reason observed

pub init-IsManager : IsManager init
unfolding init provides is_available has get
init-IsManager = record { found = tt; keyed = tt; honest = λ c p o. absurd (ground arith) }

pub run-IsManager : (m : PluginManager) (cs : List Call) → IsManager m → IsManager (run m cs)
unfolding run
run-IsManager m [] i = i
run-IsManager m (c ∷ cs) i = run-IsManager (step m c) cs (step-IsManager m c i)

-- Whatever the plugins do in any history of calls, a capability is available from a plugin only if
-- that plugin is initialized and declares it.
pub run-init-honest :
    (cs : List Call) (c p : String)
    → provides (run init cs).capabilities c p ≡ true
    → (is_initialized (get p (run init cs).statuses) ≡ true)
      × (declares (get p (run init cs).plugins) c ≡ true)
run-init-honest cs c p o = (run-IsManager init cs init-IsManager).honest c p o
