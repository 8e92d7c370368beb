-- ===== src/Plugins/Manager.antt =====
-- app/core/plugins/plugin_manager.py: registered plugins, their life and the capabilities that they
-- offer. A plugin's code is outside of the model: `Behaviour` says how each plugin answers during
-- one call of the manager. Logging is left out; the calls of a plugin's `shutdown`, whose errors
-- the manager swallows, are collected in `shutdowns`.
pub mod Honesty
pub mod Keeping
pub mod Calls
pub mod Lifecycle
pub mod Shutdown
use mathlib.Core.List.{reverse}
use ai_liver_yura.Common.{
  ℕ, zero, suc, ◌+◌, ◌-◌, ◌*◌, ◌≤◌, ◌<◌, String, ◌≡◌, refl, sym, ap, ◌∙◌, subst, ◌≢◌, ◌↔◌, ◌⊎◌, inl,
  inr, Bool, true, false, not, ◌&&◌, ◌||◌, Option, none, some, List, [], ◌∷◌, ◌++◌, map, arith, ltb,
  leb, if◌then◌else◌, Bool-cases, Option-cases, Eq, ◌==◌, string_eq, nat_eq, pair_eq, option_eq,
  bool_eq, list_eq, beq_refl, Result, ok, err, ◌>>=◌, ◌>>◌, guard, Result-cases, length,
  length-append, drop, take, keep, any, All, All-append, All-map, All-keep, contains, is_empty,
  or_else, or_none, given, is_some, nat_beq, nat_beq_iff,
}
use ai_liver_yura.Common.Dict.{Dict, get, set, has, values}
use ai_liver_yura.Plugins.Capabilities.{
  Plugin, CapabilityRegistry, CapabilityAvailability, available, degraded, register, unregister,
  update_health, list_available, resolve_providers, is_available,
}

pub data PluginStatus : Type 0 where
  registered disabled initialized failed shutdown : PluginStatus

-- `initializes p` is false where `initialize` raises, `offers p` is `none` where
-- `available_capabilities` raises.
pub record Behaviour : Type 0 where
  pub initializes : String → Bool
  pub offers : String → Option (List String)

pub record PluginManager : Type 0 where
  pub plugins : Dict String Plugin
  pub statuses : Dict String PluginStatus
  pub capabilities : CapabilityRegistry
  pub shutdowns : List String

pub data ManagerError : Type 0 where
  already_registered not_initialized not_registered undeclared_capability not_offered offer_failed :
      ManagerError

unfoldable pub init : PluginManager
init = record {
  plugins = [];
  statuses = [];
  capabilities = record { providers = []; health = [] };
  shutdowns = [];
}

unfoldable pub register_plugin : PluginManager → Plugin → Result ManagerError PluginManager
unfolding has
register_plugin m p = do
  guard (not (has p.plugin_id m.plugins)) already_registered
  ok (record m {
    plugins = set p.plugin_id p m.plugins;
    statuses = set p.plugin_id registered m.statuses;
  })

abbrev pub is_initialized : Option PluginStatus → Bool
is_initialized (some initialized) = true
is_initialized _ = false

-- `a - b` is not empty.
abbrev pub has_more : List String → List String → Bool
has_more [] declared = false
has_more (c ∷ cs) declared = not (contains declared c) || has_more cs declared

abbrev drop_capabilities : PluginManager → String → ℕ → PluginManager
drop_capabilities m id now = record m { capabilities = unregister m.capabilities id none now }

abbrev set_status : PluginManager → String → PluginStatus → PluginManager
set_status m id status = record m { statuses = set id status m.statuses }

abbrev note_shutdown : PluginManager → String → PluginManager
note_shutdown m id = record m { shutdowns = m.shutdowns ++ id ∷ [] }

unfoldable pub register_each : CapabilityRegistry → Plugin → ℕ → List String → CapabilityRegistry
register_each r p now [] = r
register_each r p now (c ∷ cs) = register_each (register r p c now) p now cs

-- A plugin that is not enabled.
unfoldable pub disable : PluginManager → String → ℕ → PluginManager
disable m id now =
    let quiet = drop_capabilities m id now in
    let stopped = if is_initialized (get id m.statuses) then note_shutdown quiet id else quiet in
    set_status stopped id disabled

-- A plugin whose offer was refused, after it was initialized.
unfoldable pub reject : PluginManager → String → ℕ → PluginManager
reject m id now = note_shutdown (drop_capabilities (set_status m id failed) id now) id

-- The capabilities that an initialized plugin offers.
unfoldable pub offer : PluginManager → String → Plugin → Option (List String) → ℕ → PluginManager
unfolding reject register_each
offer m id p none now = reject m id now
offer m id p (some offered) now =
    if has_more offered p.capabilities
    then reject m id now
    else record m { capabilities = register_each m.capabilities p now offered }

abbrev pub is_enabled : Dict String Bool → String → Bool
is_enabled enabled id = given (get id enabled) false

-- The body of the loop of `initialize_enabled_plugins`.
unfoldable pub initialize_one :
    Behaviour → Dict String Bool → ℕ → PluginManager → String × Plugin → PluginManager
unfolding disable offer
initialize_one b enabled now m (id, p) =
    if not (is_enabled enabled id)
    then disable m id now
    else if not (b.initializes id)
    then set_status (drop_capabilities m id now) id failed
    else offer (set_status m id initialized) id p (b.offers id) now

unfoldable pub initialize_each :
    Behaviour → Dict String Bool → ℕ → PluginManager → List (String × Plugin) → PluginManager
unfolding initialize_one
initialize_each b enabled now m [] = m
initialize_each b enabled now m (p ∷ ps) =
    initialize_each b enabled now (initialize_one b enabled now m p) ps

unfoldable pub initialize_enabled_plugins :
    Behaviour → Dict String Bool → ℕ → PluginManager → PluginManager
unfolding initialize_each
initialize_enabled_plugins b enabled now m = initialize_each b enabled now m m.plugins

unfoldable pub shutdown_one : ℕ → PluginManager → String × Plugin → PluginManager
shutdown_one now m (id, p) =
    if is_initialized (get id m.statuses)
    then set_status (note_shutdown (drop_capabilities m id now) id) id shutdown
    else m

unfoldable pub shutdown_each : ℕ → PluginManager → List (String × Plugin) → PluginManager
unfolding shutdown_one
shutdown_each now m [] = m
shutdown_each now m (p ∷ ps) = shutdown_each now (shutdown_one now m p) ps

unfoldable pub shutdown_plugins : ℕ → PluginManager → PluginManager
unfolding shutdown_each
shutdown_plugins now m = shutdown_each now m (reverse m.plugins)

unfoldable pub get_plugin : PluginManager → String → Option Plugin
get_plugin m id = if is_initialized (get id m.statuses) then get id m.plugins else none

abbrev pub or_error {ℓ} : {A : Type ℓ} → Option A → ManagerError → Result ManagerError A
or_error none e = err e
or_error (some a) e = ok a

unfoldable pub set_capability_availability :
    Behaviour → PluginManager → String → String → Bool → ℕ → Result ManagerError PluginManager
set_capability_availability b m id capability true now = do
  p ← or_error (get id m.plugins) not_initialized
  guard (is_initialized (get id m.statuses)) not_initialized
  guard (contains p.capabilities capability) undeclared_capability
  offered ← or_error (b.offers id) offer_failed
  guard (contains offered capability) not_offered
  ok (record m { capabilities = register m.capabilities p capability now })
set_capability_availability b m id capability false now = do
  p ← or_error (get id m.plugins) not_initialized
  guard (is_initialized (get id m.statuses)) not_initialized
  guard (contains p.capabilities capability) undeclared_capability
  ok (record m { capabilities = unregister m.capabilities id (some capability) now })

abbrev pub is_usable : CapabilityAvailability → Bool
is_usable available = true
is_usable degraded = true
is_usable _ = false

abbrev pub settle :
    PluginManager → Plugin → String → String → CapabilityAvailability → ℕ → CapabilityRegistry
settle m p id capability status now =
    if is_initialized (get id m.statuses)
    then (if is_usable status
        then register m.capabilities p capability now
        else unregister m.capabilities id (some capability) now)
    else m.capabilities

-- `observed` is the given time of observation, or the clock's.
unfoldable pub set_capability_health :
    PluginManager
    → String
    → String
    → CapabilityAvailability
    → Option String
    → ℕ
    → ℕ
    → Result ManagerError PluginManager
set_capability_health m id capability status reason observed now = do
  p ← or_error (get id m.plugins) not_registered
  guard (contains p.capabilities capability) undeclared_capability
  ok (record m {
    capabilities =
        update_health (settle m p id capability status now) id capability status reason observed;
  })
