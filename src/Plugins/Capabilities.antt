-- ===== src/Plugins/Capabilities.antt =====
-- app/core/plugins/capability_registry.py: which plugins can serve a capability right now. `now` is
-- the clock.
pub mod Availability
use ai_liver_yura.Common.{
  ℕ, zero, suc, ◌+◌, ◌-◌, ◌*◌, ◌≤◌, ◌<◌, String, ◌≡◌, refl, sym, ap, ◌∙◌, subst, ◌≢◌, ◌↔◌, ◌⊎◌, inl,
  inr, Bool, true, false, not, ◌&&◌, ◌||◌, Option, none, some, List, [], ◌∷◌, ◌++◌, map, arith, ltb,
  leb, if◌then◌else◌, Bool-cases, Option-cases, Eq, ◌==◌, string_eq, nat_eq, pair_eq, option_eq,
  bool_eq, list_eq, beq_refl, Result, ok, err, ◌>>=◌, ◌>>◌, guard, Result-cases, length,
  length-append, drop, take, keep, any, All, All-append, All-map, All-keep, contains, is_empty,
  or_else, or_none, given, is_some, nat_beq, nat_beq_iff,
}
use ai_liver_yura.Common.Dict.{Dict, get, set, delete, has, keys, values}

pub data CapabilityAvailability : Type 0 where
  available degraded unavailable unknown : CapabilityAvailability

pub record CapabilityHealth : Type 0 where
  pub capability : String
  pub provider_plugin_id : String
  pub status : CapabilityAvailability
  pub failure_reason : Option String
  pub observed_at : ℕ

-- app/core/plugins/plugin.py: what a plugin declares of itself. Its behaviour is a parameter of the
-- calls that ask it to do something.
pub record Plugin : Type 0 where
  pub plugin_id : String
  pub display_name : String
  pub capabilities : List String

pub record CapabilityRegistry : Type 0 where
  pub providers : Dict String (Dict String Plugin)
  pub health : Dict (String × String) CapabilityHealth

abbrev pub empty : CapabilityRegistry
empty = record { providers = []; health = [] }

unfoldable pub update_health :
    CapabilityRegistry
    → String
    → String
    → CapabilityAvailability
    → Option String
    → ℕ
    → CapabilityRegistry
update_health r plugin capability status reason observed = record r {
  health =
      set (capability, plugin)
        (record {
          capability = capability;
          provider_plugin_id = plugin;
          status = status;
          failure_reason = reason;
          observed_at = observed;
        })
        r.health;
}

-- `self._providers.get(capability, {})`
unfoldable pub providers_of : CapabilityRegistry → String → Dict String Plugin
providers_of r capability = given (get capability r.providers) []

unfoldable pub register : CapabilityRegistry → Plugin → String → ℕ → CapabilityRegistry
unfolding providers_of has
register r plugin capability now =
    let current = providers_of r capability in
    let added = record r {
      providers = set capability (set plugin.plugin_id plugin current) r.providers;
    } in
    if has plugin.plugin_id current
    then r
    else update_health added plugin.plugin_id capability available none now

abbrev pub is_nil {ℓ} : {A : Type ℓ} → List A → Bool
is_nil [] = true
is_nil (x ∷ xs) = false

-- The providers of one capability after one of them is gone: an empty table is deleted.
abbrev pub put_back :
    String
    → Dict String Plugin
    → Dict String (Dict String Plugin)
    → Dict String (Dict String Plugin)
put_back capability [] d = delete capability d
put_back capability (p ∷ rest) d = set capability (p ∷ rest) d

abbrev removed : CapabilityRegistry → String → String → Dict String Plugin → ℕ → CapabilityRegistry
removed r plugin capability current now =
    update_health (record r { providers = put_back capability (delete plugin current) r.providers })
      plugin capability unavailable (some "Capability providerが解除されました。") now

-- The body of the loop of `unregister`.
unfoldable pub unregister_one : CapabilityRegistry → String → String → ℕ → CapabilityRegistry
unfolding providers_of has
unregister_one r plugin capability now =
    let current = providers_of r capability in
    if has plugin current then removed r plugin capability current now else r

unfoldable pub unregister_each : CapabilityRegistry → String → ℕ → List String → CapabilityRegistry
unfolding unregister_one
unregister_each r plugin now [] = r
unregister_each r plugin now (c ∷ cs) =
    unregister_each (unregister_one r plugin c now) plugin now cs

abbrev targets : CapabilityRegistry → Option String → List String
targets r none = keys r.providers
targets r (some capability) = capability ∷ []

unfoldable pub unregister : CapabilityRegistry → String → Option String → ℕ → CapabilityRegistry
unfolding unregister_each
unregister r plugin capability now = unregister_each r plugin now (targets r capability)

unfoldable pub is_available : CapabilityRegistry → String → Option String → Bool
unfolding providers_of has
is_available r capability none = not (is_nil (providers_of r capability))
is_available r capability (some plugin) = has plugin (providers_of r capability)

unfoldable pub list_available : CapabilityRegistry → List String
list_available r = keys r.providers

unfoldable pub resolve_providers : CapabilityRegistry → String → List Plugin
unfolding providers_of
resolve_providers r capability = values (providers_of r capability)

abbrev matches : String → Option String → (String × String) × CapabilityHealth → Bool
matches capability none ((c, p), h) = c == capability
matches capability (some plugin) ((c, p), h) = (c == capability) && (p == plugin)

unfoldable pub get_health : CapabilityRegistry → String → Option String → List CapabilityHealth
get_health r capability plugin = values (keep (matches capability plugin) r.health)
