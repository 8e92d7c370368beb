-- ===== src/Plugins/Registry.antt =====
-- app/core/application/plugins/registry.py, with the records of app/core/contracts/plugins/models.py:
-- which plugins are registered for which capability, under which policy. Handlers and lifecycle
-- objects are code of the plugins; of the handlers only the capabilities that they are for stand here.
pub mod Policies
pub mod Starting
pub mod Providers
mod Examples
use ai_liver_yura.Common.{
  ℕ, zero, suc, ◌+◌, ◌-◌, ◌*◌, ◌≤◌, ◌<◌, String, ◌≡◌, refl, sym, ap, ◌∙◌, subst, ◌≢◌, ◌↔◌, ◌⊎◌, inl,
  inr, Bool, true, false, not, ◌&&◌, ◌||◌, Option, none, some, List, [], ◌∷◌, ◌++◌, map, arith, ltb,
  leb, if◌then◌else◌, Bool-cases, Option-cases, Eq, ◌==◌, string_eq, nat_eq, pair_eq, option_eq,
  bool_eq, list_eq, beq_refl, Result, ok, err, ◌>>=◌, ◌>>◌, guard, Result-cases, length,
  length-append, drop, take, keep, any, All, All-append, All-map, All-keep, contains, is_empty,
  or_else, or_none, given, is_some, nat_beq, nat_beq_iff,
}
use ai_liver_yura.Common.Int.{ℤ}
use ai_liver_yura.Common.Dict.{Dict, get, set, has, delete}

pub data CapabilityPolicy : Type 0 where
  single priority named_provider explicit_selection : CapabilityPolicy

abbrev pub is_single : CapabilityPolicy → Bool
is_single single = true
is_single _ = false

abbrev pub same_policy : CapabilityPolicy → CapabilityPolicy → Bool
same_policy single single = true
same_policy priority priority = true
same_policy named_provider named_provider = true
same_policy explicit_selection explicit_selection = true
same_policy _ _ = false

-- `rank` is the `priority` of the source.
pub record CapabilityRegistration : Type 0 where
  pub capability : String
  pub policy : CapabilityPolicy
  pub rank : ℤ

-- Of the commands, the queries and the activity providers the keys stand here.
pub record PluginRegistration : Type 0 where
  pub plugin_id : String
  pub declared : List String
  pub capability_registrations : List CapabilityRegistration
  pub commands : List String
  pub queries : List String
  pub activity_providers : List String
  pub dependencies : List String
  pub enabled : Bool

abbrev pub Provider : Type 0
Provider = String × CapabilityRegistration

pub record PluginRegistry : Type 0 where
  pub registrations : Dict String PluginRegistration
  pub capabilities : Dict String (List Provider)
  pub started : List String

abbrev pub empty_registry : PluginRegistry
empty_registry = record { registrations = []; capabilities = []; started = [] }

pub data RegistryError : Type 0 where
  plugin_registered declaration_mismatch plugin_started : RegistryError
  duplicate_capability : String → RegistryError

-- `xs <= ys` on sets.
abbrev pub subset : List String → List String → Bool
subset [] ys = true
subset (x ∷ xs) ys = contains ys x && subset xs ys

abbrev provided : List CapabilityRegistration → List String
provided items = map (λ i. i.capability) items

-- `provided == declared and exposed <= provided`
unfoldable pub matches_declaration : PluginRegistration → Bool
matches_declaration p =
    subset (provided p.capability_registrations) p.declared
    && subset p.declared (provided p.capability_registrations)
    && subset (p.commands ++ p.queries ++ p.activity_providers)
        (provided p.capability_registrations)

unfoldable pub providers_for : Dict String (List Provider) → String → List Provider
providers_for d capability = given (get capability d) []

-- The two tests of the loop: `current` has a provider, and one of the policies forbids another.
unfoldable pub conflicts : CapabilityRegistration → List Provider → Bool
conflicts item [] = false
conflicts item (p ∷ ps) =
    is_single item.policy
    || any (λ q. is_single q.1.policy) (p ∷ ps)
    || any (λ q. not (same_policy q.1.policy item.policy)) (p ∷ ps)

-- The capability of the first conflict.
unfoldable pub first_conflict :
    Dict String (List Provider) → List CapabilityRegistration → Option String
unfolding conflicts providers_for
first_conflict d [] = none
first_conflict d (i ∷ is) =
    if conflicts i (providers_for d i.capability) then some i.capability else first_conflict d is

abbrev no_conflict : Option String → Result RegistryError (Unit {0})
no_conflict none = ok tt
no_conflict (some capability) = err (duplicate_capability capability)

-- `self._capabilities.setdefault(item.capability, []).append((plugin_id, item))`
unfoldable pub add_each :
    String → Dict String (List Provider) → List CapabilityRegistration → Dict String (List Provider)
unfolding providers_for
add_each id d [] = d
add_each id d (i ∷ is) =
    add_each id (set i.capability (providers_for d i.capability ++ (id, i) ∷ []) d) is

unfoldable pub register : PluginRegistry → PluginRegistration → Result RegistryError PluginRegistry
unfolding has matches_declaration first_conflict add_each
register r p = do
  guard (not (has p.plugin_id r.registrations)) plugin_registered
  guard (matches_declaration p) declaration_mismatch
  no_conflict (first_conflict r.capabilities p.capability_registrations)
  ok (record r {
    registrations = set p.plugin_id p r.registrations;
    capabilities =
        if p.enabled
        then add_each p.plugin_id r.capabilities p.capability_registrations
        else r.capabilities;
  })

abbrev pub others : String → List Provider → List Provider
others id ps = keep (λ p. not (p.0 == id)) ps

abbrev keep_entry :
    String → List Provider → Dict String (List Provider) → Dict String (List Provider)
keep_entry c [] d = d
keep_entry c (p ∷ ps) d = (c, p ∷ ps) ∷ d

-- The loop of `unregister`: entries without remaining providers are deleted.
unfoldable pub remove_from : String → Dict String (List Provider) → Dict String (List Provider)
remove_from id [] = []
remove_from id ((c, ps) ∷ d) = keep_entry c (others id ps) (remove_from id d)

unfoldable pub unregister : PluginRegistry → String → Result RegistryError PluginRegistry
unfolding remove_from
unregister r id = do
  guard (not (contains r.started id)) plugin_started
  ok (record r {
    registrations = delete id r.registrations;
    capabilities = remove_from id r.capabilities;
  })
