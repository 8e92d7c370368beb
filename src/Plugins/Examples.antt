-- ===== src/Plugins/Examples.antt =====
-- Two plugins, one of which is enabled and offers what it declares.
use ai_liver_yura.Common.{
  String, ◌≡◌, refl, true, false, some, List, [], ◌∷◌, string_eq, nat_eq, pair_eq, option_eq,
  bool_eq, list_eq,
}
use ai_liver_yura.Common.Dict.{get, set}
use ai_liver_yura.Plugins.Capabilities.{
  Plugin, CapabilityRegistry, register, unregister, update_health,
}
use ai_liver_yura.Plugins.Capabilities.Availability.{provides}
use ai_liver_yura.Common.Int.{ℤ, pos}
use ai_liver_yura.Plugins.Registry.{
  CapabilityPolicy, PluginRegistration, empty_registry, providers_for,
}
use ai_liver_yura.Plugins.Registry.Policies
use ai_liver_yura.Plugins.Manager.{
  Behaviour, init, is_initialized, initialize_enabled_plugins, register_plugin, shutdown_plugins,
}
use ai_liver_yura.Plugins.Manager.Honesty.{declares}
use ai_liver_yura.Plugins.Manager.Lifecycle.{Call, registers, initializes, run, run-init-honest}
use ai_liver_yura.Plugins.Manager.Shutdown.{run-init-shutdown}

abbrev speech : Plugin
speech = record {
  plugin_id = "speech";
  display_name = "Speech";
  capabilities = "speak" ∷ "whisper" ∷ [];
}

abbrev avatar : Plugin
avatar = record { plugin_id = "avatar"; display_name = "Avatar"; capabilities = "move" ∷ [] }

abbrev behaviour : Behaviour
behaviour = record { initializes = λ id. true; offers = λ id. some ("speak" ∷ []) }

abbrev calls : List Call
calls = registers speech ∷ registers avatar ∷ initializes behaviour (("speech", true) ∷ []) 5 ∷ []

speaks : provides (run init calls).capabilities "speak" "speech" ≡ true
unfolding run provides initialize_enabled_plugins register_plugin init set unregister register
    update_health
speaks = refl

run-init-honest_example :
    (is_initialized (get "speech" (run init calls).statuses) ≡ true)
    × (declares (get "speech" (run init calls).plugins) "speak" ≡ true)
run-init-honest_example = run-init-honest calls "speak" "speech" speaks

run-init-shutdown_example :
    provides (shutdown_plugins 9 (run init calls)).capabilities "speak" "speech" ≡ false
run-init-shutdown_example = run-init-shutdown calls 9 "speak" "speech"

abbrev registry : CapabilityRegistry
registry = (run init calls).capabilities

abbrev ranked : String → ℤ → PluginRegistration
ranked id rank = record {
  plugin_id = id;
  declared = "chat" ∷ [];
  capability_registrations =
      (record { capability = "chat"; policy = CapabilityPolicy.priority; rank = rank }) ∷ [];
  commands = "chat" ∷ [];
  queries = [];
  activity_providers = [];
  dependencies = [];
  enabled = true;
}

abbrev registrations : List Policies.Call
registrations =
    Policies.registers (ranked "p1" (pos 1)) ∷ Policies.registers (ranked "p2" (pos 2)) ∷ []

run-Agree_example :
    Policies.Agree (providers_for (Policies.run empty_registry registrations).capabilities "chat")
run-Agree_example = Policies.run-Agree registrations "chat" (refl, (refl, tt))
