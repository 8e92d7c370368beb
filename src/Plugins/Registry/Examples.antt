-- ===== src/Plugins/Registry/Examples.antt =====
-- Two plugins of which one depends on the other.
use ai_liver_yura.Common.{
  ℕ, String, ◌≡◌, refl, Bool, true, not, Option, none, some, List, [], ◌∷◌, string_eq, nat_eq,
  pair_eq, option_eq, bool_eq, list_eq, nat_beq, inl, ok,
}
use ai_liver_yura.Common.Dict.{get, values}
use ai_liver_yura.Common.Int.{pos}
use ai_liver_yura.Common.Order.{IsOrder, sort, insert}
use ai_liver_yura.Plugins.Registry.{
  CapabilityPolicy, Provider, PluginRegistration, PluginRegistry, providers_for,
}
use ai_liver_yura.Plugins.Registry.Providers.{
  select_provider, eligible, resolve, has_handler, IsBest, select_provider-IsBest,
  resolve-has_handler,
}
use ai_liver_yura.Plugins.Registry.Starting.{
  StartError, start_failed, list_enabled, find_plugin, remove_one, visit, start_order, Running,
  stop_each, stop_all, start_each, first_missing, start_all,
}
use ai_liver_yura.Plugins.Registry.Starting.Order.{Ordered, start_order-Ordered}
use ai_liver_yura.Plugins.Registry.Starting.Rollback.{start_all-rolls_back}

abbrev plugin : String → List String → PluginRegistration
plugin id dependencies = record {
  plugin_id = id;
  declared = [];
  capability_registrations = [];
  commands = [];
  queries = [];
  activity_providers = [];
  dependencies = dependencies;
  enabled = true;
}

abbrev registry : PluginRegistry
registry = record {
  registrations = ("avatar", plugin "avatar" ("voice" ∷ [])) ∷ ("voice", plugin "voice" []) ∷ [];
  capabilities = [];
  started = [];
}

abbrev first_of : List String → Option String
first_of [] = none
first_of (x ∷ xs) = some x

-- The second start fails.
abbrev succeeds : ℕ → Bool
succeeds n = not (nat_beq n 1)

abbrev before : Running
before = record { registry = registry; calls = [] }

abbrev failed_start : Option StartError × Running
failed_start = start_all first_of succeeds before

start_fails : failed_start ≡ (some (start_failed "avatar"), failed_start.1)
unfolding start_all start_order visit list_enabled find_plugin remove_one start_each first_missing
    stop_all stop_each get values
start_fails = refl

start_order-Ordered_example : Ordered registry (start_order first_of registry)
start_order-Ordered_example = start_order-Ordered first_of registry

start_all-rolls_back_example : failed_start.1.registry.started ≡ []
unfolding list_enabled get values
start_all-rolls_back_example =
    start_all-rolls_back first_of succeeds before failed_start.1 (start_failed "avatar") tt
      (refl, (refl, tt)) start_fails refl

abbrev talker : String → ℕ → Provider
talker id rank =
    (id, record { capability = "chat"; policy = CapabilityPolicy.priority; rank = pos rank })

abbrev talks : String → PluginRegistration
talks id = record (plugin id []) { commands = "chat" ∷ [] }

abbrev talkers : PluginRegistry
talkers = record {
  registrations = ("p1", talks "p1") ∷ ("p2", talks "p2") ∷ [];
  capabilities = ("chat", talker "p1" 1 ∷ talker "p2" 2 ∷ []) ∷ [];
  started = [];
}

-- A total order, as texts have one.
abbrev any_text : String → String → Bool
any_text a b = true

any_text-IsOrder : IsOrder any_text
any_text-IsOrder = record { total = λ a b. inl refl; trans = λ a b c h k. refl }

selected : select_provider any_text "chat" (talker "p1" 1 ∷ talker "p2" 2 ∷ []) none ≡ ok "p2"
unfolding select_provider sort insert
selected = refl

select_provider-IsBest_example :
    IsBest any_text any_text-IsOrder (talker "p1" 1 ∷ talker "p2" 2 ∷ []) "p2"
select_provider-IsBest_example =
    select_provider-IsBest any_text any_text-IsOrder "chat" "p2"
      (talker "p1" 1 ∷ talker "p2" 2 ∷ []) selected

resolved : resolve any_text talkers (λ p. p.commands) "chat" none ≡ ok "p2"
unfolding resolve eligible select_provider sort insert get providers_for
resolved = refl

resolve-has_handler_example :
    has_handler any_text (λ p. p.commands) "chat" (get "p2" talkers.registrations) ≡ true
resolve-has_handler_example =
    resolve-has_handler any_text talkers (λ p. p.commands) "chat" "p2" none resolved
