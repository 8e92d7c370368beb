-- ===== src/Plugins/Registry/Starting.antt =====
-- `start_all` and `stop_all` of app/core/application/plugins/registry.py: the plugins are started
-- after what they depend on. `pick` is the arbitrary member that Python takes out of a set.
pub mod Order
pub mod Rollback
use ai_liver_yura.Common.{
  ℕ, zero, suc, ◌+◌, ◌-◌, ◌*◌, ◌≤◌, ◌<◌, String, ◌≡◌, refl, sym, ap, ◌∙◌, subst, ◌≢◌, ◌↔◌, ◌⊎◌, inl,
  inr, Bool, true, false, not, ◌&&◌, ◌||◌, Option, none, some, List, [], ◌∷◌, ◌++◌, map, arith, ltb,
  leb, if◌then◌else◌, Bool-cases, Option-cases, Eq, ◌==◌, string_eq, nat_eq, pair_eq, option_eq,
  bool_eq, list_eq, beq_refl, Result, ok, err, ◌>>=◌, ◌>>◌, guard, Result-cases, length,
  length-append, drop, take, keep, any, All, All-append, All-map, All-keep, contains, is_empty,
  or_else, or_none, given, is_some, nat_beq, nat_beq_iff,
}
use ai_liver_yura.Common.Dict.{Dict, get, values}
use ai_liver_yura.Plugins.Registry.{PluginRegistration, PluginRegistry}

pub data StartError : Type 0 where
  dependency_missing : (plugin dependency : String) → StartError
  start_failed stop_failed : String → StartError
  unknown_plugin out_of_fuel : StartError

pub record Visit : Type 0 where
  pub visiting : List String
  pub visited : List String
  pub ordered : List PluginRegistration

-- `list_enabled`
unfoldable pub list_enabled : PluginRegistry → List PluginRegistration
list_enabled r = keep (λ p. p.enabled) (values r.registrations)

-- The dictionary of the enabled plugins by their identifiers.
unfoldable pub find_plugin : String → List PluginRegistration → Option PluginRegistration
find_plugin id [] = none
find_plugin id (p ∷ ps) = if p.plugin_id == id then some p else find_plugin id ps

-- `visiting.remove(plugin_id)`
unfoldable pub remove_one : String → List String → List String
remove_one id [] = []
remove_one id (x ∷ xs) = if x == id then xs else x ∷ remove_one id xs

module _ (pick : List String → Option String) (enabled : List PluginRegistration) where
  abbrev pub visit_each :
      (String → Visit → Result StartError Visit) → List String → Visit → Result StartError Visit
  visit_each visit [] v = ok v
  visit_each visit (id ∷ ids) v = visit id v >>= visit_each visit ids

  abbrev pub leave : PluginRegistration → Visit → Visit
  leave p v = record {
    visiting = remove_one p.plugin_id v.visiting;
    visited = p.plugin_id ∷ v.visited;
    ordered = v.ordered ++ p ∷ [];
  }

  abbrev pub enter :
      (String → Visit → Result StartError Visit)
      → String
      → Option PluginRegistration
      → Visit
      → Result StartError Visit
  enter visit id none v = err (dependency_missing (given (pick v.visiting) id) id)
  enter visit id (some p) v =
      visit_each visit p.dependencies (record v { visiting = id ∷ v.visiting }) >>= λ w.
      ok (leave p w)

  -- The fuel is the depth of the recursion.
  unfoldable pub visit : ℕ → String → Visit → Result StartError Visit
  unfolding find_plugin remove_one
  visit zero id v = err out_of_fuel
  visit (suc n) id v =
      let deeper = enter (visit n) id (find_plugin id enabled) v in
      if contains v.visited id
      then ok v
      else if contains v.visiting id
      then err (dependency_missing id "dependency_cycle")
      else deeper

abbrev pub new_visit : Visit
new_visit = record { visiting = []; visited = []; ordered = [] }

-- The order in which `start_all` goes.
unfoldable pub start_order :
    (List String → Option String) → PluginRegistry → Result StartError (List PluginRegistration)
unfolding visit list_enabled
start_order pick r =
    let enabled = list_enabled r in
    visit_each pick enabled (visit pick enabled (suc (length enabled)))
      (map (λ p. p.plugin_id) enabled) new_visit
    >>= λ v. ok v.ordered

-- A call of a plugin's own code.
pub data LifecycleCall : Type 0 where
  starts stops : String → LifecycleCall

-- A registry, and the calls that its plugins got.
pub record Running : Type 0 where
  pub registry : PluginRegistry
  pub calls : List LifecycleCall

abbrev remember_first : Option StartError → StartError → Option StartError
remember_first none e = some e
remember_first (some f) e = some f

-- Whether `self._registrations[plugin_id]` finds a plugin.
abbrev pub is_registered : Option PluginRegistration → Bool
is_registered none = false
is_registered (some p) = true

-- `succeeds n` tells whether the call with the number `n` of a plugin's code returns.
module _ (pick : List String → Option String) (succeeds : ℕ → Bool) where
  abbrev pub set_started : Running → List String → LifecycleCall → Running
  set_started w started call = record {
    registry = record w.registry { started = started };
    calls = w.calls ++ call ∷ [];
  }

  -- The loop of `stop_all`, with the first failure so far.
  unfoldable pub stop_each : Option StartError → List String → Running → Option StartError × Running
  stop_each failure [] w = (failure, w)
  stop_each failure (id ∷ ids) w =
      let rest =
        stop_each
          (if succeeds (length w.calls) then failure else remember_first failure (stop_failed id))
          ids (set_started w (remove_one id w.registry.started) (stops id)) in
      if is_registered (get id w.registry.registrations) then rest else (some unknown_plugin, w)

  abbrev pub reversed : List String → List String
  reversed [] = []
  reversed (id ∷ ids) = reversed ids ++ id ∷ []

  unfoldable pub stop_all : Running → Option StartError × Running
  unfolding stop_each
  stop_all w = stop_each none (reversed w.registry.started) w

  -- What `start_all` raises once a start has failed and everything is stopped.
  abbrev pub after_stop : String → Option StartError × Running → Option StartError × Running
  after_stop id (none, w) = (some (start_failed id), w)
  after_stop id (some e, w) = (some e, w)

  unfoldable pub start_each : List PluginRegistration → Running → Option StartError × Running
  unfolding stop_all
  start_each [] w = (none, w)
  start_each (p ∷ ps) w =
      let skip = start_each ps w in
      let on =
        start_each ps
          (set_started w (w.registry.started ++ p.plugin_id ∷ []) (starts p.plugin_id)) in
      if contains w.registry.started p.plugin_id
      then skip
      else if succeeds (length w.calls)
      then on
      else after_stop p.plugin_id
          (stop_all (record w { calls = w.calls ++ starts p.plugin_id ∷ [] }))

  abbrev pub missing_of : List String → List String → Option String
  missing_of enabled [] = none
  missing_of enabled (d ∷ ds) = if contains enabled d then missing_of enabled ds else some d

  abbrev pub or_next : String → Option String → Option StartError → Option StartError
  or_next id none rest = rest
  or_next id (some d) rest = some (dependency_missing id d)

  -- The second loop of `start_all`.
  unfoldable pub first_missing : List String → List PluginRegistration → Option StartError
  first_missing enabled [] = none
  first_missing enabled (p ∷ ps) =
      or_next p.plugin_id (missing_of enabled p.dependencies) (first_missing enabled ps)

  abbrev pub unless_missing :
      Option StartError → List PluginRegistration → Running → Option StartError × Running
  unless_missing none order w = start_each order w
  unless_missing (some e) order w = (some e, w)

  abbrev pub in_order :
      Result StartError (List PluginRegistration) → Running → Option StartError × Running
  in_order (err e) w = (some e, w)
  in_order (ok order) w =
      unless_missing (first_missing (map (λ p. p.plugin_id) (list_enabled w.registry)) order) order
        w

  unfoldable pub start_all : Running → Option StartError × Running
  unfolding start_order start_each first_missing
  start_all w = in_order (start_order pick w.registry) w
