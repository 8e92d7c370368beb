-- ===== src/Plugins/Registry/Starting/Rollback.antt =====
-- What a start that fails leaves behind, in app/core/application/plugins/registry.py.
use ai_liver_yura.Common.{
  ℕ, suc, ◌+◌, ◌-◌, String, ◌≡◌, refl, sym, ◌∙◌, subst, inl, inr, Bool, true, false, Option, none,
  some, List, [], ◌∷◌, ◌++◌, map, arith, if◌then◌else◌, Bool-cases, ◌==◌, string_eq, nat_eq,
  pair_eq, option_eq, bool_eq, list_eq, beq_refl, Result, ok, err, length, All, All-append, All-map,
  contains,
}
use ai_liver_yura.Common.Dict.{get}
use ai_liver_yura.Plugins.Registry.{PluginRegistration, PluginRegistry}
use ai_liver_yura.Plugins.Registry.Starting.{
  StartError, list_enabled, find_plugin, remove_one, start_order, Running, starts, stops,
  is_registered, set_started, stop_each, reversed, stop_all, after_stop, start_each, first_missing,
  missing_of, or_next, unless_missing, in_order, start_all,
}
use ai_liver_yura.Plugins.Registry.Starting.Order.{Ordered, is_dependency, start_order-Ordered}

count : String → List String → ℕ
count y [] = 0
count y (x ∷ xs) = if x == y then suc (count y xs) else count y xs

count-remove_one :
    (x y : String) (xs : List String)
    → count y (remove_one x xs) ≡ (if x == y then count y xs - 1 else count y xs)
unfolding count remove_one
count-remove_one x y [] = ground arith
count-remove_one x y (z ∷ zs) = ground (
  arith,
  count-remove_one x y zs,
  string_eq.beq_iff z x,
  string_eq.beq_iff x y,
  string_eq.beq_iff z y,
)

count-append : (y : String) (xs ys : List String) → count y (xs ++ ys) ≡ count y xs + count y ys
unfolding count
count-append y [] ys = omega arith
count-append y (x ∷ xs) ys = ground (arith, count-append y xs ys)

count-zero : (xs : List String) → ((y : String) → count y xs ≡ 0) → xs ≡ []
unfolding count
count-zero [] h = refl
count-zero (x ∷ xs) h = let one = h x in absurd (ground (arith, beq_refl x))

module _ (pick : List String → Option String) (succeeds : ℕ → Bool) where
  count-reversed :
      (y : String) (xs : List String) → count y (reversed pick succeeds xs) ≡ count y xs
  unfolding count
  count-reversed y [] = refl
  count-reversed y (x ∷ xs) =
      count-append y (reversed pick succeeds xs) (x ∷ []) ∙ ground (arith, count-reversed y xs)

  All-reversed :
      (P : String → Type 0) (xs : List String) → All P xs → All P (reversed pick succeeds xs)
  All-reversed P [] h = tt
  All-reversed P (x ∷ xs) h =
      All-append P (reversed pick succeeds xs) (x ∷ []) (All-reversed P xs h.1) (h.0, tt)

  abbrev pub IsKnown : PluginRegistry → String → Type 0
  IsKnown r id = is_registered (get id r.registrations) ≡ true

  stop_each-empty :
      (ids : List String) (failure : Option StartError) (w : Running)
      → ((y : String) → count y ids ≡ count y w.registry.started)
      → All (IsKnown w.registry) ids
      → (stop_each pick succeeds failure ids w).1.registry.started ≡ []
  unfolding stop_each count
  stop_each-empty [] failure w h k = count-zero w.registry.started (λ y. sym (h y))
  stop_each-empty (id ∷ ids) failure w h k = rw k.0 (
      stop_each-empty ids _
        (set_started pick succeeds w (remove_one id w.registry.started) (stops id))
        (λ y. sym (count-remove_one id y w.registry.started ∙ ground (arith, h y))) k.1)

  stop_all-empty :
      (w : Running)
      → All (IsKnown w.registry) w.registry.started
      → (stop_all pick succeeds w).1.registry.started ≡ []
  unfolding stop_all
  stop_all-empty w k =
      stop_each-empty (reversed pick succeeds w.registry.started) none w
        (λ y. count-reversed y w.registry.started) (All-reversed _ w.registry.started k)

  -- What `start_each` leaves: after an error nothing is started.
  RolledBack : Option StartError × Running → Type 0
  RolledBack (none, w) = Unit
  RolledBack (some e, w) = w.registry.started ≡ []

  after_stop-RolledBack :
      (id : String) (x : Option StartError × Running)
      → x.1.registry.started ≡ []
      → RolledBack (after_stop pick succeeds id x)
  unfolding RolledBack
  after_stop-RolledBack id (none, w) h = h
  after_stop-RolledBack id (some e, w) h = h

  start_each-RolledBack :
      (order : List PluginRegistration) (w : Running)
      → All (IsKnown w.registry) w.registry.started
      → All (λ p. IsKnown w.registry p.plugin_id) order
      → RolledBack (start_each pick succeeds order w)
  unfolding start_each RolledBack
  start_each-RolledBack [] w k o = tt
  start_each-RolledBack (p ∷ ps) w k o =
      elim (Bool-cases (contains w.registry.started p.plugin_id)) [
        | inl y ↦ rw y (start_each-RolledBack ps w k o.1)
        | inr n ↦ elim (Bool-cases (succeeds (length w.calls))) [
          | inl y ↦
              rw (n, y)
                (start_each-RolledBack ps
                  (set_started pick succeeds w (w.registry.started ++ p.plugin_id ∷ [])
                    (starts p.plugin_id))
                  (All-append _ w.registry.started (p.plugin_id ∷ []) k (o.0, tt)) o.1)
          | inr fails ↦
              rw (n, fails)
                (after_stop-RolledBack p.plugin_id
                  (stop_all pick succeeds (record w { calls = w.calls ++ starts p.plugin_id ∷ [] }))
                  (stop_all-empty (record w { calls = w.calls ++ starts p.plugin_id ∷ [] }) k))
        ]
      ]

  find_plugin-All :
      (P : PluginRegistration → Type 0) (ps : List PluginRegistration) (id : String)
      (p : PluginRegistration)
      → All P ps
      → find_plugin id ps ≡ some p
      → P p
  unfolding find_plugin
  find_plugin-All P [] id p a h = absurd (ground arith)
  find_plugin-All P (q ∷ qs) id p a h = elim (Bool-cases (q.plugin_id == id)) [
    | inl y ↦ subst P (ground arith) a.0
    | inr n ↦ find_plugin-All P qs id p a.1 (ground arith)
  ]

  OnlyDependency : Option StartError → Type 0
  OnlyDependency none = Unit
  OnlyDependency (some e) = is_dependency e ≡ true

  or_next-OnlyDependency :
      (id : String) (d : Option String) (rest : Option StartError)
      → OnlyDependency rest
      → OnlyDependency (or_next pick succeeds id d rest)
  unfolding OnlyDependency
  or_next-OnlyDependency id none rest h = h
  or_next-OnlyDependency id (some d) rest h = refl

  first_missing-OnlyDependency :
      (enabled : List String) (order : List PluginRegistration)
      → OnlyDependency (first_missing pick succeeds enabled order)
  unfolding first_missing OnlyDependency
  first_missing-OnlyDependency enabled [] = tt
  first_missing-OnlyDependency enabled (p ∷ ps) =
      or_next-OnlyDependency p.plugin_id (missing_of pick succeeds enabled p.dependencies) _
        (first_missing-OnlyDependency enabled ps)

  in_order-RolledBack :
      (r : Result StartError (List PluginRegistration)) (w w' : Running) (e : StartError)
      → Ordered w.registry r
      → All (IsKnown w.registry) w.registry.started
      → All (λ p. IsKnown w.registry p.plugin_id) (list_enabled w.registry)
      → in_order pick succeeds r w ≡ (some e, w')
      → is_dependency e ≡ false
      → w'.registry.started ≡ []
  unfolding Ordered RolledBack OnlyDependency
  in_order-RolledBack (err e) w w' e' o k a h d = absurd (ground arith)
  in_order-RolledBack (ok order) w w' e' o k a h d =
      missing (first_missing pick succeeds (map (λ p. p.plugin_id) (list_enabled w.registry)) order)
        (first_missing-OnlyDependency (map (λ p. p.plugin_id) (list_enabled w.registry)) order) h
    where
      missing :
          (m : Option StartError)
          → OnlyDependency m
          → unless_missing pick succeeds m order w ≡ (some e', w')
          → w'.registry.started ≡ []
      missing none n g = subst RolledBack g (
          start_each-RolledBack order w k (
            All-map _ _ order (λ p f. find_plugin-All _ (list_enabled w.registry) p.plugin_id p a f)
              o.known))
      missing (some f) n g = absurd (ground arith)

  -- Where the plugins that are started and those that are enabled are registered under their
  -- identifiers, a start that fails with an error other than one over a dependency, that is, in the
  -- code of a plugin, leaves no plugin started.
  pub start_all-rolls_back :
      (w w' : Running) (e : StartError)
      → All (IsKnown w.registry) w.registry.started
      → All (λ p. IsKnown w.registry p.plugin_id) (list_enabled w.registry)
      → start_all pick succeeds w ≡ (some e, w')
      → is_dependency e ≡ false
      → w'.registry.started ≡ []
  unfolding start_all
  start_all-rolls_back w w' e k a h d =
      in_order-RolledBack (start_order pick w.registry) w w' e (start_order-Ordered pick w.registry)
        k a h d
