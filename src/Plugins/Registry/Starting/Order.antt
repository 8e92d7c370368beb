-- ===== src/Plugins/Registry/Starting/Order.antt =====
-- The order in which app/core/application/plugins/registry.py starts the plugins.
use ai_liver_yura.Common.{
  ℕ, zero, suc, ◌≤◌, ◌<◌, String, ◌≡◌, refl, sym, ap, ◌∙◌, subst, inl, inr, Bool, true, false, ◌||◌,
  Option, some, List, [], ◌∷◌, ◌++◌, map, arith, if◌then◌else◌, Bool-cases, Option-cases, ◌==◌,
  string_eq, nat_eq, pair_eq, option_eq, bool_eq, list_eq, Result, ok, err, ◌>>=◌, length, All,
  All-append, All-map, contains,
}
use ai_liver_yura.Plugins.Registry.{PluginRegistration, PluginRegistry}
use ai_liver_yura.Plugins.Registry.Starting.{
  StartError, dependency_missing, Visit, list_enabled, find_plugin, remove_one, visit_each, leave,
  visit, new_visit, start_order,
}

abbrev ids : List PluginRegistration → List String
ids ps = map (λ p. p.plugin_id) ps

-- Every plugin comes after all that it depends on; the plugins in `seen` came before the list.
pub DependenciesFirst : List String → List PluginRegistration → Type 0
DependenciesFirst seen [] = Unit
DependenciesFirst seen (p ∷ ps) =
    All (λ d. contains seen d ≡ true) p.dependencies × DependenciesFirst (p.plugin_id ∷ seen) ps

DependenciesFirst-snoc :
    (seen : List String) (ps : List PluginRegistration) (p : PluginRegistration)
    → DependenciesFirst seen ps
    → All (λ d. (contains seen d || contains (ids ps) d) ≡ true) p.dependencies
    → DependenciesFirst seen (ps ++ p ∷ [])
unfolding DependenciesFirst
DependenciesFirst-snoc seen [] p h a = (All-map _ _ p.dependencies (λ d k. ground arith) a, tt)
DependenciesFirst-snoc seen (q ∷ qs) p h a = (
  h.0,
  DependenciesFirst-snoc (q.plugin_id ∷ seen) qs p h.1
      (All-map _ _ p.dependencies (λ d k. ground arith) a),
)

contains-ids_snoc :
    (ps : List PluginRegistration) (p : PluginRegistration) (id : String)
    → contains (ids (ps ++ p ∷ [])) id ≡ (p.plugin_id == id || contains (ids ps) id)
contains-ids_snoc [] p id = refl
contains-ids_snoc (q ∷ qs) p id = ground (arith, contains-ids_snoc qs p id)

find_plugin-some :
    (id : String) (ps : List PluginRegistration) (p : PluginRegistration)
    → find_plugin id ps ≡ some p
    → (p.plugin_id ≡ id) × (contains (ids ps) id ≡ true)
unfolding find_plugin
find_plugin-some id [] p h = absurd (ground arith)
find_plugin-some id (q ∷ qs) p h =
    ground (arith, find_plugin-some id qs p, string_eq.beq_iff q.plugin_id id)

-- `PluginDependencyMissing`
abbrev pub is_dependency : StartError → Bool
is_dependency (dependency_missing plugin dependency) = true
is_dependency _ = false

-- How many plugins are not being visited: the depth to which the visit can still go.
free : List String → List PluginRegistration → ℕ
free visiting [] = 0
free visiting (p ∷ ps) =
    if contains visiting p.plugin_id then free visiting ps else suc (free visiting ps)

free-cons_weak :
    (id : String) (visiting : List String) (ps : List PluginRegistration)
    → free (id ∷ visiting) ps ≤ free visiting ps
unfolding free
free-cons_weak id visiting [] = omega arith
free-cons_weak id visiting (p ∷ ps) = ground (arith, free-cons_weak id visiting ps)

free-cons :
    (id : String) (visiting : List String) (ps : List PluginRegistration)
    → contains (ids ps) id ≡ true
    → contains visiting id ≡ false
    → free (id ∷ visiting) ps < free visiting ps
unfolding free
free-cons id visiting [] h k = absurd (ground arith)
free-cons id visiting (p ∷ ps) h k = ground (
  arith,
  free-cons id visiting ps,
  free-cons_weak id visiting ps,
  string_eq.beq_iff p.plugin_id id,
  string_eq.beq_iff id p.plugin_id,
)

free-none : (ps : List PluginRegistration) → free [] ps ≤ length ps
unfolding free
free-none [] = omega arith
free-none (p ∷ ps) = omega (arith, free-none ps)

module _ (pick : List String → Option String) (enabled : List PluginRegistration) where
  -- The plugins visited so far are those in the order, each enabled and after its dependencies.
  record IsVisit (v : Visit) : Type 0 where
    first : DependenciesFirst [] v.ordered
    same : (id : String) → contains v.visited id ≡ contains (ids v.ordered) id
    known : All (λ p. find_plugin p.plugin_id enabled ≡ some p) v.ordered

  record Step (v w : Visit) : Type 0 where
    visiting : w.visiting ≡ v.visiting
    grows : (id : String) → contains v.visited id ≡ true → contains w.visited id ≡ true
    keeps : IsVisit v → IsVisit w

  Step-refl : (v : Visit) → Step v v
  Step-refl v = record { visiting = refl; grows = λ id h. h; keeps = λ h. h }

  Step-trans : (u v w : Visit) → Step u v → Step v w → Step u w
  Step-trans u v w s t = record {
    visiting = t.visiting ∙ s.visiting;
    grows = λ id h. t.grows id (s.grows id h);
    keeps = λ h. t.keeps (s.keeps h);
  }

  -- What a call of `visit` or of its loop returns: an error over a dependency, or a state with the
  -- plugins visited.
  Visited : (v : Visit) (deps : List String) → Result StartError Visit → Type 0
  Visited v deps (err e) = is_dependency e ≡ true
  Visited v deps (ok w) = Step v w × All (λ d. contains w.visited d ≡ true) deps

  Visited-bind :
      (n : ℕ) (v : Visit) (id : String) (deps : List String) (r : Result StartError Visit)
      (rest : Visit → Result StartError Visit)
      → free v.visiting enabled < n
      → Visited v (id ∷ []) r
      → ((w : Visit) → free w.visiting enabled < n → Visited w deps (rest w))
      → Visited v (id ∷ deps) (r >>= rest)
  unfolding Visited
  Visited-bind n v id deps (err e) rest f h k = h
  Visited-bind n v id deps (ok w) rest f h k =
      go (rest w) (k w (subst (λ z. free z enabled < n) (sym h.0.visiting) f))
    where
      go : (r : Result StartError Visit) → Visited w deps r → Visited v (id ∷ deps) r
      go (err e) f' = f'
      go (ok x) f' = (Step-trans v w x h.0 f'.0, (f'.0.grows id h.1.0, f'.1))

  visit_each-Visited :
      (n : ℕ) (f : String → Visit → Result StartError Visit)
      → ((id : String) (v : Visit) → free v.visiting enabled < n → Visited v (id ∷ []) (f id v))
      → (deps : List String) (v : Visit) → free v.visiting enabled < n
      → Visited v deps (visit_each pick enabled f deps v)
  unfolding Visited
  visit_each-Visited n f h [] v l = (Step-refl v, tt)
  visit_each-Visited n f h (d ∷ ds) v l =
      Visited-bind n v d ds (f d v) (visit_each pick enabled f ds) l (h d v l)
        (visit_each-Visited n f h ds)

  leave-Visited :
      (p : PluginRegistration) (id : String) (v : Visit) (r : Result StartError Visit)
      → p.plugin_id ≡ id
      → find_plugin id enabled ≡ some p
      → Visited (record v { visiting = id ∷ v.visiting }) p.dependencies r
      → Visited v (id ∷ []) (r >>= λ w. ok (leave pick enabled p w))
  unfolding Visited remove_one
  leave-Visited p id v (err e) same found h = h
  leave-Visited p id v (ok w) same found h = (
    record {
      visiting =
          ap (remove_one p.plugin_id) h.0.visiting
          ∙ ground (arith, string_eq.beq_iff id p.plugin_id, same);
      grows = λ k g. ground (arith, h.0.grows k g);
      keeps = λ i.
          let j = h.0.keeps (record { first = i.first; same = i.same; known = i.known }) in
          record {
            first =
                DependenciesFirst-snoc [] w.ordered p j.first
                  (All-map _ _ p.dependencies (λ d k. sym (j.same d) ∙ k) h.1);
            same = λ k. ground (arith, j.same k, contains-ids_snoc w.ordered p k);
            known =
                All-append _ w.ordered (p ∷ []) j.known
                  (ap (λ z. find_plugin z enabled) same ∙ found, tt);
          };
    },
    (ground (arith, string_eq.beq_iff p.plugin_id id, same), tt),
  )

  visit-Visited :
      (n : ℕ) (id : String) (v : Visit)
      → free v.visiting enabled < n
      → Visited v (id ∷ []) (visit pick enabled n id v)
  unfolding visit Visited
  visit-Visited zero id v l = absurd (omega (arith, l))
  visit-Visited (suc n) id v l = elim (Bool-cases (contains v.visited id)) [
    | inl y ↦ rw y (Step-refl v, (y, tt))
    | inr not_visited ↦ elim (Bool-cases (contains v.visiting id)) [
      | inl y ↦ rw (not_visited, y) refl
      | inr not_visiting ↦
          rw (not_visited, not_visiting)
            (elim (Option-cases (find_plugin id enabled)) [
              | inl none_there ↦ rw none_there refl
              | inr (p, there) ↦
                  let (same, member) = find_plugin-some id enabled p there in
                  rw there (
                    leave-Visited p id v _ same there (
                      visit_each-Visited n (visit pick enabled n) (visit-Visited n) p.dependencies
                        (record v { visiting = id ∷ v.visiting })
                        (omega (arith, l, free-cons id v.visiting enabled member not_visiting))))
            ])
    ]
  ]

-- Every enabled plugin has its place, after all that it depends on, and only enabled ones have.
pub record IsStartOrder (r : PluginRegistry) (order : List PluginRegistration) : Type 0 where
  pub first : DependenciesFirst [] order
  pub complete : All (λ id. contains (ids order) id ≡ true) (ids (list_enabled r))
  pub known : All (λ p. find_plugin p.plugin_id (list_enabled r) ≡ some p) order

unfoldable pub Ordered : PluginRegistry → Result StartError (List PluginRegistration) → Type 0
Ordered r (ok order) = IsStartOrder r order
Ordered r (err e) = is_dependency e ≡ true

Ordered-Visited :
    (pick : List String → Option String) (r : PluginRegistry) (result : Result StartError Visit)
    → Visited pick (list_enabled r) new_visit (ids (list_enabled r)) result
    → Ordered r (result >>= λ v. ok v.ordered)
unfolding Visited Ordered DependenciesFirst
Ordered-Visited pick r (err e) h = h
Ordered-Visited pick r (ok v) h =
    let kept = h.0.keeps (record { first = tt; same = λ id. refl; known = tt }) in
    record {
      first = kept.first;
      complete = All-map _ _ (ids (list_enabled r)) (λ id k. sym (kept.same id) ∙ k) h.1;
      known = kept.known;
    }

-- The search for the order of the start always ends: with an order in which every enabled plugin
-- stands after all that it depends on, and nothing but enabled plugins stands, or with the
-- error that a dependency is missing or that there is a cycle.
pub start_order-Ordered :
    (pick : List String → Option String) (r : PluginRegistry) → Ordered r (start_order pick r)
unfolding start_order Visited DependenciesFirst
start_order-Ordered pick r =
    let enabled = list_enabled r in
    let fuel = suc (length enabled) in
    Ordered-Visited pick r
      (visit_each pick enabled (visit pick enabled fuel) (ids enabled) new_visit)
      (visit_each-Visited pick enabled fuel (visit pick enabled fuel)
        (visit-Visited pick enabled fuel) (ids enabled) new_visit
        (omega (arith, free-none enabled)))
