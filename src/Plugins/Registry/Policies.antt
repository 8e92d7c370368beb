-- ===== src/Plugins/Registry/Policies.antt =====
-- The policies of the capabilities over any registrations.
use ai_liver_yura.Common.{
  String, ◌≡◌, refl, ◌∙◌, inl, inr, Bool, true, false, not, ◌&&◌, ◌||◌, none, List, [], ◌∷◌, ◌++◌,
  arith, if◌then◌else◌, Bool-cases, ◌==◌, string_eq, nat_eq, pair_eq, option_eq, bool_eq, list_eq,
  Result, ok, err, Result-cases, All, All-append, All-keep,
}
use ai_liver_yura.Common.Dict.{Dict, get, set, get-set}
use ai_liver_yura.Plugins.Registry.{
  is_single, same_policy, CapabilityRegistration, PluginRegistration, Provider, PluginRegistry,
  RegistryError, empty_registry, providers_for, conflicts, first_conflict, add_each, register,
  others, keep_entry, remove_from, unregister,
}

-- `q` may stand beside `p`.
abbrev pub beside : Provider → Provider → Bool
beside p q = same_policy q.1.policy p.1.policy && not (is_single q.1.policy)

-- A capability with several providers has one policy, which is not `single`.
abbrev pub Agree : List Provider → Type 0
Agree [] = Unit
Agree (p ∷ ps) = All (λ q. beside p q ≡ true) ps × Agree ps

All-beside :
    (p q : Provider) (ps : List Provider)
    → same_policy p.1.policy q.1.policy ≡ true
    → All (λ x. beside q x ≡ true) ps
    → All (λ x. beside p x ≡ true) ps
All-beside p q [] h a = tt
All-beside p q (x ∷ ps) h a = (ground arith, All-beside p q ps h a.1)

Agree-others : (id : String) (ps : List Provider) → Agree ps → Agree (others id ps)
Agree-others id [] a = tt
Agree-others id (p ∷ ps) a = elim (Bool-cases (p.0 == id)) [
  | inl y ↦ rw y (Agree-others id ps a.1)
  | inr n ↦ rw n (All-keep _ _ ps a.0, Agree-others id ps a.1)
]

no_conflict-beside :
    (item : Provider) (p : Provider) (ps : List Provider)
    → conflicts item.1 (p ∷ ps) ≡ false
    → All (λ q. beside q item ≡ true) (p ∷ ps)
unfolding conflicts
no_conflict-beside item p [] h = (ground arith, tt)
no_conflict-beside item p (q ∷ ps) h = (ground arith, no_conflict-beside item q ps (ground arith))

Agree-snoc :
    (ps : List Provider) (item : Provider)
    → All (λ q. beside q item ≡ true) ps
    → Agree ps
    → Agree (ps ++ item ∷ [])
Agree-snoc [] item h a = (tt, tt)
Agree-snoc (p ∷ ps) item h a =
    (All-append _ ps (item ∷ []) a.0 (h.0, tt), Agree-snoc ps item h.1 a.1)

Agree-add :
    (ps : List Provider) (item : Provider)
    → conflicts item.1 ps ≡ false
    → Agree ps
    → Agree (ps ++ item ∷ [])
Agree-add [] item h a = (tt, tt)
Agree-add (p ∷ ps) item h a = Agree-snoc (p ∷ ps) item (no_conflict-beside item p ps h) a

-- A registration that names no capability twice.
abbrev pub mentions : String → List CapabilityRegistration → Bool
mentions c [] = false
mentions c (i ∷ is) = i.capability == c || mentions c is

abbrev pub distinct : List CapabilityRegistration → Bool
distinct [] = true
distinct (i ∷ is) = not (mentions i.capability is) && distinct is

abbrev pub AllAgree : Dict String (List Provider) → Type 0
AllAgree d = All (λ e. Agree e.1) d

providers_for-AllAgree :
    (d : Dict String (List Provider)) (c : String) → AllAgree d → Agree (providers_for d c)
unfolding providers_for get
providers_for-AllAgree [] c a = tt
providers_for-AllAgree ((k, ps) ∷ d) c a = elim (Bool-cases (k == c)) [
  | inl y ↦ rw y a.0
  | inr n ↦ rw n (providers_for-AllAgree d c a.1)
]

set-AllAgree :
    (d : Dict String (List Provider)) (c : String) (ps : List Provider)
    → Agree ps
    → AllAgree d
    → AllAgree (set c ps d)
unfolding set
set-AllAgree [] c ps h a = (h, tt)
set-AllAgree ((k, qs) ∷ d) c ps h a = elim (Bool-cases (k == c)) [
  | inl y ↦ rw y (h, a.1)
  | inr n ↦ rw n (a.0, set-AllAgree d c ps h a.1)
]

first_conflict-set :
    (d : Dict String (List Provider)) (c : String) (ps : List Provider)
    (is : List CapabilityRegistration)
    → mentions c is ≡ false
    → first_conflict (set c ps d) is ≡ first_conflict d is
unfolding first_conflict providers_for
first_conflict-set d c ps [] h = refl
first_conflict-set d c ps (i ∷ is) h =
    let rest = first_conflict-set d c ps is (ground arith) in
    let same : get i.capability (set c ps d) ≡ get i.capability d =
      get-set c i.capability ps d
      ∙ ground (arith, string_eq.beq_iff c i.capability, string_eq.beq_iff i.capability c) in
    rw (same, rest) refl

add_each-AllAgree :
    (id : String) (is : List CapabilityRegistration) (d : Dict String (List Provider))
    → first_conflict d is ≡ none
    → distinct is ≡ true
    → AllAgree d
    → AllAgree (add_each id d is)
unfolding add_each first_conflict
add_each-AllAgree id [] d f u a = a
add_each-AllAgree id (i ∷ is) d f u a =
    let current = providers_for d i.capability in
    let grown = current ++ (id, i) ∷ [] in
    let fresh = first_conflict-set d i.capability grown is (ground arith) in
    let agree =
      Agree-add current (id, i) (ground arith) (providers_for-AllAgree d i.capability a) in
    add_each-AllAgree id is (set i.capability grown d) (fresh ∙ ground arith) (ground arith)
      (set-AllAgree d i.capability grown agree a)

keep_entry-AllAgree :
    (c : String) (ps : List Provider) (d : Dict String (List Provider))
    → Agree ps
    → AllAgree d
    → AllAgree (keep_entry c ps d)
keep_entry-AllAgree c [] d h a = a
keep_entry-AllAgree c (p ∷ ps) d h a = (h, a)

remove_from-AllAgree :
    (id : String) (d : Dict String (List Provider)) → AllAgree d → AllAgree (remove_from id d)
unfolding remove_from
remove_from-AllAgree id [] a = tt
remove_from-AllAgree id ((c, ps) ∷ d) a =
    keep_entry-AllAgree c (others id ps) (remove_from id d) (Agree-others id ps a.0)
      (remove_from-AllAgree id d a.1)

pub data Call : Type 0 where
  registers : PluginRegistration → Call
  unregisters : String → Call

abbrev pub names_once : Call → Bool
names_once (registers p) = distinct p.capability_registrations
names_once (unregisters id) = true

abbrev pub after : PluginRegistry → Result RegistryError PluginRegistry → PluginRegistry
after r (ok r') = r'
after r (err e) = r

unfoldable pub step : PluginRegistry → Call → PluginRegistry
unfolding register unregister
step r (registers p) = after r (register r p)
step r (unregisters id) = after r (unregister r id)

unfoldable pub run : PluginRegistry → List Call → PluginRegistry
unfolding step
run r [] = r
run r (c ∷ cs) = run (step r c) cs

registered_lem :
    (r r' : PluginRegistry) (p : PluginRegistration)
    → register r p ≡ ok r'
    → (first_conflict r.capabilities p.capability_registrations ≡ none)
      × (r'.capabilities ≡ (
          if p.enabled
          then add_each p.plugin_id r.capabilities p.capability_registrations
          else r.capabilities))
unfolding register
registered_lem r r' p h = ground arith

unregistered_lem :
    (r r' : PluginRegistry) (id : String)
    → unregister r id ≡ ok r'
    → r'.capabilities ≡ remove_from id r.capabilities
unfolding unregister
unregistered_lem r r' id h = ground arith

step-AllAgree :
    (r : PluginRegistry) (c : Call)
    → names_once c ≡ true
    → AllAgree r.capabilities
    → AllAgree (step r c).capabilities
unfolding step
step-AllAgree r (registers p) u a = elim (Result-cases (register r p)) [
  | inr (e, failed) ↦ rw failed a
  | inl (r', made) ↦
      let (free, is) = registered_lem r r' p made in
      rw made (
        rw is (elim (Bool-cases p.enabled) [
          | inl on ↦
              rw on
                (add_each-AllAgree p.plugin_id p.capability_registrations r.capabilities free u a)
          | inr off ↦ rw off a
        ]))
]
step-AllAgree r (unregisters id) u a = elim (Result-cases (unregister r id)) [
  | inr (e, failed) ↦ rw failed a
  | inl (r', made) ↦
      rw made (rw (unregistered_lem r r' id made) (remove_from-AllAgree id r.capabilities a))
]

run-AllAgree :
    (r : PluginRegistry) (cs : List Call)
    → All (λ c. names_once c ≡ true) cs
    → AllAgree r.capabilities
    → AllAgree (run r cs).capabilities
unfolding run
run-AllAgree r [] u a = a
run-AllAgree r (c ∷ cs) u a = run-AllAgree (step r c) cs u.1 (step-AllAgree r c u.0 a)

-- After any registrations and removals on an empty registry, where no registration names a
-- capability twice, the providers of every capability agree: all have the policy of the first, and
-- there is more than one only if that policy is not `single`.
pub run-Agree :
    (cs : List Call) (c : String)
    → All (λ call. names_once call ≡ true) cs
    → Agree (providers_for (run empty_registry cs).capabilities c)
run-Agree cs c u =
    providers_for-AllAgree (run empty_registry cs).capabilities c
      (run-AllAgree empty_registry cs u tt)
