-- ===== src/Plugins/Capabilities/Availability.antt =====
-- What registering and unregistering a provider does to the availability of every capability.
use ai_liver_yura.Common.{
  ℕ, String, ◌≡◌, refl, Bool, false, not, ◌&&◌, ◌||◌, Option, none, some, List, [], ◌∷◌, arith,
  if◌then◌else◌, ◌==◌, string_eq, nat_eq, pair_eq, option_eq, bool_eq, list_eq, contains, given,
}
use ai_liver_yura.Common.Dict.{Dict, get, set, delete, has, keys, get-set, get-delete}
use ai_liver_yura.Plugins.Capabilities.{
  Plugin, CapabilityRegistry, update_health, providers_of, register, put_back, unregister_one,
  unregister_each, unregister, is_available, CapabilityAvailability,
}

-- Plugin `p` serves capability `c`.
unfoldable pub provides : CapabilityRegistry → String → String → Bool
unfolding is_available providers_of
provides r c p = is_available r c (some p)

-- Registering a plugin for a capability makes it available there, whether it was or not, and changes
-- no other availability.
pub provides-register :
    (r : CapabilityRegistry) (plugin : Plugin) (c : String) (now : ℕ) (c' p' : String)
    → provides (register r plugin c now) c' p'
      ≡ ((c == c') && (plugin.plugin_id == p') || provides r c' p')
unfolding provides register update_health
provides-register r plugin c now c' p' = ground (
  arith,
  get-set c c' (set plugin.plugin_id plugin (given (get c r.providers) [])) r.providers,
  get-set plugin.plugin_id p' plugin (given (get c r.providers) []),
  string_eq.beq_iff c c',
  string_eq.beq_iff plugin.plugin_id p',
)

get-put_back :
    (c c' : String) (d : Dict String Plugin) (all : Dict String (Dict String Plugin))
    → given (get c' (put_back c d all)) [] ≡ (if c == c' then d else given (get c' all) [])
get-put_back c c' [] all = ground (arith, get-delete c c' all)
get-put_back c c' (p ∷ rest) all = ground (arith, get-set c c' (p ∷ rest) all)

provides-unregister_one :
    (r : CapabilityRegistry) (p c : String) (now : ℕ) (c' p' : String)
    → provides (unregister_one r p c now) c' p' ≡ (not ((c == c') && (p == p')) && provides r c' p')
unfolding provides unregister_one update_health
provides-unregister_one r p c now c' p' =
    let d = given (get c r.providers) [] in
    ground (
      arith,
      get-put_back c c' (delete p d) r.providers,
      get-delete p p' d,
      string_eq.beq_iff c c',
      string_eq.beq_iff p p',
    )

provides-unregister_each :
    (r : CapabilityRegistry) (p : String) (now : ℕ) (cs : List String) (c' p' : String)
    → provides (unregister_each r p now cs) c' p'
      ≡ (not (contains cs c' && (p == p')) && provides r c' p')
unfolding unregister_each
provides-unregister_each r p now [] c' p' = refl
provides-unregister_each r p now (c ∷ cs) c' p' = ground (
  arith,
  provides-unregister_each (unregister_one r p c now) p now cs c' p',
  provides-unregister_one r p c now c' p',
)

keys-get {ℓ} :
    {V : Type ℓ} (c : String) (d : Dict String V) → contains (keys d) c ≡ false → get c d ≡ none
unfolding get
keys-get c [] h = refl
keys-get c ((k, v) ∷ d) h = ground (arith, keys-get c d)

unlisted-provides :
    (r : CapabilityRegistry) (c p : String)
    → contains (keys r.providers) c ≡ false
    → provides r c p ≡ false
unfolding provides has get
unlisted-provides r c p h = rw (keys-get c r.providers h)

-- Without a capability a plugin is taken out everywhere, with one only there; nothing else changes.
pub provides-unregister :
    (r : CapabilityRegistry) (p : String) (o : Option String) (now : ℕ) (c' p' : String)
    → provides (unregister r p o now) c' p'
      ≡ (not ((o == none || o == some c') && (p == p')) && provides r c' p')
unfolding unregister
provides-unregister r p none now c' p' =
    ground
      (arith, provides-unregister_each r p now (keys r.providers) c' p', unlisted-provides r c' p')
provides-unregister r p (some c) now c' p' =
    ground (arith, provides-unregister_each r p now (c ∷ []) c' p')

pub provides-update_health :
    (r : CapabilityRegistry) (p c : String) (status : CapabilityAvailability)
    (reason : Option String) (now : ℕ) (c' p' : String)
    → provides (update_health r p c status reason now) c' p' ≡ provides r c' p'
unfolding provides update_health
provides-update_health r p c status reason now c' p' = refl
