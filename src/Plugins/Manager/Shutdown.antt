-- ===== src/Plugins/Manager/Shutdown.antt =====
-- After the manager shut its plugins down nothing is offered any more.
use mathlib.Core.List.{reverse, reverse-cons}
use ai_liver_yura.Common.{
  ℕ, String, ◌≡◌, refl, ap, inl, inr, Bool, true, false, not, ◌&&◌, ◌||◌, List, [], ◌∷◌, ◌++◌,
  arith, Bool-cases, ◌==◌, string_eq, nat_eq, pair_eq, option_eq, bool_eq, list_eq, contains,
}
use ai_liver_yura.Common.Dict.{Dict, get, get-set, keys}
use ai_liver_yura.Plugins.Capabilities.{Plugin}
use ai_liver_yura.Plugins.Capabilities.Availability.{provides}
use ai_liver_yura.Plugins.Manager.{
  shutdown, PluginManager, is_initialized, shutdown_one, shutdown_each, shutdown_plugins, init,
}
use ai_liver_yura.Plugins.Manager.Honesty.{declares}
use ai_liver_yura.Plugins.Manager.Keeping.{IsManager}
use ai_liver_yura.Plugins.Manager.Lifecycle.{
  run-IsManager, init-IsManager, run, step, shuts_down, step-IsManager, Call, run, run-IsManager,
}

abbrev runs : PluginManager → String → Bool
runs m id = is_initialized (get id m.statuses)

runs-shutdown_one :
    (now : ℕ) (m : PluginManager) (id : String) (p : Plugin) (j : String)
    → runs (shutdown_one now m (id, p)) j ≡ (not (id == j) && runs m j)
unfolding shutdown_one
runs-shutdown_one now m id p j =
    ground (arith, get-set id j shutdown m.statuses, string_eq.beq_iff id j)

runs-shutdown_each :
    (now : ℕ) (m : PluginManager) (ps : List (String × Plugin)) (j : String)
    → runs (shutdown_each now m ps) j ≡ (not (contains (keys ps) j) && runs m j)
unfolding shutdown_each
runs-shutdown_each now m [] j = refl
runs-shutdown_each now m ((id, p) ∷ ps) j = ground (
  arith,
  runs-shutdown_each now (shutdown_one now m (id, p)) ps j,
  runs-shutdown_one now m id p j,
)

keys-append :
    (xs ys : List (String × Plugin)) (j : String)
    → contains (keys (xs ++ ys)) j ≡ (contains (keys xs) j || contains (keys ys) j)
keys-append [] ys j = refl
keys-append ((id, p) ∷ xs) ys j = ground (arith, keys-append xs ys j)

keys-reverse :
    (ps : List (String × Plugin)) (j : String)
    → contains (keys (reverse ps)) j ≡ contains (keys ps) j
keys-reverse [] j = refl
keys-reverse ((id, p) ∷ ps) j =
    rw (reverse-cons (id, p) ps)
      (ground (arith, keys-append (reverse ps) ((id, p) ∷ []) j, keys-reverse ps j))

found-keys :
    (d : Dict String Plugin) (j c : String)
    → declares (get j d) c ≡ true
    → contains (keys d) j ≡ true
unfolding get
found-keys [] j c h = absurd (ground arith)
found-keys ((id, p) ∷ d) j c h = ground (arith, found-keys d j c)

shutdown-plugins_eq :
    (now : ℕ) (m : PluginManager) (ps : List (String × Plugin))
    → (shutdown_each now m ps).plugins ≡ m.plugins
unfolding shutdown_each shutdown_one
shutdown-plugins_eq now m [] = refl
shutdown-plugins_eq now m ((id, p) ∷ ps) =
    ground (arith, shutdown-plugins_eq now (shutdown_one now m (id, p)) ps)

shutdown_plugins-provides :
    (m : PluginManager) (now : ℕ) (c p : String)
    → IsManager m
    → provides (shutdown_plugins now m).capabilities c p ≡ false
unfolding shutdown_plugins step
shutdown_plugins-provides m now c p i =
    elim (Bool-cases (provides (shutdown_plugins now m).capabilities c p)) [
      | inr off ↦ off
      | inl on ↦
          let (runs_on, declared) = (step-IsManager m (shuts_down now) i).honest c p on in
          absurd (
            ground (
              arith,
              runs_on,
              declared,
              runs-shutdown_each now m (reverse m.plugins) p,
              keys-reverse m.plugins p,
              found-keys m.plugins p c,
              ap (λ d. declares (get p d) c) (shutdown-plugins_eq now m (reverse m.plugins)),
            ))
    ]

-- After any calls on a new manager, no capability is available from any plugin once the manager has
-- shut its plugins down.
pub run-init-shutdown :
    (cs : List Call) (now : ℕ) (c p : String)
    → provides (shutdown_plugins now (run init cs)).capabilities c p ≡ false
run-init-shutdown cs now c p =
    shutdown_plugins-provides (run init cs) now c p (run-IsManager init cs init-IsManager)
