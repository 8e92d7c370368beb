-- ===== src/Runtime/Events/Served.antt =====
-- What app/runtime/event_queue.py has handed out after any calls, and what is left.
use mathlib.Core.List.{Perm, append_assoc, perm_middle, append-nil}
use mathlib.Core.List.Perm
use ai_liver_yura.Common.{
  ◌≡◌, refl, sym, subst, Option, none, some, List, [], ◌∷◌, ◌++◌, map, string_eq, nat_eq, pair_eq,
  option_eq, bool_eq, list_eq,
}
use ai_liver_yura.Runtime.Events.{
  AgentEvent, QueuedEvent, EventQueue, empty_queue, put, pop_least, get_from, get,
}
use ai_liver_yura.Runtime.Events.Calls.{
  Call, puts, gets, after_get, step, run, arrivals, pop_least-perm,
}

-- What `get` hands out over the calls, in their order.
abbrev pub handed : Option (AgentEvent × EventQueue) → List AgentEvent
handed none = []
handed (some (e, rest)) = e ∷ []

unfoldable pub served : EventQueue → List Call → List AgentEvent
unfolding step get
served q [] = []
served q (puts e ∷ cs) = served (put q e) cs
served q (gets ∷ cs) = handed (get q) ++ served (after_get q (get q)) cs

abbrev pub events : List QueuedEvent → List AgentEvent
events xs = map (λ (x : QueuedEvent). x.event) xs

get_from-served :
    (q : EventQueue) (xs : List QueuedEvent)
    → q.queue ≡ xs
    → Perm (handed (get_from xs q) ++ events (after_get q (get_from xs q)).queue) (events q.queue)
get_from-served q [] e = Perm.rfl
get_from-served q (x ∷ xs) e =
    subst (λ l. Perm (handed (get_from (x ∷ xs) q) ++ events (pop_least x xs).1) (events l)) (sym e)
      (Perm.map (λ (z : QueuedEvent). z.event) (pop_least-perm x xs))

run-served_lem :
    (q : EventQueue) (cs : List Call)
    → Perm (served q cs ++ events (run q cs).queue) (events q.queue ++ arrivals cs)
unfolding run step served put get
run-served_lem q [] = subst (Perm (events q.queue)) (sym (append-nil (events q.queue))) Perm.rfl
run-served_lem q (puts e ∷ cs) =
    Perm.trans (run-served_lem (put q e) cs)
      (Perm.symm (perm_middle (events q.queue) (arrivals cs)))
run-served_lem q (gets ∷ cs) =
    let q' = after_get q (get_from q.queue q) in
    let out = handed (get_from q.queue q) in
    let left = events (run q' cs).queue in
    Perm.trans
      (subst (λ l. Perm l (out ++ (events q'.queue ++ arrivals cs)))
        (sym (append_assoc out (served q' cs) left)) (Perm.append_left out (run-served_lem q' cs)))
      (subst (λ l. Perm l (events q.queue ++ arrivals cs))
        (append_assoc out (events q'.queue) (arrivals cs))
        (Perm.append_right (arrivals cs) (get_from-served q q.queue refl)))

-- What the calls on an empty queue handed out, together with what is still in the queue, is exactly
-- what was put into it, whatever the order: no event is lost and none is handed out twice.
pub run-served :
    (cs : List Call)
    → Perm (served empty_queue cs ++ events (run empty_queue cs).queue) (arrivals cs)
run-served cs = run-served_lem empty_queue cs
