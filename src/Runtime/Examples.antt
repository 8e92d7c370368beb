-- ===== src/Runtime/Examples.antt =====
-- Two planned activities of the same priority and one that has expired; three events of a runtime.
use ai_liver_yura.Common.{
  ℕ, String, ◌≡◌, refl, Bool, true, false, ◌&&◌, Option, none, some, List, [], ◌∷◌, ◌++◌, arith,
  string_eq, nat_eq, pair_eq, option_eq, bool_eq, list_eq, keep, All,
}
use ai_liver_yura.Common.Int.{pos, negate}
use ai_liver_yura.Runtime.PlannedQueue
use ai_liver_yura.Runtime.PlannedQueue.Service
use mathlib.Core.List.{Perm}
use ai_liver_yura.Runtime.Events
use ai_liver_yura.Runtime.Events.Buffer.{
  buffer_all, is_normal, latest, lookups, first_keys, drain-buffer_all,
}
use ai_liver_yura.Runtime.Events.Calls
use ai_liver_yura.Runtime.Events.Queue
use ai_liver_yura.Runtime.Events.Served

abbrev talk : PlannedQueue.Activity
talk = record {
  activity_type = PlannedQueue.autonomous_talk;
  goal = "talk about tea";
  status = PlannedQueue.pending;
  priority = pos 10;
  interruptible = true;
  source_event_id = none;
  activity_id = "a1";
  created_at = 1;
  updated_at = 1;
}

abbrev planned : String → ℕ → Option ℕ → PlannedQueue.PlannedActivity
planned id created expires = record {
  activity = talk;
  source = "planner";
  planning_reason = "quiet";
  priority = none;
  created_at = created;
  expires_at = expires;
  planned_activity_id = id;
  planned_topic = none;
}

abbrev calls : List Service.Call
calls =
    Service.puts (planned "p1" 1 none)
    ∷ Service.puts (planned "p2" 2 (some 3))
    ∷ Service.puts (planned "p3" 0 none)
    ∷ []

run-InOrder_example : Service.InOrder (Service.run [] calls)
run-InOrder_example = Service.run-InOrder [] calls tt

abbrev waiting : List PlannedQueue.PlannedActivity
waiting = planned "p2" 2 (some 3) ∷ planned "p1" 1 none ∷ planned "p3" 0 none ∷ []

waiting-InOrder : Service.InOrder waiting
unfolding PlannedQueue.before PlannedQueue.effective_priority
waiting-InOrder = ((refl, (refl, tt)), ((refl, tt), (tt, tt)))

taken : PlannedQueue.get 5 waiting ≡ (some (planned "p1" 1 none), planned "p3" 0 none ∷ [])
unfolding PlannedQueue.get PlannedQueue.discard_expired PlannedQueue.partition
    PlannedQueue.is_expired
taken = refl

get-some_example :
    (keep (Service.in_time 5) waiting ≡ planned "p1" 1 none ∷ planned "p3" 0 none ∷ [])
    × (PlannedQueue.is_expired 5 (planned "p1" 1 none) ≡ false)
    × All (λ b. PlannedQueue.before (planned "p1" 1 none) b ≡ true) (planned "p3" 0 none ∷ [])
get-some_example =
    Service.get-some 5 waiting (planned "p3" 0 none ∷ []) (planned "p1" 1 none) waiting-InOrder
      taken

abbrev first_made : PlannedQueue.PlannedActivity
first_made = planned "p1" 1 none

abbrev ties_with_first : PlannedQueue.PlannedActivity → Bool
ties_with_first a = PlannedQueue.before first_made a && PlannedQueue.before a first_made

ties :
    (x y : PlannedQueue.PlannedActivity)
    → ties_with_first x ≡ true
    → ties_with_first y ≡ true
    → PlannedQueue.before x y ≡ true
ties x y h k = Service.before-IsOrder.trans x first_made y (ground arith) (ground arith)

abbrev event : Events.AgentEventType → String → Option String → Events.AgentEvent
event kind id key = record {
  event_type = kind;
  priority = pos 0;
  occurred_at = 1;
  event_id = id;
  discardable = false;
  replace_key = key;
}

abbrev arrived : List Events.AgentEvent
arrived =
    event Events.user_text "e1" none
    ∷ event Events.camera_frame "e2" (some "camera_frame")
    ∷ event Events.camera_frame "e3" (some "camera_frame")
    ∷ []

drain-buffer_all_example :
    ((Events.drain (buffer_all Events.empty_buffer arrived)).0
      ≡ keep is_normal arrived ++ lookups (λ key. latest key arrived none) (first_keys arrived []))
    × ((Events.drain (Events.drain (buffer_all Events.empty_buffer arrived)).1).0 ≡ [])
drain-buffer_all_example = drain-buffer_all arrived

abbrev queued : List Calls.Call
queued =
    Calls.puts (event Events.camera_frame "e2" none)
    ∷ Calls.puts (record (event Events.user_text "e1" none) { priority = pos 50 })
    ∷ []

abbrev rest : Events.EventQueue
rest = record {
  queue =
      (record { sort_priority = pos 0; sequence = 0; event = event Events.camera_frame "e2" none })
      ∷ [];
  sequence = 2;
}

handed_out :
    Events.get (Calls.run Events.empty_queue queued)
    ≡ some (record (event Events.user_text "e1" none) { priority = pos 50 }, rest)
unfolding Events.get Calls.run negate
handed_out = refl

run-get_example :
    (m : Events.QueuedEvent) × (m.event
      ≡ record (event Events.user_text "e1" none) { priority = pos 50 })
    × Perm (m ∷ rest.queue) (Calls.run Events.empty_queue queued).queue
    × All (Queue.IsServedAfter m) rest.queue
    × All (Calls.IsNumbered (Calls.arrivals queued)) (Calls.run Events.empty_queue queued).queue
run-get_example =
    Queue.run-get queued (record (event Events.user_text "e1" none) { priority = pos 50 }) rest
      handed_out

run-served_example :
    Perm
      (Served.served Events.empty_queue (queued ++ Calls.gets ∷ [])
        ++ Served.events (Calls.run Events.empty_queue (queued ++ Calls.gets ∷ [])).queue)
      (Calls.arrivals (queued ++ Calls.gets ∷ []))
run-served_example = Served.run-served (queued ++ Calls.gets ∷ [])
