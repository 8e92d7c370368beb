-- ===== src/Events/Examples.antt =====
-- A broker with one subscriber that reads along, and one that asks for more than there is.
use ai_liver_yura.Common.{
  ℕ, ◌≤◌, String, ◌≡◌, refl, true, none, some, List, [], ◌∷◌, ◌++◌, string_eq, nat_eq, pair_eq,
  option_eq, bool_eq, list_eq, ok, length, drop,
}
use ai_liver_yura.Events.Broker.{
  Stamp, plain, ApplicationEvent, EventSubscription, Broker, create, fresh, select_replay,
}
use ai_liver_yura.Events.Broker.Replay.{select_replay_complete}
use ai_liver_yura.Events.Broker.Delivery.{
  Call, publishes, subscribes, receives, run, place, run-delivery,
}

abbrev stamp : Stamp
stamp = record { event_id = "n"; occurred_at = "t"; trace_id = "u" }

abbrev event : String → ApplicationEvent ℕ
event id = record {
  event_id = id;
  event_type = "ongoing.updated";
  occurred_at = "t";
  trace_id = "u";
  content = plain 1;
}

abbrev calls : List (Call ℕ)
calls =
    publishes (event "e1") (λ i. stamp)
    ∷ subscribes none stamp
    ∷ publishes (event "e2") (λ i. stamp)
    ∷ publishes (event "e3") (λ i. stamp)
    ∷ receives 0
    ∷ []

abbrev start : Broker ℕ
start = fresh 2 2 2

started : create 2 2 2 ≡ ok start
unfolding create
started = refl

abbrev reader : EventSubscription ℕ
reader = record {
  replay_events = event "e1" ∷ [];
  live_queue = event "e3" ∷ [];
  connected = true;
  since = 1;
  taken = event "e2" ∷ [];
}

placed : place (run start calls).subscriptions 0 ≡ some reader
unfolding run
placed = refl

run-delivery_example :
    (reader.taken ++ reader.live_queue ≡ drop reader.since (run start calls).log)
    × (length reader.live_queue ≤ (run start calls).live_queue_size)
run-delivery_example = run-delivery 2 2 2 start calls 0 reader started placed refl

abbrev history : List (ApplicationEvent ℕ)
history = event "e1" ∷ event "e2" ∷ event "e3" ∷ []

replayed : select_replay 2 history (some "e1") ≡ (event "e2" ∷ event "e3" ∷ [], none)
unfolding select_replay
replayed = refl

select_replay_complete_example :
    (before : List (ApplicationEvent ℕ)) × (e : ApplicationEvent ℕ) × (history
      ≡ before ++ e ∷ event "e2" ∷ event "e3" ∷ [])
    × (e.event_id ≡ "e1")
select_replay_complete_example =
    select_replay_complete 2 history (event "e2" ∷ event "e3" ∷ []) "e1" replayed
