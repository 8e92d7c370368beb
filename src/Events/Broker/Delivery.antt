-- ===== src/Events/Broker/Delivery.antt =====
-- The calls on the broker of app/core/application/events.py in any order: what a subscription has
-- been handed and what its queue still holds, and what the history keeps.
use ai_liver_yura.Common.{
  ℕ, zero, suc, ◌+◌, ◌-◌, ◌≤◌, String, ◌≡◌, refl, sym, ap, ◌∙◌, subst, inl, inr, true, ◌&&◌, Option,
  none, some, List, [], ◌∷◌, ◌++◌, arith, ltb, leb, Bool-cases, string_eq, nat_eq, pair_eq,
  option_eq, bool_eq, list_eq, ok, length, length-append, drop, All, All-append,
}
use ai_liver_yura.Events.Broker.{
  Stamp, ApplicationEvent, EventSubscription, Broker, create, fresh, subscribe, unsubscribe,
  publish, receive, deliver, deliver_each, at_place, leave, take_next, take_head, last_of,
}
use ai_liver_yura.Events.Broker.Ends.{drop-append, drop-nil, drop-length, last_of-last_of}
use mathlib.Core.List.{append_assoc}

-- The calls that change the broker, `publish` with the event that it makes.
pub data Call (Payload : Type 0) : Type 0 where
  publishes : ApplicationEvent Payload → (ℕ → Stamp) → Call Payload
  subscribes : Option String → Stamp → Call Payload
  unsubscribes : ℕ → Call Payload
  receives : ℕ → Call Payload

module _ {Payload : Type 0} where
  unfoldable step : Broker Payload → Call Payload → Broker Payload
  unfolding publish subscribe unsubscribe receive
  step b (publishes e stamps) = publish b e stamps
  step b (subscribes last stamp) = subscribe b last stamp
  step b (unsubscribes i) = unsubscribe b i
  step b (receives i) = receive b i

  unfoldable pub run : Broker Payload → List (Call Payload) → Broker Payload
  unfolding step
  run b [] = b
  run b (c ∷ cs) = run (step b c) cs

  -- A subscription that holds its bound and, while connected, has missed nothing of the log.
  record Served (limit : ℕ) (log : List (ApplicationEvent Payload)) (s : EventSubscription Payload)
      : Type 0 where
    bounded : length s.live_queue ≤ limit
    started : s.since ≤ length log
    whole : s.connected ≡ true → s.taken ++ s.live_queue ≡ drop s.since log

  record IsBroker (b : Broker Payload) : Type 0 where
    positive : 1 ≤ b.live_queue_size
    trimmed : b.history ≡ last_of b.replay_size b.log
    served : All (Served b.live_queue_size b.log) b.subscriptions

  deliver-Served :
      (limit : ℕ) (log history : List (ApplicationEvent Payload)) (event : ApplicationEvent Payload)
      (stamp : Stamp) (s : EventSubscription Payload)
      → 1 ≤ limit
      → Served limit log s
      → Served limit (log ++ event ∷ []) (deliver limit history event stamp s)
  unfolding deliver
  deliver-Served limit log history event stamp s h i =
      let grown = length-append log (event ∷ []) in
      elim (Bool-cases s.connected) [
        | inr out ↦ rw out (record {
          bounded = i.bounded;
          started = omega (arith, i.started);
          whole = λ on. absurd (ground arith);
        })
        | inl on ↦ elim (Bool-cases (ltb (length s.live_queue) limit)) [
          | inr full ↦ rw on (
              rw full (record {
                bounded = h;
                started = omega (arith, i.started);
                whole = λ on. absurd (ground arith);
              }))
          | inl room ↦ rw on (
              rw room (record {
                bounded = ground (arith, length-append s.live_queue (event ∷ []));
                started = omega (arith, i.started);
                whole = λ _.
                    sym (append_assoc s.taken s.live_queue (event ∷ []))
                    ∙ ap (λ l. l ++ event ∷ []) (i.whole on)
                    ∙ sym (drop-append s.since log (event ∷ []) i.started);
              }))
        ]
      ]

  deliver_each-Served :
      (limit : ℕ) (log history : List (ApplicationEvent Payload)) (event : ApplicationEvent Payload)
      (stamps : ℕ → Stamp) (i : ℕ) (ss : List (EventSubscription Payload))
      → 1 ≤ limit
      → All (Served limit log) ss
      → All (Served limit (log ++ event ∷ [])) (deliver_each limit history event stamps i ss)
  unfolding deliver_each
  deliver_each-Served limit log history event stamps i [] h a = tt
  deliver_each-Served limit log history event stamps i (s ∷ ss) h a = (
    deliver-Served limit log history event (stamps i) s h a.0,
    deliver_each-Served limit log history event stamps (i + 1) ss h a.1,
  )

  at_place-All :
      (P : EventSubscription Payload → Type 0)
      (f : EventSubscription Payload → EventSubscription Payload)
      → ((s : EventSubscription Payload) → P s → P (f s))
      → (i : ℕ) (ss : List (EventSubscription Payload)) → All P ss
      → All P (at_place f i ss)
  unfolding at_place
  at_place-All P f k i [] a = tt
  at_place-All P f k zero (s ∷ ss) a = (k s a.0, a.1)
  at_place-All P f k (suc i) (s ∷ ss) a = (a.0, at_place-All P f k i ss a.1)

  leave-Served :
      (limit : ℕ) (log : List (ApplicationEvent Payload)) (s : EventSubscription Payload)
      → Served limit log s
      → Served limit log (leave s)
  leave-Served limit log s i = record {
    bounded = i.bounded;
    started = i.started;
    whole = λ on. absurd (ground arith);
  }

  take_head-Served :
      (limit : ℕ) (log : List (ApplicationEvent Payload)) (s : EventSubscription Payload)
      (q : List (ApplicationEvent Payload))
      → s.live_queue ≡ q
      → Served limit log s
      → Served limit log (take_head s q)
  take_head-Served limit log s [] e i = i
  take_head-Served limit log s (x ∷ q) e i = record {
    bounded = omega (arith, i.bounded, ap length e);
    started = i.started;
    whole = λ on. append_assoc s.taken (x ∷ []) q ∙ ap (◌++◌ s.taken) (sym e) ∙ i.whole on;
  }

  step-IsBroker : (b : Broker Payload) (c : Call Payload) → IsBroker b → IsBroker (step b c)
  unfolding step publish subscribe unsubscribe receive
  step-IsBroker b (publishes e stamps) i = record {
    positive = i.positive;
    trimmed =
        ap (λ h. last_of b.replay_size (h ++ e ∷ [])) i.trimmed
        ∙ last_of-last_of b.replay_size b.log e;
    served =
        deliver_each-Served b.live_queue_size b.log _ e stamps 0 b.subscriptions i.positive
          i.served;
  }
  step-IsBroker b (subscribes last stamp) i = record {
    positive = i.positive;
    trimmed = i.trimmed;
    served = All-append _ b.subscriptions _ i.served (
      record { bounded = omega arith; started = omega arith; whole = λ _. sym (drop-length b.log) },
      tt,
    );
  }
  step-IsBroker b (unsubscribes n) i = record {
    positive = i.positive;
    trimmed = i.trimmed;
    served = at_place-All _ leave (leave-Served b.live_queue_size b.log) n b.subscriptions i.served;
  }
  step-IsBroker b (receives n) i = record {
    positive = i.positive;
    trimmed = i.trimmed;
    served =
        at_place-All _ take_next
          (λ s k. take_head-Served b.live_queue_size b.log s s.live_queue refl k) n b.subscriptions
          i.served;
  }

  run-IsBroker : (b : Broker Payload) (cs : List (Call Payload)) → IsBroker b → IsBroker (run b cs)
  unfolding run
  run-IsBroker b [] i = i
  run-IsBroker b (c ∷ cs) i = run-IsBroker (step b c) cs (step-IsBroker b c i)

  fresh-create :
      (size limit live : ℕ) (b : Broker Payload)
      → create size limit live ≡ ok b
      → (leb 1 size && leb 1 limit && leb 1 live) ≡ true
      → fresh size limit live ≡ b
  unfolding create
  fresh-create size limit live b e y = ground arith

  create-IsBroker :
      (size limit live : ℕ) (b : Broker Payload) → create size limit live ≡ ok b → IsBroker b
  unfolding create
  create-IsBroker size limit live b e =
      elim (Bool-cases (leb 1 size && leb 1 limit && leb 1 live)) [
        | inl y ↦
            let made : IsBroker (fresh size limit live) = record {
              positive = ground arith;
              trimmed = sym (drop-nil (0 - size));
              served = tt;
            } in
            subst IsBroker (fresh-create size limit live b e y) made
        | inr n ↦ absurd (ground arith)
      ]

  abbrev pub place : List (EventSubscription Payload) → ℕ → Option (EventSubscription Payload)
  place [] i = none
  place (s ∷ ss) zero = some s
  place (s ∷ ss) (suc i) = place ss i

  All-place :
      (P : EventSubscription Payload → Type 0) (ss : List (EventSubscription Payload)) (i : ℕ)
      (s : EventSubscription Payload)
      → All P ss
      → place ss i ≡ some s
      → P s
  All-place P [] i s a e = absurd (ground arith)
  All-place P (x ∷ ss) zero s a e = subst P (ground arith) a.0
  All-place P (x ∷ ss) (suc i) s a e = All-place P ss i s a.1 e

  -- After any calls on a new broker, the `taken` events of a subscription that is still connected,
  -- followed by those in its live queue, are exactly the events published since it subscribed, in
  -- their order, and the queue is within the broker's bound.
  pub run-delivery :
      (size limit live : ℕ) (b : Broker Payload) (cs : List (Call Payload)) (i : ℕ)
      (s : EventSubscription Payload)
      → create size limit live ≡ ok b
      → place (run b cs).subscriptions i ≡ some s
      → s.connected ≡ true
      → (s.taken ++ s.live_queue ≡ drop s.since (run b cs).log)
        × (length s.live_queue ≤ (run b cs).live_queue_size)
  run-delivery size limit live b cs i s made at on =
      let k = run-IsBroker b cs (create-IsBroker size limit live b made) in
      let served = All-place _ (run b cs).subscriptions i s k.served at in
      (served.whole on, served.bounded)

  -- After any calls on a new broker, its history is the end of the log that has `replay_size`
  -- events, or the whole log while that is shorter.
  pub run-history :
      (size limit live : ℕ) (b : Broker Payload) (cs : List (Call Payload))
      → create size limit live ≡ ok b
      → (run b cs).history ≡ last_of (run b cs).replay_size (run b cs).log
  run-history size limit live b cs made =
      (run-IsBroker b cs (create-IsBroker size limit live b made)).trimmed
