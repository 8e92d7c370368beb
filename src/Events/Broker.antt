-- ===== src/Events/Broker.antt =====
-- app/core/application/events.py: the event broker with its bounded replay and bounded live queues.
-- A call is one step (the lock); fresh identifiers and times are the argument `Stamp`. A
-- subscription is known by its place in the list and is in the set `_clients` while `connected`.
-- `log`, `since` and `taken` record what happened, for the statements; no code reads them. The
-- observers, plain callbacks that see each published event, are left out.
pub mod Replay
pub mod Ends
pub mod Delivery
use ai_liver_yura.Common.{
  ℕ, zero, suc, ◌+◌, ◌-◌, ◌*◌, ◌≤◌, ◌<◌, String, ◌≡◌, refl, sym, ap, ◌∙◌, subst, ◌≢◌, ◌↔◌, ◌⊎◌, inl,
  inr, Bool, true, false, not, ◌&&◌, ◌||◌, Option, none, some, List, [], ◌∷◌, ◌++◌, map, arith, ltb,
  leb, if◌then◌else◌, Bool-cases, Option-cases, Eq, ◌==◌, string_eq, nat_eq, pair_eq, option_eq,
  bool_eq, list_eq, beq_refl, Result, ok, err, ◌>>=◌, ◌>>◌, guard, Result-cases, length,
  length-append, drop, take, keep, any, All, All-append, All-map, All-keep, contains, is_empty,
  or_else, or_none, given, is_some, nat_beq, nat_beq_iff,
}

pub record Stamp : Type 0 where
  pub event_id : String
  pub occurred_at : String
  pub trace_id : String

module _ (Payload : Type 0) where
  -- The payload of a published event, or the three entries of a resync notice.
  pub data EventData : Type 0 where
    plain : Payload → EventData
    resync : (reason : String) (oldest_available replay_from : Option String) → EventData

  pub record ApplicationEvent : Type 0 where
    pub event_id : String
    pub event_type : String
    pub occurred_at : String
    pub trace_id : String
    pub content : EventData

  pub record EventSubscription : Type 0 where
    pub replay_events : List ApplicationEvent
    pub live_queue : List ApplicationEvent
    pub connected : Bool
    pub since : ℕ
    pub taken : List ApplicationEvent

  pub record Broker : Type 0 where
    pub replay_size : ℕ
    pub replay_limit : ℕ
    pub live_queue_size : ℕ
    pub history : List ApplicationEvent
    pub subscriptions : List EventSubscription
    pub log : List ApplicationEvent

-- `ValueError("event broker limits must be positive")`
pub data BrokerError : Type 0 where
  limits_not_positive : BrokerError

-- The last `n` members, as a `deque` of that length keeps them.
abbrev pub last_of {ℓ} : {A : Type ℓ} → ℕ → List A → List A
last_of n xs = drop (length xs - n) xs

abbrev or_reason : Option String → String → Option String
or_reason none r = some r
or_reason (some s) r = some s

module _ {Payload : Type 0} where
  abbrev pub fresh : ℕ → ℕ → ℕ → Broker Payload
  fresh size limit live = record {
    replay_size = size;
    replay_limit = limit;
    live_queue_size = live;
    history = [];
    subscriptions = [];
    log = [];
  }

  unfoldable pub create : ℕ → ℕ → ℕ → Result BrokerError (Broker Payload)
  create size limit live = do
    guard (leb 1 size && leb 1 limit && leb 1 live) limits_not_positive
    ok (fresh size limit live)

  abbrev first_id : List (ApplicationEvent Payload) → Option String
  first_id [] = none
  first_id (e ∷ es) = some e.event_id

  pub resync_event :
      Stamp
      → String
      → List (ApplicationEvent Payload)
      → List (ApplicationEvent Payload)
      → ApplicationEvent Payload
  resync_event stamp reason history replay = record {
    event_id = stamp.event_id;
    event_type = "system.resync_required";
    occurred_at = stamp.occurred_at;
    trace_id = stamp.trace_id;
    content = resync reason (first_id history) (first_id replay);
  }

  -- The events behind the first one with the identifier, if there is one.
  unfoldable pub behind :
      String → List (ApplicationEvent Payload) → Option (List (ApplicationEvent Payload))
  behind id [] = none
  behind id (e ∷ es) = if e.event_id == id then some es else behind id es

  abbrev candidates :
      Option (List (ApplicationEvent Payload))
      → List (ApplicationEvent Payload)
      → List (ApplicationEvent Payload) × Option String
  candidates none history = (history, some "last_event_id_unavailable")
  candidates (some rest) history = (rest, none)

  abbrev pub cut :
      ℕ
      → List (ApplicationEvent Payload) × Option String
      → List (ApplicationEvent Payload) × Option String
  cut limit (events, reason) =
      if ltb limit (length events)
      then (last_of limit events, or_reason reason "replay_limit_exceeded")
      else (events, reason)

  unfoldable pub select_replay :
      ℕ
      → List (ApplicationEvent Payload)
      → Option String
      → List (ApplicationEvent Payload) × Option String
  unfolding behind
  select_replay limit history none = cut limit (history, none)
  select_replay limit history (some id) = cut limit (candidates (behind id history) history)

  abbrev with_notice :
      Stamp
      → List (ApplicationEvent Payload)
      → List (ApplicationEvent Payload) × Option String
      → List (ApplicationEvent Payload)
  with_notice stamp history (replay, none) = replay
  with_notice stamp history (replay, some reason) =
      resync_event stamp reason history replay ∷ replay

  unfoldable pub subscribe : Broker Payload → Option String → Stamp → Broker Payload
  unfolding select_replay
  subscribe b last stamp = record b {
    subscriptions =
        b.subscriptions
        ++ (record {
          replay_events = with_notice stamp b.history (select_replay b.replay_limit b.history last);
          live_queue = [];
          connected = true;
          since = length b.log;
          taken = [];
        })
          ∷ [];
  }

  -- One subscription's part in `publish`, `_disconnect_overflowed` included.
  unfoldable pub deliver :
      ℕ
      → List (ApplicationEvent Payload)
      → ApplicationEvent Payload
      → Stamp
      → EventSubscription Payload
      → EventSubscription Payload
  deliver limit history event stamp s =
      if not s.connected
      then s
      else if ltb (length s.live_queue) limit
      then record s { live_queue = s.live_queue ++ event ∷ [] }
      else record s {
        connected = false;
        live_queue = resync_event stamp "live_queue_overflow" history (event ∷ []) ∷ [];
      }

  unfoldable pub deliver_each :
      ℕ
      → List (ApplicationEvent Payload)
      → ApplicationEvent Payload
      → (ℕ → Stamp)
      → ℕ
      → List (EventSubscription Payload)
      → List (EventSubscription Payload)
  unfolding deliver
  deliver_each limit history event stamps i [] = []
  deliver_each limit history event stamps i (s ∷ ss) =
      deliver limit history event (stamps i) s ∷ deliver_each limit history event stamps (i + 1) ss

  -- `event` is the event that `publish` makes of its arguments.
  unfoldable pub publish : Broker Payload → ApplicationEvent Payload → (ℕ → Stamp) → Broker Payload
  unfolding deliver_each
  publish b event stamps =
      let history = last_of b.replay_size (b.history ++ event ∷ []) in
      record b {
        history = history;
        subscriptions = deliver_each b.live_queue_size history event stamps 0 b.subscriptions;
        log = b.log ++ event ∷ [];
      }

  -- A change of the subscription at a place.
  unfoldable pub at_place :
      (EventSubscription Payload → EventSubscription Payload)
      → ℕ
      → List (EventSubscription Payload)
      → List (EventSubscription Payload)
  at_place f i [] = []
  at_place f zero (s ∷ ss) = f s ∷ ss
  at_place f (suc i) (s ∷ ss) = s ∷ at_place f i ss

  abbrev pub leave : EventSubscription Payload → EventSubscription Payload
  leave s = record s { connected = false }

  unfoldable pub unsubscribe : Broker Payload → ℕ → Broker Payload
  unfolding at_place
  unsubscribe b i = record b { subscriptions = at_place leave i b.subscriptions }

  -- The reader of the subscription takes the next event from its live queue.
  abbrev take_head :
      EventSubscription Payload → List (ApplicationEvent Payload) → EventSubscription Payload
  take_head s [] = s
  take_head s (e ∷ es) = record s { live_queue = es; taken = s.taken ++ e ∷ [] }

  abbrev pub take_next : EventSubscription Payload → EventSubscription Payload
  take_next s = take_head s s.live_queue

  unfoldable pub receive : Broker Payload → ℕ → Broker Payload
  unfolding at_place
  receive b i = record b { subscriptions = at_place take_next i b.subscriptions }

  unfoldable pub subscriber_count : Broker Payload → ℕ
  subscriber_count b = length (keep (λ s. s.connected) b.subscriptions)
