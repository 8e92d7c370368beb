-- ===== src/Runtime/Events.antt =====
-- The way of an event into the runtime: app/domain/events/agent_event.py and agent_event_type.py,
-- app/runtime/event_filter.py, event_prioritizer.py, event_buffer.py and event_queue.py. The payload
-- and the trace of an event ride along unread and are left out.
pub mod Buffer
pub mod Calls
pub mod Queue
pub mod Served
use ai_liver_yura.Common.{
  ℕ, zero, suc, ◌+◌, ◌-◌, ◌*◌, ◌≤◌, ◌<◌, String, ◌≡◌, refl, sym, ap, ◌∙◌, subst, ◌≢◌, ◌↔◌, ◌⊎◌, inl,
  inr, Bool, true, false, not, ◌&&◌, ◌||◌, Option, none, some, List, [], ◌∷◌, ◌++◌, map, arith, ltb,
  leb, if◌then◌else◌, Bool-cases, Option-cases, Eq, ◌==◌, string_eq, nat_eq, pair_eq, option_eq,
  bool_eq, list_eq, beq_refl, Result, ok, err, ◌>>=◌, ◌>>◌, guard, Result-cases, length,
  length-append, drop, take, keep, any, All, All-append, All-map, All-keep, contains, is_empty,
  or_else, or_none, given, is_some, nat_beq, nat_beq_iff,
}
use ai_liver_yura.Common.Int.{ℤ, pos, negsuc, ◌+ℤ◌, leb_ℤ, ltb_ℤ, negate}
use ai_liver_yura.Common.Dict.{Dict, set, values}

pub data AgentEventType : Type 0 where
  user_text youtube_comment user_speech camera_frame silence_timeout speech_started speech_finished
        curiosity_peak trend_updated action_failed system_started system_stopped app_started
        stream_started stream_main_segment stream_comment_response stream_ending stream_ended :
      AgentEventType

pub record AgentEvent : Type 0 where
  pub event_type : AgentEventType
  pub priority : ℤ
  pub occurred_at : ℕ
  pub event_id : String
  pub discardable : Bool
  pub replace_key : Option String

-- `event.replace_key or default`: the empty key counts as none.
unfoldable or_key : Option String → String → String
or_key none default = default
or_key (some key) default = if key == "" then default else key

unfoldable replaceable : AgentEvent → String → AgentEvent
unfolding or_key
replaceable e default = record e {
  discardable = true;
  replace_key = some (or_key e.replace_key default);
}

unfoldable filter_type : AgentEventType → AgentEvent → AgentEvent
unfolding replaceable
filter_type camera_frame e = replaceable e "camera_frame"
filter_type silence_timeout e = replaceable e "silence_timeout"
filter_type _ e = e

-- `DefaultEventFilter.filter`, which never answers `None`.
unfoldable filter : AgentEvent → AgentEvent
unfolding filter_type
filter e = filter_type e.event_type e

-- `_BONUS_BY_EVENT_TYPE`, with the default of `get`.
unfoldable bonus : AgentEventType → ℕ
bonus user_text = 50
bonus youtube_comment = 40
bonus user_speech = 50
bonus speech_finished = 20
bonus curiosity_peak = 15
bonus silence_timeout = 8
bonus trend_updated = 5
bonus camera_frame = 3
bonus action_failed = 30
bonus _ = 0

unfoldable prioritize : AgentEvent → AgentEvent
unfolding bonus
prioritize e = record e { priority = e.priority +ℤ pos (bonus e.event_type) }

pub record EventBuffer : Type 0 where
  pub normal_events : List AgentEvent
  pub replaceable_events : Dict String AgentEvent

abbrev pub empty_buffer : EventBuffer
empty_buffer = record { normal_events = []; replaceable_events = [] }

abbrev put_keyed : EventBuffer → AgentEvent → Option String → EventBuffer
put_keyed b e none = record b { normal_events = b.normal_events ++ e ∷ [] }
put_keyed b e (some key) = record b { replaceable_events = set key e b.replaceable_events }

-- `EventBuffer.put`
unfoldable pub buffer : EventBuffer → AgentEvent → EventBuffer
buffer b e = put_keyed b e e.replace_key

-- `EventBuffer.drain`, with `clear`.
unfoldable pub drain : EventBuffer → List AgentEvent × EventBuffer
drain b = (b.normal_events ++ values b.replaceable_events, empty_buffer)

pub record QueuedEvent : Type 0 where
  pub sort_priority : ℤ
  pub sequence : ℕ
  pub event : AgentEvent

-- The order that the dataclass derives: by `sort_priority`, then by `sequence`.
unfoldable pub less : QueuedEvent → QueuedEvent → Bool
less a b =
    ltb_ℤ a.sort_priority b.sort_priority
    || (leb_ℤ a.sort_priority b.sort_priority && ltb a.sequence b.sequence)

-- The heap's members in any order, and the counter.
pub record EventQueue : Type 0 where
  pub queue : List QueuedEvent
  pub sequence : ℕ

abbrev pub empty_queue : EventQueue
empty_queue = record { queue = []; sequence = 0 }

unfoldable pub put : EventQueue → AgentEvent → EventQueue
put q e = record q {
  queue =
      (record { sort_priority = negate e.priority; sequence = q.sequence; event = e }) ∷ q.queue;
  sequence = q.sequence + 1;
}

-- The smallest member and the others.
unfoldable pub pop_least : QueuedEvent → List QueuedEvent → QueuedEvent × List QueuedEvent
unfolding less
pop_least x [] = (x, [])
pop_least x (y ∷ ys) =
    let (m, rest) = pop_least (if less y x then y else x) ys in
    (m, (if less y x then x else y) ∷ rest)

abbrev get_from : List QueuedEvent → EventQueue → Option (AgentEvent × EventQueue)
get_from [] q = none
get_from (x ∷ xs) q = let (m, rest) = pop_least x xs in some (m.event, record q { queue = rest })

-- `none` stands for the wait of the empty queue.
unfoldable pub get : EventQueue → Option (AgentEvent × EventQueue)
unfolding pop_least
get q = get_from q.queue q
