-- ===== src/Runtime/PlannedQueue.antt =====
-- app/runtime/planned_activity_queue.py: the activities that wait for execution. Every method runs
-- under the lock, so a method is one step on the list. Times are microseconds; where the source
-- falls back to the wall clock, `now` is that clock's value. The plan's drive and emotion and the
-- activity's context ride along unread and are left out.
pub mod Service
use ai_liver_yura.Common.{
  ℕ, zero, suc, ◌+◌, ◌-◌, ◌*◌, ◌≤◌, ◌<◌, String, ◌≡◌, refl, sym, ap, ◌∙◌, subst, ◌≢◌, ◌↔◌, ◌⊎◌, inl,
  inr, Bool, true, false, not, ◌&&◌, ◌||◌, Option, none, some, List, [], ◌∷◌, ◌++◌, map, arith, ltb,
  leb, if◌then◌else◌, Bool-cases, Option-cases, Eq, ◌==◌, string_eq, nat_eq, pair_eq, option_eq,
  bool_eq, beq_refl, Result, ok, err, ◌>>=◌, ◌>>◌, guard, Result-cases, length, length-append, drop,
  take, keep, any, All, All-append, All-map, All-keep, contains, or_else, or_none, given, nat_beq,
}
use ai_liver_yura.Common.Int.{ℤ, pos_part, neg_part, leb_ℤ, ltb_ℤ}
use ai_liver_yura.Common.Order.{sort, insert}

pub data ActivityStatus : Type 0 where
  pending active waiting suspended completed canceled : ActivityStatus

pub data ActivityType : Type 0 where
  conversation_with_user game_with_user game_input_classification behavior_planning autonomous_talk
        startup_reaction stream_opening_greeting stream_main_segment stream_comment_response
        stream_closing_greeting listening_mode stimulus_reaction curiosity_research
        topic_exploration external_trend_watch body_expression_loop idle_observation :
      ActivityType

pub record Activity : Type 0 where
  pub activity_type : ActivityType
  pub goal : String
  pub status : ActivityStatus
  pub priority : ℤ
  pub interruptible : Bool
  pub source_event_id : Option String
  pub activity_id : String
  pub created_at : ℕ
  pub updated_at : ℕ

unfoldable pub with_status : Activity → ActivityStatus → ℕ → Activity
with_status a status now = record a { status = status; updated_at = now }

unfoldable pub with_priority : Activity → ℤ → ℕ → Activity
with_priority a priority now = record a { priority = priority; updated_at = now }

pub record PlannedActivity : Type 0 where
  pub activity : Activity
  pub source : String
  pub planning_reason : String
  pub priority : Option ℤ
  pub created_at : ℕ
  pub expires_at : Option ℕ
  pub planned_activity_id : String
  pub planned_topic : Option String

unfoldable pub effective_priority : PlannedActivity → ℤ
effective_priority p = given p.priority p.activity.priority

unfoldable pub is_expired : ℕ → PlannedActivity → Bool
is_expired now p = elim p.expires_at [ none ↦ false | some at ↦ leb at now ]

-- The sort key is (effective_priority, created_at), in reverse: `a` may stand before `b` if its key
-- is not the smaller one.
unfoldable pub before : PlannedActivity → PlannedActivity → Bool
unfolding effective_priority
before a b =
    ltb_ℤ (effective_priority b) (effective_priority a)
    || (leb_ℤ (effective_priority b) (effective_priority a) && leb b.created_at a.created_at)

abbrev pub PlannedActivityQueue : Type 0
PlannedActivityQueue = List PlannedActivity

unfoldable pub sort_locked : PlannedActivityQueue → PlannedActivityQueue
sort_locked q = sort before q

unfoldable pub put : PlannedActivity → PlannedActivityQueue → PlannedActivityQueue
unfolding sort_locked
put a q = sort_locked (q ++ a ∷ [])

unfoldable pub extend : List PlannedActivity → PlannedActivityQueue → PlannedActivityQueue
unfolding sort_locked
extend new q = sort_locked (q ++ new)

-- The loop of `_discard_expired_locked` and of `discard_where`: what is taken out, what stays.
unfoldable pub partition :
    (PlannedActivity → Bool) → List PlannedActivity → List PlannedActivity × List PlannedActivity
partition test [] = ([], [])
partition test (x ∷ xs) =
    let (out, stay) = partition test xs in if test x then (x ∷ out, stay) else (out, x ∷ stay)

unfoldable pub discard_where :
    (PlannedActivity → Bool) → PlannedActivityQueue → List PlannedActivity × PlannedActivityQueue
discard_where test q = partition test q

unfoldable pub discard_expired :
    ℕ → PlannedActivityQueue → List PlannedActivity × PlannedActivityQueue
discard_expired now q = partition (is_expired now) q

abbrev pub pop_first : PlannedActivityQueue → Option PlannedActivity × PlannedActivityQueue
pop_first [] = (none, [])
pop_first (x ∷ xs) = (some x, xs)

abbrev first : PlannedActivityQueue → Option PlannedActivity
first [] = none
first (x ∷ xs) = some x

unfoldable pub get : ℕ → PlannedActivityQueue → Option PlannedActivity × PlannedActivityQueue
get now q = pop_first (discard_expired now q).1

unfoldable pub peek : ℕ → PlannedActivityQueue → Option PlannedActivity × PlannedActivityQueue
peek now q = let rest = (discard_expired now q).1 in (first rest, rest)

unfoldable pub clear : PlannedActivityQueue → PlannedActivityQueue
clear q = []

unfoldable pub items : ℕ → PlannedActivityQueue → List PlannedActivity × PlannedActivityQueue
items now q = let rest = (discard_expired now q).1 in (rest, rest)

unfoldable pub size : ℕ → PlannedActivityQueue → ℕ × PlannedActivityQueue
size now q = let rest = (discard_expired now q).1 in (length rest, rest)

unfoldable pub is_empty : ℕ → PlannedActivityQueue → Bool × PlannedActivityQueue
is_empty now q = let rest = (discard_expired now q).1 in (nat_beq (length rest) 0, rest)
