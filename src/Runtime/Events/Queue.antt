-- ===== src/Runtime/Events/Queue.antt =====
-- The order in which app/runtime/event_queue.py hands out the events, after any calls.
use mathlib.Core.List.{Perm}
use ai_liver_yura.Common.{
  ◌<◌, ◌≡◌, ◌≢◌, ap, subst, ◌⊎◌, inl, inr, true, false, some, List, [], ◌∷◌, arith, if◌then◌else◌,
  Bool-cases, string_eq, nat_eq, pair_eq, option_eq, bool_eq, list_eq, All,
}
use ai_liver_yura.Common.Int.{◌≤ℤ◌, leb_ℤ, negate_parts, pos_part, neg_part}
use ai_liver_yura.Runtime.Events.{
  AgentEvent, QueuedEvent, EventQueue, empty_queue, less, pop_least, get_from, get,
}
use ai_liver_yura.Runtime.Events.Calls.{
  Call, run, arrivals, pop_least-perm, pop_least-All, pop_least-Apart, Apart, IsKeyed, IsNumbered,
  empty-IsQueue, run-IsQueue,
}

-- `y` does not come before `m`.
unfoldable Follows : QueuedEvent → QueuedEvent → Type 0
Follows m y = less y m ≡ false

Follows-trans : (a b c : QueuedEvent) → Follows a b → Follows b c → Follows a c
unfolding Follows less
Follows-trans a b c h k = ground arith

Follows-flip : (a b : QueuedEvent) → less a b ≡ true → Follows a b
unfolding Follows less
Follows-flip a b h = ground arith

Follows-same : (a b : QueuedEvent) → less b a ≡ false → Follows a b
unfolding Follows
Follows-same a b h = h

Follows-self : (a : QueuedEvent) → Follows a a
unfolding Follows less
Follows-self a = ground arith

-- What the loop keeps is before what it had, and before what it puts back.
kept_first :
    (x y : QueuedEvent)
    → Follows (if less y x then y else x) x
      × Follows (if less y x then y else x) (if less y x then x else y)
kept_first x y = elim (Bool-cases (less y x)) [
  | inl l ↦ rw l (Follows-flip y x l, Follows-flip y x l)
  | inr n ↦ rw n (Follows-self x, Follows-same x y n)
]

pop_least-least :
    (x : QueuedEvent) (xs : List QueuedEvent)
    → Follows (pop_least x xs).0 x × All (Follows (pop_least x xs).0) (pop_least x xs).1
unfolding pop_least
pop_least-least x [] = (Follows-self x, tt)
pop_least-least x (y ∷ ys) =
    let k = (if less y x then y else x) in
    let (least, others) = pop_least-least k ys in
    let (had, put_back) = kept_first x y in
    (
      Follows-trans (pop_least k ys).0 k x least had,
      (Follows-trans (pop_least k ys).0 k _ least put_back, others),
    )

-- `y` has no greater priority than `m`, and comes later if it has the same.
abbrev pub IsServedAfter : QueuedEvent → QueuedEvent → Type 0
IsServedAfter m y =
    (y.event.priority ≤ℤ m.event.priority)
    × ((leb_ℤ m.event.priority y.event.priority ≡ false) ⊎ (m.sequence < y.sequence))

Follows-IsServedAfter :
    (m y : QueuedEvent)
    → Follows m y
    → m.sequence ≢ y.sequence
    → IsKeyed m
    → IsKeyed y
    → IsServedAfter m y
unfolding Follows less
Follows-IsServedAfter m y l other k j =
    let (mp, mn) = negate_parts m.event.priority in
    let (yp, yn) = negate_parts y.event.priority in
    let k1 = ap pos_part k in
    let k2 = ap neg_part k in
    let j1 = ap pos_part j in
    let j2 = ap neg_part j in
    (
      ground arith,
      elim (Bool-cases (leb_ℤ m.event.priority y.event.priority)) [
        | inl a ↦ inr (ground arith)
        | inr b ↦ inl b
      ],
    )

All-IsServedAfter :
    (m : QueuedEvent) (ys : List QueuedEvent)
    → IsKeyed m
    → All IsKeyed ys
    → All (Follows m) ys
    → All (λ y. m.sequence ≢ y.sequence) ys
    → All (IsServedAfter m) ys
All-IsServedAfter m [] k j f a = tt
All-IsServedAfter m (y ∷ ys) k j f a =
    (Follows-IsServedAfter m y f.0 a.0 k j.0, All-IsServedAfter m ys k j.1 f.1 a.1)

get_from-first :
    (q rest : EventQueue) (xs : List QueuedEvent) (e : AgentEvent)
    → All IsKeyed xs
    → Apart xs
    → get_from xs q ≡ some (e, rest)
    → (m : QueuedEvent) × (m.event ≡ e)
      × Perm (m ∷ rest.queue) xs
      × All (IsServedAfter m) rest.queue
unfolding Apart
get_from-first q rest [] e k a h = absurd (ground arith)
get_from-first q rest (x ∷ xs) e k a h =
    let (keyed, others) = pop_least-All IsKeyed x xs k.0 k.1 in
    let same : (pop_least x xs).1 ≡ rest.queue = ground arith in
    (
      (pop_least x xs).0,
      ground arith,
      subst (λ l. Perm ((pop_least x xs).0 ∷ l) (x ∷ xs)) same (pop_least-perm x xs),
      subst (All (IsServedAfter (pop_least x xs).0)) same
          (All-IsServedAfter _ _ keyed others (pop_least-least x xs).1 (pop_least-Apart x xs a).0),
    )

-- After any calls on an empty queue, the event that `get` hands out was in the queue, exactly the
-- others remain, and none of these has a greater priority or, at the same priority, a number that
-- is not greater; the number of each member is its event's place in the order of arrival.
pub run-get :
    (cs : List Call) (e : AgentEvent) (rest : EventQueue)
    → get (run empty_queue cs) ≡ some (e, rest)
    → (m : QueuedEvent) × (m.event ≡ e)
      × Perm (m ∷ rest.queue) (run empty_queue cs).queue
      × All (IsServedAfter m) rest.queue
      × All (IsNumbered (arrivals cs)) (run empty_queue cs).queue
unfolding get
run-get cs e rest h =
    let q = run empty_queue cs in
    let i = run-IsQueue [] empty_queue cs empty-IsQueue in
    let (m, is, all_of, served) = get_from-first q rest q.queue e i.keyed i.apart h in
    (m, is, all_of, served, i.numbered)
