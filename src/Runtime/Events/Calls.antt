-- ===== src/Runtime/Events/Calls.antt =====
-- The calls of app/runtime/event_queue.py: what the queue holds after any of them.
use mathlib.Core.List.{Perm, append_assoc, append-nil}
use mathlib.Core.List.Perm
use ai_liver_yura.Common.{
  ℕ, zero, suc, ◌<◌, ◌≡◌, ◌≢◌, refl, sym, subst, inl, inr, Bool, true, false, Option, none, some,
  List, [], ◌∷◌, ◌++◌, arith, length, length-append, if◌then◌else◌, Bool-cases, string_eq, nat_eq,
  pair_eq, option_eq, bool_eq, list_eq, All,
}
use ai_liver_yura.Common.Int.{negate}
use ai_liver_yura.Runtime.Events.{
  AgentEvent, QueuedEvent, EventQueue, empty_queue, less, put, pop_least, get_from, get,
}

pub data Call : Type 0 where
  puts : AgentEvent → Call
  gets : Call

abbrev pub after_get : EventQueue → Option (AgentEvent × EventQueue) → EventQueue
after_get q none = q
after_get q (some (e, rest)) = rest

unfoldable pub step : EventQueue → Call → EventQueue
unfolding put get
step q (puts e) = put q e
step q gets = after_get q (get q)

unfoldable pub run : EventQueue → List Call → EventQueue
unfolding step
run q [] = q
run q (c ∷ cs) = run (step q c) cs

pub pop_least-perm :
    (x : QueuedEvent) (xs : List QueuedEvent)
    → Perm ((pop_least x xs).0 ∷ (pop_least x xs).1) (x ∷ xs)
unfolding pop_least
pop_least-perm x [] = Perm.rfl
pop_least-perm x (y ∷ ys) = elim (Bool-cases (less y x)) [
  | inl l ↦ rw l (Perm.trans (Perm.swap x _ _) (Perm.cons x (pop_least-perm y ys)))
  | inr n ↦ rw n (
      Perm.trans (Perm.swap y _ _)
        (Perm.trans (Perm.cons y (pop_least-perm x ys)) (Perm.swap x y ys)))
]

-- A member's sort key is its event's priority, negated.
abbrev pub IsKeyed : QueuedEvent → Type 0
IsKeyed x = x.sort_priority ≡ negate x.event.priority

pub pop_least-All :
    (P : QueuedEvent → Type 0) (x : QueuedEvent) (xs : List QueuedEvent)
    → P x
    → All P xs
    → P (pop_least x xs).0 × All P (pop_least x xs).1
unfolding pop_least
pop_least-All P x [] p a = (p, tt)
pop_least-All P x (y ∷ ys) p a = elim (Bool-cases (less y x)) [
  | inl l ↦ rw l (let (least, others) = pop_least-All P y ys a.0 a.1 in (least, (p, others)))
  | inr n ↦ rw n (let (least, others) = pop_least-All P x ys p a.1 in (least, (a.0, others)))
]

-- No two of the members have the same sequence number.
unfoldable pub Apart : List QueuedEvent → Type 0
Apart [] = Unit {0}
Apart (x ∷ xs) = All (λ y. x.sequence ≢ y.sequence) xs × Apart xs

-- What the loop puts back differs from what it keeps and from the others.
Apart-swap :
    (b : Bool) (x y : QueuedEvent) (ys : List QueuedEvent)
    → Apart (x ∷ y ∷ ys)
    → All
        (λ (z : QueuedEvent). (if b then x else y).sequence ≢ z.sequence)
        ((if b then y else x) ∷ ys)
      × Apart ((if b then y else x) ∷ ys)
unfolding Apart
Apart-swap true x y ys (a, (b, d)) = (a, (b, d))
Apart-swap false x y ys (a, (b, d)) = ((λ e. a.0 (sym e), b), (a.1, d))

pub pop_least-Apart :
    (x : QueuedEvent) (xs : List QueuedEvent)
    → Apart (x ∷ xs)
    → Apart ((pop_least x xs).0 ∷ (pop_least x xs).1)
unfolding Apart pop_least
pop_least-Apart x [] a = a
pop_least-Apart x (y ∷ ys) a =
    let k = (if less y x then y else x) in
    let (put_back, kept) = Apart-swap (less y x) x y ys a in
    let (others, apart) = pop_least-Apart k ys kept in
    let (least, rest) = pop_least-All _ k ys put_back.0 put_back.1 in
    ((λ e. least (sym e), others), (rest, apart))

-- The events that the calls put, in the order of the calls.
abbrev pub arrivals : List Call → List AgentEvent
arrivals [] = []
arrivals (puts e ∷ cs) = e ∷ arrivals cs
arrivals (gets ∷ cs) = arrivals cs

-- The event with this number, the first having 0.
abbrev pub get_elem? : List AgentEvent → ℕ → Option AgentEvent
get_elem? [] n = none
get_elem? (e ∷ es) zero = some e
get_elem? (e ∷ es) (suc n) = get_elem? es n

get_elem?-append :
    (es fs : List AgentEvent) (n : ℕ) (e : AgentEvent)
    → get_elem? es n ≡ some e
    → (get_elem? (es ++ fs) n ≡ some e) × (n < length es)
get_elem?-append [] fs n e h = absurd (ground arith)
get_elem?-append (x ∷ es) fs zero e h = (h, omega arith)
get_elem?-append (x ∷ es) fs (suc n) e h =
    let (same, less_) = get_elem?-append es fs n e h in (same, omega (arith, less_))

get_elem?-last :
    (es : List AgentEvent) (e : AgentEvent) → get_elem? (es ++ e ∷ []) (length es) ≡ some e
get_elem?-last [] e = refl
get_elem?-last (x ∷ es) e = get_elem?-last es e

-- A member's sequence number is the place of its event among those that arrived.
abbrev pub IsNumbered : List AgentEvent → QueuedEvent → Type 0
IsNumbered past x = get_elem? past x.sequence ≡ some x.event

-- What holds of a queue where `past` is what has arrived.
pub record IsQueue (past : List AgentEvent) (q : EventQueue) : Type 0 where
  pub counted : q.sequence ≡ length past
  pub keyed : All IsKeyed q.queue
  pub numbered : All (IsNumbered past) q.queue
  pub apart : Apart q.queue

IsNumbered-later :
    (past more : List AgentEvent) (xs : List QueuedEvent)
    → All (IsNumbered past) xs
    → All (IsNumbered (past ++ more)) xs × All (λ (x : QueuedEvent). x.sequence < length past) xs
IsNumbered-later past more [] h = (tt, tt)
IsNumbered-later past more (x ∷ xs) (h, hs) =
    let (same, less_) = get_elem?-append past more x.sequence x.event h in
    let (others, below) = IsNumbered-later past more xs hs in ((same, others), (less_, below))

above-apart :
    (n : ℕ) (xs : List QueuedEvent)
    → All (λ (x : QueuedEvent). x.sequence < n) xs
    → All (λ (x : QueuedEvent). n ≢ x.sequence) xs
above-apart n [] h = tt
above-apart n (x ∷ xs) (h, hs) = (λ e. omega (arith, e, h), above-apart n xs hs)

put-IsQueue :
    (past : List AgentEvent) (q : EventQueue) (e : AgentEvent)
    → IsQueue past q
    → IsQueue (past ++ e ∷ []) (put q e)
unfolding put Apart
put-IsQueue past q e i =
    let (others, below) = IsNumbered-later past (e ∷ []) q.queue i.numbered in
    record {
      counted = omega (arith, i.counted, length-append past (e ∷ []));
      keyed = (refl, i.keyed);
      numbered = (
        subst (λ n. get_elem? (past ++ e ∷ []) n ≡ some e) (sym i.counted) (get_elem?-last past e),
        others,
      );
      apart = (
        subst (λ n. All (λ (x : QueuedEvent). n ≢ x.sequence) q.queue) (sym i.counted)
            (above-apart (length past) q.queue below),
        i.apart,
      );
    }

get_from-IsQueue :
    (past : List AgentEvent) (q : EventQueue) (xs : List QueuedEvent)
    → q.queue ≡ xs
    → IsQueue past q
    → IsQueue past (after_get q (get_from xs q))
unfolding Apart
get_from-IsQueue past q [] e i = i
get_from-IsQueue past q (x ∷ xs) e i =
    let keyed = subst (All IsKeyed) e i.keyed in
    let numbered = subst (All (IsNumbered past)) e i.numbered in
    record {
      counted = i.counted;
      keyed = (pop_least-All IsKeyed x xs keyed.0 keyed.1).1;
      numbered = (pop_least-All (IsNumbered past) x xs numbered.0 numbered.1).1;
      apart = (pop_least-Apart x xs (subst Apart e i.apart)).1;
    }

pub empty-IsQueue : IsQueue [] empty_queue
unfolding Apart
empty-IsQueue = record { counted = refl; keyed = tt; numbered = tt; apart = tt }

pub run-IsQueue :
    (past : List AgentEvent) (q : EventQueue) (cs : List Call)
    → IsQueue past q
    → IsQueue (past ++ arrivals cs) (run q cs)
unfolding run step get
run-IsQueue past q [] i = subst (λ l. IsQueue l q) (sym (append-nil past)) i
run-IsQueue past q (puts e ∷ cs) i =
    subst (λ l. IsQueue l (run (put q e) cs)) (append_assoc past (e ∷ []) (arrivals cs))
      (run-IsQueue (past ++ e ∷ []) (put q e) cs (put-IsQueue past q e i))
run-IsQueue past q (gets ∷ cs) i = run-IsQueue past _ cs (get_from-IsQueue past q q.queue refl i)
