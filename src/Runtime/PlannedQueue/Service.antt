-- ===== src/Runtime/PlannedQueue/Service.antt =====
-- In which order the queue serves its activities, and that it loses none.
use mathlib.Core.List.{Perm, perm_middle, append-nil}
use mathlib.Core.List.Perm
use ai_liver_yura.Common.{
  ℕ, ◌≡◌, refl, subst, ◌↔◌, inl, inr, Bool, true, false, not, none, some, List, [], ◌∷◌, ◌++◌,
  arith, Bool-cases, string_eq, nat_eq, pair_eq, option_eq, bool_eq, keep, All,
}
use ai_liver_yura.Common.Order.{
  IsOrder, IsSorted, sort-IsSorted, sort-perm, keep-sort, keep-IsSorted,
}
use ai_liver_yura.Runtime.PlannedQueue.{
  PlannedActivity, PlannedActivityQueue, effective_priority, is_expired, before, put, extend,
  partition, sort_locked, discard_where, discard_expired, get, peek, clear, pop_first,
}

pub before-IsOrder : IsOrder before
unfolding before effective_priority
before-IsOrder = record { total = λ a b. ground arith; trans = λ a b c h k. ground arith }

-- A partition is what passes the test and what does not, each in its order.
partition-keep :
    (test : PlannedActivity → Bool) (q : List PlannedActivity)
    → partition test q ≡ (keep test q, keep (λ x. not (test x)) q)
unfolding partition
partition-keep test [] = refl
partition-keep test (x ∷ xs) = ground (arith, partition-keep test xs)

partition-perm :
    (test : PlannedActivity → Bool) (q : List PlannedActivity)
    → Perm ((partition test q).0 ++ (partition test q).1) q
unfolding partition
partition-perm test [] = Perm.rfl
partition-perm test (x ∷ xs) = elim (Bool-cases (test x)) [
  | inl y ↦ rw y (Perm.cons x (partition-perm test xs))
  | inr n ↦ rw n (
      Perm.trans (perm_middle (partition test xs).0 (partition test xs).1)
        (Perm.cons x (partition-perm test xs)))
]

abbrev pub in_time : ℕ → PlannedActivity → Bool
in_time now x = not (is_expired now x)

pub data Call : Type 0 where
  puts : PlannedActivity → Call
  extends : List PlannedActivity → Call
  gets peeks discards_expired : ℕ → Call
  discards : (PlannedActivity → Bool) → Call
  clears : Call

unfoldable pub step : PlannedActivityQueue → Call → PlannedActivityQueue
step q (puts a) = put a q
step q (extends new) = extend new q
step q (gets now) = (get now q).1
step q (peeks now) = (peek now q).1
step q (discards_expired now) = (discard_expired now q).1
step q (discards test) = (discard_where test q).1
step q clears = clear q

unfoldable pub run : PlannedActivityQueue → List Call → PlannedActivityQueue
unfolding step
run q [] = q
run q (c ∷ cs) = run (step q c) cs

abbrev pub InOrder : PlannedActivityQueue → Type 0
InOrder q = IsSorted before q

partition-InOrder :
    (test : PlannedActivity → Bool) (q : PlannedActivityQueue)
    → InOrder q
    → InOrder (partition test q).1
partition-InOrder test q h =
    rw (partition-keep test q) (keep-IsSorted before (λ x. not (test x)) q h)

active-InOrder :
    (now : ℕ) (q : PlannedActivityQueue) → InOrder q → InOrder (discard_expired now q).1
unfolding discard_expired
active-InOrder now q h = partition-InOrder (is_expired now) q h

tail-InOrder : (q : PlannedActivityQueue) → InOrder q → InOrder (pop_first q).1
tail-InOrder [] h = tt
tail-InOrder (x ∷ xs) h = h.1

step-InOrder : (q : PlannedActivityQueue) (c : Call) → InOrder q → InOrder (step q c)
unfolding step put extend sort_locked get peek clear discard_where
step-InOrder q (puts a) h = sort-IsSorted before before-IsOrder (q ++ a ∷ [])
step-InOrder q (extends new) h = sort-IsSorted before before-IsOrder (q ++ new)
step-InOrder q (gets now) h = tail-InOrder (discard_expired now q).1 (active-InOrder now q h)
step-InOrder q (peeks now) h = active-InOrder now q h
step-InOrder q (discards_expired now) h = active-InOrder now q h
step-InOrder q (discards test) h = partition-InOrder test q h
step-InOrder q clears h = tt

-- After any history of calls the queue is in the order of priority, the later created first.
pub run-InOrder : (q : PlannedActivityQueue) (cs : List Call) → InOrder q → InOrder (run q cs)
unfolding run
run-InOrder q [] h = h
run-InOrder q (c ∷ cs) h = run-InOrder (step q c) cs (step-InOrder q c h)

pop_first-some :
    (now : ℕ) (l q' : List PlannedActivity) (a : PlannedActivity)
    → InOrder l
    → pop_first l ≡ (some a, q')
    → (l ≡ a ∷ q') × All (λ b. before a b ≡ true) q'
pop_first-some now [] q' a h e = absurd (ground arith)
pop_first-some now (x ∷ xs) q' a h e =
    let same : x ≡ a = ground arith in
    let rest : xs ≡ q' = ground arith in
    (
      ground arith,
      subst (λ y. All (λ b. before y b ≡ true) q') same
          (subst (λ l. All (λ b. before x b ≡ true) l) rest h.0),
    )

in_time-head :
    (now : ℕ) (q : List PlannedActivity) (a : PlannedActivity) (r : List PlannedActivity)
    → keep (in_time now) q ≡ a ∷ r
    → is_expired now a ≡ false
in_time-head now [] a r e = absurd (ground arith)
in_time-head now (x ∷ xs) a r e = elim (Bool-cases (is_expired now x)) [
  | inl y ↦ in_time-head now xs a r (ground arith)
  | inr n ↦ ground arith
]

-- `get` on a queue in order takes the first of the activities that are in time, keeps the other
-- ones, and none of those should have been taken before it.
pub get-some :
    (now : ℕ) (q q' : PlannedActivityQueue) (a : PlannedActivity)
    → InOrder q
    → get now q ≡ (some a, q')
    → (keep (in_time now) q ≡ a ∷ q') × (is_expired now a ≡ false) × All (λ b. before a b ≡ true) q'
unfolding get discard_expired
get-some now q q' a h e =
    let found =
      pop_first-some now (keep (in_time now) q) q' a (keep-IsSorted before (in_time now) q h)
        (rw (partition-keep (is_expired now) q) at e) in
    (found.0, in_time-head now q a q' found.0, found.1)

none_iff :
    (now : ℕ) (q : PlannedActivityQueue)
    → ((pop_first (keep (in_time now) q)).0 ≡ none) ↔ All (λ a. is_expired now a ≡ true) q
none_iff now [] = ground arith
none_iff now (x ∷ xs) = ground (arith, none_iff now xs)

-- `get` finds nothing exactly when every activity in the queue has expired.
pub get-none_iff :
    (now : ℕ) (q : PlannedActivityQueue)
    → ((get now q).0 ≡ none) ↔ All (λ a. is_expired now a ≡ true) q
unfolding get discard_expired
get-none_iff now q = rw (partition-keep (is_expired now) q) (none_iff now q)

-- What a put adds, and what an expiry takes out and leaves, is all that there was.
pub put-perm : (a : PlannedActivity) (q : PlannedActivityQueue) → Perm (put a q) (a ∷ q)
unfolding put sort_locked
put-perm a q =
    Perm.trans (sort-perm before (q ++ a ∷ []))
      (Perm.trans (perm_middle q []) (rw append-nil Perm.rfl))

pub discard_expired-perm :
    (now : ℕ) (q : PlannedActivityQueue)
    → Perm ((discard_expired now q).0 ++ (discard_expired now q).1) q
unfolding discard_expired
discard_expired-perm now q = partition-perm (is_expired now) q

-- Activities that tie (each may stand before the other) leave in the order in which they came.
pub put-ties :
    (p : PlannedActivity → Bool) (a : PlannedActivity) (q : PlannedActivityQueue)
    → ((x y : PlannedActivity) → p x ≡ true → p y ≡ true → before x y ≡ true)
    → keep p (put a q) ≡ keep p (q ++ a ∷ [])
unfolding put sort_locked
put-ties p a q tie = keep-sort before p tie (q ++ a ∷ [])
