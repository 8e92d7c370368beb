-- ===== src/Streaming/Selections/Capacity.antt =====
-- The repository of app/adapters/streaming/in_memory_comment_ranking_repositories.py over any calls.
use ai_liver_yura.Common.{
  ℕ, suc, ◌≤◌, String, ◌≡◌, refl, ap, ◌∙◌, inl, inr, Bool, true, false, not, ◌&&◌, ◌||◌, Option,
  none, some, List, [], ◌∷◌, arith, leb, if◌then◌else◌, Bool-cases, ◌==◌, string_eq, nat_eq,
  pair_eq, option_eq, bool_eq, list_eq, beq_refl, length, All, All-append, All-map, contains,
}
use ai_liver_yura.Common.Dict.{Dict, get, set, has, get-set}
use ai_liver_yura.Streaming.Selections.{
  CommentResponseTarget, Key, Selections, new_selections, key_of, discard, evict, reserve,
  is_reserved, with_status, reversed, look, current, refreshed, get_selection, reserve_again,
  reserve_released, moved, transition, expire_all, invalidate_session,
}

length-evict :
    (capacity : ℕ) (items : Dict String CommentResponseTarget) (index : List Key)
    → length (evict capacity items index).0 ≤ capacity
unfolding evict
length-evict capacity [] index = omega arith
length-evict capacity ((id, t) ∷ items) index =
    ground (arith, length-evict capacity items (discard (key_of t) index))

length-set :
    (id : String) (t : CommentResponseTarget) (items : Dict String CommentResponseTarget)
    → has id items ≡ true
    → length (set id t items) ≡ length items
unfolding has get set
length-set id t [] h = absurd (ground arith)
length-set id t ((j, u) ∷ items) h = ground (arith, length-set id t items)

has-set :
    (id j : String) (t : CommentResponseTarget) (items : Dict String CommentResponseTarget)
    → has j items ≡ true
    → has j (set id t items) ≡ true
unfolding has
has-set id j t items h = ground (arith, get-set id j t items)

has-some :
    (id : String) (t : CommentResponseTarget) (items : Dict String CommentResponseTarget)
    → get id items ≡ some t
    → has id items ≡ true
unfolding has
has-some id t items h = ground (arith, h)

-- The entries of `rest` are entries of `items`.
AreIn : (rest items : Dict String CommentResponseTarget) → Type 0
AreIn rest items = All (λ p. has p.0 items ≡ true) rest

AreIn-self : (items : Dict String CommentResponseTarget) → AreIn items items
unfolding AreIn has get
AreIn-self [] = tt
AreIn-self ((id, t) ∷ items) =
    (ground (arith, beq_refl id), All-map _ _ items (λ p h. ground arith) (AreIn-self items))

All-reversed :
    (P : String × CommentResponseTarget → Type 0) (items : Dict String CommentResponseTarget)
    → All P items
    → All P (reversed items)
All-reversed P [] h = tt
All-reversed P (x ∷ xs) h = All-append P (reversed xs) (x ∷ []) (All-reversed P xs h.1) (h.0, tt)

length-look :
    (session : String) (now : ℕ) (rest items : Dict String CommentResponseTarget)
    → AreIn rest items
    → length (look session now rest items).1 ≡ length items
unfolding look AreIn
length-look session now [] items h = refl
length-look session now ((id, t) ∷ rest) items h =
    elim (Bool-cases (not (t.session_id == session) || not (is_reserved t))) [
      | inl y ↦ rw y (length-look session now rest items h.1)
      | inr n ↦ elim (Bool-cases (leb t.expires_at now)) [
        | inl late ↦
            rw (n, late)
              (length-look session now rest (set id (with_status t "expired") items)
                  (All-map _ _ rest (λ p k. has-set id p.0 (with_status t "expired") items k) h.1)
                ∙ length-set id (with_status t "expired") items h.0)
        | inr still ↦ rw (n, still) refl
      ]
    ]

current-length :
    (r : Selections) (session : String) (now : ℕ)
    → length (current r session now).1.items ≡ length r.items
unfolding current AreIn
current-length r session now =
    length-look session now (reversed r.items) r.items (All-reversed _ r.items (AreIn-self r.items))

pub data Call : Type 0 where
  reserves : CommentResponseTarget → Call
  asks_current : String → ℕ → Call
  gets : String → ℕ → Call
  reserves_again : String → ℕ → Call
  transitions : String → String → Call
  invalidates : String → Call

abbrev pub step : Selections → Call → Selections
step r (reserves t) = (reserve r t).1
step r (asks_current session now) = (current r session now).1
step r (gets id now) = (get_selection r id now).1
step r (reserves_again id expires) = (reserve_released r id expires).1
step r (transitions id status) = (transition r id status).1
step r (invalidates session) = invalidate_session r session

unfoldable pub run : Selections → List Call → Selections
run r [] = r
run r (c ∷ cs) = run (step r c) cs

record IsBounded (r s : Selections) : Type 0 where
  same : s.capacity ≡ r.capacity
  bound : length s.items ≤ s.capacity

refreshed-IsBounded :
    (r : Selections) (found : Option CommentResponseTarget) (now : ℕ)
    → length r.items ≤ r.capacity
    → IsBounded r (refreshed r found now)
unfolding current
refreshed-IsBounded r none now h = record { same = refl; bound = h }
refreshed-IsBounded r (some t) now h = elim (Bool-cases (is_reserved t)) [
  | inl y ↦
      rw y (record { same = refl; bound = omega (arith, h, current-length r t.session_id now) })
  | inr n ↦ rw n (record { same = refl; bound = h })
]

again-IsBounded :
    (r : Selections) (found : Option CommentResponseTarget) (id : String) (expires : ℕ)
    → get id r.items ≡ found
    → length r.items ≤ r.capacity
    → IsBounded r (reserve_again r found id expires).1
again-IsBounded r none id expires f h = record { same = refl; bound = h }
again-IsBounded r (some t) id expires f h = elim (Bool-cases (t.reservation_status == "released")) [
  | inl y ↦ rw y (record {
    same = refl;
    bound = omega (arith, h, length-set id _ r.items (has-some id t r.items f));
  })
  | inr n ↦ rw n (record { same = refl; bound = h })
]

moved-IsBounded :
    (r : Selections) (found : Option CommentResponseTarget) (id status : String)
    → get id r.items ≡ found
    → length r.items ≤ r.capacity
    → IsBounded r (moved r found id status).1
moved-IsBounded r none id status f h = record { same = refl; bound = h }
moved-IsBounded r (some t) id status f h = elim (Bool-cases (is_reserved t)) [
  | inl y ↦ rw y (record {
    same = refl;
    bound =
        omega (arith, h, length-set id (with_status t status) r.items (has-some id t r.items f));
  })
  | inr n ↦ rw n (record { same = refl; bound = h })
]

length-expire_all :
    (session : String) (items : Dict String CommentResponseTarget)
    → length (expire_all session items) ≡ length items
length-expire_all session [] = refl
length-expire_all session ((id, t) ∷ items) = ap suc (length-expire_all session items)

reserve-IsBounded :
    (r : Selections) (t : CommentResponseTarget)
    → length r.items ≤ r.capacity
    → IsBounded r (reserve r t).1
unfolding reserve
reserve-IsBounded r t h = elim (Bool-cases (contains r.candidate_index (key_of t))) [
  | inl y ↦ rw y (record { same = refl; bound = h })
  | inr n ↦ rw n (record {
    same = refl;
    bound = length-evict r.capacity (set t.selection_id t r.items) (key_of t ∷ r.candidate_index);
  })
]

step-IsBounded : (r : Selections) (c : Call) → length r.items ≤ r.capacity → IsBounded r (step r c)
unfolding current get_selection reserve_released transition invalidate_session
step-IsBounded r (reserves t) h = reserve-IsBounded r t h
step-IsBounded r (asks_current session now) h = record {
  same = refl;
  bound = omega (arith, h, current-length r session now);
}
step-IsBounded r (gets id now) h = refreshed-IsBounded r (get id r.items) now h
step-IsBounded r (reserves_again id expires) h =
    again-IsBounded r (get id r.items) id expires refl h
step-IsBounded r (transitions id status) h = moved-IsBounded r (get id r.items) id status refl h
step-IsBounded r (invalidates session) h = record {
  same = refl;
  bound = omega (arith, h, length-expire_all session r.items);
}

run-IsBounded :
    (r : Selections) (cs : List Call) → length r.items ≤ r.capacity → IsBounded r (run r cs)
unfolding run
run-IsBounded r [] h = record { same = refl; bound = h }
run-IsBounded r (c ∷ cs) h =
    let first = step-IsBounded r c h in
    let rest = run-IsBounded (step r c) cs first.bound in
    record { same = rest.same ∙ first.same; bound = rest.bound }

-- After any calls on a new repository, it holds no more selections than its capacity.
pub length-run :
    (capacity : ℕ) (cs : List Call) → length (run (new_selections capacity) cs).items ≤ capacity
length-run capacity cs =
    let kept = run-IsBounded (new_selections capacity) cs (omega arith) in
    omega (arith, kept.bound, kept.same)

-- The entries that the search for the current selection of a session passes over.
Skips : String → String × CommentResponseTarget → Type 0
Skips session p = (not (p.1.session_id == session) || not (is_reserved p.1)) ≡ true

look-Skips :
    (session : String) (now : ℕ) (rest items : Dict String CommentResponseTarget)
    → All (Skips session) rest
    → (look session now rest items).0 ≡ none
unfolding look Skips
look-Skips session now [] items h = refl
look-Skips session now ((id, t) ∷ rest) items h = rw h.0 (look-Skips session now rest items h.1)

or-true : (b : Bool) → (b || true) ≡ true
or-true true = refl
or-true false = refl

expired-Skips :
    (session id : String) (t : CommentResponseTarget)
    → Skips session
        (id, if t.session_id == session && is_reserved t then with_status t "expired" else t)
unfolding Skips
expired-Skips session id t = elim (Bool-cases (t.session_id == session)) [
  | inl mine ↦ elim (Bool-cases (is_reserved t)) [
    | inl y ↦ rw (mine, y) (or-true (not (t.session_id == session)))
    | inr n ↦ rw (mine, n) (rw n (or-true (not (t.session_id == session))))
  ]
  | inr other ↦ rw other (rw other refl)
]

expire_all-Skips :
    (session : String) (items : Dict String CommentResponseTarget)
    → All (Skips session) (expire_all session items)
unfolding Skips
expire_all-Skips session [] = tt
expire_all-Skips session ((id, t) ∷ items) =
    (expired-Skips session id t, expire_all-Skips session items)

-- A session that was invalidated has no current selection at any time, whatever the repository held
-- before.
pub current-invalidate_session :
    (r : Selections) (session : String) (now : ℕ)
    → (current (invalidate_session r session) session now).0 ≡ none
unfolding current invalidate_session Skips
current-invalidate_session r session now =
    look-Skips session now (reversed (expire_all session r.items)) (expire_all session r.items)
      (All-reversed (Skips session) (expire_all session r.items) (expire_all-Skips session r.items))
