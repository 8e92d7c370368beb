-- ===== src/Events/Broker/Replay.antt =====
-- What a new subscriber is replayed.
use mathlib.Core.List.{append_assoc}
use ai_liver_yura.Common.{
  ℕ, ◌-◌, ◌≤◌, String, ◌≡◌, refl, sym, ap, ◌∙◌, subst, inl, inr, Option, none, some, List, [], ◌∷◌,
  ◌++◌, arith, ltb, Bool-cases, Option-cases, ◌==◌, string_eq, nat_eq, pair_eq, option_eq, bool_eq,
  list_eq, length, take, length-drop, take-append-drop,
}
use ai_liver_yura.Events.Broker.{ApplicationEvent, select_replay, behind, cut, last_of}

module _ {Payload : Type 0} where
  -- `replay` is an end of `history`, and `reason` says whether something may be missing before it.
  pub record IsReplay (limit : ℕ) (history replay : List (ApplicationEvent Payload)) : Type 0 where
    pub before : List (ApplicationEvent Payload)
    pub is_end : history ≡ before ++ replay
    pub bounded : length replay ≤ limit

  length-last_of : (n : ℕ) (xs : List (ApplicationEvent Payload)) → length (last_of n xs) ≤ n
  length-last_of n xs = omega (arith, length-drop (length xs - n) xs)

  cut-IsReplay :
      (limit : ℕ) (history before events : List (ApplicationEvent Payload)) (reason : Option String)
      → history ≡ before ++ events
      → IsReplay limit history (cut limit (events, reason)).0
  cut-IsReplay limit history before events reason e =
      elim (Bool-cases (ltb limit (length events))) [
        | inl long ↦ rw long (record {
          before = before ++ take (length events - limit) events;
          is_end =
              e
              ∙ ap (◌++◌ before) (sym (take-append-drop (length events - limit) events))
              ∙ sym (append_assoc before _ _);
          bounded = length-last_of limit events;
        })
        | inr short ↦ rw short (record { before = before; is_end = e; bounded = ground arith })
      ]

  -- What stands before the events behind an identifier: others, and then the event itself.
  behind-split :
      (id : String) (history rest : List (ApplicationEvent Payload))
      → behind id history ≡ some rest
      → (before : List (ApplicationEvent Payload)) × (e : ApplicationEvent Payload) × (history
          ≡ before ++ e ∷ rest)
        × (e.event_id ≡ id)
  unfolding behind
  behind-split id [] rest h = absurd (ground arith)
  behind-split id (e ∷ es) rest h = elim (Bool-cases (e.event_id == id)) [
    | inl y ↦ ([], e, ground arith, (string_eq.beq_iff e.event_id id).0 y)
    | inr n ↦
        let (before, f, is, same) = behind-split id es rest (ground arith) in
        (e ∷ before, f, ap (◌∷◌ e) is, same)
  ]

  pub select_replay-IsReplay :
      (limit : ℕ) (history : List (ApplicationEvent Payload)) (last : Option String)
      → IsReplay limit history (select_replay limit history last).0
  unfolding select_replay
  select_replay-IsReplay limit history none = cut-IsReplay limit history [] history none refl
  select_replay-IsReplay limit history (some id) = elim (Option-cases (behind id history)) [
    | inl e ↦ rw e (cut-IsReplay limit history [] history (some "last_event_id_unavailable") refl)
    | inr (rest, e) ↦
        let (before, f, is, same) = behind-split id history rest e in
        rw e (
          cut-IsReplay limit history (before ++ f ∷ []) rest none
            (is ∙ sym (append_assoc before (f ∷ []) rest)))
  ]

  cut-none :
      (limit : ℕ) (events replay : List (ApplicationEvent Payload)) (reason : Option String)
      → cut limit (events, reason) ≡ (replay, none)
      → (events ≡ replay) × (reason ≡ none)
  cut-none limit events replay none h = ground arith
  cut-none limit events replay (some r) h = ground arith

  -- A replay without a resync reason misses nothing: it is all of the history that stands behind
  -- the event with the identifier that the subscriber saw last.
  pub select_replay_complete :
      (limit : ℕ) (history replay : List (ApplicationEvent Payload)) (id : String)
      → select_replay limit history (some id) ≡ (replay, none)
      → (before : List (ApplicationEvent Payload)) × (e : ApplicationEvent Payload) × (history
          ≡ before ++ e ∷ replay)
        × (e.event_id ≡ id)
  unfolding select_replay
  select_replay_complete limit history replay id h = elim (Option-cases (behind id history)) [
    | inl e ↦
        let h' : cut limit (history, some "last_event_id_unavailable") ≡ (replay, none) =
          rw e at h in
        absurd (ground (arith, cut-none limit history replay (some "last_event_id_unavailable") h'))
    | inr (rest, e) ↦
        let h' : cut limit (rest, none) ≡ (replay, none) = rw e at h in
        subst
          (λ r.
            (before : List (ApplicationEvent Payload)) × (f : ApplicationEvent Payload) × (history
              ≡ before ++ f ∷ r)
            × (f.event_id ≡ id))
          (cut-none limit rest replay none h').0 (behind-split id history rest e)
  ]
