-- ===== src/Streaming/Session/Approval.antt =====
-- Who approved the start of a stream: what `start_approved_by` promises of a session on air.
use ai_liver_yura.Streaming.Session.Status.{
  StreamSessionStatus, created, preparing, failed, start_approved, allowed,
}
use ai_liver_yura.Streaming.Session.{
  StreamSession, TransitionArgs, transition, moved, attach_opening, attach_main_segment, opened,
  segmented, create,
}
use ai_liver_yura.Streaming.Session.Transitions.{attach_opening-ok, attach_main_segment-ok}
use ai_liver_yura.Streaming.Session.History.{
  Call, transitions, call, run, attaches_opening, attaches_segment,
}
use ai_liver_yura.Common.{
  ℕ, String, ◌≡◌, subst, ◌⊎◌, inl, inr, Bool, true, false, not, Option, none, some, List, [], ◌∷◌,
  arith, Bool-cases, string_eq, nat_eq, pair_eq, option_eq, Result-cases, All, is_empty, or_none,
}

-- A call that does not approve a start, or names who approves it.
abbrev names_someone : Option String → Bool
names_someone none = false
names_someone (some name) = not (is_empty name)

abbrev pub NamesApprover : Call → Type 0
NamesApprover (transitions start_approved args now) = names_someone args.start_approved_by ≡ true
NamesApprover _ = Unit

-- Every status but those of a session in preparation comes after an approval.
abbrev pub after_approval : StreamSessionStatus → Bool
after_approval created = false
after_approval preparing = false
after_approval StreamSessionStatus.ready = false
after_approval failed = false
after_approval _ = true

abbrev IsApproved : StreamSession → Type 0
IsApproved s = after_approval s.status ≡ true → (name : String) × (s.start_approved_by ≡ some name)

allowed-after_approval :
    (a b : StreamSessionStatus)
    → allowed a b ≡ true
    → after_approval b ≡ true
    → (after_approval a ≡ true) ⊎ (b ≡ start_approved)
unfolding allowed
allowed-after_approval created b h k = ground arith
allowed-after_approval _ b h k = ground arith

or_none-some :
    (o d : Option String) {name : String}
    → d ≡ some name
    → (kept : String) × (or_none o d ≡ some kept)
or_none-some none d {name} e = (name, e)
or_none-some (some o) d {name} e = elim (Bool-cases (is_empty o)) [
  | inl y ↦ (name, rw y e)
  | inr n ↦ (o, rw n)
]

or_none-names :
    (o d : Option String) → names_someone o ≡ true → (kept : String) × (or_none o d ≡ some kept)
or_none-names none d h = absurd (ground arith)
or_none-names (some o) d h = elim (Bool-cases (is_empty o)) [
  | inl y ↦ absurd (ground arith)
  | inr n ↦ (o, rw n)
]

moved-IsApproved :
    (s : StreamSession) (t : StreamSessionStatus) (args : TransitionArgs) (now : ℕ)
    → allowed s.status t ≡ true
    → NamesApprover (transitions t args now)
    → IsApproved s
    → IsApproved (moved s t args now)
moved-IsApproved s t args now y named p h = elim (allowed-after_approval s.status t y h) [
  | inl before ↦
      let (name, e) = p before in or_none-some args.start_approved_by s.start_approved_by e
  | inr e ↦
      or_none-names args.start_approved_by s.start_approved_by
        (subst (λ u. NamesApprover (transitions u args now)) e named)
]

run-IsApproved :
    (s : StreamSession) (cs : List Call)
    → All NamesApprover cs
    → IsApproved s
    → IsApproved (run s cs)
unfolding run call transition
run-IsApproved s [] named p = p
run-IsApproved s (transitions t args now ∷ cs) named p = elim (Bool-cases (allowed s.status t)) [
  | inl y ↦
      rw (y, run, call, transition)
        (run-IsApproved (moved s t args now) cs named.1 (moved-IsApproved s t args now y named.0 p))
  | inr n ↦ rw (n, run, call, transition) (run-IsApproved s cs named.1 p)
]
run-IsApproved s (attaches_opening a now ∷ cs) named p =
    elim (Result-cases (attach_opening s a now)) [
      | inl (s', e) ↦
          let (_, _, is) = attach_opening-ok s s' a now e in
          rw (e, run, call, is) (run-IsApproved (opened s a now) cs named.1 p)
      | inr (x, e) ↦ rw (e, run, call) (run-IsApproved s cs named.1 p)
    ]
run-IsApproved s (attaches_segment g a now ∷ cs) named p =
    elim (Result-cases (attach_main_segment s g a now)) [
      | inl (s', e) ↦
          let (_, is) = attach_main_segment-ok s s' g a now e in
          rw (e, run, call, is) (run-IsApproved (segmented s g a now) cs named.1 p)
      | inr (x, e) ↦ rw (e, run, call) (run-IsApproved s cs named.1 p)
    ]

-- As long as every approving call names its approver, a session that came from its creation to a
-- status after the preparation (it is starting, on air, ending or over) records who approved the
-- start.
pub run-create-approver :
    (trace broadcast title id : String) (now : ℕ) (cs : List Call)
    → All NamesApprover cs
    → after_approval (run (create trace broadcast title id now) cs).status ≡ true
    → (name : String) × ((run (create trace broadcast title id now) cs).start_approved_by
        ≡ some name)
unfolding create
run-create-approver trace broadcast title id now cs named =
    run-IsApproved (create trace broadcast title id now) cs named (λ h. absurd (ground arith))
