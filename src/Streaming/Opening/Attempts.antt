-- ===== src/Streaming/Opening/Attempts.antt =====
-- What the fields of an opening say of its status, over any history of its transitions.
use ai_liver_yura.Common.{
  ℕ, ◌≤◌, String, ◌≡◌, refl, inl, inr, Bool, true, false, ◌&&◌, Option, List, [], ◌∷◌, arith, ltb,
  Bool-cases, string_eq, nat_eq, pair_eq, option_eq, bool_eq, list_eq, Result, ok, err, is_some,
  nat_beq,
}
use ai_liver_yura.Streaming.Gate.Policy.{ActivityStatus, pending, completed, canceled}
use ai_liver_yura.Streaming.Opening.{
  StreamOpeningActivity, OpeningArgs, OpeningError, opening_allowed, opening_moved,
  opening_transition, new_opening, is_failed, is_settled,
}

abbrev pub is_done : ActivityStatus → Bool
is_done completed = true
is_done canceled = true
is_done _ = false

-- A status that only an attempt leads to.
abbrev pub is_attempted : ActivityStatus → Bool
is_attempted pending = false
is_attempted canceled = false
is_attempted _ = true

pub data Call (Value : Type 0) : Type 0 where
  moves : ActivityStatus → OpeningArgs Value → ℕ → Call Value

opening_allowed-is_done : (a b : ActivityStatus) → is_done a ≡ true → opening_allowed a b ≡ false
unfolding opening_allowed
opening_allowed-is_done a b d = ground arith

module _ {Value : Type 0} where
  abbrev pub after :
      StreamOpeningActivity Value
      → Result OpeningError (StreamOpeningActivity Value)
      → StreamOpeningActivity Value
  after a (ok a') = a'
  after a (err e) = a

  unfoldable pub run : StreamOpeningActivity Value → List (Call Value) → StreamOpeningActivity Value
  unfolding opening_transition
  run a [] = a
  run a (moves status args now ∷ cs) = run (after a (opening_transition a status args now)) cs

  pub record IsOpening (a : StreamOpeningActivity Value) : Type 0 where
    pub flagged : a.manual_intervention_required ≡ is_failed a.status
    pub dated : is_some a.completed_at ≡ is_settled a.status
    pub begun : is_some a.started_at ≡ ltb 0 a.attempt
    pub attempted : (is_attempted a.status && nat_beq a.attempt 0) ≡ false
    pub counted : a.attempt ≤ a.version

  moved-IsOpening :
      (a : StreamOpeningActivity Value) (status : ActivityStatus) (args : OpeningArgs Value)
      (now : ℕ)
      → opening_allowed a.status status ≡ true
      → IsOpening a
      → IsOpening (opening_moved a status args now)
  unfolding opening_allowed
  moved-IsOpening a status args now h i =
      let begun = i.begun in
      let attempted = i.attempted in
      let counted = i.counted in
      record {
        flagged = refl;
        dated = ground arith;
        begun = ground arith;
        attempted = ground arith;
        counted = ground arith;
      }

  run-IsOpening :
      (a : StreamOpeningActivity Value) (cs : List (Call Value))
      → IsOpening a
      → IsOpening (run a cs)
  unfolding run opening_transition
  run-IsOpening a [] i = i
  run-IsOpening a (moves status args now ∷ cs) i =
      elim (Bool-cases (opening_allowed a.status status)) [
        | inl y ↦
            rw (y, run, opening_transition)
              (run-IsOpening (opening_moved a status args now) cs
                (moved-IsOpening a status args now y i))
        | inr n ↦ rw (n, run, opening_transition) (run-IsOpening a cs i)
      ]

  -- After any transitions of a new opening it asks for an operator exactly while it has failed, has
  -- an end time exactly if it is completed, failed or canceled, has a start time exactly if there
  -- was an attempt, is running, waiting, completed or failed only with an attempt, and has counted no
  -- more attempts than versions.
  pub run-new_opening-IsOpening :
      (session trace activity : String) (segment : Option String) (cs : List (Call Value))
      → IsOpening (run (new_opening session trace segment activity) cs)
  unfolding new_opening
  run-new_opening-IsOpening session trace activity segment cs = run-IsOpening _ cs (record {
    flagged = refl;
    dated = refl;
    begun = refl;
    attempted = refl;
    counted = omega arith;
  })

  -- An opening that is completed or canceled stays as it is, whatever transitions are asked of it.
  pub run-done :
      (a : StreamOpeningActivity Value) (cs : List (Call Value))
      → is_done a.status ≡ true
      → run a cs ≡ a
  unfolding run opening_transition
  run-done a [] d = refl
  run-done a (moves status args now ∷ cs) d =
      let shut : opening_allowed a.status status ≡ false =
        opening_allowed-is_done a.status status d in
      rw (shut, run, opening_transition) (run-done a cs d)
