-- ===== src/Streaming/Opening.antt =====
-- app/domain/streaming/opening.py and app/adapters/streaming/in_memory_opening_repository.py: the
-- opening of a session and where it is kept. `Value` is what a result holds (`Any` in the source).
pub mod Attempts
pub mod Lookup
use ai_liver_yura.Common.{
  ℕ, zero, suc, ◌+◌, ◌-◌, ◌*◌, ◌≤◌, ◌<◌, String, ◌≡◌, refl, sym, ap, ◌∙◌, subst, ◌≢◌, ◌↔◌, ◌⊎◌, inl,
  inr, Bool, true, false, not, ◌&&◌, ◌||◌, Option, none, some, List, [], ◌∷◌, ◌++◌, map, arith, ltb,
  leb, if◌then◌else◌, Bool-cases, Option-cases, Eq, ◌==◌, string_eq, nat_eq, pair_eq, option_eq,
  bool_eq, list_eq, beq_refl, Result, ok, err, ◌>>=◌, ◌>>◌, guard, Result-cases, length,
  length-append, drop, take, keep, any, All, All-append, All-map, All-keep, contains, is_empty,
  or_else, or_none, given, is_some, nat_beq, nat_beq_iff,
}
use ai_liver_yura.Common.Dict.{Dict, get, set, has}
use ai_liver_yura.Streaming.Gate.Policy.{
  ActivityStatus, pending, running, waiting_for_output, completed, failed, canceled,
}

-- `_OPENING_TRANSITIONS`
unfoldable pub opening_allowed : (source target : ActivityStatus) → Bool
opening_allowed pending running = true
opening_allowed pending canceled = true
opening_allowed running waiting_for_output = true
opening_allowed running failed = true
opening_allowed running canceled = true
opening_allowed waiting_for_output completed = true
opening_allowed waiting_for_output failed = true
opening_allowed waiting_for_output canceled = true
opening_allowed failed running = true
opening_allowed _ _ = false

abbrev pub is_running : ActivityStatus → Bool
is_running running = true
is_running _ = false

abbrev pub is_failed : ActivityStatus → Bool
is_failed failed = true
is_failed _ = false

-- The set literal that decides over `completed_at`.
abbrev pub is_settled : ActivityStatus → Bool
is_settled completed = true
is_settled failed = true
is_settled canceled = true
is_settled _ = false

pub record StreamOpeningActivity (Value : Type 0) : Type 0 where
  pub session_id : String
  pub trace_id : String
  pub segment_id : Option String
  pub activity_id : String
  pub status : ActivityStatus
  pub attempt : ℕ
  pub failure_code : Option String
  pub manual_intervention_required : Bool
  pub started_at : Option ℕ
  pub completed_at : Option ℕ
  pub activity_turn_id : Option String
  pub result : Option (Dict String Value)
  pub version : ℕ

pub data OpeningError : Type 0 where
  invalid_opening_transition : ActivityStatus → ActivityStatus → OpeningError
  session_duplicate version_mismatch : OpeningError

-- The keyword arguments of `transition`.
pub record OpeningArgs (Value : Type 0) : Type 0 where
  pub failure_code : Option String
  pub activity_turn_id : Option String
  pub result : Option (Dict String Value)

-- `result if result is not None else self.result`
abbrev newer {ℓ} : {A : Type ℓ} → Option A → Option A → Option A
newer none old = old
newer (some new) old = some new

module _ {Value : Type 0} where
  -- The dataclass's defaults.
  unfoldable pub new_opening :
      String → String → Option String → String → StreamOpeningActivity Value
  new_opening session trace segment activity = record {
    session_id = session;
    trace_id = trace;
    segment_id = segment;
    activity_id = activity;
    status = pending;
    attempt = 0;
    failure_code = none;
    manual_intervention_required = false;
    started_at = none;
    completed_at = none;
    activity_turn_id = none;
    result = none;
    version = 0;
  }

  abbrev pub opening_moved :
      StreamOpeningActivity Value
      → ActivityStatus
      → OpeningArgs Value
      → ℕ
      → StreamOpeningActivity Value
  opening_moved a status args now = record a {
    status = status;
    attempt = if is_running status then a.attempt + 1 else a.attempt;
    failure_code = args.failure_code;
    manual_intervention_required = is_failed status;
    started_at = if is_running status then some now else a.started_at;
    completed_at = if is_settled status then some now else none;
    activity_turn_id = or_none args.activity_turn_id a.activity_turn_id;
    result = newer args.result a.result;
    version = a.version + 1;
  }

  unfoldable pub opening_transition :
      StreamOpeningActivity Value
      → ActivityStatus
      → OpeningArgs Value
      → ℕ
      → Result OpeningError (StreamOpeningActivity Value)
  opening_transition a status args now = do
    guard (opening_allowed a.status status) (invalid_opening_transition a.status status)
    ok (opening_moved a status args now)

pub record OpeningRepository (Value : Type 0) : Type 0 where
  pub activities : Dict String (StreamOpeningActivity Value)
  pub session_index : Dict String String
  pub commands : Dict String (StreamOpeningActivity Value)

module _ {Value : Type 0} where
  unfoldable pub create_opening :
      OpeningRepository Value
      → StreamOpeningActivity Value
      → Result OpeningError (OpeningRepository Value)
  unfolding has
  create_opening r a = do
    guard (not (has a.session_id r.session_index)) session_duplicate
    ok (record r {
      activities = set a.activity_id a r.activities;
      session_index = set a.session_id a.activity_id r.session_index;
    })

  abbrev pub is_next : Option (StreamOpeningActivity Value) → StreamOpeningActivity Value → Bool
  is_next none a = false
  is_next (some current) a = nat_beq a.version (current.version + 1)

  unfoldable pub save_opening :
      OpeningRepository Value
      → StreamOpeningActivity Value
      → Result OpeningError (OpeningRepository Value)
  save_opening r a = do
    guard (is_next (get a.activity_id r.activities) a) version_mismatch
    ok (record r { activities = set a.activity_id a r.activities })

  -- `self._items.get(activity_id) if activity_id else None`
  abbrev pub indexed :
      Dict String (StreamOpeningActivity Value)
      → Option String
      → Option (StreamOpeningActivity Value)
  indexed activities none = none
  indexed activities (some id) = if is_empty id then none else get id activities

  unfoldable pub find_by_session :
      OpeningRepository Value → String → Option (StreamOpeningActivity Value)
  find_by_session r session = indexed r.activities (get session r.session_index)

  unfoldable pub command_result :
      OpeningRepository Value → String → Option (StreamOpeningActivity Value)
  command_result r command = get command r.commands

  unfoldable pub save_command_result :
      OpeningRepository Value → String → StreamOpeningActivity Value → OpeningRepository Value
  save_command_result r command a = record r { commands = set command a r.commands }
