-- ===== src/Streaming/Selections/Examples.antt =====
-- A selection that is released, and reserved again after its comment was selected anew.
use ai_liver_yura.Common.{
  ◌≤◌, String, ◌≡◌, refl, none, List, [], ◌∷◌, string_eq, nat_eq, pair_eq, option_eq, bool_eq,
  list_eq, length,
}
use ai_liver_yura.Common.Dict.{get, set}
use ai_liver_yura.Streaming.Selections.{
  CommentResponseTarget, new_selections, evict, reserve, reserve_released, transition, current,
  invalidate_session,
}
use ai_liver_yura.Streaming.Selections.Capacity.{
  Call, reserves, reserves_again, transitions, run, length-run, current-invalidate_session,
}

abbrev target : String → CommentResponseTarget
target id = record {
  session_id = "s1";
  candidate_id = "comment";
  selection_id = id;
  reservation_status = "reserved";
  expires_at = 10;
  details = "";
}

abbrev calls : List Call
calls =
    reserves (target "a")
    ∷ transitions "a" "released"
    ∷ reserves (target "b")
    ∷ reserves_again "a" 20
    ∷ []

-- Both selections of the one comment are reserved.
both_reserved :
    (run (new_selections 5) calls).items
    ≡ ("a", record (target "a") { expires_at = 20 }) ∷ ("b", target "b") ∷ []
unfolding run reserve evict reserve_released transition get set
both_reserved = refl

length-run_example : length (run (new_selections 5) calls).items ≤ 5
length-run_example = length-run 5 calls

current-invalidate_session_example :
    (current (invalidate_session (run (new_selections 5) calls) "s1") "s1" 3).0 ≡ none
current-invalidate_session_example =
    current-invalidate_session (run (new_selections 5) calls) "s1" 3
