-- ===== src/Streaming/Opening/Lookup.antt =====
-- What the repository of the openings finds.
use ai_liver_yura.Common.{
  ◌≡◌, ap, ◌∙◌, false, some, arith, string_eq, nat_eq, pair_eq, option_eq, bool_eq, list_eq, ok,
  err, is_empty,
}
use ai_liver_yura.Common.Dict.{get, set, has, get-set_self}
use ai_liver_yura.Streaming.Opening.{
  StreamOpeningActivity, OpeningRepository, session_duplicate, create_opening, find_by_session,
}

module _ {Value : Type 0} where
  created_lem :
      (r r' : OpeningRepository Value) (a : StreamOpeningActivity Value)
      → create_opening r a ≡ ok r'
      → (r'.activities ≡ set a.activity_id a r.activities)
        × (r'.session_index ≡ set a.session_id a.activity_id r.session_index)
  unfolding create_opening
  created_lem r r' a h = ground arith

  -- A created opening with an identifier is found by its session, and no other opening is created
  -- for that session afterwards.
  pub find_by_session-create_opening :
      (r r' : OpeningRepository Value) (a b : StreamOpeningActivity Value)
      → create_opening r a ≡ ok r'
      → is_empty a.activity_id ≡ false
      → b.session_id ≡ a.session_id
      → (find_by_session r' a.session_id ≡ some a) × (create_opening r' b ≡ err session_duplicate)
  unfolding create_opening find_by_session has
  find_by_session-create_opening r r' a b h named same =
      let (activities, index) = created_lem r r' a h in
      let found : get a.session_id r'.session_index ≡ some a.activity_id =
        ap (get a.session_id) index ∙ get-set_self a.session_id a.activity_id r.session_index in
      let stored : get a.activity_id r'.activities ≡ some a =
        ap (get a.activity_id) activities ∙ get-set_self a.activity_id a r.activities in
      let taken : get b.session_id r'.session_index ≡ some a.activity_id =
        ap (λ k. get k r'.session_index) same ∙ found in
      (rw found (rw named stored), ground arith)
