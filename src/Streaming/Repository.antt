-- ===== src/Streaming/Repository.antt =====
-- app/adapters/streaming/in_memory_session_repository.py. The lock makes every call atomic.
pub mod Versions
use ai_liver_yura.Common.{
  ◌+◌, String, Bool, true, false, not, Option, none, some, List, [], ◌∷◌, if◌then◌else◌, ◌==◌,
  string_eq, nat_eq, pair_eq, option_eq, Result, ok, err, ◌>>=◌, ◌>>◌, guard, nat_beq,
}
use ai_liver_yura.Common.Dict.{Dict, get, set, has, values}
use ai_liver_yura.Streaming.Session.{
  StreamSession, StreamSessionStatus, failed, completed, emergency_stopped, aborted,
}

-- `find_active_or_preparing`, the test on the status.
unfoldable pub is_active : StreamSessionStatus → Bool
is_active failed = false
is_active completed = false
is_active emergency_stopped = false
is_active aborted = false
is_active _ = true

abbrev pub Repository : Type 0
Repository = Dict String StreamSession

pub data RepositoryError : Type 0 where
  other_session_active already_created unknown_session version_gap : RepositoryError

unfoldable pub first_active : List StreamSession → Option StreamSession
unfolding is_active
first_active [] = none
first_active (s ∷ rest) = if is_active s.status then some s else first_active rest

unfoldable pub find_active_or_preparing : Repository → Option StreamSession
unfolding first_active
find_active_or_preparing r = first_active (values r)

-- `active is not None and active.session_id != session_id`
abbrev pub is_other : Option StreamSession → String → Bool
is_other none id = false
is_other (some active) id = not (active.session_id == id)

unfoldable pub create : Repository → StreamSession → Result RepositoryError Repository
unfolding has
create r s = do
  guard (not (is_other (find_active_or_preparing r) s.session_id)) other_session_active
  guard (not (has s.session_id r)) already_created
  ok (set s.session_id s r)

abbrev save_over :
    Option StreamSession → Repository → StreamSession → Result RepositoryError Repository
save_over none r s = err unknown_session
save_over (some current) r s = do
  guard (nat_beq s.state_version (current.state_version + 1)) version_gap
  ok (set s.session_id s r)

unfoldable pub save : Repository → StreamSession → Result RepositoryError Repository
save r s = save_over (get s.session_id r) r s
