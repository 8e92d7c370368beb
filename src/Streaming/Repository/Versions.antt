-- ===== src/Streaming/Repository/Versions.antt =====
-- The state versions of app/adapters/streaming/in_memory_session_repository.py.
use ai_liver_yura.Common.{
  ◌+◌, String, ◌≡◌, ap, ◌∙◌, ◌≢◌, Option, none, some, arith, if◌then◌else◌, ◌==◌, string_eq, nat_eq,
  pair_eq, option_eq, bool_eq, list_eq, beq_refl, ok, err, nat_beq_iff,
}
use ai_liver_yura.Common.Dict.{get, set, get-set}
use ai_liver_yura.Streaming.Session.{StreamSession}
use ai_liver_yura.Streaming.Repository.{Repository, version_gap, save, save_over}

pub saved_over :
    (c : Option StreamSession) (r r' : Repository) (s : StreamSession)
    → save_over c r s ≡ ok r'
    → r' ≡ set s.session_id s r
saved_over none r r' s h = absurd (ground arith)
saved_over (some c) r r' s h = ground arith

save_over-gap :
    (c t : StreamSession) (r : Repository)
    → t.state_version ≡ c.state_version
    → save_over (some c) r t ≡ err version_gap
save_over-gap c t r e = ground (arith, nat_beq_iff t.state_version (c.state_version + 1))

-- What `save` accepts is stored under the session's identifier and nothing else is changed; a
-- further `save` of the same session and the same version, as of a second writer that started from
-- the same state, is refused.
pub save-once :
    (r r' : Repository) (s t : StreamSession) (id : String)
    → save r s ≡ ok r'
    → t.session_id ≡ s.session_id
    → t.state_version ≡ s.state_version
    → id ≢ s.session_id
    → (get s.session_id r' ≡ some s) × (get id r' ≡ get id r) × (save r' t ≡ err version_gap)
unfolding save
save-once r r' s t id h same version other =
    let stored = saved_over (get s.session_id r) r r' s h in
    let found : (k : String) → get k r' ≡ (if s.session_id == k then some s else get k r) =
      λ k. ap (get k) stored ∙ get-set s.session_id k s r in
    let again : get t.session_id r' ≡ some s =
      found t.session_id ∙ ground (arith, string_eq.beq_iff s.session_id t.session_id) in
    (
      found s.session_id ∙ ground (arith, beq_refl s.session_id),
      found id ∙ ground (arith, string_eq.beq_iff s.session_id id),
      ap (λ c. save_over c r' t) again ∙ save_over-gap s t r' version,
    )
