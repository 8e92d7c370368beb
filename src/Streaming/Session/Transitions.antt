-- ===== src/Streaming/Session/Transitions.antt =====
-- What one call on a stream session does: the transition table and the two attachments.
use text.Mathlib.TextEquality.{eq_iff}
use ai_liver_yura.Common.{
  ℕ, String, ◌≤◌, ◌≡◌, refl, ◌⊎◌, inl, inr, Bool, true, false, none, some, ok, arith, Option-cases,
  string_eq,
}
use ai_liver_yura.Streaming.Session.Status.{
  StreamSessionStatus, created, preparing, failed, start_approved, starting, live, start_failed,
  aborted, closing_requested, closing, stopping, completed, emergency_stop_requested,
  emergency_stopping, emergency_stopped, stop_failed, allowed, is_live,
}
use ai_liver_yura.Streaming.Session.{
  StreamSession, attach_opening, attach_main_segment, opened, segmented,
}

-- The statuses that end a session for good.
abbrev pub is_terminal : StreamSessionStatus → Bool
is_terminal completed = true
is_terminal emergency_stopped = true
is_terminal aborted = true
is_terminal _ = false

-- Where the session stands: 0 before the stream is on air, 1 on air, 2 after that.
abbrev pub phase : StreamSessionStatus → ℕ
phase created = 0
phase preparing = 0
phase StreamSessionStatus.ready = 0
phase failed = 0
phase start_approved = 0
phase starting = 0
phase start_failed = 0
phase live = 1
phase _ = 2

pub allowed-phase :
    (a b : StreamSessionStatus) → allowed a b ≡ true → (phase a ≤ phase b) × (is_terminal a ≡ false)
unfolding allowed
allowed-phase created b h = ground arith
allowed-phase _ b h = ground arith

-- From every status that is not terminal the table leads on to some status.
pub way_out :
    (a : StreamSessionStatus)
    → is_terminal a ≡ false
    → (b : StreamSessionStatus) × (allowed a b ≡ true)
unfolding allowed
way_out created h = (preparing, refl)
way_out preparing h = (failed, refl)
way_out StreamSessionStatus.ready h = (preparing, refl)
way_out failed h = (preparing, refl)
way_out start_approved h = (starting, refl)
way_out starting h = (live, refl)
way_out live h = (closing_requested, refl)
way_out start_failed h = (aborted, refl)
way_out closing_requested h = (closing, refl)
way_out closing h = (stopping, refl)
way_out stopping h = (completed, refl)
way_out emergency_stop_requested h = (emergency_stopping, refl)
way_out emergency_stopping h = (emergency_stopped, refl)
way_out stop_failed h = (stopping, refl)
way_out _ h = absurd (ground arith)

-- An opening is attached only to a live session that has none or has the same one.
pub attach_opening-ok :
    (s s' : StreamSession) (activity : String) (now : ℕ)
    → attach_opening s activity now ≡ ok s'
    → (is_live s.status ≡ true)
      × ((s.opening_activity_id ≡ none) ⊎ (s.opening_activity_id ≡ some activity))
      × (s' ≡ opened s activity now)
unfolding attach_opening
attach_opening-ok s s' activity now h = elim (Option-cases s.opening_activity_id) [
  | inl e ↦ ground arith
  | inr (a, e) ↦ ground (arith, eq_iff a activity)
]

pub attach_main_segment-ok :
    (s s' : StreamSession) (segment activity : String) (now : ℕ)
    → attach_main_segment s segment activity now ≡ ok s'
    → (is_live s.status ≡ true) × (s' ≡ segmented s segment activity now)
unfolding attach_main_segment
attach_main_segment-ok s s' segment activity now h = ground arith
