-- ===== src/Streaming/Session/Status.antt =====
-- app/domain/streaming/session.py, the enumerations and `_ALLOWED_TRANSITIONS`.
use ai_liver_yura.Common.{Bool, true, false}

pub data StreamSessionStatus : Type 0 where
  created preparing ready failed start_approved starting live start_failed aborted closing_requested
        closing stopping completed emergency_stop_requested emergency_stopping emergency_stopped
        stop_failed :
      StreamSessionStatus

pub data StreamReadiness : Type 0 where
  unknown ready not_ready : StreamReadiness

-- `target in _ALLOWED_TRANSITIONS[source]`
unfoldable pub allowed : (source target : StreamSessionStatus) → Bool
allowed created preparing = true
allowed preparing ready = true
allowed preparing failed = true
allowed failed preparing = true
allowed ready preparing = true
allowed ready start_approved = true
allowed start_approved starting = true
allowed starting live = true
allowed starting start_failed = true
allowed start_failed ready = true
allowed start_failed aborted = true
allowed live closing_requested = true
allowed live emergency_stop_requested = true
allowed closing_requested closing = true
allowed closing_requested emergency_stop_requested = true
allowed closing stopping = true
allowed closing stop_failed = true
allowed closing emergency_stop_requested = true
allowed stopping completed = true
allowed stopping stop_failed = true
allowed stopping emergency_stop_requested = true
allowed emergency_stop_requested emergency_stopping = true
allowed emergency_stopping emergency_stopped = true
allowed emergency_stopping stop_failed = true
allowed stop_failed stopping = true
allowed stop_failed emergency_stop_requested = true
allowed _ _ = false

-- `status == StreamSessionStatus.READY`, and so on.
abbrev pub is_ready : StreamSessionStatus → Bool
is_ready ready = true
is_ready _ = false

abbrev pub is_live : StreamSessionStatus → Bool
is_live live = true
is_live _ = false

abbrev pub is_ready_readiness : StreamReadiness → Bool
is_ready_readiness ready = true
is_ready_readiness _ = false

abbrev pub is_not_ready : StreamReadiness → Bool
is_not_ready not_ready = true
is_not_ready _ = false

abbrev pub has_failed : StreamSessionStatus → Bool
has_failed failed = true
has_failed _ = false

-- The readiness that `transition` derives from the new status.
unfoldable pub readiness_of : StreamSessionStatus → StreamReadiness
readiness_of ready = StreamReadiness.ready
readiness_of failed = not_ready
readiness_of _ = unknown
