-- ===== src/Streaming/End/Stopped.antt =====
-- What an end that succeeds has seen of the outside, in app/usecases/end_stream_session_usecase.py.
use ai_liver_yura.Common.{
  ℕ, ◌+◌, ◌≤◌, ◌<◌, String, ◌≡◌, refl, sym, ap, ◌∙◌, subst, ◌⊎◌, inl, inr, Bool, true, false, not,
  some, [], ◌∷◌, arith, string_eq, nat_eq, pair_eq, option_eq, bool_eq, list_eq, contains,
}
use text.Mathlib.TextEquality.{eq_iff}
use ai_liver_yura.Streaming.Session.{StreamSession}
use ai_liver_yura.Streaming.Services.{
  Outside, get_output_status, get_stream_status, get_broadcast_status, Request, Site, returned, M,
  ◌>>◌, require, when, read, request, publish, called, set_obs, set_stream, set_broadcast,
}
use ai_liver_yura.Streaming.Services.Returns.{
  bind-returned, then-returned, require-returned, read-returned,
}
use ai_liver_yura.Streaming.End.{Settings, EndCommand, is_normal, event, stop_obs_output}
use ai_liver_yura.Streaming.End.Stop.{
  given_stream, require_stopped, stop_obs, complete_broadcast, stop_services,
}

when-returned :
    (b : Bool) (m : M (Unit {0})) (s s' : Site) (u : Unit {0})
    → when b m s ≡ (returned u, s')
    → ((b ≡ true) × (m s ≡ (returned u, s'))) ⊎ ((b ≡ false) × (s' ≡ s))
unfolding when
when-returned true m s s' u h = inl (refl, h)
when-returned false m s s' u h = inr (refl, ground arith)

-- A step that makes calls and keeps what was read of OBS.
Frame : (s s' : Site) → Type 0
Frame s s' = (s.calls ≤ s'.calls) × (s'.obs_status ≡ s.obs_status)

request-Frame :
    (o : Outside) (r : Request) (s s' : Site) (u : Unit {0})
    → request o r s ≡ (returned u, s')
    → Frame s s'
unfolding request Frame
request-Frame o r s s' u h = ground arith

when-request-Frame :
    (o : Outside) (b : Bool) (r : Request) (s s' : Site) (u : Unit {0})
    → when b (request o r) s ≡ (returned u, s')
    → Frame s s'
unfolding Frame
when-request-Frame o b r s s' u h = elim (when-returned b (request o r) s s' u h) [
  | inl (is, made) ↦ request-Frame o r s s' u made
  | inr (is, same) ↦ ground arith
]

pub event-same :
    (name trace id : String) (s s' : Site) (u : Unit {0})
    → event name trace id s ≡ (returned u, s')
    → (s'.calls ≡ s.calls) × (s'.obs_status ≡ s.obs_status) × (s'.sessions ≡ s.sessions)
unfolding event publish
event-same name trace id s s' u h = ground arith

module _ (o : Outside) (c : Settings) (command : EndCommand) where
  -- What is known of OBS was answered by a call since the call `first`.
  IsObserved : (first : ℕ) → Site → Type 0
  IsObserved first s =
      (n : ℕ) × (first ≤ n) × (n < s.calls) × (o.answers n get_output_status ≡ some s.obs_status)

  Frame-IsObserved :
      (first : ℕ) (s s' : Site) → Frame s s' → IsObserved first s → IsObserved first s'
  unfolding Frame IsObserved
  Frame-IsObserved first s s' (more, same) (n, after, before, answer) =
      (n, after, omega (arith, before, more), answer ∙ ap some (sym same))

  stop_obs-IsObserved :
      (s s' : Site) (u : Unit {0})
      → stop_obs o c command s ≡ (returned u, s')
      → IsObserved s.calls s'
  unfolding stop_obs stop_obs_output set_obs IsObserved Frame
  stop_obs-IsObserved s s' u h =
      let p = bind-returned (stop_obs_output o c) _ s u s' h in
      let q = bind-returned (read o _) _ s p.value p.middle p.first in
      let (status, i) = read-returned o _ s q.middle q.value q.first in
      let t = then-returned (when _ (request o _)) _ q.middle p.value p.middle q.second in
      let (more, same) = when-request-Frame o _ _ q.middle t.middle t.value t.first in
      let (answer, j) = read-returned o _ t.middle p.middle p.value t.second in
      let calls_first = ap (λ z. z.calls) i in
      let calls_last = ap (λ z. z.calls) j in
      let done = p.second in
      (t.middle.calls, omega (arith, more, calls_first), ground (arith, calls_last), ground arith)

  -- Since the call `first` the broadcast of the session was seen complete and OBS idle, and by the
  -- last call its stream without data.
  pub record IsStopped (session : StreamSession) (first : ℕ) (s : Site) : Type 0 where
    pub broadcast_seen : ℕ
    pub is_since : first ≤ broadcast_seen
    pub broadcast :
        o.answers broadcast_seen (get_broadcast_status session.selected_broadcast_id)
        ≡ some "complete"
    pub obs_seen : ℕ
    pub is_obs_since : first ≤ obs_seen
    pub obs : o.answers obs_seen get_output_status ≡ some "idle"
    pub stream_seen : ℕ
    pub is_last : s.calls ≡ stream_seen + 1
    pub stream_status : String
    pub stream :
        o.answers stream_seen (get_stream_status (given_stream session.selected_stream_id))
        ≡ some stream_status
    pub is_inactive : contains ("inactive" ∷ "no_data" ∷ []) stream_status ≡ true

  -- OBS is stopped first in an emergency, and last otherwise.
  KnowsObs : (first : ℕ) → Site → Type 0
  KnowsObs first s = (is_normal command.mode ≡ true) ⊎ IsObserved first s

  emergency_first :
      (s s' : Site) (u : Unit {0})
      → when (not (is_normal command.mode)) (stop_obs o c command) s ≡ (returned u, s')
      → (s.calls ≤ s'.calls) × KnowsObs s.calls s'
  unfolding KnowsObs IsObserved
  emergency_first s s' u h = elim (when-returned _ (stop_obs o c command) s s' u h) [
    | inl (is, made) ↦
        let (n, after, before, answer) = stop_obs-IsObserved s s' u made in
        (omega (arith, after, before), inr (n, after, before, answer))
    | inr (is, same) ↦ (ground arith, inl (ground arith))
  ]

  Frame-KnowsObs : (first : ℕ) (s s' : Site) → Frame s s' → KnowsObs first s → KnowsObs first s'
  unfolding KnowsObs
  Frame-KnowsObs first s s' f (inl n) = inl n
  Frame-KnowsObs first s s' f (inr seen) = inr (Frame-IsObserved first s s' f seen)

  normal_last :
      (first : ℕ) (s s' : Site) (u : Unit {0})
      → first ≤ s.calls
      → KnowsObs first s
      → when (is_normal command.mode) (stop_obs o c command) s ≡ (returned u, s')
      → IsObserved first s'
  unfolding KnowsObs IsObserved
  normal_last first s s' u since known h = elim (when-returned _ (stop_obs o c command) s s' u h) [
    | inl (is, made) ↦
        let (n, after, before, answer) = stop_obs-IsObserved s s' u made in
        (n, omega (arith, after, since), before, answer)
    | inr (is, same) ↦ elim known [
      | inl n ↦ absurd (ground arith)
      | inr seen ↦ subst (IsObserved first) (sym same) seen
    ]
  ]

  require_stopped-returned :
      (session : StreamSession) (first b : ℕ) (s s' : Site) (u : Unit {0})
      → first ≤ b
      → o.answers b (get_broadcast_status session.selected_broadcast_id) ≡ some "complete"
      → IsObserved first s
      → (n : ℕ) → s.calls ≡ n + 1
      → o.answers n (get_stream_status (given_stream session.selected_stream_id))
        ≡ some s.stream_status
      → require_stopped o c command s ≡ (returned u, s')
      → IsStopped session first s' × (s'.sessions ≡ s.sessions)
  unfolding require_stopped IsObserved
  require_stopped-returned session first b s s' u since complete (m, after, before, answer) n last
        stream h =
      let (is, same) = require-returned _ _ s s' u h in
      let idle = eq_iff s.obs_status "idle" in
      (
        record {
          broadcast_seen = b;
          is_since = since;
          broadcast = complete;
          obs_seen = m;
          is_obs_since = after;
          obs = ground (arith, idle, is);
          stream_seen = n;
          is_last = ground arith;
          stream_status = s.stream_status;
          stream = stream;
          is_inactive = ground arith;
        },
        ap (λ z. z.sessions) same,
      )

  complete_broadcast-Frame :
      (session : StreamSession) (s s' : Site) (u : Unit {0})
      → complete_broadcast o c command session s ≡ (returned u, s')
      → Frame s s'
        × ((b : ℕ) × (s.calls ≤ b)
            × (o.answers b (get_broadcast_status session.selected_broadcast_id) ≡ some "complete"))
  unfolding complete_broadcast set_broadcast Frame ◌>>◌
  complete_broadcast-Frame session s s' u h =
      let p = bind-returned (read o _) _ s u s' h in
      let (before, i) = read-returned o _ s p.middle p.value p.first in
      let s1 = record p.middle { broadcast_status = p.value } in
      let q = then-returned (when _ (request o _)) _ s1 u s' p.second in
      let (more, same) = when-request-Frame o _ _ s1 q.middle q.value q.first in
      let t = bind-returned (read o _) _ q.middle u s' q.second in
      let (after, j) = read-returned o _ q.middle t.middle t.value t.first in
      let s2 = record t.middle { broadcast_status = t.value } in
      let v = then-returned (require _ _) _ s2 u s' t.second in
      let (complete, k) = require-returned _ _ s2 v.middle v.value v.first in
      let (calls, obs, sessions) = event-same _ _ _ v.middle s' u v.second in
      let is = eq_iff t.value "complete" in
      let calls_first = ap (λ z. z.calls) i in
      let calls_next = ap (λ z. z.calls) j in
      let calls_then = ap (λ z. z.calls) k in
      (
        (
          omega (arith, calls, more, calls_first, calls_next, calls_then),
          obs
              ∙ ap (λ z. z.obs_status) k
              ∙ ap (λ z. z.obs_status) j
              ∙ same
              ∙ ap (λ z. z.obs_status) i,
        ),
        (q.middle.calls, omega (arith, more, calls_first), ground (arith, is, after, complete)),
      )

  Frame-more : (first : ℕ) (s s' : Site) → first ≤ s.calls → Frame s s' → first ≤ s'.calls
  unfolding Frame
  Frame-more first s s' h (more, same) = omega (arith, h, more)

  read_seen :
      (first : ℕ) (s s' : Site) (v : String)
      → s' ≡ called o s
      → IsObserved first s
      → IsObserved first (record s' { stream_status = v })
  unfolding Frame
  read_seen first s s' v i seen =
      Frame-IsObserved first s (record s' { stream_status = v })
        (ground (arith, ap (λ z. z.calls) i), ap (λ z. z.obs_status) i) seen

  pub stop_services-IsStopped :
      (session : StreamSession) (s s' : Site) (u : Unit {0})
      → stop_services o c command session s ≡ (returned u, s')
      → IsStopped session s.calls s'
  unfolding stop_services set_stream ◌>>◌
  stop_services-IsStopped session s s' u h =
      let p = then-returned (when _ (stop_obs o c command)) _ s u s' h in
      let (more, known) = emergency_first s p.middle p.value p.first in
      let q = then-returned (complete_broadcast o c command session) _ p.middle u s' p.second in
      let (frame, (b, since, complete)) =
        complete_broadcast-Frame session p.middle q.middle q.value q.first in
      let t = then-returned (when _ (stop_obs o c command)) _ q.middle u s' q.second in
      let seen =
        normal_last s.calls q.middle t.middle t.value
          (Frame-more s.calls p.middle q.middle more frame)
          (Frame-KnowsObs s.calls p.middle q.middle frame known) t.first in
      let v = bind-returned (read o _) _ t.middle u s' t.second in
      let (stream, i) = read-returned o _ t.middle v.middle v.value v.first in
      let (stopped, sessions) =
        require_stopped-returned session s.calls b (record v.middle { stream_status = v.value }) s'
          u (omega (arith, more, since)) complete
          (read_seen s.calls t.middle v.middle v.value i seen) t.middle.calls (ap (λ z. z.calls) i)
          stream v.second in
      stopped
