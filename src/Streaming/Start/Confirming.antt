-- ===== src/Streaming/Start/Confirming.antt =====
-- `confirm` of app/usecases/start_stream_session_usecase.py, the last look at the services: what it
-- asks and what it has seen when it returns.
use ai_liver_yura.Common.{
  ℕ, ◌+◌, String, ◌≡◌, sym, ap, ◌∙◌, subst, true, ◌&&◌, Option, none, some, arith, ◌==◌, string_eq,
  nat_eq, pair_eq, option_eq, bool_eq, list_eq,
}
use text.Mathlib.TextEquality.{eq_iff}
use ai_liver_yura.Common.Dict.{get}
use ai_liver_yura.Streaming.Session.{StreamSession, moved, live}
use ai_liver_yura.Streaming.Services.{
  Outside, get_output_status, get_stream_status, get_broadcast_status, set_step, Site, returned,
  ◌>>◌, return, raise, require, read, set_obs, set_stream, set_broadcast,
}
use ai_liver_yura.Streaming.Services.Returns.{
  bind-returned, then-returned, require-returned, read-returned, save_transition-returned,
}
use ai_liver_yura.Streaming.Start.{
  ApproveStreamStartCommand, Settings, with_trace, chosen_stream, poll, start_youtube, confirm,
  event,
}

module _ (o : Outside) (c : Settings) (command : ApproveStreamStartCommand) where
  -- The last three calls of the services and their answers.
  pub record IsConfirmed (stream_id broadcast_id : String) (s : Site) : Type 0 where
    pub since : ℕ
    pub last : s.calls ≡ since + 3
    pub obs : o.answers since get_output_status ≡ some "active"
    pub stream : o.answers (since + 1) (get_stream_status stream_id) ≡ some "active"
    pub broadcast : o.answers (since + 1 + 1) (get_broadcast_status broadcast_id) ≡ some "live"

  seen :
      (stream_id broadcast_id : String) (c1 c2 c3 : ℕ) (s' : Site) (obs stream broadcast : String)
      → o.answers c1 get_output_status ≡ some obs
      → c2 ≡ c1 + 1
      → o.answers c2 (get_stream_status stream_id) ≡ some stream
      → c3 ≡ c2 + 1
      → o.answers c3 (get_broadcast_status broadcast_id) ≡ some broadcast
      → s'.calls ≡ c3 + 1
      → (obs == "active" && stream == "active" && broadcast == "live") ≡ true
      → IsConfirmed stream_id broadcast_id s'
  seen stream_id broadcast_id c1 c2 c3 s' obs stream broadcast a i b j d k h =
      let first = eq_iff obs "active" in
      let second = eq_iff stream "active" in
      let third = eq_iff broadcast "live" in
      record {
        since = c1;
        last = omega (arith, i, j, k);
        obs = ground (arith, first);
        stream = ground (arith, second);
        broadcast = ground (arith, third);
      }

  -- Going on air keeps the approver and what was selected.
  kept :
      (begun x : StreamSession) (now : ℕ)
      → x ≡ moved begun live (with_trace command) now
      → (x.status ≡ live)
        × (x.start_approved_by ≡ begun.start_approved_by)
        × (x.selected_stream_id ≡ begun.selected_stream_id)
        × (x.selected_broadcast_id ≡ begun.selected_broadcast_id)
  unfolding with_trace
  kept begun x now is = (
    ap (λ y. y.status) is,
    ap (λ y. y.start_approved_by) is,
    ap (λ y. y.selected_stream_id) is,
    ap (λ y. y.selected_broadcast_id) is,
  )

  pub confirm-returned :
      (begun x : StreamSession) (stream_id : String) (s s' : Site)
      → confirm o c command begun stream_id s ≡ (returned x, s')
      → IsConfirmed stream_id x.selected_broadcast_id s'
        × (get x.session_id s'.sessions ≡ some x)
        × (x.status ≡ live)
        × (x.start_approved_by ≡ begun.start_approved_by)
        × (x.selected_stream_id ≡ begun.selected_stream_id)
  unfolding confirm set_obs set_stream set_broadcast ◌>>◌
  confirm-returned begun x stream_id s s' h =
      let p = bind-returned (read o _) _ s x s' h in
      let (a, i) = read-returned o _ s p.middle p.value p.first in
      let s1 = record p.middle { obs_status = p.value } in
      let q = bind-returned (read o _) _ s1 x s' p.second in
      let (b, j) = read-returned o _ s1 q.middle q.value q.first in
      let s2 = record q.middle { stream_status = q.value } in
      let r = bind-returned (read o _) _ s2 x s' q.second in
      let (d, k) = read-returned o _ s2 r.middle r.value r.first in
      let s3 = record r.middle { broadcast_status = r.value } in
      let t = then-returned (require _ _) _ s3 x s' r.second in
      let (all_seen, l) = require-returned _ _ s3 t.middle t.value t.first in
      let (is, stored, calls) = save_transition-returned begun x live _ t.middle s' t.second in
      let (on_air, approver, stream, broadcast) = kept begun x t.middle.time is in
      (
        subst (λ id. IsConfirmed stream_id id s') (sym broadcast)
            (seen stream_id begun.selected_broadcast_id s.calls s1.calls s2.calls s' p.value q.value
              r.value a (ap (λ z. z.calls) i) b (ap (λ z. z.calls) j) d
              (calls ∙ ap (λ z. z.calls) l ∙ ap (λ z. z.calls) k) all_seen),
        stored,
        on_air,
        approver,
        stream,
      )

  chosen_stream-returned :
      (chosen : Option String) (id : String) (s s' : Site)
      → chosen_stream chosen s ≡ (returned id, s')
      → chosen ≡ some id
  unfolding chosen_stream raise return
  chosen_stream-returned none id s s' h = absurd (ground arith)
  chosen_stream-returned (some x) id s s' h = ground arith

  pub start_youtube-returned :
      (begun : StreamSession) (id : String) (s s' : Site)
      → start_youtube o c command begun s ≡ (returned id, s')
      → begun.selected_stream_id ≡ some id
  unfolding start_youtube ◌>>◌ return
  start_youtube-returned begun id s s' h =
      let p = bind-returned (chosen_stream begun.selected_stream_id) _ s id s' h in
      let q = then-returned (set_step _) _ p.middle id s' p.second in
      let r = bind-returned (poll o c _ _ _) _ q.middle id s' q.second in
      let t = then-returned (set_stream _) _ r.middle id s' r.second in
      let u = then-returned (event _ command) _ t.middle id s' t.second in
      let same : p.value ≡ id = ground (arith, u.second) in
      chosen_stream-returned begun.selected_stream_id p.value s p.middle p.first ∙ ap some same
