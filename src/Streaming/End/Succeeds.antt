-- ===== src/Streaming/End/Succeeds.antt =====
-- Methods of app/usecases/end_stream_session_usecase.py that report success only of a stream that
-- was seen stopped: that is carried through their do blocks.
use ai_liver_yura.Common.{
  ℕ, ◌≤◌, String, ◌≡◌, ap, subst, Bool, true, false, arith, if◌then◌else◌, string_eq, nat_eq,
  pair_eq, option_eq, bool_eq, list_eq,
}
use ai_liver_yura.Streaming.Session.{StreamSession}
use ai_liver_yura.Streaming.Services.{Outside, Site, returned, M, ◌>>=◌, ◌>>◌}
use ai_liver_yura.Streaming.Services.Returns.{bind-returned, then-returned}
use ai_liver_yura.Streaming.Repository.{Repository}
use ai_liver_yura.Streaming.Services.Contracts.{Holds, Meets, Follows, Reached, reached}
use ai_liver_yura.Streaming.Services.Forward.{IsForward}
use ai_liver_yura.Streaming.End.{StreamEndResult, Settings, EndCommand}
use ai_liver_yura.Streaming.End.Stop.{failure, stop_external}
use ai_liver_yura.Streaming.End.Stopped.{IsStopped}
use ai_liver_yura.Streaming.End.Success.{
  failure-unsuccessful, stop_external-IsStopped, IsStopped-same,
}

module _ (o : Outside) (c : Settings) (command : EndCommand) (first : ℕ) (before : Repository)
    (x : StreamSession) where
  -- A method that, where `P` holds of the repository, reports success only with the stream of `x`
  -- stopped since the call `first`.
  pub record Succeeds (P : Repository → Type 0) (m : M StreamEndResult) : Type 0 where
    pub stopped :
        (s s' : Site) (r : StreamEndResult)
        → first ≤ s.calls
        → P s.sessions
        → m s ≡ (returned r, s')
        → r.successful ≡ true
        → IsStopped o c command x first s'

  forward_returned :
      {A : Type 0} (m : M A) (s s' : Site) (a : A)
      → first ≤ s.calls
      → s.calls ≤ (m s).1.calls
      → m s ≡ (returned a, s')
      → first ≤ s'.calls
  forward_returned m s s' a h f e = let calls = ap (λ z. z.1.calls) e in omega (arith, h, f, calls)

  module _ {P : Repository → Type 0} where
    pub bind-Succeeds :
        {A : Type 0} {Q : A → Repository → Type 0} {m : M A} {k : A → M StreamEndResult}
        → IsForward m
        → Meets P m Q (Reached before x)
        → ((a : A) → Succeeds (Q a) (k a))
        → Succeeds P (m >>= k)
    bind-Succeeds {Q = Q} {m = m} {k = k} f w t = record {
      stopped = λ s s' r h i e done.
          let p = bind-returned m k s r s' e in
          (t p.value).stopped p.middle s' r
            (forward_returned m s p.middle p.value h (f.forward s) p.first)
            (subst (Holds Q (Reached before x)) p.first (w.meets s i)) p.second done;
    }

    pub then-Succeeds :
        {Q : Unit {0} → Repository → Type 0} {m : M (Unit {0})} {k : M StreamEndResult}
        → IsForward m
        → Meets P m Q (Reached before x)
        → ((a : Unit {0}) → Succeeds (Q a) k)
        → Succeeds P (m >> k)
    then-Succeeds {Q = Q} {m = m} {k = k} f w t = record {
      stopped = λ s s' r h i e done.
          let p = then-returned m k s r s' e in
          (t p.value).stopped p.middle s' r
            (forward_returned m s p.middle p.value h (f.forward s) p.first)
            (subst (Holds Q (Reached before x)) p.first (w.meets s i)) p.second done;
    }

    pub if-Succeeds :
        (b : Bool) {m k : M StreamEndResult}
        → Succeeds P m
        → Succeeds P k
        → Succeeds P (if b then m else k)
    if-Succeeds true h t = h
    if-Succeeds false h t = t

    pub failure-Succeeds :
        (session : StreamSession) (started : ℕ) (step closing_status code broadcast : String)
        → Succeeds P (failure o c command session started step closing_status code broadcast)
    failure-Succeeds session started step closing_status code broadcast = record {
      stopped = λ s s' r h i e done. absurd (
          ground (
            arith,
            failure-unsuccessful o c command session started step closing_status code broadcast s s'
                r e,
          ));
    }

  pub own-Succeeds :
      {z : StreamSession} {m : M StreamEndResult}
      → (z.session_id ≡ x.session_id → Succeeds (Reached before x) m)
      → Succeeds (Follows before x z) m
  own-Succeeds t = record {
    stopped = λ s s' r h f. (t f.same_id).stopped s s' r h (reached s.sessions f);
  }

  pub stop_external-Succeeds :
      (session : StreamSession) (started : ℕ) (closing_status : String)
      → Succeeds
          (Follows before x session)
          (stop_external o c command session started closing_status)
  stop_external-Succeeds session started closing_status = record {
    stopped = λ s s' r h f e done.
        let (id, seen) =
          stop_external-IsStopped o c command session started closing_status s s' r e done in
        IsStopped-same o c command session x first s.calls s' h f.same_broadcast f.same_stream seen;
  }
