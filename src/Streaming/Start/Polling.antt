-- ===== src/Streaming/Start/Polling.antt =====
-- `_poll` of app/usecases/start_stream_session_usecase.py: how often it reads and what it notices.
use ai_liver_yura.Common.{
  ℕ, zero, suc, ◌+◌, ◌*◌, ◌≤◌, ◌<◌, String, ◌≡◌, refl, subst, ◌⊎◌, inl, inr, false, ◌||◌, some,
  arith, leb, Bool-cases, Option-cases, ◌==◌, string_eq, nat_eq, pair_eq, option_eq, bool_eq,
  list_eq, beq_refl,
}
use ai_liver_yura.Streaming.Services.{Outside, ServiceCall, Site, returned, continue, read}
use ai_liver_yura.Streaming.Start.{Settings, poll_until, poll, is_failure}

scaled : (k round : ℕ) → 1 ≤ round → k ≤ k * round
scaled zero round i = omega arith
scaled (suc k) round i = omega (arith, i, scaled k round i)

module _ (o : Outside) (c : Settings) where
  -- The reads of a loop that began at the time `start` with the number `first`.
  IsBounded : (first last start deadline : ℕ) → Type 0
  IsBounded first last start deadline =
      (last ≤ first + 1)
      ⊎ ((d : ℕ) × (last ≡ first + 2 + d) × (start + d * c.poll_interval ≤ deadline))

  IsBounded-step :
      (first last start later deadline : ℕ)
      → start + c.poll_interval ≤ later + c.poll_interval
      → start ≤ deadline
      → IsBounded (first + 1) last (later + c.poll_interval) deadline
      → IsBounded first last start deadline
  unfolding IsBounded
  IsBounded-step first last start later deadline h k (inl few) =
      elim (Bool-cases (leb last (first + 1))) [
        | inl y ↦ inl (ground arith)
        | inr n ↦ inr (0, ground arith, ground arith)
      ]
  IsBounded-step first last start later deadline h k (inr (d, is, fits)) =
      inr (suc d, omega (arith, is), omega (arith, fits, h))

  poll_until-IsBounded :
      (fuel deadline : ℕ) (operation : ServiceCall) (expected step : String) (s : Site)
      → IsBounded s.calls
          (poll_until o c fuel deadline operation expected step s).1.calls
          s.time
          deadline
  unfolding poll_until read IsBounded
  poll_until-IsBounded zero deadline operation expected step s = inl (omega arith)
  poll_until-IsBounded (suc fuel) deadline operation expected step s =
      elim (Option-cases (o.answers s.calls operation)) [
        | inl none_there ↦ rw none_there (inl (omega arith))
        | inr (v, there) ↦
            rw (there, continue)
              (elim (Bool-cases (v == expected)) [
                | inl y ↦ rw y (inl (omega arith))
                | inr n ↦
                    elim (Bool-cases (is_failure v || leb deadline (s.time + o.takes s.calls))) [
                      | inl stop ↦ rw (n, stop) (inl (omega arith))
                      | inr more ↦
                          rw (n, more)
                            (IsBounded-step s.calls _ s.time (s.time + o.takes s.calls) deadline
                              (omega arith) (ground arith)
                              (poll_until-IsBounded fuel deadline operation expected step _))
                    ]
              ])
      ]

  -- Polling reads the status once or twice, and beyond that at most as often as the polling
  -- interval fits into the time out, whatever the service answers.
  pub poll-IsBounded :
      (operation : ServiceCall) (expected step : String) (s : Site)
      → ((poll o c operation expected step s).1.calls ≤ s.calls + 1)
        ⊎ ((d : ℕ) × ((poll o c operation expected step s).1.calls ≡ s.calls + 2 + d)
            × (d * c.poll_interval ≤ c.step_timeout))
  unfolding poll IsBounded
  poll-IsBounded operation expected step s = bound _ (
      poll_until-IsBounded (suc c.step_timeout) (s.time + c.step_timeout) operation expected step s)
    where
      bound :
          (last : ℕ)
          → IsBounded s.calls last s.time (s.time + c.step_timeout)
          → (last ≤ s.calls + 1)
            ⊎ ((d : ℕ) × (last ≡ s.calls + 2 + d) × (d * c.poll_interval ≤ c.step_timeout))
      bound last (inl few) = inl few
      bound last (inr (d, is, fits)) = inr (d, is, omega (arith, fits))

  -- An answer that neither ends the waiting nor fails it.
  pub record IsPending (operation : ServiceCall) (expected : String) (n : ℕ) : Type 0 where
    pub value : String
    pub answer : o.answers n operation ≡ some value
    pub is_other : (value == expected) ≡ false
    pub is_fine : is_failure value ≡ false

  enough : (k round : ℕ) → 1 ≤ round → k * round ≤ c.step_timeout → k < suc c.step_timeout
  enough k round i h = omega (arith, scaled k round i, h)

  poll_until-notices :
      (slow k fuel deadline : ℕ) (operation : ServiceCall) (expected step : String) (s : Site)
      → ((n : ℕ) → o.takes n ≤ slow)
      → 1 ≤ c.poll_interval
      → k < fuel
      → s.time + k * (slow + c.poll_interval) ≤ deadline
      → ((j : ℕ) → j < k → IsPending operation expected (s.calls + j))
      → o.answers (s.calls + k) operation ≡ some expected
      → (poll_until o c fuel deadline operation expected step s).0 ≡ returned expected
  unfolding poll_until read
  poll_until-notices slow k zero deadline operation expected step s t i f h p a =
      absurd (omega (arith, f))
  poll_until-notices slow zero (suc fuel) deadline operation expected step s t i f h p a =
      let here : o.answers s.calls operation ≡ some expected =
        subst (λ n. o.answers n operation ≡ some expected) (omega arith) a in
      rw (here, continue, beq_refl expected) refl
  poll_until-notices slow (suc k) (suc fuel) deadline operation expected step s t i f h p a =
      let now = p 0 (omega arith) in
      let quick = t s.calls in
      let here : o.answers s.calls operation ≡ some now.value =
        subst (λ n. o.answers n operation ≡ some now.value) (omega arith) now.answer in
      let early : leb deadline (s.time + o.takes s.calls) ≡ false = ground (arith, quick) in
      rw (here, continue, now.is_other, now.is_fine, early)
        (poll_until-notices slow k fuel deadline operation expected step _ t i (omega (arith, f))
          (omega (arith, h, quick))
          (λ j less.
            subst (IsPending operation expected) (omega arith) (p (suc j) (omega (arith, less))))
          (subst (λ n. o.answers n operation ≡ some expected) (omega arith) a))

  -- Where no read takes longer than `slow` and the interval is at least a tick, a status that the
  -- read after `k` pending ones shows is noticed, as long as `k` rounds of the slowest read and the
  -- interval fit into the time out.
  pub poll-notices :
      (slow k : ℕ) (operation : ServiceCall) (expected step : String) (s : Site)
      → ((n : ℕ) → o.takes n ≤ slow)
      → 1 ≤ c.poll_interval
      → k * (slow + c.poll_interval) ≤ c.step_timeout
      → ((j : ℕ) → j < k → IsPending operation expected (s.calls + j))
      → o.answers (s.calls + k) operation ≡ some expected
      → (poll o c operation expected step s).0 ≡ returned expected
  unfolding poll
  poll-notices slow k operation expected step s t i h p a =
      poll_until-notices slow k (suc c.step_timeout) (s.time + c.step_timeout) operation expected
        step s t i (enough k (slow + c.poll_interval) (omega (arith, i)) (omega (arith, h)))
        (omega (arith, h)) p a
