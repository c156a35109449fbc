-- ===== src/Utils/SessionLoop/Policy.antt =====
-- The reconnection policy of utils/session_loop.rs over whole runs of the loop: when it ends with the
-- error, and its delays.
use pg_x.Base.{
  ℕ, suc, ◌+◌, ◌-◌, ◌%◌, ◌≡◌, ◌≢◌, ◌≤◌, ◌<◌, arith, false, List, [], ◌∷◌, length, All, leb,
  if◌then◌else◌,
}
use pg_x.Word.{u32_mod}
use pg_x.Utils.Backoff.{delay-le}
use pg_x.Utils.SessionLoop.{reconnect, ReconnectConfig, Round, max_reached, run_from, run}

module _ {E : Type 0} (cfg : ReconnectConfig) where
  -- A round in which the connection fails and nobody asks for shutdown.
  pub record Fails (r : Round E) : Type 0 where
    pub not_signalled : r.signalled ≡ false
    pub fails : r.outcome ≡ reconnect

  gives_up_from :
      (rounds : List (Round E)) (failures : ℕ)
      → All Fails rounds
      → failures ≤ cfg.max_attempts
      → 0 < cfg.max_attempts
      → cfg.max_attempts < u32_mod
      → cfg.max_attempts - failures < length rounds
      → ((run_from cfg rounds failures).ending ≡ max_reached cfg.max_attempts)
        × ((run_from cfg rounds failures).sessions ≡ cfg.max_attempts - failures)
  unfolding run_from
  gives_up_from [] failures h le pos small enough = absurd (omega arith)
  gives_up_from (r ∷ rounds) failures h le pos small enough =
      let count : (failures + 1) % u32_mod
          ≡ (if leb cfg.max_attempts failures then (failures + 1) % u32_mod else suc failures) =
        ground arith in
      ground (arith, h.0.not_signalled, h.0.fails, count, gives_up_from rounds (suc failures) h.1)

  -- With `max_attempts` above 0, where every session asks for a plain reconnect and no shutdown is
  -- signalled, the loop ends with the error after exactly `max_attempts` sessions.
  pub gives_up :
      (rounds : List (Round E))
      → All Fails rounds
      → 0 < cfg.max_attempts
      → cfg.max_attempts < u32_mod
      → cfg.max_attempts < length rounds
      → ((run cfg rounds).ending ≡ max_reached cfg.max_attempts)
        × ((run cfg rounds).sessions ≡ cfg.max_attempts)
  unfolding run
  gives_up rounds h pos small enough =
      let r = gives_up_from rounds 0 h (omega arith) pos small (omega arith) in
      (r.0, omega (arith, r.1))

  never_gives_up_from :
      (rounds : List (Round E)) (failures n : ℕ)
      → cfg.max_attempts ≡ 0
      → (run_from cfg rounds failures).ending ≢ max_reached n
  unfolding run_from
  never_gives_up_from [] failures n h = ground arith
  never_gives_up_from (r ∷ rounds) failures n h = ground (
    arith,
    never_gives_up_from rounds ((failures + 1) % u32_mod) n h,
    never_gives_up_from rounds 1 n h,
  )

  delays_from :
      (rounds : List (Round E)) (failures : ℕ)
      → All (λ d. d ≤ cfg.max_ms) (run_from cfg rounds failures).delays
  unfolding run_from
  delays_from [] failures = tt
  delays_from (r ∷ rounds) failures = ground (
    arith,
    delays_from rounds ((failures + 1) % u32_mod),
    delays_from rounds 1,
    delay-le r.random failures cfg.base_ms cfg.max_ms,
  )

  -- With `max_attempts` at 0 the loop never ends with the error of too many attempts, whatever
  -- happens to the sessions.
  never_gives_up :
      (rounds : List (Round E)) (n : ℕ)
      → cfg.max_attempts ≡ 0
      → (run cfg rounds).ending ≢ max_reached n
  unfolding run
  never_gives_up rounds n h = never_gives_up_from rounds 0 n h

  -- Every delay the loop sleeps is at most `max_ms`.
  delays_le : (rounds : List (Round E)) → All (λ d. d ≤ cfg.max_ms) (run cfg rounds).delays
  unfolding run
  delays_le rounds = delays_from rounds 0
