-- ===== src/Utils/SessionLoop.antt =====
-- utils/session_loop.rs: sessions one after another, with the reconnection policy.
pub mod Policy
use pg_x.Base.{ℕ, ◌+◌, ◌%◌, Bool, not, ◌&&◌, List, [], ◌∷◌, ◌==◌, leb, if◌then◌else◌}
use pg_x.Word.{u32_mod}
use pg_x.Utils.Backoff.{delay}

pub data SessionExit (E : Type 0) : Type 0 where
  reconnect reconnect_after_healthy shutdown : SessionExit E
  fatal : E → SessionExit E

pub record ReconnectConfig : Type 0 where
  pub max_attempts : ℕ
  pub base_ms : ℕ
  pub max_ms : ℕ

-- What happens to one turn of the loop from outside: whether the shutdown signal wins against the
-- back-off's sleep, the random number of the delay, and the outcome of the session.
pub record Round (E : Type 0) : Type 0 where
  pub signalled : Bool
  pub random : ℕ
  pub outcome : SessionExit E

pub data Ending (E : Type 0) : Type 0 where
  -- the rounds that are given end, the loop goes on with this many failures
  running : ℕ → Ending E
  clean : Ending E
  failed : E → Ending E
  max_reached : ℕ → Ending E

-- The ending, the sessions run, and the delays slept.
pub record Log (E : Type 0) : Type 0 where
  pub ending : Ending E
  pub sessions : ℕ
  pub delays : List ℕ

module _ {E : Type 0} where
  abbrev pub ended : Ending E → Log E
  ended e = record { ending = e; sessions = 0; delays = [] }

  abbrev after_session : Log E → Log E
  after_session l = record l { sessions = l.sessions + 1 }

  abbrev pub after_delay : ℕ → Log E → Log E
  after_delay d l = record l { delays = d ∷ l.delays }

  -- The `match` on the outcome; `next` is the rest of the loop by the failure counter, a `u32`.
  unfoldable pub settle : SessionExit E → ℕ → (ℕ → Log E) → Log E
  settle reconnect failures next = after_session (next ((failures + 1) % u32_mod))
  settle reconnect_after_healthy failures next = after_session (next 1)
  settle shutdown failures next = after_session (ended clean)
  settle (fatal e) failures next = after_session (ended (failed e))

  -- The back-off in front of a session, skipped when nothing has failed.
  unfoldable pub back_off : ReconnectConfig → Round E → ℕ → Log E → Log E
  unfolding delay
  back_off cfg round failures session =
      if failures == 0
      then session
      else if not (cfg.max_attempts == 0) && leb cfg.max_attempts failures
      then ended (max_reached cfg.max_attempts)
      else if round.signalled
      then ended clean
      else after_delay (delay round.random failures cfg.base_ms cfg.max_ms) session

  unfoldable pub run_from : ReconnectConfig → List (Round E) → ℕ → Log E
  unfolding settle back_off
  run_from cfg [] failures = ended (running failures)
  run_from cfg (round ∷ rounds) failures =
      back_off cfg round failures (settle round.outcome failures (run_from cfg rounds))

  unfoldable pub run : ReconnectConfig → List (Round E) → Log E
  unfolding run_from
  run cfg rounds = run_from cfg rounds 0
