-- ===== src/Input/Timeouts.antt =====
-- How long a read of the socket may wait while edges are deferred.
use holodori_phone_trackpad.Prelude.{ℕ, ◌+◌, ◌-◌, ◌≤◌, ◌<◌, ◌≡◌, arith, max, some}
use holodori_phone_trackpad.Input.{InputSink, deferred_read_timeout}

module _ {F K : Type 0} (sink : InputSink F K) where
  -- When the sink has a deadline, the timeout is at least a millisecond and at most the usual one,
  -- or a millisecond if that is shorter; it ends less than a microsecond before a deadline that the
  -- usual timeout would reach, and less than a millisecond after any, if it is not the least one.
  pub deferred_read_timeout_bounds :
      (k : K) (now base deadline : ℕ)
      → sink.next_deadline k ≡ some deadline
      → let timeout = deferred_read_timeout sink k now base in
        (1000000 ≤ timeout)
        × (timeout ≤ max base 1000000)
        × (deadline - now ≤ base → deadline - now < timeout + 1000)
        × (timeout < max 1000001 (deadline - now + 1000000))
  unfolding deferred_read_timeout
  deferred_read_timeout_bounds k now base deadline due =
      rw (deferred_read_timeout, due)
        (omega arith, omega arith, (λ h. omega (arith, h)), omega arith)
