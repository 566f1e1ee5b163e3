-- ===== src/Metrics.antt =====
-- The recorder of native-host/src/metrics.rs: the queue from the input thread to the worker, in the
-- atomic steps of its two ends. The indices are `usize`s of 64 bits.
pub mod Interleaving
pub mod Invariant
pub mod Fifo
pub mod Recorder
mod Examples
use holodori_phone_trackpad.Prelude.{
  ℕ, zero, suc, ◌+◌, ◌-◌, ◌%◌, ◌^◌, Bool, true, false, ◌==◌, not, if◌then◌else◌, Option, some, none,
  List, [], ◌∷◌, ◌++◌, get_or, set, replicate,
}

abbrev pub queue_capacity : ℕ
queue_capacity = 16384

pub record Queue (A : Type 0) : Type 0 where
  pub slots : List A
  pub read : ℕ
  pub write : ℕ
  pub stopped : Bool

-- `write.wrapping_sub(read)`.
abbrev pub wrapping_sub : ℕ → ℕ → ℕ
wrapping_sub a b = (a + 2 ^ 64 - b) % 2 ^ 64

abbrev pub wrapping_suc : ℕ → ℕ
wrapping_suc n = (n + 1) % 2 ^ 64

module _ {A : Type 0} (default : A) where
  pub new : Queue A
  new = record { slots = replicate queue_capacity default; read = 0; write = 0; stopped = false }

-- The steps of `push`: the test, the write into the slot, and the store of the index.
module _ {A : Type 0} where
  unfoldable pub is_full : Queue A → Bool
  is_full q = wrapping_sub q.write q.read == queue_capacity

  unfoldable pub fill_slot : Queue A → A → Queue A
  fill_slot q event = record q { slots = set q.slots (q.write % queue_capacity) event }

  unfoldable pub publish : Queue A → Queue A
  publish q = record q { write = wrapping_suc q.write }

  -- The new state, and whether the event was taken.
  unfoldable pub push : Queue A → A → Queue A × Bool
  push q event = if is_full q then (q, false) else (publish (fill_slot q event), true)

  -- The steps of `pop`: the test, the read of the slot, and the store of the index.
  unfoldable pub is_drained : Queue A → Bool
  is_drained q = q.read == q.write

  unfoldable pub slot : A → Queue A → A
  slot default q = get_or q.slots (q.read % queue_capacity) default

  unfoldable pub release : Queue A → Queue A
  release q = record q { read = wrapping_suc q.read }

  unfoldable pub pop : A → Queue A → Queue A × Option A
  pop default q = if is_drained q then (q, none) else (release q, some (slot default q))
