-- ===== src/Io.antt =====
-- The failures that the input path of the host reports, where the sources build an `io::Error`.
use holodori_phone_trackpad.Prelude.{ℕ, List}

-- The constructors that carry numbers have those of the error's text.
pub data IoError : Type 0 where
  -- An error of the operating system, with its code.
  os : ℕ → IoError
  interrupted : IoError
  timed_out : IoError → IoError
  -- More accepted than requested, and fewer.
  excessive : ℕ → ℕ → IoError
  incomplete : ℕ → ℕ → IoError
  write_zero : IoError
  partially_applied : ℕ → IoError
  sync_pending : IoError
  retry_mismatch : IoError
  sync_refused : IoError
  missing_frame : IoError
  -- A count of bytes, or of events, that no write of the other number can have.
  invalid_length : ℕ → ℕ → IoError
  invalid_count : ℕ → ℕ → IoError
  -- A lane key that is refused.
  no_keys : IoError
  empty_key : IoError
  invalid_key : List ℕ → IoError
  duplicated_key : List ℕ → IoError
  unmapped_key : List ℕ → IoError
  too_many_events : IoError
  -- Why the host ends a session.
  interface_changed : IoError
  no_session_start : IoError
  no_progress : IoError
  idle_expired : IoError
  peer_ended : IoError
  invalid_record : IoError
