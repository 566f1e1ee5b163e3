-- ===== src/Keyboard/Linux/Examples.antt =====
-- Tests of the Linux sink, over a device that is the list of its events and takes few at a time.
use holodori_phone_trackpad.Prelude.{
  ℕ, ◌*◌, refl, sym, ap, arith, true, some, List, [], ◌∷◌, ◌++◌, length, take, min, Result, ok, err,
}
use holodori_phone_trackpad.Io.{IoError}
use holodori_phone_trackpad.Keyboard.{KeyChange}
use holodori_phone_trackpad.Keyboard.Linux.{
  InputEvent, KeySink, change, key_event, submit_with, discard_pending_with,
}
use holodori_phone_trackpad.Keyboard.Linux.Device.{IsDevice}
use holodori_phone_trackpad.Keyboard.Linux.Remaining.{Extends}
use holodori_phone_trackpad.Keyboard.Linux.Exact.{submit_with-Extends}
use holodori_phone_trackpad.Keyboard.Linux.Cleanup.{Settles, discard_pending_with-Settles}

-- Events of 24 bytes, of which a write takes three.
abbrev three_a_write : List InputEvent → List InputEvent → List InputEvent × Result IoError ℕ
three_a_write device events =
    let count = min 3 (length events) in (device ++ take count events, ok (count * 24))

abbrev log : List InputEvent → List InputEvent
log device = device

ok_value : Result IoError ℕ → ℕ
ok_value (ok n) = n
ok_value (err e) = 0

three_a_write-IsDevice : IsDevice 24 three_a_write log
unfolding ok_value
three_a_write-IsDevice = record {
  appends =
      λ device events written e. (min 3 (length events), sym (ap ok_value e), omega arith, refl);
  refuses = λ device events e h. ground (arith, h);
}

abbrev press : ℕ → KeyChange
press lane = record { lane = lane; down = true; touch = true }

-- The key event of the first change was written, and its `SYN_REPORT` was not.
abbrev half_written : KeySink (List InputEvent)
half_written = record {
  device = key_event 31 true ∷ [];
  keycodes = 31 ∷ 32 ∷ 33 ∷ [];
  pending = some (change (press 0));
}

submit_with-Extends_example :
    Extends 24 three_a_write log half_written.keycodes [] 0
      (press 0 ∷ press 1 ∷ press 2 ∷ [])
      (submit_with 24 three_a_write half_written (press 0 ∷ press 1 ∷ press 2 ∷ []))
submit_with-Extends_example =
    submit_with-Extends 24 three_a_write log half_written (press 0 ∷ press 1 ∷ press 2 ∷ []) []
      (omega arith) three_a_write-IsDevice refl

discard_pending_with-Settles_example :
    Settles 24 three_a_write log half_written (discard_pending_with 24 three_a_write half_written)
discard_pending_with-Settles_example =
    discard_pending_with-Settles 24 three_a_write log half_written (omega arith)
      three_a_write-IsDevice
