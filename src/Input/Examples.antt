-- ===== src/Input/Examples.antt =====
-- Tests of the live input path, over a sink that takes every frame at the second call.
use holodori_phone_trackpad.Prelude.{
  ℕ, ◌+◌, ◌^◌, ◌≡◌, ◌≤◌, ◌<◌, refl, arith, Bool, true, false, some, none, List, [], ◌∷◌, Result, ok,
  err,
}
use holodori_phone_trackpad.Io.{IoError, write_zero}
use holodori_phone_trackpad.Protocol.{TouchFrame}
use holodori_phone_trackpad.Ordered.{OrderedFrames, new, push, next_ready}
use holodori_phone_trackpad.Ordered.Invariant.{IsOrdered, new-IsOrdered, push-IsOrdered}
use holodori_phone_trackpad.Input.{InputSink, Patience, Live, commit_ready, deferred_read_timeout}
use holodori_phone_trackpad.Input.Frames.{ready_frames}
use holodori_phone_trackpad.Input.Fed.{Fed}
use holodori_phone_trackpad.Input.Given.{Commits, give}
use holodori_phone_trackpad.Input.Ready.{commit_ready-Commits}
use holodori_phone_trackpad.Input.Timeouts.{deferred_read_timeout_bounds}

-- A frame of session 9 without contacts, with its sequence number and its flags.
abbrev frame : ℕ → ℕ → TouchFrame ℕ
frame sequence flags = record {
  session_id = 9;
  sequence = sequence;
  phone_event_nanos = 0;
  phone_callback_nanos = 0;
  phone_send_nanos = 0;
  echo_host_send_nanos = 0;
  phone_control_receive_nanos = 0;
  action = 0;
  action_pointer_id = 0;
  flags = flags;
  contacts = [];
}

-- The frames taken, in the reverse order, and whether the next call fails.
abbrev Fussy : Type 0
Fussy = List (TouchFrame ℕ) × Bool

abbrev take_second : Fussy → TouchFrame ℕ → Fussy × Result IoError (Unit {0})
take_second (taken, true) received = ((taken, false), err write_zero)
take_second (taken, false) received = ((received ∷ taken, true), ok tt)

abbrev fussy : InputSink ℕ Fussy
fussy = record {
  accept = take_second;
  has_active_input = λ k. false;
  cancel_all = λ k. (k, ok tt);
  service = λ k. (k, ok tt);
  next_deadline = λ k. some 2000500;
}

abbrev patient : ℕ → Patience
patient round = record { failures = 3; stopped = false; started = round; ended = round + 1 }

-- Frames 40 and 41 of a session, the second one received first.
abbrev window : OrderedFrames ℕ
window = push (push new (frame 40 2)) (frame 41 0)

window-IsOrdered : IsOrdered window
window-IsOrdered =
    push-IsOrdered (push new (frame 40 2)) (frame 41 0) (omega arith)
      (push-IsOrdered new (frame 40 2) (omega arith) new-IsOrdered)

abbrev live : Live ℕ Fussy
live = record {
  ordered = window;
  keyboard = ([], true);
  metrics = record { recorder = none; parser_counters = (0, 0, 0) };
}

next_fits : window.next_sequence + 257 < 2 ^ 64
unfolding new push
next_fits = omega arith

commit_ready-Commits_example :
    let r = commit_ready fussy patient live in
    let g =
      give fussy patient 0 (ready_frames 257 window window.next_sequence) ([], true) live.metrics in
    Commits fussy patient live false g r.0 r.1
    × Fed fussy patient 0
        (ready_frames 257 window window.next_sequence)
        ([], true)
        g.accepted
        g.failed
        g.keyboard
    × (g.failed ≡ none → next_ready r.0.ordered ≡ none)
commit_ready-Commits_example = commit_ready-Commits fussy patient live window-IsOrdered next_fits

-- Two milliseconds for a deadline that is half a microsecond further away.
deferred_read_timeout_bounds_example :
    let timeout = deferred_read_timeout fussy ([], true) 0 5000000 in
    (1000000 ≤ timeout)
    × (timeout ≤ 5000000)
    × (2000500 ≤ 5000000 → 2000500 < timeout + 1000)
    × (timeout < 3000500)
deferred_read_timeout_bounds_example =
    deferred_read_timeout_bounds fussy ([], true) 0 5000000 2000500 refl

-- It ends before that deadline.
early : deferred_read_timeout fussy ([], true) 0 5000000 < 2000500
unfolding deferred_read_timeout
early = omega arith
