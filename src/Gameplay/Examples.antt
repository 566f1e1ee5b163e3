-- ===== src/Gameplay/Examples.antt =====
-- Tests of a frame of a connection that records what it sends, and of the quality statistics.
use holodori_phone_trackpad.Prelude.{
  ℕ, ◌+◌, ◌^◌, ◌≡◌, ◌<◌, refl, arith, false, Option, none, List, [], ◌∷◌, ok,
}
use holodori_phone_trackpad.Prelude.{contains, distinct}
use holodori_phone_trackpad.Prelude.Int.{pos, negsuc}
use holodori_phone_trackpad.V5.Quality.{QualityReply}
use holodori_phone_trackpad.Gameplay.Quality.{QualityStats, observe}
use holodori_phone_trackpad.Gameplay.Quality.Observed.{IsQuality, observe-IsQuality}
use holodori_phone_trackpad.Protocol.{TouchFrame}
use holodori_phone_trackpad.Ordered.{new, push}
use holodori_phone_trackpad.Ordered.Invariant.{new-IsOrdered}
use holodori_phone_trackpad.Input.{InputSink, Patience}
use holodori_phone_trackpad.Input.Frames.{ready_frames}
use holodori_phone_trackpad.Input.Fed.{Fed}
use holodori_phone_trackpad.Input.Given.{give}
use holodori_phone_trackpad.Gameplay.{
  ControlOutput, Gameplay, Times, foreign, received, process_gameplay_frame,
}
use holodori_phone_trackpad.Gameplay.Acknowledged.{Acks, process_gameplay_frame-Acks}

abbrev first_frame : TouchFrame ℕ
first_frame = record {
  session_id = 9;
  sequence = 40;
  phone_event_nanos = 0;
  phone_callback_nanos = 0;
  phone_send_nanos = 0;
  echo_host_send_nanos = 0;
  phone_control_receive_nanos = 0;
  action = 0;
  action_pointer_id = 0;
  flags = 2;
  contacts = [];
}

-- A sink that takes every frame, and a connection that is the list of the numbers it acknowledged.
abbrev sink : InputSink ℕ (List (TouchFrame ℕ))
sink = record {
  accept = λ taken frame. (frame ∷ taken, ok tt);
  has_active_input = λ taken. false;
  cancel_all = λ taken. (taken, ok tt);
  service = λ taken. (taken, ok tt);
  next_deadline = λ taken. none;
}

abbrev output : ControlOutput (List (Option ℕ)) ℕ
output = record {
  send_control = λ sent session number window lanes. (number ∷ sent, ok tt);
  send_control_once = λ sent session number window lanes. (number ∷ sent, ok tt);
}

abbrev at_once : ℕ → Patience
at_once round = record { failures = 0; stopped = false; started = 0; ended = 0 }

abbrev begun : Gameplay ℕ (List (TouchFrame ℕ)) (List (Option ℕ))
begun = record {
  link = [];
  live = record {
    ordered = new;
    keyboard = [];
    metrics = record { recorder = none; parser_counters = (0, 0, 0) };
  };
  control = record {
    lane_count = 6;
    last_committed_frame = 0;
    last_idle_activity = 0;
    last_ping = none;
    last_ack = none;
  };
}

abbrev times : Times
times = record { arrival = 1; received = 2; committed = 3; ack_started = 4; ack_ended = 5 }

no_session : foreign (begun.live.ordered.session_id) 9 ≡ false
unfolding new
no_session = refl

room : (push begun.live.ordered first_frame).next_sequence + 257 < 2 ^ 64
unfolding new push
room = omega arith

process_gameplay_frame-Acks_example :
    let r = (process_gameplay_frame sink output at_once begun times first_frame).0 in
    let window = push begun.live.ordered first_frame in
    let given =
      give sink at_once 0
        (ready_frames 257 window window.next_sequence)
        []
        (received begun times first_frame).metrics in
    Acks sink output begun 9 r
    × (r.live.ordered.next_sequence ≡ window.next_sequence + given.accepted)
    × (r.live.keyboard ≡ given.keyboard)
    × Fed sink at_once 0
        (ready_frames 257 window window.next_sequence)
        []
        given.accepted
        given.failed
        given.keyboard
process_gameplay_frame-Acks_example =
    process_gameplay_frame-Acks sink output at_once begun times first_frame new-IsOrdered
      (omega arith) no_session room

-- Probes 7 and 8 were sent.
abbrev asked : QualityStats
asked = record {
  sent = 8 ∷ 7 ∷ [];
  received = [];
  delays_micros = [];
  jitter_micros = [];
  repair_completion_micros = [];
  duplicates = 0;
  invalid_timing = 0;
  reordered = 0;
  highest_probe_id = none;
  last_delay_micros = none;
  signal_level = none;
  rssi = none;
  frequency = none;
}

asked-IsQuality : IsQuality asked
unfolding contains distinct
asked-IsQuality = record {
  once = refl;
  asked = λ p h. ground (arith, h);
  samples = omega arith;
  jitters = refl;
  latest = refl;
  accounted = omega arith;
  complete = λ h. refl;
  late = omega arith;
}

abbrev reply : QualityReply
reply = record {
  probe_id = 8;
  host_send_nanos = 1000;
  phone_receive_nanos = 500;
  phone_send_nanos = 900;
  repair_only = false;
  signal_level = pos 3;
  rssi_dbm = negsuc 54;
  frequency_mhz = 5180;
}

observe-IsQuality_example : IsQuality (observe asked reply 90000)
observe-IsQuality_example = observe-IsQuality asked reply 90000 asked-IsQuality
