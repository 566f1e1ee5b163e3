-- ===== src/Serve/Session.antt =====
-- `serve_gameplay`: the loop between its opening and its end.
use holodori_phone_trackpad.Prelude.{
  ℕ, ◌+◌, Bool, false, if◌then◌else◌, Option, some, none, List, Result, ok, err,
}
use holodori_phone_trackpad.Prelude.Actions.{Action, ◌>>=◌}
use holodori_phone_trackpad.Protocol.{Float32}
use holodori_phone_trackpad.Ordered.{expected_sequence, require_fresh_session}
use holodori_phone_trackpad.Metrics.Recorder.{note}
use holodori_phone_trackpad.Input.{InputSink, Patience, Live, cancel_with_deadline}
use holodori_phone_trackpad.Gameplay.{HostError, io}
use holodori_phone_trackpad.Serve.{
  HostLink, Serving, Round, session_or_zero, boundary, v5_session_start_poll,
  v5_session_start_timeout, v5_control_repair_interval, linked, rounds,
}

-- What is observed of the clock before the loop.
pub record Start : Type 0 where
  pub idle_from : ℕ
  pub committed_from : ℕ
  pub started : ℕ
  pub hello_sent : ℕ

-- What is observed of the clock and of the flag `stopping` after it.
pub record Ending : Type 0 where
  pub stopping : Bool
  pub still_stopping : Bool
  pub noted : ℕ
  pub cancelling : Patience

abbrev pub failed_bit : {E : Type 0} → Result E Bool → Bool → ℕ
failed_bit (ok done) stopping = 0
failed_bit (err e) stopping = if stopping then 0 else 1

abbrev pub finished : {E : Type 0} → Result E Bool → Result E (Unit {0})
finished (ok done) = ok tt
finished (err e) = err e

module _ {F K C E : Type 0} (float : Float32 F) (sink : InputSink F K) (link : HostLink C E) where
  abbrev pub opening : C → Live F K → ℕ → Start → Serving F K C
  opening c live lanes start = record {
    game = record {
      link = c;
      live = live;
      control = record {
        lane_count = lanes;
        last_committed_frame = start.committed_from;
        last_idle_activity = start.idle_from;
        last_ping = none;
        last_ack = none;
      };
    };
    session_established = false;
    read_timeout = v5_session_start_poll;
    session_start_deadline = start.started + v5_session_start_timeout;
    last_hello_send = start.hello_sent;
    hello_interval = v5_control_repair_interval;
  }

  unfoldable pub serve_gameplay_inner : ℕ → List Round → Action (Serving F K C) (HostError E) Bool
  serve_gameplay_inner lanes rs = do
    _ ← linked float sink link link.monitor_interface
    _ ← linked float sink link (link.set_read_timeout v5_session_start_poll)
    _ ← linked float sink link (link.send_hello lanes)
    rounds float sink link rs

  unfoldable pub notify_session_end : Bool → Option ℕ → C → C
  notify_session_end stopping session c =
      if link.peer_aborted c
      then c
      else (link.send_end (session_or_zero session) (if stopping then 1 else 4) c).0

  -- What follows the loop, however it has ended.
  unfoldable pub end_session :
      Ending
      → Serving F K C
      → Result (HostError E) Bool
      → (C × Live F K) × Result (HostError E) (Unit {0})
  unfolding notify_session_end
  end_session e s answer =
      let ordered = s.game.live.ordered in
      let c = notify_session_end e.stopping ordered.session_id s.game.link in
      let noted =
        note s.game.live.metrics e.noted boundary (session_or_zero ordered.session_id)
          (expected_sequence ordered) (failed_bit answer e.still_stopping) 0 in
      let (keyboard', (metrics', cancelled)) =
        cancel_with_deadline sink e.cancelling s.game.live.keyboard noted in
      let live' : Live F K = record {
        ordered = require_fresh_session ordered;
        keyboard = keyboard';
        metrics = metrics';
      } in
      ((c, live'), elim cancelled [ err x ↦ err (io x) | ok _ ↦ finished answer ])

  -- As long as the loop goes on there is no result.
  unfoldable pub serve_gameplay :
      C
      → Live F K
      → ℕ
      → Start
      → List Round
      → Ending
      → Option ((C × Live F K) × Result (HostError E) (Unit {0}))
  unfolding end_session
  serve_gameplay c live lanes start rs e =
      let fresh = record live { ordered = require_fresh_session live.ordered } in
      let (s, answer) = serve_gameplay_inner lanes rs (opening c fresh lanes start) in
      elim answer [
        | ok done ↦ if done then some (end_session e s (ok done)) else none
        | err x ↦ some (end_session e s (err x))
      ]
