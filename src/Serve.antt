-- ===== src/Serve.antt =====
-- `serve_gameplay` of native-host/src/v5_host.rs: one session, from the host's hello to the release
-- of all keys. The connection is a parameter, and so is what each round of the loop observes of the
-- clock and of the flag `stopping`.
pub mod Session
pub mod Signs
pub mod Tested
pub mod Watched
pub mod Ended
mod Examples
use holodori_phone_trackpad.Prelude.{
  ℕ, ◌+◌, ◌-◌, ◌*◌, Bool, true, false, ◌==◌, ◌||◌, ◌&&◌, not, ltb, leb, if◌then◌else◌, min, Option,
  some, none, is_some, List, [], ◌∷◌, Result, ok, err,
}
use holodori_phone_trackpad.Prelude.Actions.{Action, pure, raise, lift, ◌>>=◌}
use holodori_phone_trackpad.Wire.{slice}
use holodori_phone_trackpad.Io.{
  interface_changed, no_session_start, no_progress, idle_expired, peer_ended, invalid_record,
}
use holodori_phone_trackpad.Protocol.{Float32, TouchFrame}
use holodori_phone_trackpad.Ordered.{OrderedFrames, expected_sequence, require_fresh_session}
use holodori_phone_trackpad.Metrics.Recorder.{HostMetrics, note, record_event, event}
use holodori_phone_trackpad.V5.{phone_touch, record_header_size, WireError}
use holodori_phone_trackpad.V5.Record.{RecordHeader}
use holodori_phone_trackpad.V5.Touch.{decode_touch_payload}
use holodori_phone_trackpad.Connection.{Arrived}
use holodori_phone_trackpad.Input.{
  InputSink, Patience, Live, is_session, service_deferred, deferred_read_timeout,
  cancel_with_deadline,
}
use holodori_phone_trackpad.Gameplay.{
  HostError, authentication, io, wire, connection, ControlOutput, GameplayState, Gameplay, Times,
  process_gameplay_frame,
}

-- Durations are in nanoseconds.
abbrev pub active_input_silence_timeout : ℕ
active_input_silence_timeout = 32000000

abbrev pub idle_peer_silence_timeout : ℕ
idle_peer_silence_timeout = 2000000000

abbrev pub v5_session_start_timeout : ℕ
v5_session_start_timeout = 5000000000

abbrev pub v5_control_repair_interval : ℕ
v5_control_repair_interval = 2000000

abbrev pub v5_hello_repair_max_interval : ℕ
v5_hello_repair_max_interval = 32000000

abbrev pub v5_session_start_poll : ℕ
v5_session_start_poll = 1000000

abbrev pub v5_gameplay_read_timeout : ℕ
v5_gameplay_read_timeout = 4000000

abbrev pub boundary : ℕ
boundary = 5

abbrev pub ingress : ℕ
ingress = 9

abbrev pub stall : ℕ
stall = 12

abbrev pub phone_auth_abort : ℕ
phone_auth_abort = 6

abbrev pub phone_ping : ℕ
phone_ping = 7

-- The methods of `V5Connection` that a session uses; `send_hello` and `send_pong` are `send_control`
-- with `HOST_HELLO` and `HOST_PONG`, and `send_end` is the redundant `HOST_AUTH_ABORT`.
pub record HostLink (C E : Type 0) : Type 0 where
  pub control : ControlOutput C E
  pub monitor_interface : C → C × Result E (Unit {0})
  pub changed : C → C × Bool
  pub set_read_timeout : ℕ → C → C × Result E (Unit {0})
  pub send_hello : ℕ → C → C × Result E (Unit {0})
  pub send_hello_once : ℕ → C → C × Result E (Unit {0})
  pub send_pong : ℕ → ℕ → ℕ → C → C × Result E (Unit {0})
  pub send_end : ℕ → ℕ → C → C × Result E (Unit {0})
  pub receive_record : C → C × (Option (ℕ × ℕ) × Result E (Option Arrived))
  pub peer_aborted : C → Bool
  pub set_peer_aborted : C → C

-- The variables of the loop.
pub record Serving (F K C : Type 0) : Type 0 where
  pub game : Gameplay F K C
  pub session_established : Bool
  pub read_timeout : ℕ
  pub session_start_deadline : ℕ
  pub last_hello_send : ℕ
  pub hello_interval : ℕ

-- What one round of the loop observes.
pub record Round : Type 0 where
  pub stopping : Bool
  pub start_checked : ℕ
  pub hello_checked : ℕ
  pub hello_sent : ℕ
  pub active_checked : ℕ
  pub idle_checked : ℕ
  pub noted : ℕ
  pub service : Patience
  pub timeout_checked : ℕ
  pub times : Times
  pub patience : ℕ → Patience

abbrev pub session_or_zero : Option ℕ → ℕ
session_or_zero none = 0
session_or_zero (some session) = session

-- The ping is newer than the last one.
abbrev pub newer : Option ℕ → ℕ → Bool
newer none logical_id = true
newer (some previous) logical_id = ltb previous logical_id

module _ {F K C : Type 0} where
  abbrev pub with_link : Serving F K C → C → Serving F K C
  with_link s link = record s { game = record (s.game) { link = link } }

  abbrev pub with_live : Serving F K C → Live F K → Serving F K C
  with_live s live = record s { game = record (s.game) { live = live } }

  abbrev pub session_of : Serving F K C → Option ℕ
  session_of s = s.game.live.ordered.session_id

  -- `metrics.note` of a stall.
  unfoldable pub note_stall : ℕ → ℕ → ℕ → Serving F K C → Serving F K C
  note_stall at a b s = with_live s (record (s.game.live) {
    metrics =
        note s.game.live.metrics at stall (session_or_zero (session_of s))
          (expected_sequence s.game.live.ordered) a b;
  })

  -- A datagram that was dropped, by the reason and the time of its arrival.
  unfoldable pub note_discard : Option (ℕ × ℕ) → Serving F K C → Serving F K C
  note_discard none s = s
  note_discard (some (reason, arrival)) s = with_live s (record (s.game.live) {
    metrics = record_event s.game.live.metrics (event ingress arrival 0 0 (reason ∷ []));
  })

module _ {F K C E : Type 0} (float : Float32 F) (sink : InputSink F K) (link : HostLink C E) where
  -- A call of the connection, under `?`.
  unfoldable pub linked :
      (C → C × Result E (Unit {0})) → Action (Serving F K C) (HostError E) (Unit {0})
  linked call s =
      let (link', answer) = call s.game.link in
      elim answer [
        | ok _ ↦ (with_link s link', ok tt)
        | err e ↦ (with_link s link', err (connection e))
      ]

  unfoldable pub check_interface : Round → Action (Serving F K C) (HostError E) (Unit {0})
  unfolding note_stall
  check_interface r s =
      let (link', changed) = link.changed s.game.link in
      let seen = with_link s link' in
      if changed then (note_stall r.noted 1 0 seen, err (io interface_changed)) else (seen, ok tt)

  -- The hello again, at intervals that grow from 2 to 32 ms.
  unfoldable pub repeat_hello : Round → Action (Serving F K C) (HostError E) (Unit {0})
  unfolding linked
  repeat_hello r s =
      let (s', answer) = linked (link.send_hello_once s.game.control.lane_count) s in
      elim answer [
        | err e ↦ (s', err e)
        | ok _ ↦ (
          record s' {
            last_hello_send = r.hello_sent;
            hello_interval = min (s.hello_interval * 2) v5_hello_repair_max_interval;
          },
          ok tt,
        )
      ]

  unfoldable pub check_start : Round → Action (Serving F K C) (HostError E) (Unit {0})
  unfolding repeat_hello
  check_start r s =
      if is_some (session_of s)
      then (s, ok tt)
      else if leb s.session_start_deadline r.start_checked
      then (s, err (io no_session_start))
      else if leb s.hello_interval (r.hello_checked - s.last_hello_send)
      then repeat_hello r s
      else (s, ok tt)

  unfoldable pub watch_active : Round → Action (Serving F K C) (HostError E) (Unit {0})
  unfolding note_stall
  watch_active r s =
      if sink.has_active_input s.game.live.keyboard
        && leb active_input_silence_timeout (r.active_checked - s.game.control.last_committed_frame)
      then (note_stall r.noted 2 32000000 s, err (io no_progress))
      else (s, ok tt)

  unfoldable pub watch_idle : Round → Action (Serving F K C) (HostError E) (Unit {0})
  watch_idle r s =
      if s.session_established
        && (not (sink.has_active_input s.game.live.keyboard)
            && leb idle_peer_silence_timeout (r.idle_checked - s.game.control.last_idle_activity))
      then (s, err (io idle_expired))
      else (s, ok tt)

  unfoldable pub serve_deferred : Round → Action (Serving F K C) (HostError E) (Unit {0})
  serve_deferred r s =
      let (keyboard', answer) = service_deferred sink r.service s.game.live.keyboard in
      let served = with_live s (record (s.game.live) { keyboard = keyboard' }) in
      elim answer [ ok _ ↦ (served, ok tt) | err e ↦ (served, err (io e)) ]

  unfoldable pub set_timeout : ℕ → Action (Serving F K C) (HostError E) (Unit {0})
  unfolding linked
  set_timeout wanted s =
      let (s', answer) = linked (link.set_read_timeout wanted) s in
      elim answer [ ok _ ↦ (record s' { read_timeout = wanted }, ok tt) | err e ↦ (s', err e) ]

  unfoldable pub adjust_timeout : Round → Action (Serving F K C) (HostError E) (Unit {0})
  unfolding set_timeout
  adjust_timeout r s =
      let wanted =
        deferred_read_timeout sink s.game.live.keyboard r.timeout_checked
          v5_gameplay_read_timeout in
      if not s.session_established || wanted == s.read_timeout
      then (s, ok tt)
      else set_timeout wanted s

  unfoldable pub receive_next : Action (Serving F K C) (HostError E) (Option Arrived)
  unfolding note_discard
  receive_next s =
      let (link', (discard, answer)) = link.receive_record s.game.link in
      let noted = note_discard discard (with_link s link') in
      elim answer [ ok arrived ↦ (noted, ok arrived) | err e ↦ (noted, err (connection e)) ]

  unfoldable pub ping : Arrived → Action (Serving F K C) (HostError E) (Unit {0})
  unfolding linked
  ping a s =
      let fresh = newer s.game.control.last_ping a.header.logical_id in
      let noted =
        if fresh
        then record (s.game.control) {
          last_ping = some a.header.logical_id;
          last_idle_activity = a.arrival;
        }
        else s.game.control in
      if not (a.header.flags == 0)
        || (not (a.header.payload_length == 0)
            || not (is_session (session_of s) a.header.session_id))
      then (s, err authentication)
      else linked (link.send_pong a.header.session_id a.header.logical_id s.game.control.lane_count)
          (record s { game = record (s.game) { control = noted } })

  -- After the first frame that has begun a session.
  unfoldable pub establish : Action (Serving F K C) (HostError E) (Unit {0})
  unfolding set_timeout
  establish s =
      let (s', answer) = set_timeout v5_gameplay_read_timeout s in
      if s.session_established || not (is_some (session_of s)) then (s, ok tt) else (elim answer [
        | ok _ ↦ (record s' { session_established = true }, ok tt)
        | err e ↦ (s', err e)
      ])

  unfoldable pub process :
      Round → Arrived → TouchFrame F → Action (Serving F K C) (HostError E) (Unit {0})
  process r a frame s =
      let (game', answer) =
        process_gameplay_frame sink link.control r.patience s.game
          (record (r.times) { arrival = a.arrival }) frame in
      (record s { game = game' }, answer)

  unfoldable pub touch : Round → Arrived → Action (Serving F K C) (HostError E) (Unit {0})
  touch r a s =
      elim (decode_touch_payload float a.header
        (slice a.bytes record_header_size a.header.payload_length)) [
          | err e ↦ (s, err (wire e))
          | ok frame ↦ (process r a frame >>= λ _. establish) s
        ]

  unfoldable pub take_record :
      Round → Option Arrived → Action (Serving F K C) (HostError E) (Unit {0})
  take_record r none s = (s, ok tt)
  take_record r (some a) s =
      if a.header.message_type == phone_auth_abort
      then (with_link s (link.set_peer_aborted s.game.link), err (io peer_ended))
      else if a.header.message_type == phone_ping
      then ping a s
      else if not (a.header.message_type == phone_touch)
      then (s, err (io invalid_record))
      else touch r a s

  -- A round up to the record that arrives, if one does.
  unfoldable pub arriving : Round → Action (Serving F K C) (HostError E) (Option Arrived)
  arriving r = do
    _ ← check_interface r
    _ ← check_start r
    _ ← watch_active r
    _ ← watch_idle r
    _ ← serve_deferred r
    _ ← adjust_timeout r
    receive_next

  -- One round of the loop.
  unfoldable pub round : Round → Action (Serving F K C) (HostError E) (Unit {0})
  round r = do arrived ← arriving r; take_record r arrived

  -- The loop, as far as it is observed: whether it has seen the flag `stopping`.
  unfoldable pub rounds : List Round → Action (Serving F K C) (HostError E) Bool
  rounds [] = pure false
  rounds (r ∷ rs) = if r.stopping then pure true else (round r >>= λ _. rounds rs)
