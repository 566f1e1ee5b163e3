-- ===== src/Gameplay.antt =====
-- A frame of a version 5 connection in native-host/src/v5_host.rs, `process_gameplay_frame`: into
-- the window, to the sink, and acknowledged. The connection is any that can send control records.
pub mod Acknowledged
pub mod Moments
pub mod Quality
mod Examples
use holodori_phone_trackpad.Prelude.{
  ℕ, ◌+◌, ◌-◌, ◌^◌, Bool, true, false, ◌==◌, ◌&&◌, not, ltb, if◌then◌else◌, Option, some, none,
  is_some, List, [], ◌∷◌, Result, ok, err,
}
use holodori_phone_trackpad.Io.{IoError}
use holodori_phone_trackpad.V5.{WireError}
use holodori_phone_trackpad.Protocol.{TouchFrame}
use holodori_phone_trackpad.Ordered.{OrderedFrames, acknowledged_sequence}
use holodori_phone_trackpad.Metrics.Recorder.{HostMetrics, record_event, event}
use holodori_phone_trackpad.Input.{
  InputSink, Patience, Live, is_session, receive_ordered, commit_ready,
}

abbrev pub duplicate_ack_holdoff : ℕ
duplicate_ack_holdoff = 1000000

abbrev pub receive_window : ℕ
receive_window = 128

-- The errors of the host; those of the connection are a parameter.
pub data HostError (E : Type 0) : Type 0 where
  authentication : HostError E
  io : IoError → HostError E
  wire : WireError → HostError E
  connection : E → HostError E

-- `send_control` and `send_control_once` with `HOST_ACK`: the session, the acknowledged number, the
-- window and the lanes.
pub record ControlOutput (C E : Type 0) : Type 0 where
  pub send_control : C → ℕ → Option ℕ → ℕ → ℕ → C × Result E (Unit {0})
  pub send_control_once : C → ℕ → Option ℕ → ℕ → ℕ → C × Result E (Unit {0})

pub record GameplayState : Type 0 where
  pub lane_count : ℕ
  pub last_committed_frame : ℕ
  pub last_idle_activity : ℕ
  pub last_ping : Option ℕ
  pub last_ack : Option (Option ℕ × ℕ)

pub record Gameplay (F K C : Type 0) : Type 0 where
  pub link : C
  pub live : Live F K
  pub control : GameplayState

-- The times that are read while one frame is processed.
pub record Times : Type 0 where
  pub arrival : ℕ
  pub received : ℕ
  pub committed : ℕ
  pub ack_started : ℕ
  pub ack_ended : ℕ

abbrev pub same_number : Option ℕ → Option ℕ → Bool
same_number none none = true
same_number none (some b) = false
same_number (some a) none = false
same_number (some a) (some b) = a == b

-- `u64::MAX` stands for no number.
abbrev pub number_or_max : Option ℕ → ℕ
number_or_max none = 2 ^ 64 - 1
number_or_max (some n) = n

-- `observe_ack` of native-host/src/metrics.rs.
unfoldable pub observe_ack : HostMetrics → ℕ → Option ℕ → ℕ → ℕ → Bool → Bool → HostMetrics
observe_ack m session sequence start end progressed failed = record_event m (
    event 6 end session (number_or_max sequence)
      ((end - start) ∷ (if progressed then 1 else 0) ∷ (if failed then 1 else 0) ∷ start ∷ []))

-- The same number was acknowledged just before.
abbrev pub held_off : Option (Option ℕ × ℕ) → Option ℕ → ℕ → Bool
held_off none acknowledged now = false
held_off (some (sent, at)) acknowledged now =
    same_number sent acknowledged && ltb (now - at) duplicate_ack_holdoff

abbrev pub is_err : {E : Type 0} → Result E (Unit {0}) → Bool
is_err (ok _) = false
is_err (err e) = true

-- A session that is not the current one.
abbrev pub foreign : Option ℕ → ℕ → Bool
foreign none session = false
foreign (some id) session = not (id == session)

module _ {F K C : Type 0} where
  unfoldable pub received : Gameplay F K C → Times → TouchFrame F → Live F K
  received g t frame =
      let (ordered', metrics') =
        receive_ordered g.live.ordered g.live.metrics frame t.arrival t.received in
      record (g.live) { ordered = ordered'; metrics = metrics' }

module _ {F K C E : Type 0} (sink : InputSink F K) (output : ControlOutput C E) where
  -- The acknowledgement, and what is noted of it.
  unfoldable pub acknowledge :
      Gameplay F K C → Times → ℕ → Bool → Gameplay F K C × Result (HostError E) (Unit {0})
  acknowledge g t session progressed =
      let acknowledged = acknowledged_sequence g.live.ordered in
      let (link', answer) =
        if progressed
        then output.send_control g.link session acknowledged receive_window g.control.lane_count
        else output.send_control_once g.link session acknowledged receive_window
            g.control.lane_count in
      let sent : Gameplay F K C = record {
        link = link';
        live = record (g.live) {
          metrics =
              observe_ack g.live.metrics session acknowledged t.ack_started t.ack_ended progressed
                (is_err answer);
        };
        control = record (g.control) { last_ack = some (acknowledged, t.ack_started) };
      } in
      if not progressed && held_off g.control.last_ack acknowledged t.ack_started
      then (g, ok tt)
      else elim answer [ ok _ ↦ (sent, ok tt) | err e ↦ (sent, err (connection e)) ]

  -- After the frames that are ready were given to the sink.
  unfoldable pub committed :
      Gameplay F K C
      → Times
      → ℕ
      → Live F K
      → Bool
      → Gameplay F K C × Result (HostError E) (Unit {0})
  committed g t session live progressed =
      let timed =
        if progressed
        then record (g.control) {
          last_committed_frame = t.committed;
          last_idle_activity = t.committed;
        }
        else g.control in
      let moved : Gameplay F K C = record g { live = live; control = timed } in
      if is_session live.ordered.session_id session
      then acknowledge moved t session progressed
      else (moved, ok tt)

  unfoldable pub process_gameplay_frame :
      (ℕ → Patience)
      → Gameplay F K C
      → Times
      → TouchFrame F
      → Gameplay F K C × Result (HostError E) (Unit {0})
  process_gameplay_frame patience g t frame =
      let (live', answer) = commit_ready sink patience (received g t frame) in
      if foreign g.live.ordered.session_id frame.session_id
      then (g, err authentication)
      else elim answer [
        | err e ↦ (record g { live = live' }, err (io e))
        | ok progressed ↦ committed g t frame.session_id live' progressed
      ]
