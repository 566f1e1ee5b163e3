-- ===== src/Metrics/Recorder.antt =====
-- `HostMetrics` of native-host/src/metrics.rs, as far as the input path writes to it: the events of
-- native-host/src/diagnostics.rs, and the recorder that queues them. Instants are in
-- `clock_nanos`. The worker, the report and what only the report reads are not here.
use holodori_phone_trackpad.Prelude.{
  ℕ, ◌+◌, ◌-◌, ◌^◌, Bool, ◌==◌, if◌then◌else◌, Option, some, none, is_some, List, [], ◌∷◌, ◌++◌,
  length, replicate, get_or,
}
use holodori_phone_trackpad.Io.{IoError, os}
use holodori_phone_trackpad.Protocol.{TouchFrame, session_start, historical, action_heartbeat}
use holodori_phone_trackpad.Metrics.{Queue, push}

abbrev pub receive : ℕ
receive = 1

abbrev pub accept : ℕ
accept = 2

abbrev pub gap : ℕ
gap = 3

abbrev pub reject : ℕ
reject = 4

abbrev pub sink_failure : ℕ
sink_failure = 8

abbrev pub cancel : ℕ
cancel = 11

abbrev pub duplicate : ℕ
duplicate = 13

-- The twelve `u64`s of an event.
abbrev pub Event : Type 0
Event = List ℕ

-- `Event::new`; at most eight fields, of which those that are not given are 0.
unfoldable pub event : ℕ → ℕ → ℕ → ℕ → List ℕ → Event
event kind at session sequence fields =
    kind ∷ at ∷ session ∷ sequence ∷ (fields ++ replicate (8 - length fields) 0)

pub record Recorder : Type 0 where
  pub queue : Queue Event
  pub dropped : ℕ
  pub drop_span : Option (ℕ × ℕ)

pub record HostMetrics : Type 0 where
  pub recorder : Option Recorder
  pub parser_counters : ℕ × ℕ × ℕ

-- The span of the times of dropped events.
abbrev pub widen : Option (ℕ × ℕ) → ℕ → Option (ℕ × ℕ)
widen none at = some (at, at)
widen (some (first, last)) at = some (first, at)

unfoldable pub record_event : HostMetrics → Event → HostMetrics
record_event m e = elim m.recorder [
  | none ↦ m
  | some r ↦
      let (queue', taken) = push r.queue e in
      record m {
        recorder = some (
            if taken then record r { queue = queue' } else record r {
              dropped = r.dropped + 1;
              drop_span = widen r.drop_span (get_or e 1 0);
            });
      }
]

unfoldable pub note : HostMetrics → ℕ → ℕ → ℕ → ℕ → ℕ → ℕ → HostMetrics
note m at kind session sequence a b = record_event m (event kind at session sequence (a ∷ b ∷ []))

-- `saturating_sub` is the subtraction of natural numbers.
unfoldable pub observe_gap : HostMetrics → ℕ → ℕ → ℕ → ℕ → HostMetrics
observe_gap m at session expected received =
    note m at gap session received expected (received - expected)

-- `raw_os_error().unwrap_or(-1) as u64`.
abbrev pub raw_code : IoError → ℕ
raw_code (os code) = code
raw_code _ = 2 ^ 64 - 1

abbrev pub code_or_zero : Option ℕ → ℕ
code_or_zero none = 0
code_or_zero (some code) = code

module _ {F : Type 0} where
  abbrev pub event_flags : TouchFrame F → ℕ
  event_flags frame =
      (if frame.action == action_heartbeat then 4 else if session_start frame then 8 else 1)
      + (if historical frame then 2 else 0)

  unfoldable pub receive_event : HostMetrics → TouchFrame F → ℕ → Bool → Option Event
  receive_event m frame arrival is_duplicate = elim m.recorder [
    | none ↦ none
    | some r ↦ some (
        event (if is_duplicate then duplicate else receive) arrival frame.session_id frame.sequence
          (frame.phone_event_nanos
            ∷ frame.phone_callback_nanos
            ∷ frame.phone_send_nanos
            ∷ frame.echo_host_send_nanos
            ∷ frame.phone_control_receive_nanos
            ∷ event_flags frame
            ∷ frame.action
            ∷ length frame.contacts
            ∷ []))
  ]

  unfoldable pub observe_sink : HostMetrics → TouchFrame F → ℕ → ℕ → ℕ → Option ℕ → HostMetrics
  observe_sink m frame ready end retries error = record_event m (
      event (if is_some error then sink_failure else accept) end frame.session_id frame.sequence
        (ready ∷ retries ∷ code_or_zero error ∷ []))

pub set_parser_counters : HostMetrics → ℕ → ℕ → ℕ → HostMetrics
set_parser_counters m invalid discarded connection_discarded = record m {
  parser_counters = (invalid, discarded, connection_discarded);
}
