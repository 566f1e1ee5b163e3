-- ===== src/Input.antt =====
-- The live input path of native-host/src/input.rs: received frames into the window, and from it in
-- order to the sink, with retries. What the host observes of the clock and of the flag `stopping`
-- while it retries is a parameter, since only finitely many observations precede the timeout.
pub mod Frames
pub mod Given
pub mod Fed
pub mod Ready
pub mod Timeouts
mod Examples
use holodori_phone_trackpad.Prelude.{
  ℕ, zero, suc, ◌+◌, ◌-◌, ◌*◌, ◌/◌, Bool, true, false, ◌==◌, ◌||◌, ◌&&◌, not, ltb, if◌then◌else◌,
  min, max, Option, some, none, is_some, List, [], ◌∷◌, get_or, set, Result, ok, err,
}
use holodori_phone_trackpad.Io.{IoError, interrupted, timed_out, missing_frame}
use holodori_phone_trackpad.Protocol.{TouchFrame, max_reordered_frames}
use holodori_phone_trackpad.Ordered.{
  OrderedFrames, expected_sequence, contains_sequence, push, next_ready,
}
use holodori_phone_trackpad.Ordered as Ordered
use holodori_phone_trackpad.Metrics.Recorder.{
  Event, HostMetrics, receive_event, record_event, observe_gap, observe_sink, note, raw_code,
  reject, cancel,
}

-- One millisecond.
abbrev pub min_deferred_read_timeout : ℕ
min_deferred_read_timeout = 1000000

-- The trait `InputSink`.
pub record InputSink (F K : Type 0) : Type 0 where
  pub accept : K → TouchFrame F → K × Result IoError (Unit {0})
  pub has_active_input : K → Bool
  pub cancel_all : K → K × Result IoError (Unit {0})
  pub service : K → K × Result IoError (Unit {0})
  pub next_deadline : K → Option ℕ

-- What is observed while a call is retried: how many failures come before the one after which the
-- host is stopped or out of time, and which of them it is; and the clock before and after.
pub record Patience : Type 0 where
  pub failures : ℕ
  pub stopped : Bool
  pub started : ℕ
  pub ended : ℕ

abbrev pub failure : Bool → IoError → IoError
failure stopped e = if stopped then interrupted else timed_out e

-- `ordered.session_id() == Some(session)`.
abbrev pub is_session : Option ℕ → ℕ → Bool
is_session none session = false
is_session (some id) session = id == session

module _ {K : Type 0} where
  -- The retry loop: the state, the error that ended it, and how many calls failed.
  unfoldable pub retry : (K → K × Result IoError (Unit {0})) → ℕ → ℕ → K → K × (Option IoError × ℕ)
  retry call zero retries k =
      let (k', answer) = call k in
      elim answer [ ok _ ↦ (k', (none, retries)) | err e ↦ (k', (some e, retries + 1)) ]
  retry call (suc failures) retries k =
      let (k', answer) = call k in
      let rest = retry call failures (retries + 1) k' in
      elim answer [ ok _ ↦ (k', (none, retries)) | err e ↦ rest ]

-- The state that the loop of `commit_ready` passes on.
pub record Live (F K : Type 0) : Type 0 where
  pub ordered : OrderedFrames F
  pub keyboard : K
  pub metrics : HostMetrics

module _ {F K : Type 0} (sink : InputSink F K) where
  unfoldable pub service_deferred : Patience → K → K × Result IoError (Unit {0})
  service_deferred p k =
      let (k', outcome) = retry sink.service p.failures 0 k in
      elim outcome.0 [ none ↦ (k', ok tt) | some e ↦ (k', err (failure p.stopped e)) ]

  -- In nanoseconds: the time to the deadline in microseconds, those in milliseconds, rounded up.
  unfoldable pub deferred_read_timeout : K → ℕ → ℕ → ℕ
  deferred_read_timeout k now base = elim (sink.next_deadline k) [
    | none ↦ base
    | some deadline ↦
        let millis = ((deadline - now) / 1000 + 999) / 1000 in
        max min_deferred_read_timeout (min (millis * 1000000) (max base min_deferred_read_timeout))
  ]

  -- The flag `stopping` does not end this one.
  unfoldable pub cancel_with_deadline :
      Patience → K → HostMetrics → K × (HostMetrics × Result IoError (Unit {0}))
  cancel_with_deadline p k m =
      let (k', outcome) = retry sink.cancel_all p.failures 0 k in
      let noted : ℕ → HostMetrics = λ code. note m p.ended cancel 0 0 (p.ended - p.started) code in
      elim outcome.0 [ none ↦ (k', (noted 0, ok tt)) | some e ↦ (k', (noted (raw_code e), err e)) ]

  -- One frame to the sink, and what is recorded of it.
  unfoldable pub accept_frame :
      Patience → TouchFrame F → K → HostMetrics → K × (HostMetrics × Option IoError)
  accept_frame p frame k m =
      let (k', outcome) = retry (λ state. sink.accept state frame) p.failures 0 k in
      let observed : Option ℕ → HostMetrics =
        λ code. observe_sink m frame p.started p.ended outcome.1 code in
      elim outcome.0 [
        | none ↦ (k', (observed none, none))
        | some e ↦ (k', (observed (some (raw_code e)), some (failure p.stopped e)))
      ]

  -- `while let Some(frame) = ordered.next_ready()`; the first number bounds the rounds, and the
  -- second one counts them.
  unfoldable pub commit_loop :
      (ℕ → Patience) → ℕ → ℕ → Live F K → Bool → Live F K × Result IoError Bool
  commit_loop patience zero round live progressed = (live, ok progressed)
  commit_loop patience (suc fuel) round live progressed = elim (next_ready live.ordered) [
    | none ↦ (live, ok progressed)
    | some frame ↦
        let (keyboard', (metrics', failed)) =
          accept_frame (patience round) frame live.keyboard live.metrics in
        let (ordered', taken) = Ordered.commit_ready live.ordered in
        let refused : Live F K = record live { keyboard = keyboard'; metrics = metrics' } in
        let moved : Live F K = record refused { ordered = ordered' } in
        let rest = commit_loop patience fuel (round + 1) moved true in
        elim failed [
          | some e ↦ (refused, err e)
          | none ↦ if taken then rest else (refused, err missing_frame)
        ]
  ]

  -- A window has at most as many frames as slots, and the loop ends with a round of its own.
  pub commit_ready : (ℕ → Patience) → Live F K → Live F K × Result IoError Bool
  commit_ready patience live = commit_loop patience (max_reordered_frames + 1) 0 live false

module _ {F : Type 0} where
  -- The event of a unique frame that the window refused.
  abbrev pub observed_as : OrderedFrames F → TouchFrame F → Bool → Event → Event
  observed_as ordered frame replay event =
      if not replay
        && (not (contains_sequence ordered frame.sequence)
            || not (is_session ordered.session_id frame.session_id))
      then set event 0 reject
      else event

  unfoldable pub receive_ordered :
      OrderedFrames F → HostMetrics → TouchFrame F → ℕ → ℕ → OrderedFrames F × HostMetrics
  receive_ordered ordered m frame arrival now =
      let same_session = is_session ordered.session_id frame.session_id in
      let expected = expected_sequence ordered in
      let replay =
        same_session && (ltb frame.sequence expected || contains_sequence ordered frame.sequence) in
      let gapped =
        same_session
        && (not replay
            && (ltb expected frame.sequence
                && ltb (frame.sequence - expected) max_reordered_frames)) in
      let m' = if gapped then observe_gap m now frame.session_id expected frame.sequence else m in
      let ordered' = push ordered frame in
      elim (receive_event m' frame arrival replay) [
        | none ↦ (ordered', m')
        | some event ↦ (ordered', record_event m' (observed_as ordered' frame replay event))
      ]
