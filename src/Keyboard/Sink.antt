-- ===== src/Keyboard/Sink.antt =====
-- `KeyboardSink` of native-host/src/keyboard/mod.rs, over the system's key sink.
pub mod Emission
pub mod Sound
pub mod Submitted
pub mod Accepted
pub mod Raised
pub mod Release
mod Examples
use holodori_phone_trackpad.Prelude.{
  ℕ, zero, suc, ◌+◌, ◌-◌, Bool, true, false, ◌==◌, ◌||◌, ◌&&◌, not, ltb, if◌then◌else◌, min, Option,
  some, none, is_some, List, [], ◌∷◌, length, take, drop, get_or, set, replicate, fill, Result, ok,
  err, ◌>>=◌, ◌>>◌, refuse_if,
}
use holodori_phone_trackpad.Io.{IoError, no_keys, excessive, incomplete, partially_applied}
use holodori_phone_trackpad.Protocol.{
  Float32, Contact, TouchFrame, session_start, locked, action_cancel, action_heartbeat,
}
use holodori_phone_trackpad.Keyboard.{KeyboardState, KeyChange}
use holodori_phone_trackpad.Keyboard as Keyboard
use holodori_phone_trackpad.Keyboard.Plan.{plan_into}
use holodori_phone_trackpad.Keyboard.Spacer.{ScheduledEdge, RepressSpacer, enqueue, note_release}
use holodori_phone_trackpad.Keyboard.Spacer as Spacer
use holodori_phone_trackpad.Keyboard.Spacer.Flush.{Flushed, flush, is_empty}
use holodori_phone_trackpad.Keyboard.Spacer.Flush as Flush
use holodori_phone_trackpad.Keyboard.Keys.{validate_lane_keys}

-- The sink of one platform: `KeySink`, and the `submit` that the source's methods are given.
pub record KeyOutput (S : Type 0) : Type 0 where
  pub submit : S → List KeyChange → S × Result IoError ℕ
  pub discard_pending : S → S × Result IoError (Unit {0})
  pub has_pending : S → Bool

pub record PendingFrame : Type 0 where
  pub sequence : Option ℕ
  pub next_state : KeyboardState
  pub changes : List KeyChange
  pub applied : ℕ

pub record KeyboardSink (S : Type 0) : Type 0 where
  pub sink : S
  pub state : KeyboardState
  pub pressed : List Bool
  pub pending : PendingFrame
  pub spacer : Option RepressSpacer

-- The changes that `pressed` follows.
unfoldable pub follow : List KeyChange → List Bool → List Bool
follow [] pressed = pressed
follow (c ∷ changes) pressed = follow changes (set pressed c.lane c.down)

-- A release for every lane whose key is down, from `lane` on.
unfoldable pub releases : ℕ → List Bool → List KeyChange
releases lane [] = []
releases lane (p ∷ pressed) =
    let rest = releases (lane + 1) pressed in
    if p then record { lane = lane; down = false; touch = false } ∷ rest else rest

unfoldable pub note_releases : RepressSpacer → List KeyChange → ℕ → RepressSpacer
note_releases s [] now = s
note_releases s (c ∷ changes) now = note_releases (note_release s c.lane now) changes now

-- `if let Some(spacer) = &mut self.spacer`, with `note_release` and `discard_pending`.
abbrev pub noted : Option RepressSpacer → List KeyChange → ℕ → Option RepressSpacer
noted none changes now = none
noted (some s) changes now = some (note_releases s changes now)

abbrev pub cleared : Option RepressSpacer → Option RepressSpacer
cleared none = none
cleared (some s) = some (record s { queue = [] })

-- `pressed[change.lane] = false`.
unfoldable pub lift : List KeyChange → List Bool → List Bool
lift [] pressed = pressed
lift (c ∷ changes) pressed = lift changes (set pressed c.lane false)

-- The state with no pointer on any lane.
abbrev pub emptied : KeyboardState → KeyboardState
emptied state = record {
  pointer_lanes = fill state.pointer_lanes none;
  pressure_suppressed = fill state.pressure_suppressed false;
  lane_holds = fill state.lane_holds 0;
}

abbrev pub any : List Bool → Bool
any [] = false
any (b ∷ bs) = b || any bs

-- Every planned change that is not yet applied goes to the spacer.
unfoldable pub enqueue_all : RepressSpacer → List KeyChange → ℕ → List Bool → RepressSpacer
enqueue_all s [] now pressed = s
enqueue_all s (c ∷ changes) now pressed =
    enqueue_all (enqueue s c now (get_or pressed c.lane false)) changes now pressed

module _ {S : Type 0} where
  -- The keyboard over a sink that is open.
  pub new : S → ℕ → KeyboardSink S
  new sink lanes = record {
    sink = sink;
    state = Keyboard.new lanes;
    pressed = replicate lanes false;
    pending = record {
      sequence = none;
      next_state = Keyboard.new lanes;
      changes = [];
      applied = 0;
    };
    spacer = none;
  }

  -- `new`, where `open_sink` opens the system's sink and names its number of lanes.
  pub open_keys :
      (List (List ℕ) → Result IoError (S × ℕ)) → List (List ℕ) → Result IoError (KeyboardSink S)
  open_keys open_sink keys = do
    refuse_if (is_empty keys) no_keys
    validate_lane_keys keys
    opened ← open_sink keys
    ok (new opened.0 opened.1)

  -- At the time that `Instant::now` gives.
  pub next_deadline : KeyboardSink S → ℕ → Option ℕ
  next_deadline k now = elim k.spacer [ none ↦ none | some s ↦ Flush.next_deadline s now ]

  pub set_repress_gap : KeyboardSink S → ℕ → KeyboardSink S
  set_repress_gap k gap = record k { spacer = some (Spacer.new (length k.pressed) gap) }

  pub lane_count : KeyboardSink S → ℕ
  lane_count k = min (length k.pressed) 255

  -- `std::mem::swap(&mut self.state, &mut pending.next_state)` and the end of the pending frame.
  unfoldable pub finish : KeyboardSink S → KeyboardSink S
  finish k = record k {
    state = k.pending.next_state;
    pending = record (k.pending) { sequence = none; next_state = k.state };
  }

  -- The keyboard after a flush of its spacer.
  unfoldable pub with_flushed : KeyboardSink S → Flushed S → KeyboardSink S
  with_flushed k f = record k { sink = f.sink; pressed = f.pressed; spacer = some f.spacer }

  -- The keyboard once `accepted` more changes of the pending frame were accepted.
  unfoldable pub advance : KeyboardSink S → S → ℕ → KeyboardSink S
  advance k sink accepted = record k {
    sink = sink;
    pressed = follow (take accepted (drop k.pending.applied k.pending.changes)) k.pressed;
    pending = record (k.pending) { applied = k.pending.applied + accepted };
  }

module _ {S : Type 0} (output : KeyOutput S) where
  unfoldable pub has_active_input : KeyboardSink S → Bool
  has_active_input k =
      any k.pressed
      || (output.has_pending k.sink
          || (elim k.spacer [ none ↦ false | some s ↦ not (is_empty s.queue) ]))

  unfoldable pub service_at : KeyboardSink S → ℕ → KeyboardSink S × Result IoError (Unit {0})
  service_at k now = elim k.spacer [
    | none ↦ (k, ok tt)
    | some s ↦ (
      with_flushed k (flush output.submit s now k.sink k.pressed),
      (flush output.submit s now k.sink k.pressed).result,
    )
  ]

  -- What is left of `release_all_with` once every key that is down has its release planned.
  unfoldable pub submit_releases :
      KeyboardSink S → ℕ → List KeyChange → KeyboardSink S × Result IoError (Unit {0})
  submit_releases k now changes =
      let requested = length changes in
      let (sink, answer) = output.submit k.sink changes in
      let done : ℕ → KeyboardSink S = λ accepted. record k {
        sink = sink;
        pressed = lift (take accepted changes) k.pressed;
        spacer = noted k.spacer (take accepted changes) now;
      } in
      if is_empty changes then (record k { state = emptied k.state }, ok tt) else elim answer [
        | err e ↦ (record k { sink = sink }, err e)
        | ok accepted ↦
            if ltb requested accepted
            then (record k { sink = sink }, err (excessive accepted requested))
            else if accepted == requested
            then (record (done accepted) { state = emptied k.state }, ok tt)
            else (done accepted, err (incomplete accepted requested))
      ]

  unfoldable pub release_all_with : KeyboardSink S → ℕ → KeyboardSink S × Result IoError (Unit {0})
  release_all_with k now =
      let changes = releases 0 k.pressed in
      submit_releases
        (record k {
          pending = record (k.pending) { sequence = none; changes = changes; applied = 0 };
          spacer = cleared k.spacer;
        })
        now changes

  unfoldable pub release_all : KeyboardSink S → ℕ → KeyboardSink S × Result IoError (Unit {0})
  release_all k now =
      let (sink, answer) = output.discard_pending k.sink in
      elim answer [
        | err e ↦ (record k { sink = sink }, err e)
        | ok _ ↦ release_all_with (record k { sink = sink }) now
      ]

  -- The changes of the pending frame that are left, submitted.
  unfoldable pub submit_rest : KeyboardSink S → KeyboardSink S × Result IoError (Unit {0})
  submit_rest k =
      let rest = drop k.pending.applied k.pending.changes in
      let (sink, answer) = output.submit k.sink rest in
      if is_empty rest then (finish k, ok tt) else elim answer [
        | err e ↦ (record k { sink = sink }, err e)
        | ok accepted ↦
            if ltb (length rest) accepted
            then (record k { sink = sink }, err (excessive accepted (length rest)))
            else if accepted == length rest
            then (finish (advance k sink accepted), ok tt)
            else (advance k sink accepted, err (incomplete accepted (length rest)))
      ]

  -- The changes of the pending frame that are left, by way of the spacer.
  unfoldable pub submit_spaced :
      KeyboardSink S → RepressSpacer → ℕ → KeyboardSink S × Result IoError (Unit {0})
  submit_spaced k s now =
      let queued = enqueue_all s (drop k.pending.applied k.pending.changes) now k.pressed in
      let f = flush output.submit queued now k.sink k.pressed in
      let after = record (with_flushed k f) {
        pending = record (k.pending) { applied = length k.pending.changes };
      } in
      elim f.result [ ok _ ↦ (finish after, ok tt) | err e ↦ (after, err e) ]

  unfoldable pub submit_pending : KeyboardSink S → ℕ → KeyboardSink S × Result IoError (Unit {0})
  submit_pending k now = elim k.spacer [ none ↦ submit_rest k | some s ↦ submit_spaced k s now ]

-- A frame that ends all input.
abbrev pub cancels : {F : Type 0} → TouchFrame F → Bool
cancels frame = session_start frame || (frame.action == action_cancel || not (locked frame))

module _ {F S : Type 0} (float : Float32 F) (output : KeyOutput S) where
  -- The pending frame, planned unless it already is.
  unfoldable pub planned : KeyboardSink S → TouchFrame F → KeyboardSink S
  planned k frame =
      let (next, changes) = plan_into float k.state (length k.pressed) frame (is_some k.spacer) in
      elim k.pending.sequence [
        | some _ ↦ k
        | none ↦ record k {
          pending = record {
            sequence = some frame.sequence;
            next_state = next;
            changes = changes;
            applied = 0;
          };
        }
      ]

  -- `accept_at` past the cancelling frames and the deferred edges.
  unfoldable pub accept_snapshot :
      KeyboardSink S → TouchFrame F → ℕ → KeyboardSink S × Result IoError (Unit {0})
  accept_snapshot k frame now =
      let go = submit_pending output (planned k frame) now in
      if frame.action == action_heartbeat && is_empty frame.contacts
      then (k, ok tt)
      else elim k.pending.sequence [
        | none ↦ go
        | some sequence ↦
            if sequence == frame.sequence then go else (k, err (partially_applied sequence))
      ]

  unfoldable pub accept_at :
      KeyboardSink S → TouchFrame F → ℕ → KeyboardSink S × Result IoError (Unit {0})
  accept_at k frame now =
      let (serviced, answer) = service_at output k now in
      if cancels frame
      then release_all output k now
      else elim answer [ err e ↦ (serviced, err e) | ok _ ↦ accept_snapshot serviced frame now ]
