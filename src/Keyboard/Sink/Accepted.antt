-- ===== src/Keyboard/Sink/Accepted.antt =====
-- A frame that the keyboard accepts leaves the keys where its contacts ask for them.
use holodori_phone_trackpad.Prelude.{
  ℕ, ◌<◌, ◌≡◌, refl, sym, ap, subst, ◌∙◌, arith, Bool, true, false, ◌==◌, ◌&&◌, Option, some, none,
  is_some, List, length, Bool-cases, Option-cases, inl, inr, Result, ok, Result-cases, distinct,
  ◌↔◌,
}
use holodori_phone_trackpad.Io.{IoError}
use holodori_phone_trackpad.Protocol.{Float32, TouchFrame, action_heartbeat}
use holodori_phone_trackpad.Keyboard.{KeyboardState, KeyChange}
use holodori_phone_trackpad.Keyboard.Moves.{settle, held}
use holodori_phone_trackpad.Keyboard.Plan.{plan_into}
use holodori_phone_trackpad.Keyboard.Plan.Ownership.{AreBytes, ids, snapshot_lane}
use holodori_phone_trackpad.Keyboard.Plan.Keys.{plan_into-settle, plan_into-IsReady, plan_into-held}
use holodori_phone_trackpad.Keyboard.Spacer.Flush.{is_empty}
use holodori_phone_trackpad.Keyboard.Spacer.Flush.Kept.{length-flush}
use holodori_phone_trackpad.Keyboard.Sink.{
  KeyOutput, PendingFrame, KeyboardSink, with_flushed, service_at, planned, accept_snapshot,
  accept_at, cancels,
}
use holodori_phone_trackpad.Keyboard.Sink.Submitted.{
  submit_pending-IsSound, submit_pending-IsDone, IsDone, flush-ok, submit_pending-ok,
}
use holodori_phone_trackpad.Keyboard.Sink.Sound.{
  left_of, goal_of, key_after, IsSound, service_at-IsSound, service_at-none, service_at-some,
}

module _ {F S : Type 0} (float : Float32 F) (output : KeyOutput S) where
  plan_of : KeyboardSink S → TouchFrame F → KeyboardState × List KeyChange
  plan_of k frame = plan_into float k.state (length k.pressed) frame (is_some k.spacer)

  with_plan : KeyboardSink S → TouchFrame F → KeyboardSink S
  with_plan k frame = record k {
    pending = record {
      sequence = some frame.sequence;
      next_state = (plan_of k frame).0;
      changes = (plan_of k frame).1;
      applied = 0;
    };
  }

  planned-idle :
      (k : KeyboardSink S) (frame : TouchFrame F)
      → k.pending.sequence ≡ none
      → planned float output k frame ≡ with_plan k frame
  unfolding planned with_plan plan_of
  planned-idle k frame idle = ground arith

  idle_key :
      (lanes l : ℕ) (k : KeyboardSink S)
      → l < lanes
      → k.pending.sequence ≡ none
      → IsSound lanes k
      → key_after k l ≡ held k.state l
  unfolding settle
  idle_key lanes l k h idle v =
      ap (λ (o : Option ℕ). settle (key_after k l) l (left_of o k.pending)) (sym idle)
      ∙ v.reaches l h
      ∙ ap (λ (o : Option ℕ). held (goal_of o k.state k.pending.next_state) l) idle

  -- The frame's plan leads on from the keys of an idle keyboard.
  with_plan-IsSound :
      (k : KeyboardSink S) (frame : TouchFrame F)
      → 0 < length k.pressed
      → AreBytes frame.contacts
      → k.pending.sequence ≡ none
      → IsSound (length k.pressed) k
      → IsSound (length k.pressed) (with_plan k frame)
  unfolding with_plan plan_of settle
  with_plan-IsSound k frame some_lanes b idle v =
      let n = length k.pressed in
      let split = is_some k.spacer in
      record {
        size = v.size;
        ready = v.ready;
        goal_ready = plan_into-IsReady float n k.state frame split some_lanes b v.ready;
        alternate = v.alternate;
        reaches = λ l h.
            ap (λ (c : Bool). settle c l (plan_of k frame).1)
              (idle_key (length k.pressed) l k h idle v)
            ∙ plan_into-settle float n k.state frame split l some_lanes b v.ready;
      }

  planned-pending :
      (sequence : ℕ) (k : KeyboardSink S) (frame : TouchFrame F)
      → k.pending.sequence ≡ some sequence
      → planned float output k frame ≡ k
  unfolding planned
  planned-pending sequence k frame e = ground arith

  accept_snapshot-IsSound :
      (now : ℕ) (k : KeyboardSink S) (frame : TouchFrame F)
      → 0 < length k.pressed
      → AreBytes frame.contacts
      → IsSound (length k.pressed) k
      → IsSound (length k.pressed) (accept_snapshot float output k frame now).0
  unfolding with_plan accept_snapshot
  accept_snapshot-IsSound now k frame some_lanes b v =
      let n = length k.pressed in
      elim (Bool-cases (frame.action == action_heartbeat && is_empty frame.contacts)) [
        | inl beat ↦ rw (accept_snapshot, beat) v
        | inr snapshot ↦ elim (Option-cases k.pending.sequence) [
          | inl idle ↦
              rw (accept_snapshot, snapshot, idle, planned-idle k frame idle)
                (submit_pending-IsSound output n frame.sequence now (with_plan k frame) refl
                  (with_plan-IsSound k frame some_lanes b idle v))
          | inr (sequence, e) ↦
              let sound = submit_pending-IsSound output n sequence now k e v in
              elim (Bool-cases (sequence == frame.sequence)) [
                | inl same ↦
                    rw (accept_snapshot, snapshot, e, same, planned-pending sequence k frame e)
                      sound
                | inr other ↦ rw (accept_snapshot, snapshot, e, other) v
              ]
        ]
      ]

  accept_snapshot-IsDone :
      (now : ℕ) (k : KeyboardSink S) (frame : TouchFrame F)
      → (frame.action == action_heartbeat && is_empty frame.contacts) ≡ false
      → k.pending.sequence ≡ none
      → IsDone output (plan_of k frame).0 (accept_snapshot float output k frame now)
  unfolding with_plan accept_snapshot IsDone plan_of
  accept_snapshot-IsDone now k frame snapshot idle =
      rw (accept_snapshot, snapshot, idle, planned-idle k frame idle)
        (submit_pending-IsDone output (with_plan k frame) now)

  -- A serviced keyboard has the same pending frame and heads for the same state.
  service_at-pending :
      (k : KeyboardSink S) (now : ℕ)
      → (((service_at output k now).0).pending ≡ k.pending)
        × (((service_at output k now).0).state ≡ k.state)
        × (length ((service_at output k now).0).pressed ≡ length k.pressed)
  unfolding with_flushed
  service_at-pending k now = elim (Option-cases k.spacer) [
    | inl absent ↦ rw (service_at-none output k now absent) (refl, refl, refl)
    | inr (s, spaced) ↦
        rw (service_at-some output k s now spaced)
          (refl, refl, length-flush output.submit s now k.sink k.pressed)
  ]

  service_at-ok :
      (k : KeyboardSink S) (now : ℕ)
      → ((sink : S) (changes : List KeyChange)
          → (output.submit sink changes).1 ≡ ok (length changes))
      → (service_at output k now).1 ≡ ok tt
  service_at-ok k now all = elim (Option-cases k.spacer) [
    | inl absent ↦ rw (service_at-none output k now absent) refl
    | inr (s, spaced) ↦
        rw (service_at-some output k s now spaced) (flush-ok output s now k.sink k.pressed all)
  ]

  accept_at-serviced :
      (now : ℕ) (k : KeyboardSink S) (frame : TouchFrame F)
      → cancels frame ≡ false
      → (accept_at float output k frame now).1 ≡ ok tt
      → accept_at float output k frame now
        ≡ accept_snapshot float output (service_at output k now).0 frame now
  unfolding accept_at
  accept_at-serviced now k frame snapshot = ground arith

  -- From an idle keyboard whose keys are in order, a frame that is a snapshot of contacts with
  -- different one-byte ids, and does not end all input, is accepted without an error only so that
  -- the keyboard is idle again, and a key is down, once the edges that still wait are emitted,
  -- exactly if the contact of some pointer asks for its lane.
  pub accept_at_lem :
      (lanes now l : ℕ) (k : KeyboardSink S) (frame : TouchFrame F)
      → l < lanes
      → AreBytes frame.contacts
      → distinct (ids frame.contacts) ≡ true
      → cancels frame ≡ false
      → (frame.action == action_heartbeat && is_empty frame.contacts) ≡ false
      → k.pending.sequence ≡ none
      → IsSound lanes k
      → (accept_at float output k frame now).1 ≡ ok tt
      → let k' = (accept_at float output k frame now).0 in
        (k'.pending.sequence ≡ none)
        × ((key_after k' l ≡ true)
            ↔ ((p : ℕ) × (snapshot_lane float lanes frame.contacts p none ≡ some l)))
  unfolding IsDone plan_of settle
  accept_at_lem lanes now l k frame h b u live snapshot idle v accepted =
      let k1 = (service_at output k now).0 in
      let same = service_at-pending k now in
      let sized : length k1.pressed ≡ lanes = same.2 ∙ v.size in
      let v1 : IsSound (length k1.pressed) k1 =
        subst (λ (n : ℕ). IsSound n k1) (sym sized) (service_at-IsSound output lanes now k v) in
      let idle1 : k1.pending.sequence ≡ none =
        ap (λ (p : PendingFrame). p.sequence) same.0 ∙ idle in
      let step = accept_at-serviced now k frame live accepted in
      let k2 = (accept_snapshot float output k1 frame now).0 in
      let v2 = accept_snapshot-IsSound now k1 frame (omega (arith, sized, h)) b v1 in
      let done =
        accept_snapshot-IsDone now k1 frame snapshot idle1
          (ap (λ (r : KeyboardSink S × Result IoError (Unit {0})). r.1) (sym step) ∙ accepted) in
      let reached : key_after k2 l ≡ held (plan_of k1 frame).0 l =
        idle_key (length k1.pressed) l k2 (omega (arith, sized, h)) done.0 v2
        ∙ ap (λ (state : KeyboardState). held state l) done.1 in
      let asked =
        plan_into-held float (length k1.pressed) k1.state frame (is_some k1.spacer) l
          (omega (arith, sized, h)) b u v1.ready in
      rw step (
        done.0,
        (λ e. rw (sym sized) (asked.0 (sym reached ∙ e)), λ e. reached ∙ asked.1 (rw sized e)),
      )

  -- With a keyboard whose keys are in order, a frame of contacts with one-byte ids that does not
  -- end all input leaves the keys in order, also where the system refuses some of the changes or
  -- all of them.
  pub accept_at-IsSound :
      (lanes now : ℕ) (k : KeyboardSink S) (frame : TouchFrame F)
      → 0 < lanes
      → AreBytes frame.contacts
      → cancels frame ≡ false
      → IsSound lanes k
      → IsSound lanes (accept_at float output k frame now).0
  unfolding accept_at
  accept_at-IsSound lanes now k frame some_lanes b live v =
      let k1 = (service_at output k now).0 in
      let same = service_at-pending k now in
      let sized : length k1.pressed ≡ lanes = same.2 ∙ v.size in
      let v1 = service_at-IsSound output lanes now k v in
      elim (Result-cases (service_at output k now).1) [
        | inr (x, failed) ↦ rw (accept_at, live, failed) v1
        | inl (x, served) ↦
            rw (accept_at, live, served)
              (subst (λ (n : ℕ). IsSound n (accept_snapshot float output k1 frame now).0) sized
                (accept_snapshot-IsSound now k1 frame (omega (arith, sized, some_lanes)) b
                  (subst (λ (n : ℕ). IsSound n k1) (sym sized) v1)))
      ]

  -- An idle keyboard whose system accepts whatever is submitted accepts every frame that does not
  -- end all input.
  pub accept_at-ok :
      (now : ℕ) (k : KeyboardSink S) (frame : TouchFrame F)
      → ((sink : S) (changes : List KeyChange)
          → (output.submit sink changes).1 ≡ ok (length changes))
      → cancels frame ≡ false
      → k.pending.sequence ≡ none
      → (accept_at float output k frame now).1 ≡ ok tt
  unfolding accept_at accept_snapshot
  accept_at-ok now k frame all live idle =
      let k1 = (service_at output k now).0 in
      let idle1 : k1.pending.sequence ≡ none =
        ap (λ (p : PendingFrame). p.sequence) (service_at-pending k now).0 ∙ idle in
      let done = submit_pending-ok output (planned float output k1 frame) now all in
      ground (arith, live, idle1, done, service_at-ok k now all)
