-- ===== src/Gameplay/Acknowledged.antt =====
-- Only what the sink accepted is acknowledged.
use holodori_phone_trackpad.Prelude.{
  ℕ, ◌+◌, ◌-◌, ◌==◌, if◌then◌else◌, Option, some, none, ◌^◌, ◌<◌, ◌≡◌, refl, sym, ap, subst, ◌∙◌,
  arith, Bool, true, false, IsU64, Bool-cases, Result-cases, inl, inr, ◌⊎◌,
}
use holodori_phone_trackpad.Protocol.{TouchFrame}
use holodori_phone_trackpad.Ordered.{OrderedFrames, acknowledged_sequence, push}
use holodori_phone_trackpad.Ordered.Invariant.{IsOrdered, push-IsOrdered}
use holodori_phone_trackpad.Metrics.Recorder.{HostMetrics, receive_event}
use holodori_phone_trackpad.Input.{
  InputSink, Patience, Live, is_session, receive_ordered, commit_ready,
}
use holodori_phone_trackpad.Input.Frames.{ready_frames}
use holodori_phone_trackpad.Input.Fed.{Fed, give-Fed}
use holodori_phone_trackpad.Input.Given.{give}
use holodori_phone_trackpad.Input.Ready.{commit_ready-Commits}
use holodori_phone_trackpad.Gameplay.{
  ControlOutput, Gameplay, Times, acknowledge, committed, foreign, held_off, received,
  process_gameplay_frame, receive_window,
}

pub receive_ordered-push :
    {F : Type 0} (o : OrderedFrames F) (m : HostMetrics) (frame : TouchFrame F) (arrival now : ℕ)
    → (receive_ordered o m frame arrival now).0 ≡ push o frame
unfolding receive_ordered receive_event
receive_ordered-push o m frame arrival now = ground arith

module _ {F K C E : Type 0} (sink : InputSink F K) (output : ControlOutput C E) where
  -- The number before the expected one, if there is one.
  abbrev pub before_expected : OrderedFrames F → Option ℕ
  before_expected o = if o.next_sequence == 0 then none else some (o.next_sequence - 1)

  -- Nothing was sent on the connection, or an acknowledgement of what stands before the expected
  -- number of the window.
  abbrev pub Acks : Gameplay F K C → ℕ → Gameplay F K C → Type 0
  Acks g session after =
      let sent = before_expected after.live.ordered in
      let lanes = g.control.lane_count in
      (after.link ≡ g.link)
      ⊎ ((after.link ≡ (output.send_control g.link session sent receive_window lanes).0)
          ⊎ (after.link ≡ (output.send_control_once g.link session sent receive_window lanes).0))

  acknowledge-Acks :
      (g : Gameplay F K C) (t : Times) (session : ℕ) (progressed : Bool)
      → let r = (acknowledge sink output g t session progressed).0 in
        Acks g session r × (r.live.ordered ≡ g.live.ordered) × (r.live.keyboard ≡ g.live.keyboard)
  unfolding acknowledge acknowledged_sequence
  acknowledge-Acks g t session true =
      let sent = acknowledged_sequence g.live.ordered in
      elim (Result-cases
        (output.send_control g.link session sent receive_window g.control.lane_count).1) [
          | inl (x, fine) ↦ rw (acknowledge, fine) (inr (inl refl), refl, refl)
          | inr (e, failed) ↦ rw (acknowledge, failed) (inr (inl refl), refl, refl)
        ]
  acknowledge-Acks g t session false =
      let sent = acknowledged_sequence g.live.ordered in
      elim (Bool-cases (held_off g.control.last_ack sent t.ack_started)) [
        | inl held ↦ rw (acknowledge, held) (inl refl, refl, refl)
        | inr due ↦
            elim (Result-cases
              (output.send_control_once g.link session sent receive_window
                g.control.lane_count).1) [
                  | inl (x, fine) ↦ rw (acknowledge, due, fine) (inr (inr refl), refl, refl)
                  | inr (e, failed) ↦ rw (acknowledge, due, failed) (inr (inr refl), refl, refl)
                ]
      ]

  committed-Acks :
      (g : Gameplay F K C) (t : Times) (session : ℕ) (live : Live F K) (progressed : Bool)
      → let r = (committed sink output g t session live progressed).0 in
        Acks g session r × (r.live.ordered ≡ live.ordered) × (r.live.keyboard ≡ live.keyboard)
  unfolding committed
  committed-Acks g t session live true =
      elim (Bool-cases (is_session live.ordered.session_id session)) [
        | inl same ↦ rw (committed, same) (acknowledge-Acks _ t session true)
        | inr other ↦ rw (committed, other) (inl refl, refl, refl)
      ]
  committed-Acks g t session live false =
      elim (Bool-cases (is_session live.ordered.session_id session)) [
        | inl same ↦ rw (committed, same) (acknowledge-Acks _ t session false)
        | inr other ↦ rw (committed, other) (inl refl, refl, refl)
      ]

  -- While a frame of the session is processed, or of any when there is none, the expected number
  -- moves by as many numbers as the sink took frames, which are those ready in the window in their
  -- order, each taken by an `accept` of the sink that returned without an error; and if anything
  -- is sent, it acknowledges just the number before the expected one. The window was well formed,
  -- and its numbers and the frame's do not come to an end.
  pub process_gameplay_frame-Acks :
      (patience : ℕ → Patience) (g : Gameplay F K C) (t : Times) (frame : TouchFrame F)
      → IsOrdered g.live.ordered
      → IsU64 frame.sequence
      → foreign g.live.ordered.session_id frame.session_id ≡ false
      → (push g.live.ordered frame).next_sequence + 257 < 2 ^ 64
      → let r = (process_gameplay_frame sink output patience g t frame).0 in
        let window = push g.live.ordered frame in
        let given =
          give sink patience 0
            (ready_frames 257 window window.next_sequence)
            g.live.keyboard
            (received g t frame).metrics in
        Acks g frame.session_id r
        × (r.live.ordered.next_sequence ≡ window.next_sequence + given.accepted)
        × (r.live.keyboard ≡ given.keyboard)
        × Fed sink patience 0
            (ready_frames 257 window window.next_sequence)
            g.live.keyboard
            given.accepted
            given.failed
            given.keyboard
  unfolding process_gameplay_frame received
  process_gameplay_frame-Acks patience g t frame v u ours room =
      let live = received g t frame in
      let pushed : live.ordered ≡ push g.live.ordered frame =
        receive_ordered-push g.live.ordered g.live.metrics frame t.arrival t.received in
      let well_formed : IsOrdered live.ordered =
        subst (λ (o : OrderedFrames F). IsOrdered o) (sym pushed)
          (push-IsOrdered g.live.ordered frame u v) in
      let bound : live.ordered.next_sequence + 257 < 2 ^ 64 =
        subst (λ (o : OrderedFrames F). o.next_sequence + 257 < 2 ^ 64) (sym pushed) room in
      let c = (commit_ready-Commits sink patience live well_formed bound).0 in
      let after = (commit_ready sink patience live).0 in
      let moved : (after.ordered.next_sequence
            ≡ (push g.live.ordered frame).next_sequence
              + (give sink patience 0
                  (ready_frames 257 (push g.live.ordered frame)
                    (push g.live.ordered frame).next_sequence)
                  g.live.keyboard live.metrics).accepted)
          × (after.keyboard
              ≡ (give sink patience 0
                  (ready_frames 257 (push g.live.ordered frame)
                    (push g.live.ordered frame).next_sequence)
                  g.live.keyboard live.metrics).keyboard) =
        subst
          (λ (o : OrderedFrames F).
            (after.ordered.next_sequence
              ≡ o.next_sequence
                + (give sink patience 0 (ready_frames 257 o o.next_sequence) g.live.keyboard
                    live.metrics).accepted)
            × (after.keyboard
                ≡ (give sink patience 0 (ready_frames 257 o o.next_sequence) g.live.keyboard
                    live.metrics).keyboard))
          pushed (c.expected, c.keyboard) in
      let window = push g.live.ordered frame in
      let fed =
        give-Fed sink patience 0 (ready_frames 257 window window.next_sequence) g.live.keyboard
          live.metrics in
      elim (Result-cases (commit_ready sink patience live).1) [
        | inr (e, failed) ↦
            rw (process_gameplay_frame, ours, failed) (inl refl, moved.0, moved.1, fed)
        | inl (progressed, fine) ↦
            let a = committed-Acks g t frame.session_id after progressed in
            rw (process_gameplay_frame, ours, fine)
              (a.0, ap (λ (o : OrderedFrames F). o.next_sequence) a.1 ∙ moved.0, a.2 ∙ moved.1, fed)
      ]
