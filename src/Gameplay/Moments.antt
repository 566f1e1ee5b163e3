-- ===== src/Gameplay/Moments.antt =====
-- When the processing of a frame moves the times that a session keeps.
use holodori_phone_trackpad.Prelude.{
  ℕ, ◌≡◌, refl, sym, ap, ◌∙◌, arith, Bool, true, false, some, none, ok, Result-cases, Bool-cases,
  inl, inr, ◌⊎◌,
}
use holodori_phone_trackpad.Protocol.{TouchFrame}
use holodori_phone_trackpad.Ordered.{OrderedFrames, push, next_ready}
use holodori_phone_trackpad.Input.{InputSink, Patience, Live, is_session, commit_ready}
use holodori_phone_trackpad.Input.Fed.{Tried, commit_ready-Progress}
use holodori_phone_trackpad.Gameplay.{
  ControlOutput, GameplayState, Gameplay, Times, foreign, received, acknowledge, committed,
  process_gameplay_frame,
}
use holodori_phone_trackpad.Gameplay.Acknowledged.{receive_ordered-push}

-- The times and the number of the last ping are the same.
abbrev pub Fields : GameplayState → GameplayState → Type 0
Fields c c' =
    (c'.last_committed_frame ≡ c.last_committed_frame)
    × (c'.last_idle_activity ≡ c.last_idle_activity)
    × (c'.last_ping ≡ c.last_ping)

module _ {F K C E : Type 0} (sink : InputSink F K) (output : ControlOutput C E) where
  acknowledge-Fields :
      (g : Gameplay F K C) (t : Times) (session : ℕ) (progressed : Bool)
      → Fields g.control (acknowledge sink output g t session progressed).0.control
  unfolding acknowledge
  acknowledge-Fields g t session true = (ground arith, ground arith, ground arith)
  acknowledge-Fields g t session false = (ground arith, ground arith, ground arith)

  committed-Fields :
      (g : Gameplay F K C) (t : Times) (session : ℕ) (live : Live F K)
      → Fields g.control (committed sink output g t session live false).0.control
  unfolding committed
  committed-Fields g t session live =
      elim (Bool-cases (is_session live.ordered.session_id session)) [
        | inl same ↦ rw (committed, same) (acknowledge-Fields _ t session false)
        | inr other ↦ rw (committed, other) (refl, refl, refl)
      ]

  committed-times :
      (g : Gameplay F K C) (t : Times) (session : ℕ) (live : Live F K)
      → let c = (committed sink output g t session live true).0.control in
        (c.last_committed_frame ≡ t.committed)
        × (c.last_idle_activity ≡ t.committed)
        × (c.last_ping ≡ g.control.last_ping)
  unfolding committed
  committed-times g t session live =
      elim (Bool-cases (is_session live.ordered.session_id session)) [
        | inl same ↦ rw (committed, same) (acknowledge-Fields _ t session true)
        | inr other ↦ rw (committed, other) (refl, refl, refl)
      ]

  -- A frame that is processed leaves the times alone, or the sink took the frame that was ready
  -- once it had come into the window.
  pub process_gameplay_frame-times :
      (patience : ℕ → Patience) (g : Gameplay F K C) (t : Times) (frame : TouchFrame F)
      → let c = (process_gameplay_frame sink output patience g t frame).0.control in
        Fields g.control c
        ⊎ (((first : TouchFrame F) × (next_ready (push g.live.ordered frame) ≡ some first)
              × (k : K) × Tried sink first (patience 0).failures g.live.keyboard none k)
            × (c.last_committed_frame ≡ t.committed)
            × (c.last_idle_activity ≡ t.committed)
            × (c.last_ping ≡ g.control.last_ping))
  unfolding process_gameplay_frame received
  process_gameplay_frame-times patience g t frame =
      let live = received g t frame in
      elim (Bool-cases (foreign g.live.ordered.session_id frame.session_id)) [
        | inl other ↦ rw (process_gameplay_frame, other) (inl (refl, refl, refl))
        | inr ours ↦ elim (Result-cases (commit_ready sink patience live).1) [
          | inr (e, failed) ↦ rw (process_gameplay_frame, ours, failed) (inl (refl, refl, refl))
          | inl (progressed, fine) ↦ elim (Bool-cases progressed) [
            | inr still ↦
                rw (process_gameplay_frame, ours, fine, still)
                  (inl (committed-Fields g t frame.session_id (commit_ready sink patience live).0))
            | inl moved ↦
                let (first, ready, k, tried) =
                  commit_ready-Progress sink patience live (fine ∙ ap ok moved) in
                let times =
                  committed-times g t frame.session_id (commit_ready sink patience live).0 in
                let pushed =
                  receive_ordered-push g.live.ordered g.live.metrics frame t.arrival t.received in
                rw (process_gameplay_frame, ours, fine, moved)
                  (inr (
                    (
                      first,
                      ap (λ (o : OrderedFrames F). next_ready o) (sym pushed) ∙ ready,
                      k,
                      tried,
                    ),
                    times.0,
                    times.1,
                    times.2,
                  ))
          ]
        ]
      ]
