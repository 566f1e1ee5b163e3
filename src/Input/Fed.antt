-- ===== src/Input/Fed.antt =====
-- What it means, by the sink's own answers, that frames are accepted.
use holodori_phone_trackpad.Prelude.{
  ℕ, zero, suc, ◌+◌, ◌≡◌, sym, subst, arith, true, false, if◌then◌else◌, Option, some, none, List,
  [], ◌∷◌, ok, err, Result-cases, Option-cases, inl, inr,
}
use holodori_phone_trackpad.Io.{IoError, interrupted, timed_out}
use holodori_phone_trackpad.Protocol.{TouchFrame}
use holodori_phone_trackpad.Ordered.{next_ready}
use holodori_phone_trackpad.Metrics.Recorder.{HostMetrics}
use holodori_phone_trackpad.Input.{
  InputSink, Patience, Live, retry, accept_frame, commit_loop, commit_ready,
}
use holodori_phone_trackpad.Input.Given.{give}

-- The frame is given to the sink until it takes it, or once more than the number of failures says,
-- when the last answer is the error.
pub data Tried {F K : Type 0} (sink : InputSink F K) (frame : TouchFrame F)
    : ℕ → K → Option IoError → K → Type 0 where
  takes :
      {failures : ℕ} {k : K}
      → (sink.accept k frame).1 ≡ ok tt
      → Tried sink frame failures k none (sink.accept k frame).0
  refuses :
      {k : K} {e : IoError}
      → (sink.accept k frame).1 ≡ err e
      → Tried sink frame zero k (some e) (sink.accept k frame).0
  again :
      {failures : ℕ} {k k' : K} {e : IoError} {answer : Option IoError}
      → (sink.accept k frame).1 ≡ err e
      → Tried sink frame failures (sink.accept k frame).0 answer k'
      → Tried sink frame (suc failures) k answer k'

-- The frames are taken by the sink one after the other, up to the first that it refuses to the end:
-- how many it took, and the error then.
pub data Fed {F K : Type 0} (sink : InputSink F K) (patience : ℕ → Patience)
    : ℕ → List (TouchFrame F) → K → ℕ → Option IoError → K → Type 0 where
  all_fed : {round : ℕ} {k : K} → Fed sink patience round [] k 0 none k
  stuck :
      {round : ℕ} {frame : TouchFrame F} {frames : List (TouchFrame F)} {k k' : K} {e : IoError}
      → Tried sink frame (patience round).failures k (some e) k'
      → Fed sink patience round
          (frame ∷ frames)
          k
          0
          (some (if (patience round).stopped then interrupted else timed_out e))
          k'
  one_fed :
      {round count : ℕ} {frame : TouchFrame F} {frames : List (TouchFrame F)} {k k' k'' : K}
      {answer : Option IoError}
      → Tried sink frame (patience round).failures k none k'
      → Fed sink patience (round + 1) frames k' count answer k''
      → Fed sink patience round (frame ∷ frames) k (count + 1) answer k''

module _ {F K : Type 0} (sink : InputSink F K) where
  retry-Tried :
      (frame : TouchFrame F) (failures retries : ℕ) (k : K)
      → let x = retry (λ state. sink.accept state frame) failures retries k in
        Tried sink frame failures k x.1.0 x.0
  unfolding retry
  retry-Tried frame zero retries k = elim (Result-cases (sink.accept k frame).1) [
    | inl (x, fine) ↦ rw (retry, fine) (takes fine)
    | inr (e, failed) ↦ rw (retry, failed) (refuses failed)
  ]
  retry-Tried frame (suc failures) retries k = elim (Result-cases (sink.accept k frame).1) [
    | inl (x, fine) ↦ rw (retry, fine) (takes fine)
    | inr (e, failed) ↦
        rw (retry, failed)
          (again failed (retry-Tried frame failures (retries + 1) (sink.accept k frame).0))
  ]

  pub accept_frame-none :
      (p : Patience) (frame : TouchFrame F) (k : K) (m : HostMetrics)
      → (accept_frame sink p frame k m).1.1 ≡ none
      → Tried sink frame p.failures k none (accept_frame sink p frame k m).0
  unfolding accept_frame
  accept_frame-none p frame k m h =
      let tried = retry-Tried frame p.failures 0 k in
      elim (Option-cases (retry (λ state. sink.accept state frame) p.failures 0 k).1.0) [
        | inr (e, failed) ↦ absurd (ground (arith, h, failed))
        | inl fine ↦ rw (accept_frame, fine) (rw fine at tried)
      ]

  pub accept_frame-some :
      (p : Patience) (frame : TouchFrame F) (k : K) (m : HostMetrics) (x : IoError)
      → (accept_frame sink p frame k m).1.1 ≡ some x
      → (e : IoError) × Tried sink frame p.failures k (some e) (accept_frame sink p frame k m).0
        × (some x ≡ some (if p.stopped then interrupted else timed_out e))
  unfolding accept_frame
  accept_frame-some p frame k m x h =
      let tried = retry-Tried frame p.failures 0 k in
      elim (Option-cases (retry (λ state. sink.accept state frame) p.failures 0 k).1.0) [
        | inl fine ↦ absurd (ground (arith, h, fine))
        | inr (e, failed) ↦
            rw (accept_frame, failed) (e, rw failed at tried, sym (rw (accept_frame, failed) at h))
      ]

  module _ (patience : ℕ → Patience) where
    -- What is given to the sink is fed to it.
    pub give-Fed :
        (round : ℕ) (frames : List (TouchFrame F)) (k : K) (m : HostMetrics)
        → let g = give sink patience round frames k m in
          Fed sink patience round frames k g.accepted g.failed g.keyboard
    unfolding give
    give-Fed round [] k m = all_fed
    give-Fed round (frame ∷ frames) k m =
        let x = accept_frame sink (patience round) frame k m in
        elim (Option-cases x.1.1) [
          | inl fine ↦
              rw (give, fine)
                (one_fed (accept_frame-none (patience round) frame k m fine)
                  (give-Fed (round + 1) frames x.0 x.1.0))
          | inr (e, failed) ↦
              let (e', tried, same) = accept_frame-some (patience round) frame k m e failed in
              rw (give, failed)
                (subst
                  (λ (answer : Option IoError).
                    Fed sink patience round (frame ∷ frames) k 0 answer x.0)
                  (sym same) (stuck tried))
        ]

    -- The sink takes the frame that is ready.
    abbrev pub Progress : Live F K → Type 0
    Progress live =
        (frame : TouchFrame F) × (next_ready live.ordered ≡ some frame)
        × (k : K) × Tried sink frame (patience 0).failures live.keyboard none k

    commit_loop-Progress :
        (fuel : ℕ) (live : Live F K)
        → (commit_loop sink patience (suc fuel) 0 live false).1 ≡ ok true
        → Progress live
    unfolding commit_loop
    commit_loop-Progress fuel live h = elim (Option-cases (next_ready live.ordered)) [
      | inl nothing ↦ absurd (ground (arith, h, nothing))
      | inr (frame, ready) ↦
          let x = accept_frame sink (patience 0) frame live.keyboard live.metrics in
          elim (Option-cases x.1.1) [
            | inr (e, failed) ↦ absurd (cc (rw (commit_loop, ready, failed) at h))
            | inl fine ↦ (
              frame,
              ready,
              x.0,
              accept_frame-none (patience 0) frame live.keyboard live.metrics fine,
            )
          ]
    ]

    -- `commit_ready` answers that it made progress only if the sink took a frame.
    pub commit_ready-Progress :
        (live : Live F K) → (commit_ready sink patience live).1 ≡ ok true → Progress live
    unfolding commit_ready
    commit_ready-Progress live h = commit_loop-Progress 256 live h
