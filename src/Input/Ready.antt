-- ===== src/Input/Ready.antt =====
-- What one call of `commit_ready` gives to the sink.
use holodori_phone_trackpad.Prelude.{
  ℕ, zero, suc, ◌+◌, ◌^◌, ◌<◌, ◌≡◌, refl, ap, ◌∙◌, arith, Bool, true, false, Option, some, none,
  is_some, [], ◌∷◌, length, Result, Option-cases, inl, inr,
}
use holodori_phone_trackpad.Io.{IoError}
use holodori_phone_trackpad.Protocol.{TouchFrame}
use holodori_phone_trackpad.Ordered.{OrderedFrames, slot, next_ready}
use holodori_phone_trackpad.Ordered as Ordered
use holodori_phone_trackpad.Ordered.Invariant.{IsOrdered, commit_ready-IsOrdered}
use holodori_phone_trackpad.Ordered.Lookup.{lookup}
use holodori_phone_trackpad.Ordered.Delivery.{commit_ready_lem}
use holodori_phone_trackpad.Input.{
  InputSink, Patience, Live, accept_frame, commit_loop, commit_ready,
}
use holodori_phone_trackpad.Input.Frames.{
  front, ready_frames, ready_frames-commit, ready_frames_end, lookup-alias,
}
use holodori_phone_trackpad.Input.Fed.{Fed, give-Fed}
use holodori_phone_trackpad.Input.Given.{
  Given, give-all, commit_loop-none, commit_loop-failed, commit_loop-next, give-failed, give-next,
  Commits, give, given, taken, one_more,
}

module _ {F K : Type 0} (sink : InputSink F K) (patience : ℕ → Patience) where
  taken_next :
      (round : ℕ) (frame : TouchFrame F) (live : Live F K)
      → IsOrdered live.ordered
      → next_ready live.ordered ≡ some frame
      → live.ordered.next_sequence + 1 < 2 ^ 64
      → (taken sink patience round frame live).ordered.next_sequence
        ≡ live.ordered.next_sequence + 1
  unfolding taken
  taken_next round frame live v found h =
      ground (arith, found, h, (commit_ready_lem live.ordered 0 v).1)

  -- A frame that was taken, before all others.
  taken-Commits :
      (round : ℕ) (frame : TouchFrame F) (live : Live F K) (progressed : Bool) (g : Given K)
      (after : Live F K) (answer : Result IoError Bool)
      → IsOrdered live.ordered
      → next_ready live.ordered ≡ some frame
      → live.ordered.next_sequence + 1 < 2 ^ 64
      → Commits sink patience (taken sink patience round frame live) true g after answer
      → Commits sink patience live progressed (one_more sink patience g) after answer
  unfolding taken one_more
  taken-Commits round frame live progressed g after answer v found h c =
      let stepped = taken_next round frame live v found h in
      record {
        keyboard = c.keyboard;
        metrics = c.metrics;
        expected = omega (arith, c.expected, stepped);
        window = λ s. ground (arith, c.window s, stepped, (commit_ready_lem live.ordered s v).2);
        answers = ground (arith, c.answers);
      }

  commit_loop-Commits :
      (fuel round : ℕ) (live : Live F K) (progressed : Bool)
      → IsOrdered live.ordered
      → live.ordered.next_sequence + fuel < 2 ^ 64
      → let r = commit_loop sink patience fuel round live progressed in
        Commits sink patience live progressed
          (give sink patience round
            (ready_frames fuel live.ordered live.ordered.next_sequence)
            live.keyboard
            live.metrics)
          r.0
          r.1
  unfolding commit_loop give ready_frames next_ready given taken one_more
  commit_loop-Commits zero round live progressed v h = record {
    keyboard = refl;
    metrics = refl;
    expected = omega arith;
    window = λ s. ground arith;
    answers = ground arith;
  }
  commit_loop-Commits (suc fuel) round live progressed v h =
      let o = live.ordered in
      let next = o.next_sequence in
      let behind = ready_frames fuel o (next + 1) in
      elim (Option-cases (lookup o next)) [
        | inl missing ↦
            let nothing : ready_frames (suc fuel) o next ≡ [] =
              ap (λ (x : Option (TouchFrame F)). front x behind) missing in
            rw (nothing, commit_loop-none sink patience fuel round live progressed missing)
              record {
                keyboard = refl;
                metrics = refl;
                expected = omega arith;
                window = λ s. ground arith;
                answers = ground arith;
              }
        | inr (frame, found) ↦
            let frames : ready_frames (suc fuel) o next ≡ frame ∷ behind =
              ap (λ (x : Option (TouchFrame F)). front x behind) found in
            elim (Option-cases
              (accept_frame sink (patience round) frame live.keyboard live.metrics).1.1) [
                | inr (e, failed) ↦
                    rw
                      (
                        frames,
                        give-failed sink patience round frame behind live e failed,
                        commit_loop-failed sink patience fuel round live progressed frame e found
                            failed,
                      )
                      record {
                        keyboard = refl;
                        metrics = refl;
                        expected = omega arith;
                        window = λ s. ground arith;
                        answers = refl;
                      }
                | inl accepted ↦
                    let moved = taken sink patience round frame live in
                    let one = commit_ready_lem o next v in
                    let there : (Ordered.commit_ready o).1 ≡ true =
                      one.0 ∙ ap (λ (x : Option (TouchFrame F)). is_some x) found in
                    let stepped : moved.ordered.next_sequence ≡ next + 1 =
                      taken_next round frame live v found (omega (arith, h)) in
                    let same_frames : ready_frames fuel moved.ordered moved.ordered.next_sequence
                        ≡ behind =
                      ap (ready_frames fuel moved.ordered) stepped
                      ∙ ready_frames-commit fuel o (next + 1) v (omega arith) in
                    let ih =
                      commit_loop-Commits fuel (round + 1) moved true (commit_ready-IsOrdered o v)
                        (omega (arith, stepped, h)) in
                    rw
                      (
                        frames,
                        give-next sink patience round frame behind live accepted,
                        commit_loop-next sink patience fuel round live progressed frame found
                            accepted there,
                      )
                      (taken-Commits round frame live progressed _ _ _ v found (omega (arith, h))
                        (rw same_frames at ih))
              ]
      ]

  -- One call of `commit_ready` on a well-formed window, 257 numbers or more away from the end of
  -- the 64-bit numbers: the sink is given the frames that stand in the window from the expected
  -- number on, in the order of their numbers and without a gap, each until an `accept` of the sink
  -- returns without an error, up to the first that it refuses as often as there is time for; the
  -- expected number moves by as many as it took, which leave the window, and no other frame does;
  -- the answer is the failure, if there was one, or whether a frame was taken; and without a
  -- failure no frame is ready any more.
  pub commit_ready-Commits :
      (live : Live F K)
      → IsOrdered live.ordered
      → live.ordered.next_sequence + 257 < 2 ^ 64
      → let r = commit_ready sink patience live in
        let g =
          give sink patience 0
            (ready_frames 257 live.ordered live.ordered.next_sequence)
            live.keyboard
            live.metrics in
        Commits sink patience live false g r.0 r.1
        × Fed sink patience 0
            (ready_frames 257 live.ordered live.ordered.next_sequence)
            live.keyboard
            g.accepted
            g.failed
            g.keyboard
        × (g.failed ≡ none → next_ready r.0.ordered ≡ none)
  unfolding commit_ready next_ready
  commit_ready-Commits live v h =
      let o = live.ordered in
      let next = o.next_sequence in
      let frames = ready_frames 257 o next in
      let c = commit_loop-Commits 257 0 live false v h in
      let ends : lookup o (next + length frames) ≡ none = elim (Option-cases (lookup o next)) [
        | inl missing ↦
            ready_frames_end 257 0 o next (omega arith)
              (ap (lookup o) {x = next + 0} {y = next} (omega arith) ∙ missing)
        | inr (frame, found) ↦
            ready_frames_end 257 256 o next (omega arith) (lookup-alias o next frame found)
      ] in
      (
        c,
        give-Fed sink patience 0 frames live.keyboard live.metrics,
        λ fine.
            let all = give-all sink patience 0 frames live.keyboard live.metrics fine in
            let after = (commit_ready sink patience live).0.ordered in
            let at : after.next_sequence ≡ next + length frames = omega (arith, c.expected, all) in
            ap (lookup after) at ∙ ground (arith, c.window (next + length frames), ends),
      )
