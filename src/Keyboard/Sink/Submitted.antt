-- ===== src/Keyboard/Sink/Submitted.antt =====
-- The changes of a planned frame, submitted or left to the spacer.
use holodori_phone_trackpad.Prelude.{
  ℕ, ◌<◌, ◌≡◌, refl, sym, ap, ◌∙◌, arith, Bool, false, Option, some, none, List, [], length, drop,
  get_or, Option-cases, inl, inr, Result, ok, Result-cases,
}
use holodori_phone_trackpad.Io.{IoError}
use holodori_phone_trackpad.Keyboard.{KeyboardState, KeyChange}
use holodori_phone_trackpad.Keyboard.Moves.{settle}
use holodori_phone_trackpad.Keyboard.Spacer.{ScheduledEdge, RepressSpacer}
use holodori_phone_trackpad.Keyboard.Spacer.Waiting.{settled, alternates}
use holodori_phone_trackpad.Keyboard.Spacer.Flush.{flush, emitted, changes_of, picked, flags_of}
use holodori_phone_trackpad.Keyboard.Sink.{
  advance, KeyOutput, PendingFrame, KeyboardSink, finish, enqueue_all, with_flushed, submit_rest,
  submit_spaced, submit_pending,
}
use holodori_phone_trackpad.Keyboard.Sink.Emission.{drop-length, enqueue_all-settle}
use holodori_phone_trackpad.Keyboard.Sink.Sound.{
  queue_of, left_of, IsSound, finish-IsSound, submit_rest-IsSound, flushed, flushed-IsSound,
}

module _ {S : Type 0} (output : KeyOutput S) where
  -- The keyboard once all that is left of its pending frame waits in the spacer.
  enqueued : KeyboardSink S → RepressSpacer → ℕ → KeyboardSink S
  enqueued k s now = record k {
    spacer = some (enqueue_all s (drop k.pending.applied k.pending.changes) now k.pressed);
    pending = record (k.pending) { applied = length k.pending.changes };
  }

  enqueued-IsSound :
      (lanes sequence now : ℕ) (k : KeyboardSink S) (s : RepressSpacer)
      → k.pending.sequence ≡ some sequence
      → k.spacer ≡ some s
      → IsSound lanes k
      → IsSound lanes (enqueued k s now)
  unfolding enqueued settle
  enqueued-IsSound lanes sequence now k s e spaced v =
      let same_queue : queue_of k.spacer ≡ s.queue = ap queue_of spaced in
      let rest = drop k.pending.applied k.pending.changes in
      let left : left_of k.pending.sequence k.pending ≡ rest =
        ap (λ (o : Option ℕ). left_of o k.pending) e in
      let whole : PendingFrame = record (k.pending) { applied = length k.pending.changes } in
      let nothing : left_of k.pending.sequence whole ≡ [] =
        ap (λ (o : Option ℕ). left_of o whole) e ∙ drop-length k.pending.changes in
      let moved = λ (l : ℕ) (h : l < lanes).
        enqueue_all-settle s rest now l k.pressed
          (ap (alternates (get_or k.pressed l false) l) (sym same_queue) ∙ v.alternate l h) in
      record {
        size = v.size;
        ready = v.ready;
        goal_ready = v.goal_ready;
        alternate = λ l h. (moved l h).0;
        reaches = λ l h.
            ap
              (λ (cs : List KeyChange).
                settle
                  (settled (get_or k.pressed l false) l (enqueue_all s rest now k.pressed).queue) l
                  cs)
              nothing
            ∙ (moved l h).1
            ∙ ap
                (λ (cs : List KeyChange).
                  settle (settled (get_or k.pressed l false) l s.queue) l cs)
                (sym left)
            ∙ ap
                (λ (q : List ScheduledEdge).
                  settle (settled (get_or k.pressed l false) l q) l
                    (left_of k.pending.sequence k.pending))
                (sym same_queue)
            ∙ v.reaches l h;
      }

  submit_spaced-IsSound :
      (lanes sequence now : ℕ) (k : KeyboardSink S) (s : RepressSpacer)
      → k.pending.sequence ≡ some sequence
      → k.spacer ≡ some s
      → IsSound lanes k
      → IsSound lanes (submit_spaced output k s now).0
  unfolding submit_spaced enqueued with_flushed
  submit_spaced-IsSound lanes sequence now k s e spaced v =
      let queued = enqueue_all s (drop k.pending.applied k.pending.changes) now k.pressed in
      let after =
        flushed-IsSound output lanes now (enqueued k s now) queued refl
          (enqueued-IsSound lanes sequence now k s e spaced v) in
      elim (Result-cases (flush output.submit queued now k.sink k.pressed).result) [
        | inr (x, failed) ↦ rw (submit_spaced, failed) after
        | inl (x, done) ↦
            rw (submit_spaced, done)
              (finish-IsSound lanes sequence (flushed output (enqueued k s now) queued now) e
                (drop-length k.pending.changes) after)
      ]

  pub submit_pending-none :
      (k : KeyboardSink S) (now : ℕ)
      → k.spacer ≡ none
      → submit_pending output k now ≡ submit_rest output k
  unfolding submit_pending
  submit_pending-none k now e = ground arith

  pub submit_pending-some :
      (k : KeyboardSink S) (s : RepressSpacer) (now : ℕ)
      → k.spacer ≡ some s
      → submit_pending output k now ≡ submit_spaced output k s now
  unfolding submit_pending
  submit_pending-some k s now e = ground arith

  pub submit_pending-IsSound :
      (lanes sequence now : ℕ) (k : KeyboardSink S)
      → k.pending.sequence ≡ some sequence
      → IsSound lanes k
      → IsSound lanes (submit_pending output k now).0
  submit_pending-IsSound lanes sequence now k e v = elim (Option-cases k.spacer) [
    | inl absent ↦
        rw (submit_pending-none k now absent)
          (submit_rest-IsSound output lanes sequence k e absent v)
    | inr (s, spaced) ↦
        rw (submit_pending-some k s now spaced)
          (submit_spaced-IsSound lanes sequence now k s e spaced v)
  ]

  -- Where the keyboard is once its pending frame is done.
  unfoldable pub IsDone : KeyboardState → KeyboardSink S × Result IoError (Unit {0}) → Type 0
  IsDone next (k, answer) = answer ≡ ok tt → (k.pending.sequence ≡ none) × (k.state ≡ next)

  submit_rest-IsDone : (k : KeyboardSink S) → IsDone k.pending.next_state (submit_rest output k)
  unfolding submit_rest IsDone finish advance
  submit_rest-IsDone k = ground arith

  submit_spaced-IsDone :
      (k : KeyboardSink S) (s : RepressSpacer) (now : ℕ)
      → IsDone k.pending.next_state (submit_spaced output k s now)
  unfolding submit_spaced IsDone finish with_flushed
  submit_spaced-IsDone k s now = ground arith

  pub submit_pending-IsDone :
      (k : KeyboardSink S) (now : ℕ) → IsDone k.pending.next_state (submit_pending output k now)
  submit_pending-IsDone k now = elim (Option-cases k.spacer) [
    | inl absent ↦ rw (submit_pending-none k now absent) (submit_rest-IsDone k)
    | inr (s, spaced) ↦ rw (submit_pending-some k s now spaced) (submit_spaced-IsDone k s now)
  ]

  -- With a sink that accepts whatever is submitted there is no error.
  submit_rest-ok :
      (k : KeyboardSink S)
      → ((sink : S) (changes : List KeyChange)
          → (output.submit sink changes).1 ≡ ok (length changes))
      → (submit_rest output k).1 ≡ ok tt
  unfolding submit_rest
  submit_rest-ok k all = ground (arith, all k.sink (drop k.pending.applied k.pending.changes))

  pub flush-ok :
      (s : RepressSpacer) (now : ℕ) (sink : S) (pressed : List Bool)
      → ((sink : S) (changes : List KeyChange)
          → (output.submit sink changes).1 ≡ ok (length changes))
      → (flush output.submit s now sink pressed).result ≡ ok tt
  unfolding flush emitted
  flush-ok s now sink pressed all =
      ground (arith, all sink (changes_of (picked (flags_of now (length pressed) s.queue) s.queue)))

  pub submit_pending-ok :
      (k : KeyboardSink S) (now : ℕ)
      → ((sink : S) (changes : List KeyChange)
          → (output.submit sink changes).1 ≡ ok (length changes))
      → (submit_pending output k now).1 ≡ ok tt
  unfolding submit_spaced
  submit_pending-ok k now all = elim (Option-cases k.spacer) [
    | inl absent ↦ rw (submit_pending-none k now absent) (submit_rest-ok k all)
    | inr (s, spaced) ↦
        let queued = enqueue_all s (drop k.pending.applied k.pending.changes) now k.pressed in
        rw (submit_pending-some k s now spaced)
          (ground (arith, flush-ok queued now k.sink k.pressed all))
  ]
