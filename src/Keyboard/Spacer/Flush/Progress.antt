-- ===== src/Keyboard/Spacer/Flush/Progress.antt =====
-- A flush empties the queue bit by bit.
use holodori_phone_trackpad.Prelude.{
  ℕ, zero, suc, ◌+◌, ◌≤◌, ◌<◌, ◌≡◌, refl, ap, arith, Bool, true, false, ◌==◌, ltb, List, [], ◌∷◌,
  length, length-map, take, get_or-replicate, replicate, Result, ok,
}
use holodori_phone_trackpad.Io.{IoError}
use holodori_phone_trackpad.Keyboard.{KeyChange}
use holodori_phone_trackpad.Keyboard.Spacer.{ScheduledEdge, EmittedEdge, RepressSpacer}
use holodori_phone_trackpad.Keyboard.Spacer.Flush.{
  is_ready, select, picked, retain, postpone, flags_of, emitted, flush, changes_of, select,
  emit_all, is_empty,
}
use mathlib.Core.Option.{Option}

length-retain :
    (k : ℕ) (flags : List Bool) (queue : List ScheduledEdge)
    → length (picked flags queue) ≤ k
    → length (retain k flags queue) + length (picked flags queue) ≡ length queue
unfolding retain picked
length-retain zero [] queue h = omega arith
length-retain zero (f ∷ flags) [] h = refl
length-retain zero (true ∷ flags) (e ∷ queue) h = absurd (omega arith)
length-retain zero (false ∷ flags) (e ∷ queue) h = omega (arith, length-retain_zero flags queue h)
  where
    length-retain_zero :
        (flags : List Bool) (queue : List ScheduledEdge)
        → length (picked flags queue) ≤ 0
        → length queue + length (picked flags queue) ≡ length queue
    length-retain_zero flags queue h = omega arith
length-retain (suc k) [] queue h = omega arith
length-retain (suc k) (f ∷ flags) [] h = refl
length-retain (suc k) (true ∷ flags) (e ∷ queue) h = omega (arith, length-retain k flags queue)
length-retain (suc k) (false ∷ flags) (e ∷ queue) h =
    omega (arith, length-retain (suc k) flags queue)

length-postpone :
    (now gap : ℕ) (emitted : List (Option EmittedEdge)) (queue : List ScheduledEdge)
    → length (postpone now gap emitted queue) ≡ length queue
unfolding postpone
length-postpone now gap emitted [] = refl
length-postpone now gap emitted (e ∷ queue) = ap suc (length-postpone now gap emitted queue)

-- The first edge of the queue is selected once it is due.
head-ready :
    (now lanes : ℕ) (e : ScheduledEdge)
    → e.due ≤ now
    → is_ready now (replicate lanes false) (replicate lanes false) false e ≡ true
head-ready now lanes e h = ground (arith, get_or-replicate lanes false e.change.lane)

head-picked :
    (now lanes : ℕ) (e : ScheduledEdge) (queue : List ScheduledEdge)
    → e.due ≤ now
    → 1 ≤ length (picked (flags_of now lanes (e ∷ queue)) (e ∷ queue))
unfolding flags_of select picked
head-picked now lanes e queue h = rw (head-ready now lanes e h) (omega arith)

filled : {A : Type 0} (xs : List A) → 1 ≤ length xs → is_empty xs ≡ false
filled [] h = absurd (omega arith)
filled (x ∷ xs) h = refl

module _ {S : Type 0} (submit : S → List KeyChange → S × Result IoError ℕ) where
  -- Where the system accepts all that it is given, a flush at or after the time at which the first
  -- waiting edge is due succeeds and leaves fewer edges waiting.
  pub flush_progress :
      (s : RepressSpacer) (now : ℕ) (sink : S) (pressed : List Bool) (e : ScheduledEdge)
      (queue : List ScheduledEdge)
      → ((t : S) (batch : List KeyChange) → (submit t batch).1 ≡ ok (length batch))
      → s.queue ≡ e ∷ queue
      → e.due ≤ now
      → ((flush submit s now sink pressed).result ≡ ok tt)
        × (length (flush submit s now sink pressed).spacer.queue < length s.queue)
  unfolding flush emitted
  flush_progress s now sink pressed e queue all q due =
      let flags = flags_of now (length pressed) s.queue in
      let edges = picked flags s.queue in
      let batch = changes_of edges in
      let size : length batch ≡ length edges = length-map (λ (d : ScheduledEdge). d.change) edges in
      let first : 1 ≤ length edges = rw q (head-picked now (length pressed) e queue due) in
      let whole = length-retain (length batch) flags s.queue (omega (arith, size)) in
      let some_edge : is_empty s.queue ≡ false = rw q in
      let some_change : is_empty batch ≡ false = filled batch (omega (arith, size)) in
      let enough : ltb (length batch) (length batch) ≡ false = ground arith in
      let exact : (length batch == length batch) ≡ true = ground arith in
      rw (some_edge, some_change, all sink batch, enough, exact)
        (
          refl,
          omega (
            arith,
            whole,
            size,
            length-postpone now s.gap (emit_all now (take (length batch) edges) s.last_emitted)
                (retain (length batch) flags s.queue),
          ),
        )
