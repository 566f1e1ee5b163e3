-- ===== src/Input/Frames.antt =====
-- The frames of the window that are ready.
use holodori_phone_trackpad.Prelude.{
  ℕ, zero, suc, ◌+◌, ◌<◌, ◌≡◌, refl, sym, ap, ◌∙◌, arith, Option, some, none, List, [], ◌∷◌, length,
  get_or, Option-cases, inl, inr,
}
use holodori_phone_trackpad.Protocol.{TouchFrame}
use holodori_phone_trackpad.Ordered.{OrderedFrames, slot, next_ready}
use holodori_phone_trackpad.Ordered as Ordered
use holodori_phone_trackpad.Ordered.Invariant.{IsOrdered}
use holodori_phone_trackpad.Ordered.Lookup.{lookup}
use holodori_phone_trackpad.Ordered.Delivery.{commit_ready_lem}

module _ {F : Type 0} where
  abbrev pub front : Option (TouchFrame F) → List (TouchFrame F) → List (TouchFrame F)
  front none frames = []
  front (some frame) frames = frame ∷ frames

  -- The frames that stand in the window under a number and the numbers behind it, without a gap.
  unfoldable pub ready_frames : ℕ → OrderedFrames F → ℕ → List (TouchFrame F)
  ready_frames zero o s = []
  ready_frames (suc n) o s = front (lookup o s) (ready_frames n o (s + 1))

  -- Frames behind the one that is taken stay.
  pub ready_frames-commit :
      (n : ℕ) (o : OrderedFrames F) (s : ℕ)
      → IsOrdered o
      → o.next_sequence < s
      → ready_frames n (Ordered.commit_ready o).0 s ≡ ready_frames n o s
  unfolding ready_frames
  ready_frames-commit zero o s v h = refl
  ready_frames-commit (suc n) o s v h =
      let kept : lookup (Ordered.commit_ready o).0 s ≡ lookup o s =
        ground (arith, h, (commit_ready_lem o s v).2) in
      let rest = ready_frames-commit n o (s + 1) v (omega (arith, h)) in
      ap
        (λ (x : Option (TouchFrame F)). front x (ready_frames n (Ordered.commit_ready o).0 (s + 1)))
        kept
      ∙ ap (front (lookup o s)) rest

  -- The frames end before any number that has none.
  pub ready_frames_end :
      (n m : ℕ) (o : OrderedFrames F) (s : ℕ)
      → m < n
      → lookup o (s + m) ≡ none
      → lookup o (s + length (ready_frames n o s)) ≡ none
  unfolding ready_frames
  ready_frames_end zero m o s h e = ground (arith, h)
  ready_frames_end (suc n) m o s h e = elim (Option-cases (lookup o s)) [
    | inl missing ↦
        let nothing : ready_frames (suc n) o s ≡ [] =
          ap (λ (x : Option (TouchFrame F)). front x (ready_frames n o (s + 1))) missing in
        let at : s + length (ready_frames (suc n) o s) ≡ s =
          omega (arith, ap (λ (fs : List (TouchFrame F)). length fs) nothing) in
        ap (lookup o) at ∙ missing
    | inr (frame, found) ↦
        let longer : length (ready_frames (suc n) o s) ≡ suc (length (ready_frames n o (s + 1))) =
          ap (λ (x : Option (TouchFrame F)). length (front x (ready_frames n o (s + 1)))) found in
        let at : s + length (ready_frames (suc n) o s) ≡ s + 1 + length (ready_frames n o (s + 1)) =
          omega (arith, longer) in
        ap (lookup o) at ∙ later m (λ k. ready_frames_end n k o (s + 1)) h e found
  ]
    where
      later :
          (m : ℕ)
          → ((k : ℕ)
              → k < n
              → lookup o (s + 1 + k) ≡ none
              → lookup o (s + 1 + length (ready_frames n o (s + 1))) ≡ none)
          → m < suc n
          → lookup o (s + m) ≡ none
          → {frame : TouchFrame F} → lookup o s ≡ some frame
          → lookup o (s + 1 + length (ready_frames n o (s + 1))) ≡ none
      later zero ih h e found =
          let here : s + 0 ≡ s = omega arith in
          absurd (ground (arith, sym (ap (lookup o) here) ∙ e, found))
      later (suc m) ih h e found =
          let shifted : s + 1 + m ≡ s + suc m = omega arith in
          ih m (omega (arith, h)) (ap (lookup o) shifted ∙ e)

  -- A slot has one frame, so that two numbers of one slot do not both have one.
  pub lookup-alias :
      (o : OrderedFrames F) (s : ℕ) (frame : TouchFrame F)
      → lookup o s ≡ some frame
      → lookup o (s + 256) ≡ none
  lookup-alias o s frame h =
      let same_slot : slot o (s + 256) ≡ slot o s =
        ap (λ (i : ℕ). get_or o.buffered i none) (omega arith) in
      elim (Option-cases (slot o s)) [
        | inl empty ↦ ground (arith, h, empty)
        | inr (g, there) ↦ ground (arith, h, there, same_slot)
      ]
