-- ===== src/Ordered/Lookup.antt =====
-- The window as a finite map from sequence numbers to frames.
use holodori_phone_trackpad.Prelude.{
  ℕ, ◌+◌, ◌%◌, ◌≤◌, ◌<◌, ◌≡◌, arith, Bool, ◌&&◌, ◌==◌, ltb, leb, if◌then◌else◌, Option, some, none,
  List, [], ◌∷◌, get_or-set, IsU64, All, Option-cases, inl, inr,
}
use holodori_phone_trackpad.Protocol.{TouchFrame}
use holodori_phone_trackpad.Ordered.{OrderedFrames, slot, with_sequence, adopt_session, store, push}
use holodori_phone_trackpad.Ordered.Invariant.{IsOrdered, FitsSlot, push-IsOrdered}

module _ {F : Type 0} where
  -- The frame buffered under a sequence number.
  abbrev pub lookup : OrderedFrames F → ℕ → Option (TouchFrame F)
  lookup o sequence = with_sequence sequence (slot o sequence)

  -- The window of sequence numbers that can be buffered.
  abbrev pub in_window : OrderedFrames F → ℕ → Bool
  in_window o sequence = leb o.next_sequence sequence && ltb sequence (o.next_sequence + 256)

  abbrev pub or_else : Option (TouchFrame F) → Option (TouchFrame F) → Option (TouchFrame F)
  or_else none other = other
  or_else (some frame) other = some frame

  -- Under the invariant a slot shows its frame at the one number of the window that belongs to it.
  pub slot_occupied :
      (o : OrderedFrames F) (s : ℕ) (frame : TouchFrame F)
      → IsOrdered o
      → o.next_sequence ≤ s
      → s < o.next_sequence + 256
      → slot o s ≡ some frame
      → frame.sequence ≡ s
  slot_occupied o s frame v lo hi e =
      let f : FitsSlot o (s % 256) frame = v.fits (s % 256) frame e in omega arith

  pub lookup-store :
      (o : OrderedFrames F) (frame : TouchFrame F) (s : ℕ)
      → IsOrdered o
      → lookup (store o frame) s ≡ (
          if frame.sequence == s && in_window o s
          then or_else (lookup o s) (some frame)
          else lookup o s)
  unfolding store
  lookup-store o frame s v = elim (Option-cases (slot o frame.sequence)) [
    | inl free ↦ ground (
      arith,
      get_or-set o.buffered (frame.sequence % 256) (s % 256) (some frame) none,
      v.capacity,
    )
    | inr (g, taken) ↦ ground (arith, slot_occupied o frame.sequence g v)
  ]

  -- In a well-formed window, a received frame of the session is kept under its sequence number if
  -- that number lies in the window of 256 and has no frame yet; every other entry stays as it
  -- was.
  pub lookup-push :
      (o : OrderedFrames F) (frame : TouchFrame F) (s : ℕ)
      → IsOrdered o
      → o.session_id ≡ some frame.session_id
      → lookup (push o frame) s ≡ (
          if frame.sequence == s && in_window o s
          then or_else (lookup o s) (some frame)
          else lookup o s)
  unfolding push adopt_session
  lookup-push o frame s v same = ground (arith, lookup-store o frame s v, v.waits)

  -- `push` of a frame of the session changes neither the session nor the number expected next.
  pub push_same :
      (o : OrderedFrames F) (frame : TouchFrame F)
      → o.session_id ≡ some frame.session_id
      → ((push o frame).session_id ≡ o.session_id)
        × ((push o frame).next_sequence ≡ o.next_sequence)
  unfolding push adopt_session store
  push_same o frame same = ground arith

  unfoldable pub push_all : OrderedFrames F → List (TouchFrame F) → OrderedFrames F
  push_all o [] = o
  push_all o (frame ∷ frames) = push_all (push o frame) frames

  -- The earliest frame of a list with a given sequence number.
  unfoldable pub first_with : ℕ → List (TouchFrame F) → Option (TouchFrame F)
  first_with s [] = none
  first_with s (frame ∷ frames) = if frame.sequence == s then some frame else first_with s frames

  abbrev pub AreOf : ℕ → List (TouchFrame F) → Type 0
  AreOf session = All λ frame. (frame.session_id ≡ session) × IsU64 frame.sequence

  -- However many frames of the session with 64-bit sequence numbers arrive at a well-formed
  -- window, in any order and with any repetitions, it holds afterwards under each of its sequence
  -- numbers the frame it held before, or else the first one received with that number; outside of
  -- the window nothing changes.
  pub lookup-push_all :
      (o : OrderedFrames F) (session : ℕ) (frames : List (TouchFrame F)) (s : ℕ)
      → IsOrdered o
      → o.session_id ≡ some session
      → AreOf session frames
      → lookup (push_all o frames) s
        ≡ (if in_window o s then or_else (lookup o s) (first_with s frames) else lookup o s)
  unfolding push_all first_with
  lookup-push_all o session [] s v same of = ground arith
  lookup-push_all o session (frame ∷ frames) s v same (here, rest) = ground (
    arith,
    lookup-push o frame s v,
    push_same o frame,
    lookup-push_all (push o frame) session frames s (push-IsOrdered o frame here.1 v),
    rest,
    here,
  )
