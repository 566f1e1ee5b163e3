-- ===== src/Ordered/Delivery.antt =====
-- Frames leave the window in the order of their sequence numbers.
use holodori_phone_trackpad.Prelude.{
  false, true, refl, ℕ, ◌+◌, ◌%◌, ◌^◌, ◌≡◌, arith, ◌&&◌, ◌==◌, if◌then◌else◌, some, none, is_some,
  get_or-set, get_or-fill, IsU64, Option-cases, inl, inr,
}
use holodori_phone_trackpad.Protocol.{TouchFrame, session_start}
use holodori_phone_trackpad.Ordered.{
  OrderedFrames, new, begin_session, require_fresh_session, slot, adopt_session, store, push,
  next_ready, commit_ready,
}
use holodori_phone_trackpad.Ordered.Invariant.{
  IsOrdered, push-IsOrdered, commit_ready-IsOrdered, new-IsOrdered, require_fresh_session-IsOrdered,
  begin_session-IsOrdered,
}
use holodori_phone_trackpad.Ordered.Lookup.{lookup, slot_occupied, lookup-store}

module _ {F : Type 0} where
  -- On a well-formed window `commit_ready` takes a frame exactly when `next_ready` shows one; it
  -- then moves the expected number by one, and removes that frame and no other.
  pub commit_ready_lem :
      (o : OrderedFrames F) (s : ℕ)
      → IsOrdered o
      → ((commit_ready o).1 ≡ is_some (next_ready o))
        × ((commit_ready o).0.next_sequence
            ≡ (if is_some (next_ready o) then (o.next_sequence + 1) % 2 ^ 64 else o.next_sequence))
        × (lookup (commit_ready o).0 s ≡ (if s == o.next_sequence then none else lookup o s))
  unfolding commit_ready next_ready
  commit_ready_lem o s v = elim (Option-cases (slot o o.next_sequence)) [
    | inl empty ↦ (ground arith, ground arith, ground arith)
    | inr (f, taken) ↦
        let at = slot_occupied o o.next_sequence f v in
        (
          ground (arith, at),
          ground (arith, at),
          ground (
            arith,
            at,
            get_or-set o.buffered (o.next_sequence % 256) (s % 256) none none,
            v.capacity,
          ),
        )
  ]

  -- A frame that a well-formed window has ready bears the expected number, and belongs to the
  -- current session.
  pub next_ready_lem :
      (o : OrderedFrames F) (f : TouchFrame F)
      → IsOrdered o
      → next_ready o ≡ some f
      → (f.sequence ≡ o.next_sequence) × (o.session_id ≡ some f.session_id)
  unfolding next_ready
  next_ready_lem o f v e = ground (arith, v.fits (o.next_sequence % 256) f)

  -- A new session begins with its first frame alone in the window.
  lookup-begin :
      (o : OrderedFrames F) (frame : TouchFrame F) (s : ℕ)
      → IsU64 frame.sequence
      → IsOrdered o
      → lookup (store (begin_session o frame) frame) s
        ≡ (if frame.sequence == s then some frame else none)
  unfolding begin_session
  lookup-begin o frame s h v = ground (
    arith,
    lookup-store (begin_session o frame) frame s (begin_session-IsOrdered o frame h v),
    get_or-fill o.buffered (s % 256) none,
  )

  -- A window that waits for a session is empty.
  pub require_fresh_session_lem :
      (o : OrderedFrames F)
      → ((require_fresh_session o).session_id ≡ none)
        × ((require_fresh_session o).requires_session_start ≡ true)
        × ((s : ℕ) → lookup (require_fresh_session o) s ≡ none)
  unfolding require_fresh_session
  require_fresh_session_lem o = (refl, refl, (λ s. rw (get_or-fill o.buffered (s % 256) none) refl))

  session-fresh :
      (o : OrderedFrames F) (frame : TouchFrame F)
      → (push (require_fresh_session o) frame).session_id
        ≡ (if session_start frame then some frame.session_id else none)
  unfolding push adopt_session store begin_session require_fresh_session
  session-fresh o frame = ground arith

  lookup-fresh :
      (o : OrderedFrames F) (frame : TouchFrame F) (s : ℕ)
      → IsU64 frame.sequence
      → IsOrdered o
      → lookup (push (require_fresh_session o) frame) s
        ≡ (if session_start frame && frame.sequence == s then some frame else none)
  unfolding push adopt_session require_fresh_session
  lookup-fresh o frame s h v = ground (
    arith,
    lookup-begin (require_fresh_session o) frame s h (require_fresh_session-IsOrdered o v),
    get_or-fill o.buffered (s % 256) none,
  )

  -- After the heartbeat of a well-formed window was lost, a frame with a 64-bit sequence number
  -- is dropped unless it starts a session; if it does, it opens that session with nothing else in
  -- the window.
  pub fresh_session :
      (o : OrderedFrames F) (frame : TouchFrame F) (s : ℕ)
      → IsU64 frame.sequence
      → IsOrdered o
      → ((push (require_fresh_session o) frame).session_id
          ≡ (if session_start frame then some frame.session_id else none))
        × (lookup (push (require_fresh_session o) frame) s
            ≡ (if session_start frame && frame.sequence == s then some frame else none))
  fresh_session o frame s h v = (session-fresh o frame, lookup-fresh o frame s h v)

-- The windows that a host can reach.
pub data Reach {F : Type 0} : OrderedFrames F → Type 0 where
  start : Reach new
  receives :
      {o : OrderedFrames F} (frame : TouchFrame F)
      → IsU64 frame.sequence
      → Reach o
      → Reach (push o frame)
  commits : {o : OrderedFrames F} → Reach o → Reach (commit_ready o).0
  starves : {o : OrderedFrames F} → Reach o → Reach (require_fresh_session o)

-- Every window that receptions, commits and lost heartbeats lead to is well formed.
pub Reach-IsOrdered : {F : Type 0} {o : OrderedFrames F} → Reach o → IsOrdered o
Reach-IsOrdered start = new-IsOrdered
Reach-IsOrdered (receives {o = o} frame h r) = push-IsOrdered o frame h (Reach-IsOrdered r)
Reach-IsOrdered (commits {o = o} r) = commit_ready-IsOrdered o (Reach-IsOrdered r)
Reach-IsOrdered (starves {o = o} r) = require_fresh_session-IsOrdered o (Reach-IsOrdered r)

-- A window that requires a fresh session takes no other frame than one that starts a session.
pub push_refused :
    {F : Type 0} (o : OrderedFrames F) (frame : TouchFrame F)
    → o.requires_session_start ≡ true
    → session_start frame ≡ false
    → push o frame ≡ o
unfolding push
push_refused o frame required other = ground (arith, required, other)
