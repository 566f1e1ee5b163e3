-- ===== src/Ordered/Invariant.antt =====
-- What is in the window, after any sequence of calls.
use holodori_phone_trackpad.Prelude.{
  ℕ, ◌+◌, ◌%◌, ◌^◌, ◌≤◌, ◌<◌, ◌≡◌, refl, ◌∙◌, arith, true, ◌==◌, if◌then◌else◌, Option, some, none,
  get_or, set, length, length-set, length-fill, length-replicate, get_or-fill, get_or-replicate,
  get_or-set, IsU64, Option-cases, inl, inr,
}
use holodori_phone_trackpad.Protocol.{TouchFrame}
use holodori_phone_trackpad.Ordered.{
  OrderedFrames, new, begin_session, require_fresh_session, slot, adopt_session, store, push,
  commit_ready,
}

module _ {F : Type 0} where
  -- A frame in slot `i` belongs there, lies within the window of 256, and is of the session.
  pub record FitsSlot (o : OrderedFrames F) (i : ℕ) (frame : TouchFrame F) : Type 0 where
    pub in_slot : frame.sequence % 256 ≡ i
    pub not_before : o.next_sequence ≤ frame.sequence
    pub not_beyond : frame.sequence < o.next_sequence + 256
    pub in_range : IsU64 frame.sequence
    pub of_session : o.session_id ≡ some frame.session_id

  pub record IsOrdered (o : OrderedFrames F) : Type 0 where
    pub capacity : length o.buffered ≡ 256
    pub expects : IsU64 o.next_sequence
    pub fits :
        (i : ℕ) (frame : TouchFrame F) → get_or o.buffered i none ≡ some frame → FitsSlot o i frame
    pub waits : o.requires_session_start ≡ true → o.session_id ≡ none

  pub new-IsOrdered : IsOrdered new
  unfolding new
  new-IsOrdered = record {
    capacity = length-replicate {A = Option (TouchFrame F)} 256 none;
    expects = omega arith;
    fits = λ i frame e. absurd (cc (e, get_or-replicate {A = Option (TouchFrame F)} 256 none i));
    waits = λ e. cc;
  }

  pub begin_session-IsOrdered :
      (o : OrderedFrames F) (frame : TouchFrame F)
      → IsU64 frame.sequence
      → IsOrdered o
      → IsOrdered (begin_session o frame)
  unfolding begin_session
  begin_session-IsOrdered o frame h v = record {
    capacity = length-fill o.buffered none ∙ v.capacity;
    expects = h;
    fits = λ i f e. absurd (cc (e, get_or-fill o.buffered i none));
    waits = λ e. cc;
  }

  pub require_fresh_session-IsOrdered :
      (o : OrderedFrames F) → IsOrdered o → IsOrdered (require_fresh_session o)
  unfolding require_fresh_session
  require_fresh_session-IsOrdered o v = record {
    capacity = length-fill o.buffered none ∙ v.capacity;
    expects = omega arith;
    fits = λ i f e. absurd (cc (e, get_or-fill o.buffered i none));
    waits = λ e. refl;
  }

  -- A free slot takes a frame of the window.
  write-IsOrdered :
      (o : OrderedFrames F) (frame : TouchFrame F)
      → IsU64 frame.sequence
      → o.session_id ≡ some frame.session_id
      → o.next_sequence ≤ frame.sequence
      → frame.sequence < o.next_sequence + 256
      → IsOrdered o
      → IsOrdered (record o { buffered = set o.buffered (frame.sequence % 256) (some frame) })
  write-IsOrdered o frame h s lo hi v = record {
    capacity = length-set o.buffered (frame.sequence % 256) (some frame) ∙ v.capacity;
    expects = v.expects;
    fits = λ i f e.
        let at : get_or (set o.buffered (frame.sequence % 256) (some frame)) i none
            ≡ (if frame.sequence % 256 == i then some frame else get_or o.buffered i none) =
          get_or-set o.buffered (frame.sequence % 256) i (some frame) none
            (omega (arith, v.capacity)) in
        record {
          in_slot = ground (arith, at, v.fits i f);
          not_before = ground (arith, at, v.fits i f);
          not_beyond = ground (arith, at, v.fits i f);
          in_range = ground (arith, at, v.fits i f);
          of_session = ground (arith, at, v.fits i f);
        };
    waits = v.waits;
  }

  store-IsOrdered :
      (o : OrderedFrames F) (frame : TouchFrame F)
      → IsU64 frame.sequence
      → o.session_id ≡ some frame.session_id
      → IsOrdered o
      → IsOrdered (store o frame)
  unfolding store
  store-IsOrdered o frame h s v = ground (arith, write-IsOrdered o frame h s)

  -- A call of `push` keeps the window well formed, whichever guard it stops at.
  pub push-IsOrdered :
      (o : OrderedFrames F) (frame : TouchFrame F)
      → IsU64 frame.sequence
      → IsOrdered o
      → IsOrdered (push o frame)
  unfolding push adopt_session
  push-IsOrdered o frame h v = ground (
    arith,
    store-IsOrdered o frame h,
    begin_session-IsOrdered o frame h v,
    store-IsOrdered (begin_session o frame) frame h,
  )

  -- The window after the frame in the expected slot was taken. A frame that stays lies behind it, so
  -- the expected number has not wrapped while one is left.
  taken-IsOrdered :
      (o : OrderedFrames F)
      → IsOrdered o
      → IsOrdered (record o {
        next_sequence = (o.next_sequence + 1) % 2 ^ 64;
        buffered = set o.buffered (o.next_sequence % 256) none;
      })
  taken-IsOrdered o v = record {
    capacity = length-set o.buffered (o.next_sequence % 256) none ∙ v.capacity;
    expects = omega arith;
    fits = λ i f e.
        let at : get_or (set o.buffered (o.next_sequence % 256) none) i none
            ≡ (if o.next_sequence % 256 == i then none else get_or o.buffered i none) =
          get_or-set o.buffered (o.next_sequence % 256) i none none (omega (arith, v.capacity)) in
        record {
          in_slot = ground (arith, at, v.fits i f);
          not_before = ground (arith, at, v.fits i f);
          not_beyond = ground (arith, at, v.fits i f);
          in_range = ground (arith, at, v.fits i f);
          of_session = ground (arith, at, v.fits i f);
        };
    waits = v.waits;
  }

  pub commit_ready-IsOrdered : (o : OrderedFrames F) → IsOrdered o → IsOrdered (commit_ready o).0
  unfolding commit_ready
  commit_ready-IsOrdered o v = elim (Option-cases (slot o o.next_sequence)) [
    | inl e ↦ rw (e, commit_ready) v
    | inr (f, e) ↦ rw (e, commit_ready) (taken-IsOrdered o v)
  ]
