-- ===== src/Ordered.antt =====
-- `OrderedFrames` of native-host/src/protocol.rs: the window that puts received touch frames in
-- order. Sequence numbers are `u64`; a sequence as a `usize` is the same number.
pub mod Invariant
pub mod Lookup
pub mod Delivery
mod Examples
use holodori_phone_trackpad.Prelude.{
  ℕ, zero, suc, ◌+◌, ◌-◌, ◌%◌, ◌^◌, Bool, true, false, not, ◌&&◌, ◌==◌, ltb, leb, if◌then◌else◌,
  Option, some, none, is_some, List, [], ◌∷◌, get_or, set, replicate, fill,
}
use holodori_phone_trackpad.Protocol.{TouchFrame, session_start, max_reordered_frames}

pub record OrderedFrames (F : Type 0) : Type 0 where
  pub session_id : Option ℕ
  pub next_sequence : ℕ
  pub buffered : List (Option (TouchFrame F))
  pub requires_session_start : Bool

module _ {F : Type 0} where
  unfoldable pub new : OrderedFrames F
  new = record {
    session_id = none;
    next_sequence = 0;
    buffered = replicate max_reordered_frames none;
    requires_session_start = false;
  }

  unfoldable pub begin_session : OrderedFrames F → TouchFrame F → OrderedFrames F
  begin_session o frame = record {
    session_id = some frame.session_id;
    next_sequence = frame.sequence;
    buffered = fill o.buffered none;
    requires_session_start = false;
  }

  pub require_fresh_session : OrderedFrames F → OrderedFrames F
  require_fresh_session o = record {
    session_id = none;
    next_sequence = 0;
    buffered = fill o.buffered none;
    requires_session_start = true;
  }

  -- `checked_sub(1)`.
  unfoldable pub acknowledged_sequence : OrderedFrames F → Option ℕ
  acknowledged_sequence o = if o.next_sequence == 0 then none else some (o.next_sequence - 1)

  abbrev pub expected_sequence : OrderedFrames F → ℕ
  expected_sequence o = o.next_sequence

  -- The slot of a sequence number.
  abbrev pub slot : OrderedFrames F → ℕ → Option (TouchFrame F)
  slot o sequence = get_or o.buffered (sequence % max_reordered_frames) none

  -- `slot.filter(|frame| frame.sequence == sequence)`.
  abbrev pub with_sequence : ℕ → Option (TouchFrame F) → Option (TouchFrame F)
  with_sequence sequence none = none
  with_sequence sequence (some frame) = if frame.sequence == sequence then some frame else none

  pub contains_sequence : OrderedFrames F → ℕ → Bool
  contains_sequence o sequence = is_some (with_sequence sequence (slot o sequence))

  -- The session guards of `push`: `none` is the early return.
  unfoldable pub adopt_session : OrderedFrames F → TouchFrame F → Option (OrderedFrames F)
  unfolding begin_session
  adopt_session o frame = elim o.session_id [
    | none ↦ some (begin_session o frame)
    | some id ↦
        if id == frame.session_id
        then some o
        else if session_start frame
        then some (begin_session o frame)
        else none
  ]

  -- The window guards of `push`, and the write into a free slot.
  unfoldable pub store : OrderedFrames F → TouchFrame F → OrderedFrames F
  store o frame =
      if ltb frame.sequence o.next_sequence
      then o
      else if leb max_reordered_frames (frame.sequence - o.next_sequence)
      then o
      else if is_some (slot o frame.sequence)
      then o
      else record o {
        buffered = set o.buffered (frame.sequence % max_reordered_frames) (some frame);
      }

  unfoldable pub push : OrderedFrames F → TouchFrame F → OrderedFrames F
  unfolding adopt_session store
  push o frame =
      if o.requires_session_start && not (session_start frame)
      then o
      else elim (adopt_session o frame) [ none ↦ o | some o' ↦ store o' frame ]

  unfoldable pub next_ready : OrderedFrames F → Option (TouchFrame F)
  next_ready o = with_sequence o.next_sequence (slot o o.next_sequence)

  -- The new state, and whether a frame was taken.
  pub commit_ready : OrderedFrames F → OrderedFrames F × Bool
  commit_ready o = elim (slot o o.next_sequence) [
    | none ↦ (o, false)
    | some frame ↦ (
      record o {
        next_sequence = (o.next_sequence + 1) % 2 ^ 64;
        buffered = set o.buffered (o.next_sequence % max_reordered_frames) none;
      },
      true,
    )
  ]
