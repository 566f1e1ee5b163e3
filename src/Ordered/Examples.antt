-- ===== src/Ordered/Examples.antt =====
-- Tests of the reordering window.
use holodori_phone_trackpad.Prelude.{ℕ, ◌≡◌, refl, arith, some, none, [], ◌∷◌, is_some}
use holodori_phone_trackpad.Protocol.{TouchFrame}
use holodori_phone_trackpad.Ordered.{
  OrderedFrames, new, push, next_ready, commit_ready, require_fresh_session,
}
use holodori_phone_trackpad.Ordered.Invariant.{IsOrdered, new-IsOrdered, push-IsOrdered}
use holodori_phone_trackpad.Ordered.Lookup.{lookup, push_all, first_with, lookup-push_all}
use holodori_phone_trackpad.Ordered.Delivery.{
  start, receives, commits, starves, commit_ready_lem, Reach-IsOrdered,
}

-- A frame of session 9, with its sequence number and its flags.
abbrev frame : ℕ → ℕ → TouchFrame ℕ
frame sequence flags = record {
  session_id = 9;
  sequence = sequence;
  phone_event_nanos = 0;
  phone_callback_nanos = 0;
  phone_send_nanos = 0;
  echo_host_send_nanos = 0;
  phone_control_receive_nanos = 0;
  action = 0;
  action_pointer_id = 0;
  flags = flags;
  contacts = [];
}

-- A window that a session has just opened at sequence number 40.
abbrev opened : OrderedFrames ℕ
opened = push new (frame 40 2)

opened-IsOrdered : IsOrdered opened
opened-IsOrdered = push-IsOrdered new (frame 40 2) (omega arith) new-IsOrdered

lookup-push_all_example :
    lookup (push_all opened (frame 42 0 ∷ frame 41 0 ∷ frame 42 4 ∷ [])) 42 ≡ some (frame 42 0)
unfolding new push first_with
lookup-push_all_example =
    lookup-push_all opened 9 (frame 42 0 ∷ frame 41 0 ∷ frame 42 4 ∷ []) 42 opened-IsOrdered refl
      ((refl, omega arith), ((refl, omega arith), ((refl, omega arith), tt)))

commit_ready_lem_example :
    ((commit_ready opened).1 ≡ is_some (next_ready opened))
    × ((commit_ready opened).0.next_sequence ≡ 41)
    × (lookup (commit_ready opened).0 40 ≡ none)
unfolding new push next_ready
commit_ready_lem_example = commit_ready_lem opened 40 opened-IsOrdered

Reach-IsOrdered_example : IsOrdered (require_fresh_session (commit_ready opened).0)
Reach-IsOrdered_example =
    Reach-IsOrdered (starves (commits (receives (frame 40 2) (omega arith) start)))
