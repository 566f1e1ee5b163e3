-- ===== src/Keyboard/Examples.antt =====
-- Tests of the key planning, on six lanes.
use holodori_phone_trackpad.Prelude.{
  Bool, ℕ, ◌≡◌, refl, arith, true, false, some, none, [], ◌∷◌, ◌↔◌, distinct,
}
use holodori_phone_trackpad.Protocol.{Contact, TouchFrame}
use holodori_phone_trackpad.Protocol.Examples.{fixed_point}
use holodori_phone_trackpad.Keyboard.{KeyboardState, new, pointer_lane, lane_for}
use holodori_phone_trackpad.Keyboard.Moves.{settle, held}
use holodori_phone_trackpad.Keyboard.Plan.{find, settle_pointers, plan_into}
use holodori_phone_trackpad.Keyboard.Plan.Ownership.{
  wanted, snapshot_lane, settle_pointers-snapshot,
}
use holodori_phone_trackpad.Keyboard.Plan.Keys.{
  IsReady, new-IsReady, plan_into-settle, plan_into-IsReady, plan_into-held,
}
use holodori_phone_trackpad.Keyboard.{KeyChange}
use holodori_phone_trackpad.Keyboard.Spacer.{ScheduledEdge, RepressSpacer, enqueue}
use holodori_phone_trackpad.Keyboard.Spacer.Waiting.{settled, alternates, enqueue_lem}

abbrev pub finger : ℕ → ℕ → Contact ℕ
finger pointer x = record {
  pointer_id = pointer;
  flags = 3;
  x = x;
  y = 0;
  pressure = 0;
  touch_major = 0;
}

-- A second finger has come down beside the first one.
abbrev pub frame : TouchFrame ℕ
frame = record {
  session_id = 9;
  sequence = 1;
  phone_event_nanos = 0;
  phone_callback_nanos = 0;
  phone_send_nanos = 0;
  echo_host_send_nanos = 0;
  phone_control_receive_nanos = 0;
  action = 1;
  action_pointer_id = 1;
  flags = 0;
  contacts = finger 0 500 ∷ finger 1 6000 ∷ [];
}

abbrev before : KeyboardState
before = (plan_into fixed_point (new 6) 6 (record frame { contacts = finger 0 9900 ∷ [] }) false).0

before-IsReady : IsReady 6 before
unfolding distinct
before-IsReady =
    plan_into-IsReady fixed_point 6 (new 6) (record frame { contacts = finger 0 9900 ∷ [] }) false
      (omega arith) (omega arith, tt) (new-IsReady 6)

plan_into-held_example :
    (held (plan_into fixed_point before 6 frame true).0 3 ≡ true)
    ↔ ((p : ℕ) × (snapshot_lane fixed_point 6 frame.contacts p none ≡ some 3))
unfolding distinct
plan_into-held_example =
    plan_into-held fixed_point 6 before frame true 3 (omega arith) (omega arith, (omega arith, tt))
      refl before-IsReady

plan_into-settle_example :
    settle (held before 3) 3 (plan_into fixed_point before 6 frame true).1
    ≡ held (plan_into fixed_point before 6 frame true).0 3
plan_into-settle_example =
    plan_into-settle fixed_point 6 before frame true 3 (omega arith)
      (omega arith, (omega arith, tt)) before-IsReady

plan_into-IsReady_example : IsReady 6 (plan_into fixed_point before 6 frame true).0
plan_into-IsReady_example =
    plan_into-IsReady fixed_point 6 before frame true (omega arith) (omega arith, (omega arith, tt))
      before-IsReady

new-IsReady_example : IsReady 6 (new 6)
new-IsReady_example = new-IsReady 6

settle_pointers-snapshot_example :
    pointer_lane (settle_pointers fixed_point before 6 frame).0 1 ≡ some 3
unfolding distinct snapshot_lane find wanted lane_for
settle_pointers-snapshot_example =
    settle_pointers-snapshot fixed_point before 6 1 frame (omega arith, (omega arith, tt)) refl
      before-IsReady.pointers_size

abbrev edge : ℕ → Bool → ScheduledEdge
edge due down = record {
  change = record { lane = 2; down = down; touch = down };
  due = due;
  spaced = true;
}

-- Three edges wait for lane 2, whose key is up.
abbrev full : RepressSpacer
full = record {
  gap = 5;
  queue = edge 10 true ∷ edge 15 false ∷ edge 20 true ∷ [];
  last_emitted = none ∷ none ∷ none ∷ [];
}

abbrev release : KeyChange
release = record { lane = 2; down = false; touch = false }

full-alternates : alternates false 2 full.queue ≡ true
unfolding alternates
full-alternates = refl

enqueue_lem_example :
    (alternates false 2 (enqueue full release 12 false).queue ≡ true)
    × (settled false 2 (enqueue full release 12 false).queue ≡ false)
enqueue_lem_example = enqueue_lem full release 12 2 (λ l. false) full-alternates
