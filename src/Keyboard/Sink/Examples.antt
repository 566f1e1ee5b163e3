-- ===== src/Keyboard/Sink/Examples.antt =====
-- Tests of the keyboard sink, over a system that records the changes it is given.
use holodori_phone_trackpad.Prelude.{
  Bool, ℕ, ◌≡◌, ◌<◌, refl, arith, true, false, some, none, List, [], ◌∷◌, ◌++◌, ◌↔◌, length, get_or,
  distinct, Result, ok,
}
use holodori_phone_trackpad.Io.{IoError}
use holodori_phone_trackpad.Protocol.{TouchFrame}
use holodori_phone_trackpad.Protocol.Examples.{fixed_point}
use holodori_phone_trackpad.Keyboard.{KeyChange}
use holodori_phone_trackpad.Keyboard.Moves.{settle}
use holodori_phone_trackpad.Keyboard.Plan.Ownership.{snapshot_lane}
use holodori_phone_trackpad.Keyboard.Spacer.{ScheduledEdge, RepressSpacer}
use holodori_phone_trackpad.Keyboard.Spacer.Waiting.{alternates}
use holodori_phone_trackpad.Keyboard.Spacer.Flush.{flush}
use holodori_phone_trackpad.Keyboard.Spacer.Flush.Kept.{Keeps, flush-Keeps}
use holodori_phone_trackpad.Keyboard.Spacer.Flush.Progress.{flush_progress}
use holodori_phone_trackpad.Keyboard.Sink.{KeyOutput, KeyboardSink, new, accept_at}
use holodori_phone_trackpad.Keyboard.Sink.Sound.{key_after, IsSound, new-IsSound}
use holodori_phone_trackpad.Keyboard.Sink.Accepted.{accept_at_lem, accept_at-IsSound, accept_at-ok}

abbrev recorder : KeyOutput (List KeyChange)
recorder = record {
  submit = λ done changes. (done ++ changes, ok (length changes));
  discard_pending = λ done. (done, ok tt);
  has_pending = λ done. false;
}

-- A system that takes one change of every batch.
abbrev one_by_one : List KeyChange → List KeyChange → List KeyChange × Result IoError ℕ
one_by_one done [] = (done, ok 0)
one_by_one done (c ∷ changes) = (done ++ (c ∷ []), ok 1)

abbrev touch : TouchFrame ℕ
touch = record {
  session_id = 9;
  sequence = 1;
  phone_event_nanos = 0;
  phone_callback_nanos = 0;
  phone_send_nanos = 0;
  echo_host_send_nanos = 0;
  phone_control_receive_nanos = 0;
  action = 1;
  action_pointer_id = 1;
  flags = 1;
  contacts =
      record { pointer_id = 0; flags = 3; x = 500; y = 0; pressure = 0; touch_major = 0 }
      ∷ record { pointer_id = 1; flags = 3; x = 6000; y = 0; pressure = 0; touch_major = 0 }
      ∷ [];
}

abbrev keyboard : KeyboardSink (List KeyChange)
keyboard = new [] 6

accept_at-ok_example : (accept_at fixed_point recorder keyboard touch 100).1 ≡ ok tt
unfolding new
accept_at-ok_example =
    accept_at-ok fixed_point recorder 100 keyboard touch (λ sink changes. refl) refl refl

accept_at_lem_example :
    let k' = (accept_at fixed_point recorder keyboard touch 100).0 in
    (k'.pending.sequence ≡ none)
    × ((key_after k' 3 ≡ true)
        ↔ ((p : ℕ) × (snapshot_lane fixed_point 6 touch.contacts p none ≡ some 3)))
unfolding distinct new
accept_at_lem_example =
    accept_at_lem fixed_point recorder 6 100 3 keyboard touch (omega arith)
      (omega arith, (omega arith, tt)) refl refl refl refl (new-IsSound [] 6)
      (accept_at-ok fixed_point recorder 100 keyboard touch (λ sink changes. refl) refl refl)

accept_at-IsSound_example : IsSound 6 (accept_at fixed_point recorder keyboard touch 100).0
accept_at-IsSound_example =
    accept_at-IsSound fixed_point recorder 6 100 keyboard touch (omega arith)
      (omega arith, (omega arith, tt)) refl (new-IsSound [] 6)

abbrev press : ℕ → KeyChange
press lane = record { lane = lane; down = true; touch = true }

-- A keyboard whose keys of the lanes 0 and 3 are down.
abbrev held_keyboard : KeyboardSink (List KeyChange)
held_keyboard = record keyboard {
  sink = press 0 ∷ press 3 ∷ [];
  pressed = true ∷ false ∷ false ∷ true ∷ false ∷ false ∷ [];
}

-- The keys that are down after the recorded changes.
abbrev down : List KeyChange → ℕ → Bool
down done l = settle false l done

abbrev edge : ℕ → Bool → ScheduledEdge
edge due down = record {
  change = record { lane = 2; down = down; touch = down };
  due = due;
  spaced = true;
}

-- Three edges wait for lane 2.
abbrev full : RepressSpacer
full = record {
  gap = 5;
  queue = edge 10 true ∷ edge 15 false ∷ edge 20 true ∷ [];
  last_emitted = none ∷ none ∷ none ∷ [];
}

abbrev keys_up : List Bool
keys_up = false ∷ false ∷ false ∷ []

flush-Keeps_example :
    let f = flush one_by_one full 16 [] keys_up in
    Keeps false 2 full.queue (get_or f.pressed 2 false) f.spacer.queue
unfolding alternates
flush-Keeps_example = flush-Keeps one_by_one full 16 [] keys_up 2 (omega arith) refl

flush_progress_example :
    ((flush recorder.submit full 16 [] keys_up).result ≡ ok tt)
    × (length (flush recorder.submit full 16 [] keys_up).spacer.queue < 3)
flush_progress_example =
    flush_progress recorder.submit full 16 [] keys_up (edge 10 true)
      (edge 15 false ∷ edge 20 true ∷ []) (λ done batch. refl) refl (omega arith)
