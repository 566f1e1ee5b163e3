-- ===== src/Keyboard/Spacer.antt =====
-- `RepressSpacer::enqueue` of native-host/src/keyboard/mod.rs. An `Instant` and a `Duration` are
-- numbers of the clock's ticks; the spacer's scratch buffers are left out.
pub mod Waiting
pub mod Flush
use holodori_phone_trackpad.Prelude.{
  ℕ, ◌+◌, Bool, true, false, ◌==◌, ◌||◌, ◌&&◌, not, ltb, leb, if◌then◌else◌, max, Option, some,
  none, is_some, List, [], ◌∷◌, ◌++◌, get_or, set, replicate,
}
use holodori_phone_trackpad.Keyboard.{KeyChange}

pub record ScheduledEdge : Type 0 where
  pub change : KeyChange
  pub due : ℕ
  pub spaced : Bool

pub record EmittedEdge : Type 0 where
  pub emitted_at : ℕ
  pub spaced : Bool
  pub touch : Bool

pub record RepressSpacer : Type 0 where
  pub gap : ℕ
  pub queue : List ScheduledEdge
  pub last_emitted : List (Option EmittedEdge)

abbrev pub max_waiting_edges : ℕ
max_waiting_edges = 3

abbrev pub needs_gap : Bool → Bool → KeyChange → Bool
needs_gap previous_spaced previous_touch next = next.down || (previous_spaced || previous_touch)

pub new : ℕ → ℕ → RepressSpacer
new lanes gap = record { gap = gap; queue = []; last_emitted = replicate lanes none }

-- `Bool` equality.
abbrev pub same : Bool → Bool → Bool
same true b = b
same false b = not b

-- The edges of a lane that wait, and the last one of them.
unfoldable pub waiting : ℕ → List ScheduledEdge → ℕ
waiting lane [] = 0
waiting lane (e ∷ queue) =
    let rest = waiting lane queue in if e.change.lane == lane then 1 + rest else rest

unfoldable pub last_edge : ℕ → List ScheduledEdge → Option ScheduledEdge
last_edge lane [] = none
last_edge lane (e ∷ queue) = elim (last_edge lane queue) [
  | some l ↦ some l
  | none ↦ if e.change.lane == lane then some e else none
]

-- `queue.remove(index)` of that last edge.
unfoldable pub remove_last : ℕ → List ScheduledEdge → List ScheduledEdge
remove_last lane [] = []
remove_last lane (e ∷ queue) =
    let rest = remove_last lane queue in
    if e.change.lane == lane && not (is_some (last_edge lane queue)) then queue else e ∷ rest

-- When an edge is due, and whether that is spaced: behind an edge that waits, or else behind the
-- last one that was emitted.
unfoldable pub schedule : RepressSpacer → KeyChange → ℕ → Option ScheduledEdge → ℕ × Bool
schedule s change now (some previous) =
    if needs_gap previous.spaced previous.change.touch change
    then (max (previous.due + s.gap) now, true)
    else (max previous.due now, false)
schedule s change now none = elim (get_or s.last_emitted change.lane none) [
  | none ↦ (now, false)
  | some previous ↦
      if needs_gap previous.spaced previous.touch change && ltb now (previous.emitted_at + s.gap)
      then (previous.emitted_at + s.gap, true)
      else (now, false)
]

-- `last.map_or(os_pressed, ..)`.
abbrev pub scheduled_down : Bool → Option ScheduledEdge → Bool
scheduled_down os_pressed none = os_pressed
scheduled_down os_pressed (some e) = e.change.down

unfoldable pub enqueue : RepressSpacer → KeyChange → ℕ → Bool → RepressSpacer
enqueue s change now os_pressed =
    let last = last_edge change.lane s.queue in
    let (due, spaced) = schedule s change now last in
    if same (scheduled_down os_pressed last) change.down
    then s
    else if is_some last && leb max_waiting_edges (waiting change.lane s.queue)
    then record s { queue = remove_last change.lane s.queue }
    else record s {
      queue = s.queue ++ (record { change = change; due = due; spaced = spaced } ∷ []);
    }

unfoldable pub note_release : RepressSpacer → ℕ → ℕ → RepressSpacer
note_release s lane now = record s {
  last_emitted =
      set s.last_emitted lane (some (record { emitted_at = now; spaced = false; touch = false }));
}
