-- ===== src/Keyboard/Spacer/Flush.antt =====
-- `RepressSpacer::flush` and `next_deadline` of native-host/src/keyboard/mod.rs. `submit` is a
-- parameter, as it is in the source.
pub mod Kept
pub mod Progress
use holodori_phone_trackpad.Prelude.{
  ℕ, zero, suc, ◌+◌, ◌-◌, Bool, true, false, ◌==◌, ◌||◌, ◌&&◌, not, ltb, leb, if◌then◌else◌, min,
  max, Option, some, none, List, [], ◌∷◌, map, length, take, get_or, set, replicate, Result, ok,
  err,
}
use holodori_phone_trackpad.Io.{IoError, excessive, incomplete}
use holodori_phone_trackpad.Keyboard.{KeyChange}
use holodori_phone_trackpad.Keyboard.Spacer.{ScheduledEdge, EmittedEdge, RepressSpacer}

-- The loop that selects what is ready: for every edge of the queue whether it is selected. `waits`
-- and `selected` are `lane_waiting` and `lane_selected`.
abbrev pub is_ready : ℕ → List Bool → List Bool → Bool → ScheduledEdge → Bool
is_ready now waits selected press_waiting e =
    leb e.due now
    && (not (get_or waits e.change.lane false)
        && (not (e.spaced && get_or selected e.change.lane false)
            && (e.change.down || not press_waiting)))

unfoldable pub select : ℕ → List Bool → List Bool → Bool → List ScheduledEdge → List Bool
select now waits selected press_waiting [] = []
select now waits selected press_waiting (e ∷ queue) =
    let lane = e.change.lane in
    let ready = is_ready now waits selected press_waiting e in
    ready
    ∷ select now (if ready then waits else set waits lane true)
        (if ready then set selected lane true else selected)
        (if ready then press_waiting else press_waiting || e.change.down) queue

-- The selected edges, in the order of the queue.
unfoldable pub picked : List Bool → List ScheduledEdge → List ScheduledEdge
picked [] queue = []
picked (f ∷ flags) [] = []
picked (f ∷ flags) (e ∷ queue) = let rest = picked flags queue in if f then e ∷ rest else rest

-- `queue.retain(..)`: the queue without the first `accepted` of the selected edges.
unfoldable pub retain : ℕ → List Bool → List ScheduledEdge → List ScheduledEdge
retain zero flags queue = queue
retain (suc accepted) [] queue = queue
retain (suc accepted) (f ∷ flags) [] = []
retain (suc accepted) (f ∷ flags) (e ∷ queue) =
    let without = retain accepted flags queue in
    let kept = retain (suc accepted) flags queue in if f then without else e ∷ kept

unfoldable pub press_all : List ScheduledEdge → List Bool → List Bool
press_all [] pressed = pressed
press_all (e ∷ edges) pressed = press_all edges (set pressed e.change.lane e.change.down)

unfoldable pub emit_all :
    ℕ → List ScheduledEdge → List (Option EmittedEdge) → List (Option EmittedEdge)
emit_all now [] emitted = emitted
emit_all now (e ∷ edges) emitted = emit_all now edges (
    set emitted e.change.lane
      (some (record { emitted_at = now; spaced = e.spaced; touch = e.change.touch })))

-- `previous.is_some_and(|previous| previous.at == now)`.
abbrev pub emitted_now : ℕ → Option EmittedEdge → Bool
emitted_now now none = false
emitted_now now (some previous) = previous.emitted_at == now

-- A spaced edge behind one that was just emitted waits for a whole gap.
unfoldable pub postpone :
    ℕ → ℕ → List (Option EmittedEdge) → List ScheduledEdge → List ScheduledEdge
postpone now gap emitted [] = []
postpone now gap emitted (e ∷ queue) =
    (if e.spaced && emitted_now now (get_or emitted e.change.lane none)
      then record e { due = max e.due (now + gap) }
      else e)
    ∷ postpone now gap emitted queue

abbrev pub changes_of : List ScheduledEdge → List KeyChange
changes_of = map λ e. e.change

pub record Flushed (S : Type 0) : Type 0 where
  pub spacer : RepressSpacer
  pub sink : S
  pub pressed : List Bool
  pub result : Result IoError (Unit {0})

abbrev pub is_empty {ℓ} : {A : Type ℓ} → List A → Bool
is_empty [] = true
is_empty (x ∷ xs) = false

-- The flags of the queue's edges when a flush starts. The `Vec<bool>`s have one entry a lane.
unfoldable pub flags_of : ℕ → ℕ → List ScheduledEdge → List Bool
flags_of now lanes queue = select now (replicate lanes false) (replicate lanes false) false queue

-- The state after `accepted` of the selected edges were submitted.
unfoldable pub emitted :
    {S : Type 0} → RepressSpacer → ℕ → S → List Bool → ℕ → Result IoError (Unit {0}) → Flushed S
emitted s now sink pressed accepted result =
    let flags = flags_of now (length pressed) s.queue in
    let edges = take accepted (picked flags s.queue) in
    let last_emitted = emit_all now edges s.last_emitted in
    record {
      spacer = record s {
        queue = postpone now s.gap last_emitted (retain accepted flags s.queue);
        last_emitted = last_emitted;
      };
      sink = sink;
      pressed = press_all edges pressed;
      result = result;
    }

module _ {S : Type 0} (submit : S → List KeyChange → S × Result IoError ℕ) where
  unfoldable pub flush : RepressSpacer → ℕ → S → List Bool → Flushed S
  flush s now sink pressed =
      let batch = changes_of (picked (flags_of now (length pressed) s.queue) s.queue) in
      let requested = length batch in
      let (sink', answer) = submit sink batch in
      let idle : Flushed S = record {
        spacer = s;
        sink = sink;
        pressed = pressed;
        result = ok tt;
      } in
      let failed : IoError → Flushed S =
        λ e. record { spacer = s; sink = sink'; pressed = pressed; result = err e } in
      if is_empty s.queue || is_empty batch then idle else elim answer [
        | err e ↦ failed e
        | ok accepted ↦
            if ltb requested accepted
            then failed (excessive accepted requested)
            else emitted s now sink' pressed accepted
                (if accepted == requested then ok tt else err (incomplete accepted requested))
      ]

-- The dues after `now`, and the least of a list.
unfoldable pub later_dues : ℕ → List ScheduledEdge → List ℕ
later_dues now [] = []
later_dues now (e ∷ queue) =
    let rest = later_dues now queue in if ltb now e.due then e.due ∷ rest else rest

unfoldable pub least : ℕ → List ℕ → ℕ
least n [] = n
least n (m ∷ ns) = least (min n m) ns

-- `.min().unwrap_or(now)`.
abbrev pub least_or : ℕ → List ℕ → ℕ
least_or now [] = now
least_or now (n ∷ ns) = least n ns

unfoldable pub next_deadline : RepressSpacer → ℕ → Option ℕ
next_deadline s now =
    if is_empty s.queue then none else some (least_or now (later_dues now s.queue))
