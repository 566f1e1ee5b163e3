-- ===== src/Keyboard/Spacer/Waiting.antt =====
-- What waits for a lane after an edge is enqueued.
use holodori_phone_trackpad.Prelude.{
  ℕ, ◌+◌, ◌≤◌, ◌≡◌, refl, ap, ◌∙◌, arith, Bool, true, false, ◌==◌, ◌&&◌, not, if◌then◌else◌, none,
  is_some, List, [], ◌∷◌, ◌++◌, ==_iff,
}
use holodori_phone_trackpad.Keyboard.{KeyChange}
use holodori_phone_trackpad.Keyboard.Spacer.{
  ScheduledEdge, RepressSpacer, same, waiting, last_edge, remove_last, schedule, enqueue,
  scheduled_down,
}

-- The key of a lane once all edges that wait are emitted.
unfoldable pub settled : Bool → ℕ → List ScheduledEdge → Bool
settled b lane [] = b
settled b lane (e ∷ queue) = settled (if e.change.lane == lane then e.change.down else b) lane queue

-- Every edge of the lane that waits changes its key.
unfoldable pub alternates : Bool → ℕ → List ScheduledEdge → Bool
alternates b lane [] = true
alternates b lane (e ∷ queue) =
    if e.change.lane == lane
    then not (same b e.change.down) && alternates e.change.down lane queue
    else alternates b lane queue

settled-append :
    (b : Bool) (lane : ℕ) (queue : List ScheduledEdge) (e : ScheduledEdge)
    → settled b lane (queue ++ (e ∷ []))
      ≡ (if e.change.lane == lane then e.change.down else settled b lane queue)
unfolding settled
settled-append b lane [] e = refl
settled-append b lane (x ∷ queue) e =
    settled-append (if x.change.lane == lane then x.change.down else b) lane queue e

alternates-append :
    (b : Bool) (lane : ℕ) (queue : List ScheduledEdge) (e : ScheduledEdge)
    → alternates b lane queue ≡ true
    → (e.change.lane == lane && same (settled b lane queue) e.change.down) ≡ false
    → alternates b lane (queue ++ (e ∷ [])) ≡ true
unfolding settled alternates
alternates-append b lane [] e h k = ground arith
alternates-append b lane (x ∷ queue) e h k =
    ground (arith, alternates-append b lane queue e, alternates-append x.change.down lane queue e)

last_edge-settled :
    (b : Bool) (lane : ℕ) (queue : List ScheduledEdge)
    → scheduled_down b (last_edge lane queue) ≡ settled b lane queue
unfolding last_edge settled
last_edge-settled b lane [] = refl
last_edge-settled b lane (x ∷ queue) =
    ground (arith, last_edge-settled b lane queue, last_edge-settled x.change.down lane queue)

waiting-append :
    (lane : ℕ) (queue : List ScheduledEdge) (e : ScheduledEdge)
    → waiting lane (queue ++ (e ∷ []))
      ≡ waiting lane queue + (if e.change.lane == lane then 1 else 0)
unfolding waiting
waiting-append lane [] e = ground arith
waiting-append lane (x ∷ queue) e = ground (arith, waiting-append lane queue e)

waiting-remove_last :
    (lane l : ℕ) (queue : List ScheduledEdge) → waiting l (remove_last lane queue) ≤ waiting l queue
unfolding waiting remove_last
waiting-remove_last lane l [] = omega arith
waiting-remove_last lane l (x ∷ queue) = ground (arith, waiting-remove_last lane l queue)

-- Without the last edge of its lane, the key of that lane is left the other way round.
settled-remove_last :
    (b : Bool) (lane : ℕ) (queue : List ScheduledEdge)
    → alternates b lane queue ≡ true
    → is_some (last_edge lane queue) ≡ true
    → settled b lane (remove_last lane queue) ≡ not (settled b lane queue)
unfolding settled remove_last last_edge alternates
settled-remove_last b lane [] h k = ground arith
settled-remove_last b lane (x ∷ queue) h k = ground (
  arith,
  settled-remove_last b lane queue,
  settled-remove_last x.change.down lane queue,
  last_edge-settled x.change.down lane queue,
  last_edge-settled b lane queue,
)

alternates-none :
    (b : Bool) (lane l : ℕ) (queue : List ScheduledEdge)
    → lane ≡ l
    → last_edge lane queue ≡ none
    → alternates b l queue ≡ true
unfolding alternates last_edge
alternates-none b lane l [] e h = refl
alternates-none b lane l (x ∷ queue) e h =
    ground
      (arith, ==_iff x.change.lane l, ==_iff x.change.lane lane, alternates-none b lane l queue e)

alternates-remove_last :
    (b : Bool) (lane l : ℕ) (queue : List ScheduledEdge)
    → alternates b l queue ≡ true
    → alternates b l (remove_last lane queue) ≡ true
unfolding remove_last alternates last_edge
alternates-remove_last b lane l [] h = refl
alternates-remove_last b lane l (x ∷ queue) h = ground (
  arith,
  ==_iff x.change.lane l,
  ==_iff x.change.lane lane,
  alternates-none b lane l queue,
  alternates-remove_last b lane l queue,
  alternates-remove_last x.change.down lane l queue,
)

settled-remove_other :
    (b : Bool) (lane l : ℕ) (queue : List ScheduledEdge)
    → (lane == l) ≡ false
    → settled b l (remove_last lane queue) ≡ settled b l queue
unfolding settled remove_last
settled-remove_other b lane l [] h = refl
settled-remove_other b lane l (x ∷ queue) h = ground (
  arith,
  ==_iff x.change.lane l,
  ==_iff x.change.lane lane,
  settled-remove_other b lane l queue,
  settled-remove_other x.change.down lane l queue,
)

waiting-none :
    (lane : ℕ) (queue : List ScheduledEdge) → last_edge lane queue ≡ none → waiting lane queue ≡ 0
unfolding waiting last_edge
waiting-none lane [] h = refl
waiting-none lane (x ∷ queue) h = ground (arith, waiting-none lane queue)

-- If at most three edges wait for a lane, then so they do after any edge is enqueued.
pub waiting-enqueue :
    (s : RepressSpacer) (change : KeyChange) (now l : ℕ) (os_pressed : Bool)
    → waiting l s.queue ≤ 3
    → waiting l (enqueue s change now os_pressed).queue ≤ 3
unfolding enqueue
waiting-enqueue s change now l os_pressed h =
    let (due, spaced) = schedule s change now (last_edge change.lane s.queue) in
    ground (
      arith,
      ==_iff change.lane l,
      waiting-remove_last change.lane l s.queue,
      waiting-append l s.queue (record { change = change; due = due; spaced = spaced }),
      waiting-none change.lane s.queue,
      λ (e : change.lane ≡ l). ap (λ (k : ℕ). waiting k s.queue) e,
    )

-- Where every edge that waits for a lane changes its key, that still holds once an edge is enqueued
-- for any lane, and the lane's waiting edges then lead to the key that the new edge asks for, also
-- where it is cancelled against another one, if it is of this lane, and else to the same key as
-- before.
pub enqueue_lem :
    (s : RepressSpacer) (change : KeyChange) (now l : ℕ) (pressed : ℕ → Bool)
    → alternates (pressed l) l s.queue ≡ true
    → (alternates (pressed l) l (enqueue s change now (pressed change.lane)).queue ≡ true)
      × (settled (pressed l) l (enqueue s change now (pressed change.lane)).queue
          ≡ (if change.lane == l then change.down else settled (pressed l) l s.queue))
unfolding enqueue
enqueue_lem s change now l pressed h =
    let lane : ℕ = change.lane in
    let (due, spaced) = schedule s change now (last_edge lane s.queue) in
    let edge : ScheduledEdge = record { change = change; due = due; spaced = spaced } in
    let at : lane ≡ l → settled (pressed lane) lane s.queue ≡ settled (pressed l) l s.queue =
      λ e. ap (λ (k : ℕ). settled (pressed k) k s.queue) e in
    let removed : lane ≡ l
        → settled (pressed lane) lane (remove_last lane s.queue)
          ≡ settled (pressed l) l (remove_last lane s.queue) =
      λ e. ap (λ (k : ℕ). settled (pressed k) k (remove_last lane s.queue)) e in
    let same_lane : lane ≡ l → alternates (pressed lane) lane s.queue ≡ true =
      λ e. ap (λ (k : ℕ). alternates (pressed k) k s.queue) e ∙ h in
    let down = last_edge-settled (pressed lane) lane s.queue in
    (
      ground (
        arith,
        ==_iff lane l,
        at,
        down,
        alternates-append (pressed l) l s.queue edge,
        alternates-remove_last (pressed l) lane l s.queue,
      ),
      ground (
        arith,
        ==_iff lane l,
        at,
        down,
        removed,
        same_lane,
        settled-append (pressed l) l s.queue edge,
        settled-remove_last (pressed lane) lane s.queue,
        settled-remove_other (pressed l) lane l s.queue,
      ),
    )
