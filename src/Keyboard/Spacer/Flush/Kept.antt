-- ===== src/Keyboard/Spacer/Flush/Kept.antt =====
-- What a flush keeps: the key that every lane's waiting edges lead to.
use holodori_phone_trackpad.Prelude.{
  ℕ, zero, suc, ◌<◌, ◌≡◌, refl, ap, ◌∙◌, arith, Bool, true, false, ◌==◌, ◌||◌, ltb, if◌then◌else◌,
  Option, List, [], ◌∷◌, length, length-set, length-replicate, take, get_or, set, get_or-set,
  get_or-set_ne, replicate, Bool-cases, ==_iff, inl, inr, Result, ok, err, Result-cases,
}
use holodori_phone_trackpad.Io.{IoError, incomplete}
use holodori_phone_trackpad.Keyboard.{KeyChange}
use holodori_phone_trackpad.Keyboard.Spacer.{ScheduledEdge, EmittedEdge, RepressSpacer}
use holodori_phone_trackpad.Keyboard.Spacer.Waiting.{settled, alternates}
use holodori_phone_trackpad.Keyboard.Spacer.Flush.{
  is_ready, select, picked, retain, press_all, postpone, flags_of, emitted, flush, changes_of,
  is_empty, emit_all,
}

marked :
    (waits : List Bool) (i l : ℕ)
    → get_or waits l false ≡ true
    → get_or (set waits i true) l false ≡ true
marked [] i l h = cc
marked (w ∷ waits) zero zero h = refl
marked (w ∷ waits) zero (suc l) h = h
marked (w ∷ waits) (suc i) zero h = h
marked (w ∷ waits) (suc i) (suc l) h = marked waits i l h

-- A lane that waits has none of its later edges selected.
blocked :
    (now l k : ℕ) (waits selected : List Bool) (press : Bool) (queue : List ScheduledEdge)
    (b : Bool)
    → get_or waits l false ≡ true
    → let flags = select now waits selected press queue in
      (settled b l (take k (picked flags queue)) ≡ b)
      × (settled b l (retain k flags queue) ≡ settled b l queue)
      × (alternates b l (retain k flags queue) ≡ alternates b l queue)
unfolding select picked retain settled alternates
blocked now l zero waits selected press queue b h = (refl, refl, refl)
blocked now l (suc k) waits selected press [] b h = (refl, refl, refl)
blocked now l (suc k) waits selected press (e ∷ queue) b h =
    elim (Bool-cases (is_ready now waits selected press e)) [
      | inl ready ↦
          let lane = e.change.lane in
          let ih = blocked now l k waits (set selected lane true) press queue b h in
          let other : (lane == l) ≡ false =
            ground
              (arith, ==_iff lane l, λ (q : lane ≡ l). ap (λ (i : ℕ). get_or waits i false) q) in
          rw (ready, other) (ground (arith, ih, other))
      | inr held ↦
          let lane = e.change.lane in
          let ih =
            blocked now l (suc k) (set waits lane true) selected (press || e.change.down) queue in
          rw held (ground (arith, ih b, ih e.change.down, marked waits lane l h))
    ]

-- The edges that are emitted and those that stay lead, one after the other, where the queue led.
kept :
    (now l k : ℕ) (waits selected : List Bool) (press : Bool) (queue : List ScheduledEdge)
    (b : Bool)
    → l < length waits
    → alternates b l queue ≡ true
    → let flags = select now waits selected press queue in
      let after = settled b l (take k (picked flags queue)) in
      (settled after l (retain k flags queue) ≡ settled b l queue)
      × (alternates after l (retain k flags queue) ≡ true)
unfolding select picked retain settled alternates
kept now l zero waits selected press queue b h a = (refl, a)
kept now l (suc k) waits selected press [] b h a = (refl, refl)
kept now l (suc k) waits selected press (e ∷ queue) b h a =
    elim (Bool-cases (is_ready now waits selected press e)) [
      | inl ready ↦
          let lane = e.change.lane in
          let ih = kept now l k waits (set selected lane true) press queue in
          rw ready (ground (arith, ih b h, ih e.change.down h))
      | inr held ↦ elim (Bool-cases (e.change.lane == l)) [
        | inl here ↦
            let lane = e.change.lane in
            let at : lane ≡ l = (==_iff lane l).0 here in
            let stop : get_or (set waits lane true) l false ≡ true =
              ground (arith, get_or-set waits lane l true false) in
            let ih =
              blocked now l (suc k) (set waits lane true) selected (press || e.change.down) queue in
            rw held (ground (arith, ih b stop, ih e.change.down stop, here))
        | inr there ↦
            let lane = e.change.lane in
            let ih =
              kept now l (suc k) (set waits lane true) selected (press || e.change.down) queue b
                (omega (arith, length-set waits lane true)) in
            rw held (ground (arith, ih, there))
      ]
    ]

length-press_all :
    (edges : List ScheduledEdge) (pressed : List Bool)
    → length (press_all edges pressed) ≡ length pressed
unfolding press_all
length-press_all [] pressed = refl
length-press_all (e ∷ edges) pressed =
    length-press_all edges (set pressed e.change.lane e.change.down)
    ∙ length-set pressed e.change.lane e.change.down

press_all-settled :
    (edges : List ScheduledEdge) (pressed : List Bool) (l : ℕ)
    → l < length pressed
    → get_or (press_all edges pressed) l false ≡ settled (get_or pressed l false) l edges
unfolding press_all settled
press_all-settled [] pressed l h = refl
press_all-settled (e ∷ edges) pressed l h =
    let lane = e.change.lane in
    let longer = length-set pressed lane e.change.down in
    let ih = press_all-settled edges (set pressed lane e.change.down) l (omega (arith, longer)) in
    let at : (lane == l) ≡ true → get_or (set pressed lane e.change.down) l false ≡ e.change.down =
      λ q. ground (arith, get_or-set pressed lane l e.change.down false) in
    let elsewhere : (lane == l) ≡ false
        → get_or (set pressed lane e.change.down) l false ≡ get_or pressed l false =
      λ q. get_or-set_ne pressed lane l e.change.down false (λ r. ground (arith, r)) in
    ground (arith, ih, at, elsewhere)

postpone-settled :
    (now gap : ℕ) (emitted : List (Option EmittedEdge)) (queue : List ScheduledEdge) (l : ℕ)
    (b : Bool)
    → (settled b l (postpone now gap emitted queue) ≡ settled b l queue)
      × (alternates b l (postpone now gap emitted queue) ≡ alternates b l queue)
unfolding postpone settled alternates
postpone-settled now gap emitted [] l b = (refl, refl)
postpone-settled now gap emitted (e ∷ queue) l b =
    let ih = postpone-settled now gap emitted queue l in ground (arith, ih b, ih e.change.down)

-- What a flush leaves of a lane, in terms of the keys before it.
abbrev pub Keeps : Bool → ℕ → List ScheduledEdge → Bool → List ScheduledEdge → Type 0
Keeps b l queue b' queue' =
    (settled b' l queue' ≡ settled b l queue) × (alternates b' l queue' ≡ true)

module _ {S : Type 0} (submit : S → List KeyChange → S × Result IoError ℕ) where
  emitted-Keeps :
      (s : RepressSpacer) (now : ℕ) (sink : S) (pressed : List Bool) (accepted l : ℕ)
      (result : Result IoError (Unit {0}))
      → l < length pressed
      → alternates (get_or pressed l false) l s.queue ≡ true
      → let f = emitted s now sink pressed accepted result in
        Keeps (get_or pressed l false) l s.queue (get_or f.pressed l false) f.spacer.queue
  unfolding emitted flags_of
  emitted-Keeps s now sink pressed accepted l result h a =
      let n = length pressed in
      let none_yet : List Bool = replicate n false in
      let flags = flags_of now n s.queue in
      let edges = take accepted (picked flags s.queue) in
      let left = retain accepted flags s.queue in
      let last = emit_all now edges s.last_emitted in
      let k =
        kept now l accepted none_yet none_yet false s.queue (get_or pressed l false)
          (omega (arith, length-replicate {A = Bool} n false)) a in
      let p = press_all-settled edges pressed l h in
      let q = postpone-settled now s.gap last left l (get_or (press_all edges pressed) l false) in
      (
        q.0 ∙ ap (λ (b : Bool). settled b l left) p ∙ k.0,
        q.1 ∙ ap (λ (b : Bool). alternates b l left) p ∙ k.1,
      )

  -- However much of its batch the system accepts, a flush changes none of the keys that the waiting
  -- edges lead to: for a lane whose waiting edges alternate, the key as it is then and the edges
  -- that still wait lead to the same key as before, and still alternate.
  pub flush-Keeps :
      (s : RepressSpacer) (now : ℕ) (sink : S) (pressed : List Bool) (l : ℕ)
      → l < length pressed
      → alternates (get_or pressed l false) l s.queue ≡ true
      → let f = flush submit s now sink pressed in
        Keeps (get_or pressed l false) l s.queue (get_or f.pressed l false) f.spacer.queue
  unfolding flush
  flush-Keeps s now sink pressed l h a =
      let batch = changes_of (picked (flags_of now (length pressed) s.queue) s.queue) in
      elim (Bool-cases (is_empty s.queue || is_empty batch)) [
        | inl idle ↦ rw idle (refl, a)
        | inr busy ↦ elim (Result-cases (submit sink batch).1) [
          | inr (e, failed) ↦ rw (busy, failed) (refl, a)
          | inl (accepted, answered) ↦ elim (Bool-cases (ltb (length batch) accepted)) [
            | inl excess ↦ rw (busy, answered, excess) (refl, a)
            | inr fine ↦
                rw (busy, answered, fine)
                  (emitted-Keeps s now (submit sink batch).0 pressed accepted l
                    (if accepted == length batch
                      then ok tt
                      else err (incomplete accepted (length batch)))
                    h a)
          ]
        ]
      ]

  pub length-flush :
      (s : RepressSpacer) (now : ℕ) (sink : S) (pressed : List Bool)
      → length (flush submit s now sink pressed).pressed ≡ length pressed
  unfolding flush emitted
  length-flush s now sink pressed =
      let edges = picked (flags_of now (length pressed) s.queue) s.queue in
      let batch = changes_of edges in
      elim (Bool-cases (is_empty s.queue || is_empty batch)) [
        | inl idle ↦ rw idle refl
        | inr busy ↦ elim (Result-cases (submit sink batch).1) [
          | inr (e, failed) ↦ rw (busy, failed) refl
          | inl (accepted, answered) ↦ elim (Bool-cases (ltb (length batch) accepted)) [
            | inl excess ↦ rw (busy, answered, excess) refl
            | inr fine ↦ rw (busy, answered, fine) (length-press_all (take accepted edges) pressed)
          ]
        ]
      ]
