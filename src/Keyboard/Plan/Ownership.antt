-- ===== src/Keyboard/Plan/Ownership.antt =====
-- Which lane each pointer owns after a frame: what the frame's snapshot says, and nothing else.
use holodori_phone_trackpad.Prelude.{
  ℕ, zero, suc, ◌+◌, ◌<◌, ◌≡◌, refl, sym, ap, ◌∙◌, arith, Bool, true, false, not, ◌&&◌, ◌||◌, ◌==◌,
  if◌then◌else◌, Option, some, none, is_some, List, [], ◌∷◌, map, get_or, set, length, length-set,
  replicate, fill, length-replicate, ==_iff, get_or-set, get_or-replicate, Option-cases, Bool-cases,
  inl, inr, All, contains, distinct,
}
use holodori_phone_trackpad.Protocol.{Float32, Contact, TouchFrame, touching, key_suppressed}
use holodori_phone_trackpad.Keyboard.{
  KeyboardState, Draft, pointer_lane, distance, set_pointer, move_pointer, release_pointer,
  lane_for, apply_contact,
}
use holodori_phone_trackpad.Keyboard.Moves.{acquire-Untouched, release-Untouched, slide-Untouched}
use holodori_phone_trackpad.Keyboard.Plan.{
  find, mark_present, mark_suppressed, missing, release_all, apply_others, apply_contacts,
  settle_pointers,
}

-- A move writes the pointer's entry and no other.
abbrev Writes : Draft → ℕ → Option ℕ → Draft → Type 0
Writes d p o a = ((a.0).pointer_lanes ≡ set (d.0).pointer_lanes p o)

move_pointer-Writes :
    (d : Draft) (p destination : ℕ) → Writes d p (some destination) (move_pointer p destination d)
unfolding move_pointer
move_pointer-Writes d p destination = elim (Option-cases (pointer_lane d.0 p)) [
  | inl idle ↦
      rw (idle, move_pointer)
        (ap (λ (t : List (Option ℕ)). set t p (some destination))
          (acquire-Untouched destination true d).0)
  | inr (current, owned) ↦
      rw (owned, move_pointer)
        (ap (λ (t : List (Option ℕ)). set t p (some destination))
          (slide-Untouched (distance current destination) current destination d).0)
]

set_same : (os : List (Option ℕ)) (p : ℕ) → get_or os p none ≡ none → set os p none ≡ os
set_same [] p e = refl
set_same (o ∷ os) zero e = ap (λ (t : Option ℕ). t ∷ os) (sym e)
set_same (o ∷ os) (suc p) e = ap (λ (t : List (Option ℕ)). o ∷ t) (set_same os p e)

release_pointer-Writes : (d : Draft) (p : ℕ) → Writes d p none (release_pointer p d)
unfolding release_pointer
release_pointer-Writes d p = elim (Option-cases (pointer_lane d.0 p)) [
  | inl idle ↦ rw (idle, release_pointer) (sym (set_same (d.0).pointer_lanes p idle))
  | inr (lane, owned) ↦
      rw (owned, release_pointer) (release-Untouched lane (set_pointer p none d)).0
]

module _ {F : Type 0} where
  abbrev pub AreBytes : List (Contact F) → Type 0
  AreBytes = All λ c. c.pointer_id < 256

  abbrev pub ids : List (Contact F) → List ℕ
  ids = map λ c. c.pointer_id

module _ {F : Type 0} (float : Float32 F) where
  -- The lane that a contact asks for.
  unfoldable pub wanted : ℕ → Contact F → Option ℕ
  wanted lanes c =
      if touching c && not (key_suppressed c) then some (lane_for float c.x lanes) else none

  apply_contact-Writes :
      (d : Draft) (lanes : ℕ) (c : Contact F)
      → Writes d c.pointer_id (wanted lanes c) (apply_contact float c lanes d)
  unfolding wanted apply_contact
  apply_contact-Writes d lanes c = elim (Bool-cases (touching c && not (key_suppressed c))) [
    | inl on ↦ rw on (move_pointer-Writes d c.pointer_id (lane_for float c.x lanes))
    | inr off ↦ rw off (release_pointer-Writes d c.pointer_id)
  ]

  -- The same, entry by entry.
  pub apply_contact-lane :
      (d : Draft) (lanes q : ℕ) (c : Contact F)
      → c.pointer_id < 256
      → length (d.0).pointer_lanes ≡ 256
      → (pointer_lane (apply_contact float c lanes d).0 q
          ≡ (if c.pointer_id == q then wanted lanes c else pointer_lane d.0 q))
        × (length (apply_contact float c lanes d).0.pointer_lanes ≡ 256)
  apply_contact-lane d lanes q c h l =
      let e = apply_contact-Writes d lanes c in
      (
        rw e (
            get_or-set (d.0).pointer_lanes c.pointer_id q (wanted lanes c) none (omega (arith, l))),
        rw e (length-set (d.0).pointer_lanes c.pointer_id (wanted lanes c) ∙ l),
      )

  -- The lane that the snapshot gives a pointer, `otherwise` where it has no contact for it.
  unfoldable pub snapshot_lane : ℕ → List (Contact F) → ℕ → Option ℕ → Option ℕ
  snapshot_lane lanes contacts q otherwise = elim (find q contacts) [
    | none ↦ otherwise
    | some c ↦ wanted lanes c
  ]

  absent :
      (contacts : List (Contact F)) (q : ℕ)
      → contains (ids contacts) q ≡ false
      → find q contacts ≡ none
  unfolding contains find
  absent [] q h = refl
  absent (c ∷ contacts) q h = ground (arith, absent contacts q)

  apply_others-lane :
      (d : Draft) (action lanes q : ℕ) (contacts : List (Contact F))
      → AreBytes contacts
      → distinct (ids contacts) ≡ true
      → length (d.0).pointer_lanes ≡ 256
      → (pointer_lane (apply_others float action lanes contacts d).0 q ≡ (
          if q == action
          then pointer_lane d.0 q
          else snapshot_lane lanes contacts q (pointer_lane d.0 q)))
        × (length (apply_others float action lanes contacts d).0.pointer_lanes ≡ 256)
  unfolding apply_others snapshot_lane distinct find
  apply_others-lane d action lanes q [] b u l = (ground arith, l)
  apply_others-lane d action lanes q (c ∷ contacts) (hc, hs) u l =
      let d' : Draft = if c.pointer_id == action then d else apply_contact float c lanes d in
      let step = apply_contact-lane d lanes q c hc l in
      let long : length (d'.0).pointer_lanes ≡ 256 = ground arith in
      let ih = apply_others-lane d' action lanes q contacts hs (ground arith) long in
      let gone = absent contacts q in (ground arith, ih.1)

  pub find-some :
      (contacts : List (Contact F)) (q : ℕ) (c : Contact F)
      → AreBytes contacts
      → find q contacts ≡ some c
      → (c.pointer_id ≡ q) × (c.pointer_id < 256)
  unfolding find
  find-some [] q c b e = ground arith
  find-some (x ∷ contacts) q c (h, hs) e = elim (Bool-cases (x.pointer_id == q)) [
    | inl same ↦ ground (arith, ==_iff x.pointer_id q)
    | inr other ↦ find-some contacts q c hs (ground arith)
  ]

  apply_contacts-lane :
      (d : Draft) (lanes q : ℕ) (frame : TouchFrame F)
      → AreBytes frame.contacts
      → distinct (ids frame.contacts) ≡ true
      → length (d.0).pointer_lanes ≡ 256
      → pointer_lane (apply_contacts float lanes frame d).0 q
        ≡ snapshot_lane lanes frame.contacts q (pointer_lane d.0 q)
  unfolding apply_contacts snapshot_lane
  apply_contacts-lane d lanes q frame b u l =
      let action = frame.action_pointer_id in
      elim (Option-cases (find action frame.contacts)) [
        | inl none_found ↦
            let o = apply_others-lane d action lanes q frame.contacts b u l in
            rw none_found (ground (arith, ==_iff q action))
        | inr (c, found) ↦
            let i = find-some frame.contacts action c b found in
            let step = apply_contact-lane d lanes q c i.1 l in
            let o =
              apply_others-lane (apply_contact float c lanes d) action lanes q frame.contacts b u
                step.1 in
            rw found (ground (arith, ==_iff q action))
      ]

  mark_present_lem :
      (contacts : List (Contact F)) (present : List Bool) (q : ℕ)
      → AreBytes contacts
      → length present ≡ 256
      → get_or (mark_present contacts present) q false
        ≡ (is_some (find q contacts) || get_or present q false)
  unfolding mark_present find
  mark_present_lem [] present q b l = refl
  mark_present_lem (c ∷ contacts) present q (h, hs) l = ground (
    arith,
    mark_present_lem contacts (set present c.pointer_id true) q hs
        (length-set present c.pointer_id true ∙ l),
    get_or-set present c.pointer_id q true false (omega (arith, l)),
  )

  missing_above :
      (os : List (Option ℕ)) (k q : ℕ) (present : List Bool)
      → q < k
      → contains (missing os k present) q ≡ false
  unfolding missing contains
  missing_above [] k q present h = refl
  missing_above (o ∷ os) k q present h = ground (arith, missing_above os (k + 1) q present)

  missing_lem :
      (os : List (Option ℕ)) (k i : ℕ) (present : List Bool)
      → contains (missing os k present) (k + i)
        ≡ (is_some (get_or os i none) && not (get_or present (k + i) false))
  unfolding missing contains
  missing_lem [] k i present = ground arith
  missing_lem (o ∷ os) k zero present = ground (arith, missing_above os (k + 1) (k + 0) present)
  missing_lem (o ∷ os) k (suc i) present = ground (arith, missing_lem os (k + 1) i present)

  set-none :
      (os : List (Option ℕ)) (p q : ℕ)
      → get_or (set os p none) q none ≡ (if p == q then none else get_or os q none)
  set-none [] p q = ground arith
  set-none (o ∷ os) zero zero = ground arith
  set-none (o ∷ os) zero (suc q) = ground arith
  set-none (o ∷ os) (suc p) zero = ground arith
  set-none (o ∷ os) (suc p) (suc q) = ground (arith, set-none os p q)

  release_all-lane :
      (ps : List ℕ) (d : Draft) (q : ℕ)
      → pointer_lane (release_all ps d).0 q ≡ (if contains ps q then none else pointer_lane d.0 q)
  unfolding release_all contains
  release_all-lane [] d q = ground arith
  release_all-lane (p ∷ ps) d q = ground (
    arith,
    release_all-lane ps (release_pointer p d) q,
    release_pointer-Writes d p,
    set-none (d.0).pointer_lanes p q,
  )

  -- Whatever the 256 pointers owned before, once a frame whose contacts have different one-byte
  -- ids is settled each pointer owns the lane that its contact asks for, and a pointer without
  -- one none.
  pub settle_pointers-snapshot :
      (state : KeyboardState) (lanes q : ℕ) (frame : TouchFrame F)
      → AreBytes frame.contacts
      → distinct (ids frame.contacts) ≡ true
      → length state.pointer_lanes ≡ 256
      → pointer_lane (settle_pointers float state lanes frame).0 q
        ≡ snapshot_lane lanes frame.contacts q none
  unfolding settle_pointers snapshot_lane
  settle_pointers-snapshot state lanes q frame b u l =
      let d : Draft =
        (record state { pressure_suppressed = fill state.pressure_suppressed false }, []) in
      let a = apply_contacts float lanes frame d in
      let present = mark_present frame.contacts (replicate 256 false) in
      ground (
        arith,
        release_all-lane (missing (a.0).pointer_lanes 0 present)
            (
              record (a.0) {
                pressure_suppressed = mark_suppressed frame.contacts (a.0).pressure_suppressed;
              },
              a.1,
            )
            q,
        missing_lem (a.0).pointer_lanes 0 q present,
        mark_present_lem frame.contacts (replicate 256 false) q b (length-replicate 256 false),
        get_or-replicate 256 false q,
        apply_contacts-lane d lanes q frame b u l,
      )
