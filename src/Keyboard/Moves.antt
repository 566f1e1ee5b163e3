-- ===== src/Keyboard/Moves.antt =====
-- What the moves of one pointer do to the lanes and the changes; Tallied and Balanced carry it
-- through a draft.
pub mod Counts
pub mod Tallied
pub mod Balanced
use mathlib.Core.Path.{subst}
use holodori_phone_trackpad.Prelude.{
  ℕ, zero, suc, ◌+◌, ◌-◌, ◌≤◌, ◌<◌, ◌≡◌, refl, sym, ap, ◌∙◌, arith, Bool, true, false, not, ◌&&◌,
  ◌==◌, ltb, if◌then◌else◌, min, Option, some, none, List, [], ◌∷◌, ◌++◌, get_or, set, length,
  length-set, get_or-set, Option-cases, Bool-cases, ==_iff, inl, inr,
}
use holodori_phone_trackpad.Keyboard.Moves.Counts.{
  one, owners, one_of, owners-set, owners_split, owners-le-length, one-le,
}
use holodori_phone_trackpad.Protocol.{Float32, Contact, touching, key_suppressed}
use holodori_phone_trackpad.Keyboard.{
  KeyboardState, KeyChange, Draft, holds, pointer_lane, acquire_lane, release_lane, slide, distance,
  set_pointer, move_pointer, release_pointer, lane_for, apply_contact,
}

-- The state of a lane's key after a list of changes.
unfoldable pub settle : Bool → ℕ → List KeyChange → Bool
settle b lane [] = b
settle b lane (c ∷ changes) = settle (if c.lane == lane then c.down else b) lane changes

pub settle-append :
    (b : Bool) (lane : ℕ) (xs ys : List KeyChange)
    → settle b lane (xs ++ ys) ≡ settle (settle b lane xs) lane ys
unfolding settle
settle-append b lane [] ys = refl
settle-append b lane (c ∷ xs) ys = settle-append (if c.lane == lane then c.down else b) lane xs ys

abbrev pub held : KeyboardState → ℕ → Bool
held state lane = not (holds state lane == 0)

-- Acquiring and releasing lanes leaves the owners and the pressure flags alone.
abbrev pub Untouched : Draft → Draft → Type 0
Untouched d d' =
    ((d'.0).pointer_lanes ≡ (d.0).pointer_lanes)
    × ((d'.0).pressure_suppressed ≡ (d.0).pressure_suppressed)

pub acquire-Untouched :
    (lane : ℕ) (touch : Bool) (d : Draft) → Untouched d (acquire_lane lane touch d)
unfolding acquire_lane
acquire-Untouched lane touch (state, changes) = (refl, refl)

pub release-Untouched : (lane : ℕ) (d : Draft) → Untouched d (release_lane lane d)
unfolding release_lane
release-Untouched lane (state, changes) = ground arith

pub slide-Untouched :
    (rounds current destination : ℕ) (d : Draft) → Untouched d (slide rounds current destination d)
unfolding slide
slide-Untouched zero current destination d = (refl, refl)
slide-Untouched (suc rounds) current destination d =
    let next : ℕ = if ltb current destination then current + 1 else current - 1 in
    let a = acquire-Untouched next false d in
    let r = release-Untouched current (acquire_lane next false d) in
    let s =
      slide-Untouched rounds next destination (release_lane current (acquire_lane next false d)) in
    ground arith
