-- ===== src/Keyboard/Plan.antt =====
-- `plan_into` of native-host/src/keyboard/mod.rs.
pub mod Ownership
pub mod Keys
use holodori_phone_trackpad.Prelude.{
  ℕ, zero, suc, ◌+◌, Bool, true, false, not, ◌&&◌, ◌||◌, ◌==◌, ltb, if◌then◌else◌, Option, some,
  none, is_some, List, [], ◌∷◌, ◌++◌, get_or, set, replicate, fill,
}
use holodori_phone_trackpad.Protocol.{
  Float32, Contact, TouchFrame, touching, key_suppressed, action_down,
}
use holodori_phone_trackpad.Keyboard.{
  KeyboardState, KeyChange, Draft, holds, pointer_lane, release_pointer, apply_contact,
  pointer_id_count,
}

module _ {F : Type 0} where
  -- `contacts.iter().find(|contact| contact.pointer_id == pointer)`.
  unfoldable pub find : ℕ → List (Contact F) → Option (Contact F)
  find pointer [] = none
  find pointer (c ∷ contacts) = if c.pointer_id == pointer then some c else find pointer contacts

  -- The `present` flags.
  unfoldable pub mark_present : List (Contact F) → List Bool → List Bool
  mark_present [] present = present
  mark_present (c ∷ contacts) present = mark_present contacts (set present c.pointer_id true)

  -- The suppression of each contact of the frame.
  unfoldable pub mark_suppressed : List (Contact F) → List Bool → List Bool
  mark_suppressed [] flags = flags
  mark_suppressed (c ∷ contacts) flags =
      mark_suppressed contacts (set flags c.pointer_id (touching c && key_suppressed c))

-- The pointers that own a lane and are not in the frame, from `pointer` on, in ascending order.
unfoldable pub missing : List (Option ℕ) → ℕ → List Bool → List ℕ
missing [] pointer present = []
missing (lane ∷ lanes) pointer present =
    let rest = missing lanes (pointer + 1) present in
    if is_some lane && not (get_or present pointer false) then pointer ∷ rest else rest

unfoldable pub release_all : List ℕ → Draft → Draft
release_all [] draft = draft
release_all (pointer ∷ pointers) draft = release_all pointers (release_pointer pointer draft)

-- `changes.retain(..)`: a lane owned before and after the frame keeps its key as it is.
unfoldable pub retain_edges : KeyboardState → KeyboardState → List KeyChange → List KeyChange
retain_edges state next [] = []
retain_edges state next (c ∷ changes) =
    let rest = retain_edges state next changes in
    if holds state c.lane == 0 || holds next c.lane == 0 then c ∷ rest else rest

module _ {F : Type 0} (float : Float32 F) where
  -- The second pass over the contacts, without the action pointer.
  unfoldable pub apply_others : ℕ → ℕ → List (Contact F) → Draft → Draft
  apply_others action_pointer lane_count [] draft = draft
  apply_others action_pointer lane_count (c ∷ contacts) draft =
      apply_others action_pointer lane_count contacts
        (if c.pointer_id == action_pointer then draft else apply_contact float c lane_count draft)

  -- Both passes.
  unfoldable pub apply_contacts : ℕ → TouchFrame F → Draft → Draft
  apply_contacts lane_count frame draft =
      apply_others frame.action_pointer_id lane_count frame.contacts
        (elim (find frame.action_pointer_id frame.contacts) [
          | none ↦ draft
          | some c ↦ apply_contact float c lane_count draft
        ])

  -- A finger that lands, or is admitted, on a lane that another finger holds.
  unfoldable pub represses :
      KeyboardState → KeyboardState → TouchFrame F → Bool → List (Contact F) → List KeyChange
  represses state next frame split_repress [] = []
  represses state next frame split_repress (c ∷ contacts) =
      let rest = represses state next frame split_repress contacts in
      let new_press =
        (frame.action == action_down && c.pointer_id == frame.action_pointer_id)
        || get_or state.pressure_suppressed c.pointer_id false in
      if new_press && not (is_some (pointer_lane state c.pointer_id))
      then (elim (pointer_lane next c.pointer_id) [
        | none ↦ rest
        | some lane ↦
            let press : List KeyChange = record { lane = lane; down = true; touch = true } ∷ rest in
            if not (holds state lane == 0)
            then (if split_repress
                then record { lane = lane; down = false; touch = false } ∷ press
                else press)
            else rest
      ])
      else rest

  -- The draft once every contact is applied and every missing pointer is released.
  unfoldable pub settle_pointers : KeyboardState → ℕ → TouchFrame F → Draft
  settle_pointers state lane_count frame =
      let cleared = record state { pressure_suppressed = fill state.pressure_suppressed false } in
      let applied = apply_contacts lane_count frame (cleared, []) in
      let marked = record (applied.0) {
        pressure_suppressed = mark_suppressed frame.contacts (applied.0).pressure_suppressed;
      } in
      let present = mark_present frame.contacts (replicate pointer_id_count false) in
      release_all (missing marked.pointer_lanes 0 present) (marked, applied.1)

  unfoldable pub plan_into : KeyboardState → ℕ → TouchFrame F → Bool → Draft
  plan_into state lane_count frame split_repress =
      let settled = settle_pointers state lane_count frame in
      (
        settled.0,
        retain_edges state settled.0 settled.1
            ++ represses state settled.0 frame split_repress frame.contacts,
      )
