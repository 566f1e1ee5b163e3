-- ===== src/Keyboard.antt =====
-- The lane-key bridge of native-host/src/keyboard/mod.rs: its data, and the moves of one pointer.
pub mod Moves
pub mod Plan
pub mod Spacer
pub mod Sink
pub mod Linux
pub mod Windows
pub mod Keys
mod Examples
use holodori_phone_trackpad.Prelude.{
  ℕ, zero, suc, ◌+◌, ◌-◌, ◌*◌, Bool, true, false, not, ◌&&◌, ◌==◌, ltb, if◌then◌else◌, min, Option,
  some, none, List, [], ◌∷◌, ◌++◌, get_or, set, replicate,
}
use holodori_phone_trackpad.Prelude.Int.{pos}
use holodori_phone_trackpad.Protocol.{Float32, Contact, max_contacts, touching, key_suppressed}

abbrev pub pointer_id_count : ℕ
pointer_id_count = 256

abbrev pub max_key_changes : ℕ → ℕ
max_key_changes lanes = max_contacts * (2 * lanes + 1)

-- The arrays are indexed by pointer id and by lane; the holds are `u16`.
pub record KeyboardState : Type 0 where
  pub pointer_lanes : List (Option ℕ)
  pub pressure_suppressed : List Bool
  pub lane_holds : List ℕ

pub new : ℕ → KeyboardState
new lanes = record {
  pointer_lanes = replicate pointer_id_count none;
  pressure_suppressed = replicate pointer_id_count false;
  lane_holds = replicate lanes 0;
}

pub record KeyChange : Type 0 where
  pub lane : ℕ
  pub down : Bool
  pub touch : Bool

-- The state and the changes that the functions below mutate.
abbrev pub Draft : Type 0
Draft = KeyboardState × List KeyChange

abbrev pub holds : KeyboardState → ℕ → ℕ
holds state lane = get_or state.lane_holds lane 0

abbrev pub pointer_lane : KeyboardState → ℕ → Option ℕ
pointer_lane state pointer = get_or state.pointer_lanes pointer none

-- `saturating_add(1)` on a `u16`.
abbrev pub saturating_suc : ℕ → ℕ
saturating_suc n = min (n + 1) 65535

unfoldable pub acquire_lane : ℕ → Bool → Draft → Draft
acquire_lane lane touch (state, changes) = (
  record state { lane_holds = set state.lane_holds lane (saturating_suc (holds state lane)) },
  if holds state lane == 0
      then changes ++ (record { lane = lane; down = true; touch = touch } ∷ [])
      else changes,
)

unfoldable pub release_lane : ℕ → Draft → Draft
release_lane lane (state, changes) = if holds state lane == 0 then (state, changes) else (
  record state { lane_holds = set state.lane_holds lane (holds state lane - 1) },
  if holds state lane - 1 == 0
      then changes ++ (record { lane = lane; down = false; touch = false } ∷ [])
      else changes,
)

-- `while current != destination`, one lane a round; the first number bounds the rounds.
unfoldable pub slide : ℕ → ℕ → ℕ → Draft → Draft
slide zero current destination draft = draft
slide (suc rounds) current destination draft =
    let next = if ltb current destination then current + 1 else current - 1 in
    let rest =
      slide rounds next destination (release_lane current (acquire_lane next false draft)) in
    if current == destination then draft else rest

-- How many lanes lie between two.
abbrev pub distance : ℕ → ℕ → ℕ
distance a b = (a - b) + (b - a)

abbrev pub set_pointer : ℕ → Option ℕ → Draft → Draft
set_pointer pointer lane (state, changes) =
    (record state { pointer_lanes = set state.pointer_lanes pointer lane }, changes)

unfoldable pub move_pointer : ℕ → ℕ → Draft → Draft
move_pointer pointer destination (state, changes) = elim (pointer_lane state pointer) [
  | none ↦ set_pointer pointer (some destination) (acquire_lane destination true (state, changes))
  | some current ↦
      set_pointer pointer (some destination)
        (slide (distance current destination) current destination (state, changes))
]

unfoldable pub release_pointer : ℕ → Draft → Draft
release_pointer pointer (state, changes) = elim (pointer_lane state pointer) [
  | none ↦ (state, changes)
  | some lane ↦ release_lane lane (set_pointer pointer none (state, changes))
]

module _ {F : Type 0} (float : Float32 F) where
  pub lane_for : F → ℕ → ℕ
  lane_for x lane_count =
      min (float.floor (float.mul (float.clamp01 x) (float.of_int (pos lane_count))))
        (lane_count - 1)

  unfoldable pub apply_contact : Contact F → ℕ → Draft → Draft
  apply_contact contact lane_count draft =
      if touching contact && not (key_suppressed contact)
      then move_pointer contact.pointer_id (lane_for contact.x lane_count) draft
      else release_pointer contact.pointer_id draft
