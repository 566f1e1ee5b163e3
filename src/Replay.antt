-- ===== src/Replay.antt =====
-- `ReplayWindow` of native-host/src/v5.rs: the packet numbers that a record cipher has opened.
-- Distances are `usize` of a 64-bit host, so no cast of a `u64` cuts anything off.
pub mod Shift
pub mod Window
pub mod Refinement
mod Examples
use Prim.Native.Nat.{bit_and, bit_or}
use holodori_phone_trackpad.Prelude.{
  ℕ, zero, suc, ◌+◌, ◌-◌, ◌*◌, ◌/◌, ◌%◌, ◌^◌, Bool, true, false, not, ◌&&◌, ◌==◌, ltb, leb,
  if◌then◌else◌, Option, none, some, List, get_or, set, replicate,
}

abbrev pub replay_window_bits : ℕ
replay_window_bits = 1024

-- The array holds `replay_window_bits / 64` words.
pub record ReplayWindow : Type 0 where
  pub highest : Option ℕ
  pub words : List ℕ

unfoldable pub default : ReplayWindow
default = record { highest = none; words = replicate 16 0 }

-- `x << bits` on a `u64`, for `bits` below 64.
abbrev pub shl64 : ℕ → ℕ → ℕ
shl64 x bits = x * 2 ^ bits % 2 ^ 64

pub accepts_below : List ℕ → ℕ → Bool
accepts_below words distance =
    if leb replay_window_bits distance
    then false
    else bit_and (get_or words (distance / 64) 0) (shl64 1 (distance % 64)) == 0

unfoldable pub would_accept : ReplayWindow → ℕ → Bool
unfolding accepts_below
would_accept w packet_number = elim w.highest [
  | none ↦ true
  | some highest ↦
      if ltb highest packet_number then true else accepts_below w.words (highest - packet_number)
]

-- The value that one round of the loop in `shift` stores at `destination`.
pub shifted_word : ℕ → ℕ → ℕ → List ℕ → ℕ
shifted_word word_shift bit_shift destination words =
    let value = shl64 (get_or words (destination - word_shift) 0) bit_shift in
    let carry = get_or words (destination - word_shift - 1) 0 / 2 ^ (64 - bit_shift) in
    if leb word_shift destination
    then (if not (bit_shift == 0) && ltb word_shift destination then bit_or value carry else value)
    else 0

-- `for destination in (0..len).rev()`, in place: the second number is how many are still to do.
pub shift_loop : ℕ → ℕ → ℕ → List ℕ → List ℕ
shift_loop word_shift bit_shift zero words = words
shift_loop word_shift bit_shift (suc destination) words =
    shift_loop word_shift bit_shift destination
      (set words destination (shifted_word word_shift bit_shift destination words))

pub shift : List ℕ → ℕ → List ℕ
shift words bits =
    if leb replay_window_bits bits
    then replicate 16 0
    else shift_loop (bits / 64) (bits % 64) 16 words

-- `words[index] |= bit`
pub or_word : List ℕ → ℕ → ℕ → List ℕ
or_word words index bit = set words index (bit_or (get_or words index 0) bit)

unfoldable pub commit : ReplayWindow → ℕ → ReplayWindow
unfolding shifted_word shift_loop shift or_word
commit w packet_number = elim w.highest [
  | none ↦ record { highest = some packet_number; words = set w.words 0 1 }
  | some highest ↦
      if ltb highest packet_number
      then record {
        highest = some packet_number;
        words = or_word (shift w.words (packet_number - highest)) 0 1;
      }
      else (let distance = highest - packet_number in
          if ltb distance replay_window_bits
          then record w { words = or_word w.words (distance / 64) (shl64 1 (distance % 64)) }
          else w)
]
