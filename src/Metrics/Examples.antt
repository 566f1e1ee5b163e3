-- ===== src/Metrics/Examples.antt =====
-- Tests of the queue.
use holodori_phone_trackpad.Prelude.{ℕ, ◌+◌, ◌≡◌, ◌≤◌, refl, false, List, [], ◌∷◌, length, take}
use holodori_phone_trackpad.Metrics.{
  Queue, new, is_full, fill_slot, publish, is_drained, slot, release,
}
use holodori_phone_trackpad.Metrics.Interleaving.{
  Run, start, checks, fills, publishes, sees, takes, releases, resting, idle,
}
use holodori_phone_trackpad.Metrics.Fifo.{received-Prefix}

abbrev empty : Queue ℕ
empty = new 0

-- The queue with one event in it, and with two.
abbrev one_in : Queue ℕ
one_in = publish (fill_slot empty 7)

abbrev two_in : Queue ℕ
two_in = publish (fill_slot one_in 8)

abbrev published : List ℕ
published = 7 ∷ 8 ∷ []

abbrev received : List ℕ
received = slot 0 one_in ∷ []

room : is_full empty ≡ false
unfolding is_full new
room = refl

one_more : is_full one_in ≡ false
unfolding is_full publish fill_slot new
one_more = refl

something : is_drained one_in ≡ false
unfolding is_drained publish fill_slot new
something = refl

-- One event is received while another one is being published.
overlap : Run 0 (release two_in) resting idle published received
overlap = releases (
    publishes (
      fills (takes (checks 8 one_more (sees something (publishes (fills (checks 7 room start))))))))

received-Prefix_example :
    (received ≡ take (length received) published) × (length published ≤ length received + 16384)
received-Prefix_example = received-Prefix 0 (release two_in) resting idle published received overlap
