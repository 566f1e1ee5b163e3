-- ===== src/Metrics/Interleaving.antt =====
-- The two threads at the queue, as steps in any order.
use holodori_phone_trackpad.Prelude.{◌≡◌, false, List, [], ◌∷◌, ◌++◌}
use holodori_phone_trackpad.Metrics.{
  Queue, new, is_full, fill_slot, publish, is_drained, slot, release,
}

-- Where the producer is in `push`, and the consumer in `pop`.
pub data Producer (A : Type 0) : Type 0 where
  resting : Producer A
  checked : A → Producer A
  filled : A → Producer A

pub data Consumer (A : Type 0) : Type 0 where
  idle : Consumer A
  ready : Consumer A
  taken : A → Consumer A

-- The states that the steps of the two threads lead to, in any interleaving, with the events that
-- were published and those that were received so far.
pub data Run {A : Type 0} (default : A)
    : Queue A → Producer A → Consumer A → List A → List A → Type 0 where
  start : Run default (new default) resting idle [] []
  checks :
      {q : Queue A} {c : Consumer A} {published received : List A} (event : A)
      → is_full q ≡ false
      → Run default q resting c published received
      → Run default q (checked event) c published received
  fills :
      {q : Queue A} {c : Consumer A} {published received : List A} {event : A}
      → Run default q (checked event) c published received
      → Run default (fill_slot q event) (filled event) c published received
  publishes :
      {q : Queue A} {c : Consumer A} {published received : List A} {event : A}
      → Run default q (filled event) c published received
      → Run default (publish q) resting c (published ++ (event ∷ [])) received
  sees :
      {q : Queue A} {p : Producer A} {published received : List A}
      → is_drained q ≡ false
      → Run default q p idle published received
      → Run default q p ready published received
  takes :
      {q : Queue A} {p : Producer A} {published received : List A}
      → Run default q p ready published received
      → Run default q p (taken (slot default q)) published received
  releases :
      {q : Queue A} {p : Producer A} {published received : List A} {event : A}
      → Run default q p (taken event) published received
      → Run default (release q) p idle published (received ++ (event ∷ []))
