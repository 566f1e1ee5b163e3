-- ===== src/Metrics/Fifo.antt =====
-- The queue between two threads: nothing is lost, repeated, reordered or overwritten.
use holodori_phone_trackpad.Prelude.{
  ℕ, suc, ◌+◌, ◌%◌, ◌^◌, ◌≤◌, ◌<◌, ◌≡◌, ◌≢◌, refl, sym, ap, ◌∙◌, arith, false, List, [], ◌∷◌, ◌++◌,
  length, length-append, length-replicate, take, get_or,
}
use holodori_phone_trackpad.Metrics.{Queue, new, is_drained, slot, release}
use holodori_phone_trackpad.Metrics.Interleaving.{
  Producer, Consumer, Run, start, checks, fills, publishes, sees, takes, releases, resting, checked,
  filled, idle, ready, taken,
}
use holodori_phone_trackpad.Metrics.Invariant.{
  get_or-append, Producing, Inv, checks-Inv, fills-Inv, publishes-Inv,
}

module _ {A : Type 0} (default : A) where
  sees-Inv :
      (q : Queue A) (p : Producer A) (published received : List A)
      → is_drained q ≡ false
      → Inv default q p idle published received
      → Inv default q p ready published received
  unfolding is_drained
  sees-Inv q p published received h v = record {
    size = v.size;
    written = v.written;
    was_read = v.was_read;
    ordered = v.ordered;
    room = v.room;
    kept = v.kept;
    same_order = v.same_order;
    producing = v.producing;
    consuming =
        let apart : length received ≢ length published =
          λ e. ground (arith, h, v.was_read ∙ ap (λ (n : ℕ). n % 2 ^ 64) e ∙ sym v.written) in
        ground (arith, v.ordered, apart);
  }

  takes-Inv :
      (q : Queue A) (p : Producer A) (published received : List A)
      → Inv default q p ready published received
      → Inv default q p (taken (slot default q)) published received
  unfolding slot
  takes-Inv q p published received v = record {
    size = v.size;
    written = v.written;
    was_read = v.was_read;
    ordered = v.ordered;
    room = v.room;
    kept = v.kept;
    same_order = v.same_order;
    producing = v.producing;
    consuming = (
      v.consuming,
      ap (λ (n : ℕ). get_or q.slots n default) (omega (arith, v.was_read))
          ∙ v.kept (length received) (omega arith) v.consuming,
    );
  }

  releases-Inv :
      (q : Queue A) (p : Producer A) (published received : List A) (event : A)
      → Inv default q p (taken event) published received
      → Inv default (release q) p idle published (received ++ (event ∷ []))
  unfolding release
  releases-Inv q p published received event v =
      let r = length received in
      let longer : length (received ++ (event ∷ [])) ≡ r + 1 =
        length-append received (event ∷ []) in
      let at = get_or-append received event default in
      record {
        size = v.size;
        written = v.written;
        was_read = omega (arith, v.was_read, longer);
        ordered = omega (arith, v.consuming.0, longer);
        room = omega (arith, v.room, longer);
        kept = λ i h k. v.kept i (omega (arith, h, longer)) k;
        same_order = λ i h. ground (
          arith,
          at i,
          v.same_order i,
          h,
          longer,
          v.consuming.1,
          λ (e : i ≡ r). ap (λ (n : ℕ). get_or published n default) e,
        );
        producing = frees p v.producing;
        consuming = tt;
      }
    where
      frees :
          (p : Producer A)
          → Producing default q (length published) (length received) p
          → Producing default (release q) (length published) (length (received ++ (event ∷ []))) p
      frees resting h = tt
      frees (checked x) h = omega (arith, h, length-append received (event ∷ []))
      frees (filled x) h = (omega (arith, h.0, length-append received (event ∷ [])), h.1)

  start-Inv : Inv default (new default) resting idle [] []
  unfolding new
  start-Inv = record {
    size = length-replicate 16384 default;
    written = refl;
    was_read = refl;
    ordered = omega arith;
    room = omega arith;
    kept = λ i h k. ground (arith, h, k);
    same_order = λ i h. ground (arith, h);
    producing = tt;
    consuming = tt;
  }

  Run-Inv :
      {q : Queue A} {p : Producer A} {c : Consumer A} {published received : List A}
      → Run default q p c published received
      → Inv default q p c published received
  Run-Inv start = start-Inv
  Run-Inv (checks {q = q} {c} {published} {received} event h r) =
      checks-Inv default q c published received event h (Run-Inv r)
  Run-Inv (fills {q = q} {c} {published} {received} {event} r) =
      fills-Inv default q c published received event (Run-Inv r)
  Run-Inv (publishes {q = q} {c} {published} {received} {event} r) =
      publishes-Inv default q c published received event (Run-Inv r)
  Run-Inv (sees {q = q} {p} {published} {received} h r) =
      sees-Inv q p published received h (Run-Inv r)
  Run-Inv (takes {q = q} {p} {published} {received} r) =
      takes-Inv q p published received (Run-Inv r)
  Run-Inv (releases {q = q} {p} {published} {received} {event} r) =
      releases-Inv q p published received event (Run-Inv r)

  take_prefix :
      (xs ys : List A)
      → length xs ≤ length ys
      → ((i : ℕ) → i < length xs → get_or xs i default ≡ get_or ys i default)
      → xs ≡ take (length xs) ys
  take_prefix [] ys h same = refl
  take_prefix (x ∷ xs) [] h same = ground (arith, h)
  take_prefix (x ∷ xs) (y ∷ ys) h same =
      ap (λ (a : A). a ∷ xs) (same 0 (omega arith))
      ∙ ap (λ (rest : List A). y ∷ rest)
          (take_prefix xs ys (omega (arith, h)) (λ i k. same (suc i) (omega (arith, k))))

  -- In any interleaving of the steps of the one producer and the one consumer, the events received
  -- are the first of those that were published, each once and in their order, and at most as many as
  -- the queue has slots are still to be received.
  pub received-Prefix :
      (q : Queue A) (p : Producer A) (c : Consumer A) (published received : List A)
      → Run default q p c published received
      → (received ≡ take (length received) published) × (length published ≤ length received + 16384)
  received-Prefix q p c published received run =
      let v = Run-Inv run in (take_prefix received published v.ordered v.same_order, v.room)
