-- ===== src/Metrics/Invariant.antt =====
-- What the steps of the producer keep of the queue between two threads.
use holodori_phone_trackpad.Prelude.{
  ℕ, zero, suc, ◌+◌, ◌%◌, ◌^◌, ◌≤◌, ◌<◌, ◌≡◌, refl, ap, ◌∙◌, arith, false, ◌==◌, ltb, if◌then◌else◌,
  List, [], ◌∷◌, ◌++◌, length, length-append, length-set, get_or, get_or-set_self, get_or-set_ne,
  set,
}
use holodori_phone_trackpad.Metrics.{Queue, is_full, fill_slot, publish}
use holodori_phone_trackpad.Metrics.Interleaving.{
  Producer, Consumer, resting, checked, filled, idle, ready, taken,
}

pub get_or-append :
    {A : Type 0} (xs : List A) (x d : A) (i : ℕ)
    → get_or (xs ++ (x ∷ [])) i d
      ≡ (if ltb i (length xs) then get_or xs i d else if i == length xs then x else d)
get_or-append [] x d zero = refl
get_or-append [] x d (suc i) = ground arith
get_or-append (y ∷ xs) x d zero = ground arith
get_or-append (y ∷ xs) x d (suc i) = ground (arith, get_or-append xs x d i)

module _ {A : Type 0} (default : A) where
  -- What a producer in the middle of `push` relies on.
  abbrev pub Producing : Queue A → ℕ → ℕ → Producer A → Type 0
  Producing q w r resting = Unit
  Producing q w r (checked event) = w < r + 16384
  Producing q w r (filled event) = (w < r + 16384) × (get_or q.slots (w % 16384) default ≡ event)

  abbrev pub Consuming : ℕ → List A → ℕ → Consumer A → Type 0
  Consuming w published r idle = Unit
  Consuming w published r ready = r < w
  Consuming w published r (taken event) = (r < w) × (event ≡ get_or published r default)

  pub record Inv (q : Queue A) (p : Producer A) (c : Consumer A) (published received : List A)
      : Type 0 where
    pub size : length q.slots ≡ 16384
    pub written : q.write ≡ length published % 2 ^ 64
    pub was_read : q.read ≡ length received % 2 ^ 64
    pub ordered : length received ≤ length published
    pub room : length published ≤ length received + 16384
    pub kept :
        (i : ℕ)
        → length received ≤ i
        → i < length published
        → get_or q.slots (i % 16384) default ≡ get_or published i default
    pub same_order :
        (i : ℕ) → i < length received → get_or received i default ≡ get_or published i default
    pub producing : Producing q (length published) (length received) p
    pub consuming : Consuming (length published) published (length received) c

  pub checks-Inv :
      (q : Queue A) (c : Consumer A) (published received : List A) (event : A)
      → is_full q ≡ false
      → Inv q resting c published received
      → Inv q (checked event) c published received
  unfolding is_full
  checks-Inv q c published received event h v = record {
    size = v.size;
    written = v.written;
    was_read = v.was_read;
    ordered = v.ordered;
    room = v.room;
    kept = v.kept;
    same_order = v.same_order;
    producing = ground (arith, h, v.written, v.was_read, v.ordered, v.room);
    consuming = v.consuming;
  }

  pub fills-Inv :
      (q : Queue A) (c : Consumer A) (published received : List A) (event : A)
      → Inv q (checked event) c published received
      → Inv (fill_slot q event) (filled event) c published received
  unfolding fill_slot
  fills-Inv q c published received event v =
      let w = length published in
      let at : q.write % 16384 ≡ w % 16384 = omega (arith, v.written) in
      record {
        size = length-set q.slots (q.write % 16384) event ∙ v.size;
        written = v.written;
        was_read = v.was_read;
        ordered = v.ordered;
        room = v.room;
        kept = λ i h k.
            get_or-set_ne q.slots (q.write % 16384) (i % 16384) event default
              (λ e. omega (arith, e, at, h, k, v.producing))
            ∙ v.kept i h k;
        same_order = v.same_order;
        producing = (
          v.producing,
          ap (λ (n : ℕ). get_or (set q.slots n event) (w % 16384) default) at
              ∙ get_or-set_self q.slots (w % 16384) event default (omega (arith, v.size)),
        );
        consuming = v.consuming;
      }

  pub publishes-Inv :
      (q : Queue A) (c : Consumer A) (published received : List A) (event : A)
      → Inv q (filled event) c published received
      → Inv (publish q) resting c (published ++ (event ∷ [])) received
  unfolding publish
  publishes-Inv q c published received event v =
      let w = length published in
      let r = length received in
      let longer : length (published ++ (event ∷ [])) ≡ w + 1 =
        length-append published (event ∷ []) in
      let at = get_or-append published event default in
      record {
        size = v.size;
        written = omega (arith, v.written, longer);
        was_read = v.was_read;
        ordered = omega (arith, v.ordered, longer);
        room = omega (arith, v.producing.0, longer);
        kept = λ i h k. ground (
          arith,
          at i,
          longer,
          h,
          k,
          v.kept i h,
          v.producing.1,
          λ (e : i ≡ w). ap (λ (n : ℕ). get_or q.slots (n % 16384) default) e,
        );
        same_order = λ i h. ground (arith, at i, v.same_order i h, v.ordered, h);
        producing = tt;
        consuming = grows c v.consuming;
      }
    where
      grows :
          (c : Consumer A)
          → Consuming (length published) published (length received) c
          → Consuming
              (length (published ++ (event ∷ [])))
              (published ++ (event ∷ []))
              (length received)
              c
      grows idle h = tt
      grows ready h = omega (arith, h, length-append published (event ∷ []))
      grows (taken x) h = (
        omega (arith, h.0, length-append published (event ∷ [])),
        ground (arith, h, get_or-append published event default (length received)),
      )
