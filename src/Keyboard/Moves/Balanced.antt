-- ===== src/Keyboard/Moves/Balanced.antt =====
-- A pointer that moves or is released keeps the holds equal to the owners of the lanes.
use holodori_phone_trackpad.Prelude.{
  ℕ, ◌+◌, ◌≤◌, ◌<◌, ◌≡◌, sym, ap, ◌∙◌, arith, Bool, true, Option, some, none, List, set, length,
  length-set, get_or-set, Option-cases, inl, inr,
}
use holodori_phone_trackpad.Keyboard.Moves.Counts.{
  one, owners, one_of, owners-set, owners_split, owners-le-length,
}
use holodori_phone_trackpad.Keyboard.{
  Draft, pointer_lane, acquire_lane, release_lane, slide, distance, set_pointer, move_pointer,
  release_pointer,
}
use holodori_phone_trackpad.Keyboard.Moves.{acquire-Untouched, release-Untouched, slide-Untouched}
use holodori_phone_trackpad.Keyboard.Moves.Tallied.{
  Tallied, acquire_lane-Tallied, release_lane-Tallied, slide-Tallied,
}

-- `lanes` lanes, whose keys were down as `base` says before the changes of the draft.
module _ (lanes : ℕ) (base : ℕ → Bool) where
  -- The holds count the pointers that own each lane, and the changes account for the keys.
  pub record Balanced (d : Draft) : Type 0 where
    pub pointers_size : length (d.0).pointer_lanes ≡ 256
    pub in_range : (p l : ℕ) → pointer_lane d.0 p ≡ some l → l < lanes
    pub tallied : Tallied lanes base d (owners (d.0).pointer_lanes)

  Tallied-ext :
      (d : Draft) (t u : ℕ → ℕ)
      → ((l : ℕ) → t l ≡ u l)
      → Tallied lanes base d t
      → Tallied lanes base d u
  Tallied-ext d t u e g = record {
    holds_size = g.holds_size;
    counted = λ l hl. g.counted l hl ∙ e l;
    keys = g.keys;
  }

  -- The holds without the pointer's own.
  others : (d : Draft) (p : ℕ) → ℕ → ℕ
  others d p = owners (set (d.0).pointer_lanes p none)

  others-Tallied :
      (d : Draft) (p : ℕ) (o : Option ℕ)
      → pointer_lane d.0 p ≡ o
      → Balanced d
      → Tallied lanes base d (λ l. others d p l + one_of o l)
  unfolding others
  others-Tallied d p o e v =
      Tallied-ext d (owners (d.0).pointer_lanes) _
        (λ l.
          owners_split (d.0).pointer_lanes p l
          ∙ ap (λ (k : Option ℕ). owners (set (d.0).pointer_lanes p none) l + one_of k l) e)
        v.tallied

  -- A draft whose holds count the other pointers of `d` and one on the lane `o`, if any, is balanced
  -- once the pointer is written there.
  place-Balanced :
      (d a : Draft) (p : ℕ) (o : Option ℕ)
      → p < 256
      → Balanced d
      → ((a.0).pointer_lanes ≡ set (d.0).pointer_lanes p o)
      → ((l : ℕ) → o ≡ some l → l < lanes)
      → Tallied lanes base a (λ l. others d p l + one_of o l)
      → Balanced a
  unfolding others
  place-Balanced d a p o hp v e ho g = record {
    pointers_size = rw e (length-set (d.0).pointer_lanes p o ∙ v.pointers_size);
    in_range = λ q l f. ground (
      arith,
      e,
      f,
      get_or-set (d.0).pointer_lanes p q o none (omega (arith, v.pointers_size)),
      v.in_range q l,
      ho l,
    );
    tallied =
        Tallied-ext a _ (owners (a.0).pointer_lanes)
          (λ l. sym (
            ap (λ (t : List (Option ℕ)). owners t l) e
            ∙ owners-set (d.0).pointer_lanes p l o (omega (arith, v.pointers_size))))
          g;
  }

  few_others : (d : Draft) (p l : ℕ) → Balanced d → others d p l ≤ 256
  unfolding others
  few_others d p l v = omega (
    arith,
    owners-le-length (set (d.0).pointer_lanes p none) l,
    length-set (d.0).pointer_lanes p none,
    v.pointers_size,
  )

  some_lane : (a l : ℕ) → some a ≡ some l → a < lanes → l < lanes
  some_lane a l e h = ground arith

  pub move_pointer-Balanced :
      (d : Draft) (p destination : ℕ)
      → p < 256
      → destination < lanes
      → Balanced d
      → Balanced (move_pointer p destination d)
  unfolding move_pointer
  move_pointer-Balanced d p destination hp hd v = elim (Option-cases (pointer_lane d.0 p)) [
    | inl idle ↦
        let a : Draft = acquire_lane destination true d in
        rw (idle, move_pointer)
          (place-Balanced d (set_pointer p (some destination) a) p (some destination) hp v
            (ap (λ (t : List (Option ℕ)). set t p (some destination))
              (acquire-Untouched destination true d).0)
            (λ l e. some_lane destination l e hd)
            (retag a (
              Tallied-ext a _ _ (λ l. omega arith)
                (acquire_lane-Tallied lanes base d (λ l. others d p l + 0) destination true hd
                  (omega (arith, few_others d p destination v)) (others-Tallied d p none idle v)))))
    | inr (current, owned) ↦
        let a : Draft = slide (distance current destination) current destination d in
        rw (owned, move_pointer)
          (place-Balanced d (set_pointer p (some destination) a) p (some destination) hp v
            (ap (λ (t : List (Option ℕ)). set t p (some destination))
              (slide-Untouched (distance current destination) current destination d).0)
            (λ l e. some_lane destination l e hd)
            (retag a (
              slide-Tallied lanes base (distance current destination) current destination d
                (others d p) (omega arith) (v.in_range p current owned) hd (λ l. few_others d p l v)
                (others-Tallied d p (some current) owned v))))
  ]
    where
      retag :
          (a : Draft)
          → Tallied lanes base a (λ l. others d p l + one destination l)
          → Tallied lanes base
              (set_pointer p (some destination) a)
              (λ l. others d p l + one destination l)
      retag a g = record { holds_size = g.holds_size; counted = g.counted; keys = g.keys }

  pub release_pointer-Balanced :
      (d : Draft) (p : ℕ) → p < 256 → Balanced d → Balanced (release_pointer p d)
  unfolding release_pointer
  release_pointer-Balanced d p hp v = elim (Option-cases (pointer_lane d.0 p)) [
    | inl idle ↦ rw (idle, release_pointer) v
    | inr (lane, owned) ↦
        let a : Draft = set_pointer p none d in
        rw (owned, release_pointer)
          (place-Balanced d (release_lane lane a) p none hp v (release-Untouched lane a).0
            (λ l e. cc)
            (release_lane-Tallied lanes base a (λ l. others d p l + one lane l)
              (λ l. others d p l + 0) lane (v.in_range p lane owned) (λ l. omega arith)
              (emptied (others-Tallied d p (some lane) owned v))))
  ]
    where
      emptied : {t : ℕ → ℕ} → Tallied lanes base d t → Tallied lanes base (set_pointer p none d) t
      emptied g = record { holds_size = g.holds_size; counted = g.counted; keys = g.keys }
