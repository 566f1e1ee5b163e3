-- ===== src/Keyboard/Moves/Tallied.antt =====
-- Acquiring, releasing and sliding keep the hold counts and the emitted key changes in step.
use mathlib.Core.Path.{subst}
use holodori_phone_trackpad.Prelude.{
  ℕ, zero, suc, ◌+◌, ◌-◌, ◌≤◌, ◌<◌, ◌≡◌, ◌∙◌, arith, Bool, true, false, ◌==◌, ltb, if◌then◌else◌,
  min, [], ◌∷◌, get_or, set, length, length-set, get_or-set, Bool-cases, ==_iff, inl, inr,
}
use holodori_phone_trackpad.Keyboard.Moves.Counts.{one, one-le}
use holodori_phone_trackpad.Keyboard.{Draft, holds, acquire_lane, release_lane, slide, distance}
use holodori_phone_trackpad.Keyboard.Moves.{settle, settle-append, held}

-- `lanes` lanes, whose keys were down as `base` says before the changes of the draft.
module _ (lanes : ℕ) (base : ℕ → Bool) where
  -- The holds are as `tally` says, and the changes lead to a key that is down exactly on held lanes.
  pub record Tallied (d : Draft) (tally : ℕ → ℕ) : Type 0 where
    pub holds_size : length (d.0).lane_holds ≡ lanes
    pub counted : (lane : ℕ) → lane < lanes → holds d.0 lane ≡ tally lane
    pub keys : (lane : ℕ) → settle (base lane) lane d.1 ≡ held d.0 lane

  pub acquire_lane-Tallied :
      (d : Draft) (t : ℕ → ℕ) (lane : ℕ) (touch : Bool)
      → lane < lanes
      → t lane < 65535
      → Tallied d t
      → Tallied (acquire_lane lane touch d) (λ l. t l + one lane l)
  unfolding acquire_lane settle one
  acquire_lane-Tallied (state, changes) t lane touch h b g =
      let at : (l : ℕ)
          → get_or (set state.lane_holds lane (min (holds state lane + 1) 65535)) l 0
            ≡ (if lane == l then min (holds state lane + 1) 65535 else holds state l) =
        λ l.
          get_or-set state.lane_holds lane l (min (holds state lane + 1) 65535) 0
            (omega (arith, g.holds_size)) in
      record {
        holds_size = length-set state.lane_holds lane _ ∙ g.holds_size;
        counted = λ l hl. ground (arith, at l, g.counted l hl, g.counted lane h);
        keys = λ l. ground (
          arith,
          at l,
          g.keys l,
          settle-append (base l) l changes
              (record { lane = lane; down = true; touch = touch } ∷ []),
        );
      }

  pub release_lane-Tallied :
      (d : Draft) (t u : ℕ → ℕ) (lane : ℕ)
      → lane < lanes
      → ((l : ℕ) → t l ≡ u l + one lane l)
      → Tallied d t
      → Tallied (release_lane lane d) u
  unfolding release_lane settle one
  release_lane-Tallied (state, changes) t u lane h e g =
      let at : (l : ℕ)
          → get_or (set state.lane_holds lane (holds state lane - 1)) l 0
            ≡ (if lane == l then holds state lane - 1 else holds state l) =
        λ l.
          get_or-set state.lane_holds lane l (holds state lane - 1) 0
            (omega (arith, g.holds_size)) in
      let positive : 0 < holds state lane = ground (arith, g.counted lane h, e lane) in
      record {
        holds_size =
            ground (arith, length-set state.lane_holds lane (holds state lane - 1), g.holds_size);
        counted = λ l hl. ground (arith, at l, g.counted l hl, g.counted lane h, e l, e lane);
        keys = λ l. ground (
          arith,
          at l,
          g.keys l,
          settle-append (base l) l changes
              (record { lane = lane; down = false; touch = false } ∷ []),
        );
      }

  -- One round of a slide: the next lane is acquired before the current one is released.
  round :
      (current next : ℕ) (d : Draft) (u : ℕ → ℕ)
      → current < lanes
      → next < lanes
      → ((l : ℕ) → u l ≤ 256)
      → Tallied d (λ l. u l + one current l)
      → Tallied (release_lane current (acquire_lane next false d)) (λ l. u l + one next l)
  round current next d u hc hn b g =
      release_lane-Tallied (acquire_lane next false d) (λ l. (u l + one current l) + one next l)
        (λ l. u l + one next l) current hc (λ l. omega arith)
        (acquire_lane-Tallied d (λ l. u l + one current l) next false hn
          (omega (arith, b next, one-le current next)) g)

  -- A slide hands the pointer's hold on, lane by lane, and ends at its destination.
  pub slide-Tallied :
      (rounds current destination : ℕ) (d : Draft) (u : ℕ → ℕ)
      → distance current destination ≤ rounds
      → current < lanes
      → destination < lanes
      → ((l : ℕ) → u l ≤ 256)
      → Tallied d (λ l. u l + one current l)
      → Tallied (slide rounds current destination d) (λ l. u l + one destination l)
  unfolding slide
  slide-Tallied zero current destination d u near hc hd b g =
      let same : current ≡ destination = omega arith in
      subst (λ (k : ℕ). Tallied d (λ l. u l + one k l)) same g
  slide-Tallied (suc rounds) current destination d u near hc hd b g =
      elim (Bool-cases (current == destination)) [
        | inl same ↦ rw same (
            subst (λ (k : ℕ). Tallied d (λ l. u l + one k l)) ((==_iff current destination).0 same)
              g)
        | inr apart ↦
            let next : ℕ = if ltb current destination then current + 1 else current - 1 in
            let inside : next < lanes = ground arith in
            let closer : distance next destination ≤ rounds = ground arith in
            rw apart (
              slide-Tallied rounds next destination
                (release_lane current (acquire_lane next false d)) u closer inside hd b
                (round current next d u hc inside b g))
      ]
