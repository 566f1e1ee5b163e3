-- ===== src/Serve/Watched.antt =====
-- What a round of the loop rests on, if it goes on.
use holodori_phone_trackpad.Prelude.{
  ℕ, ◌-◌, ◌<◌, ◌≤◌, ◌≡◌, sym, subst, ap, ◌∙◌, Option, some, Result, arith, Bool, true, false,
  if◌then◌else◌, none, List, [], ◌∷◌, ok, Bool-cases, inl, inr, ◌⊎◌,
}
use holodori_phone_trackpad.Prelude.Actions.{Action, ◌>>=◌, pure}
use holodori_phone_trackpad.Protocol.{Float32}
use holodori_phone_trackpad.Input.{InputSink}
use holodori_phone_trackpad.Gameplay.{GameplayState}
use holodori_phone_trackpad.Connection.{Arrived}
use holodori_phone_trackpad.Gameplay.Moments.{Fields}
use holodori_phone_trackpad.Serve.Signs.{
  step, Commits, IsPing, Signs, some-injective, other_type, take_record-Signs,
}
use holodori_phone_trackpad.Serve.{
  HostLink, Serving, Round, session_of, round, rounds, newer, arriving, take_record,
}
use holodori_phone_trackpad.Serve.Tested.{arriving-Tested, arriving-control}

ok-injective : {E A : Type 0} {a b : A} → ◌≡◌ {A = Result E A} (ok a) (ok b) → a ≡ b
ok-injective e = cc

going :
    {W E : Type 0} (b : Bool) (m : Action W E Bool) (w : W) (done : Bool)
    → b ≡ false
    → ((if b then pure true else m) w).1 ≡ ok done
    → (m w).1 ≡ ok done
going true m w done e h = absurd (cc)
going false m w done e h = h

module _ {F K C E : Type 0} (float : Float32 F) (sink : InputSink F K) (link : HostLink C E) where
  -- A record that arrives in the round, in the state in which it is taken.
  abbrev pub Arrives : Round → Serving F K C → Arrived → Type 0
  Arrives r s a = (arriving float sink link r s).1 ≡ ok (some a)

  abbrev pub at_arrival : Round → Serving F K C → Serving F K C
  at_arrival r s = (arriving float sink link r s).0

  -- It is a well-formed ping of the session, with a higher number than all before it.
  abbrev pub Pings : (ℕ → Type 0) → Serving F K C → Arrived → Type 0
  Pings P s a = IsPing float sink link s a × ((p : ℕ) → P p → p < a.header.logical_id)

  -- The times at which frames were committed, those and the times at which pings came, and the
  -- numbers of the pings, with those of the round.
  abbrev pub CommitsAfter : (ℕ → Type 0) → Round → Serving F K C → ℕ → Type 0
  CommitsAfter T r s t =
      T t
      ⊎ ((a : Arrived) × Arrives r s a
          × Commits float sink link r (at_arrival r s) a
          × (t ≡ r.times.committed))

  abbrev pub SignsAfter : (ℕ → Type 0) → (ℕ → Type 0) → Round → Serving F K C → ℕ → Type 0
  SignsAfter I P r s t =
      I t
      ⊎ ((a : Arrived) × Arrives r s a
          × ((Commits float sink link r (at_arrival r s) a × (t ≡ r.times.committed))
              ⊎ (Pings P (at_arrival r s) a × (t ≡ a.arrival))))

  abbrev pub PingsAfter : (ℕ → Type 0) → Round → Serving F K C → ℕ → Type 0
  PingsAfter P r s p =
      P p ⊎ ((a : Arrived) × Arrives r s a × Pings P (at_arrival r s) a × (p ≡ a.header.logical_id))

  -- What a round that goes on has found: the interface is as it was; the session has begun or there
  -- is time left for it; if keys are held, or pointers down, then a frame was committed less than
  -- 32 ms ago; and if a session was established and nothing is held, then there was a sign of the
  -- phone less than 2 s ago.
  pub record Watched (T I : ℕ → Type 0) (r : Round) (s : Serving F K C) : Type 0 where
    pub interface : (link.changed s.game.link).1 ≡ false
    pub start : session_of s ≡ none → r.start_checked < s.session_start_deadline
    pub active :
        sink.has_active_input s.game.live.keyboard ≡ true
        → (t : ℕ) × T t × (r.active_checked - t < 32000000)
    pub idle :
        s.session_established ≡ true
        → sink.has_active_input s.game.live.keyboard ≡ false
        → (t : ℕ) × I t × (r.idle_checked - t < 2000000000)

  -- All rounds that are made, up to the one that sees the flag `stopping`. Frames were committed at
  -- the times `T` before, there were signs of the phone at the times `I`, and pings with the
  -- numbers `P`.
  abbrev pub AllWatched :
      (ℕ → Type 0) → (ℕ → Type 0) → (ℕ → Type 0) → List Round → Serving F K C → Type 0
  AllWatched T I P [] s = Unit {0}
  AllWatched T I P (r ∷ rs) s =
      (r.stopping ≡ true)
      ⊎ (Watched T I r s
          × AllWatched (CommitsAfter T r s) (SignsAfter I P r s) (PingsAfter P r s) rs
              (round float sink link r s).0)

  -- The variables hold such a time and such a number.
  record Tracks (T I P : ℕ → Type 0) (c : GameplayState) : Type 0 where
    frame : T c.last_committed_frame
    sign : I c.last_idle_activity
    pings : (p : ℕ) → P p → (last : ℕ) × (c.last_ping ≡ some last) × (p ≤ last)

  Fields-Tracks :
      (T I P : ℕ → Type 0) (c c' : GameplayState) → Fields c c' → Tracks T I P c → Tracks T I P c'
  Fields-Tracks T I P c c' (f, i, p) v = record {
    frame = subst T (sym f) v.frame;
    sign = subst I (sym i) v.sign;
    pings = λ n h. let (last, e, le) = v.pings n h in (last, p ∙ e, le);
  }

  above :
      (P : ℕ → Type 0) (last : Option ℕ) (n : ℕ)
      → ((p : ℕ) → P p → (q : ℕ) × (last ≡ some q) × (p ≤ q))
      → newer last n ≡ true
      → (p : ℕ) → P p
      → p < n
  above P none n v h p given = absurd (cc ((v p given).1))
  above P (some last) n v h p given = let (q, e, le) = v p given in ground (arith, e, le, h)

  below_last :
      (last last' : Option ℕ) (p n : ℕ)
      → last' ≡ last
      → p ≡ n
      → newer last n ≡ false
      → (q : ℕ) × (last' ≡ some q) × (p ≤ q)
  below_last none last' p n e number old = absurd (cc)
  below_last (some q) last' p n e number old = (q, e, ground (arith, number, old))

  round-Tracks :
      (T I P : ℕ → Type 0) (r : Round) (s : Serving F K C) (arrived : Option Arrived)
      → Tracks T I P s.game.control
      → (arriving float sink link r s).1 ≡ ok arrived
      → (c : GameplayState) → Signs float sink link r arrived (at_arrival r s) c
      → Tracks (CommitsAfter T r s) (SignsAfter I P r s) (PingsAfter P r s) c
  round-Tracks T I P r s arrived v0 came c signs =
      let v : Tracks T I P (at_arrival r s).game.control =
        subst (Tracks T I P) (sym (arriving-control float sink link r s)) v0 in
      elim signs [
        | inl (same, no_ping) ↦
            let w = Fields-Tracks T I P (at_arrival r s).game.control c same v in
            record {
              frame = inl w.frame;
              sign = inl w.sign;
              pings = λ p h. elim h [
                | inl before ↦ w.pings p before
                | inr (a, arrives, ping, number) ↦
                    below_last (at_arrival r s).game.control.last_ping c.last_ping p
                      a.header.logical_id same.2 number
                      (no_ping a (ok-injective (sym came ∙ arrives)) ping.0)
              ];
            }
        | inr (a, here, inl (commits, moved, heard, kept)) ↦
            let arrives = came ∙ ap ok here in
            record {
              frame = inr (a, arrives, commits, moved);
              sign = inr (a, arrives, inl (commits, heard));
              pings = λ p h. elim h [
                | inl before ↦ let (last, e, le) = v.pings p before in (last, kept ∙ e, le)
                | inr (b, arrives', ping, number) ↦
                    absurd
                      (other_type a b (ok-injective (sym arrives ∙ arrives')) commits.0 ping.0.0)
              ];
            }
        | inr (a, here, inr (well, fresh, moved, heard, numbered)) ↦
            let arrives = came ∙ ap ok here in
            let higher =
              above P (at_arrival r s).game.control.last_ping a.header.logical_id v.pings fresh in
            record {
              frame = inl (subst T (sym moved) v.frame);
              sign = inr (a, arrives, inr ((well, higher), heard));
              pings = λ p h. elim h [
                | inl before ↦ (a.header.logical_id, numbered, omega (arith, higher p before))
                | inr (b, arrives', ping, number) ↦
                    let e =
                      ap (λ (x : Arrived). x.header.logical_id)
                        (some-injective (ok-injective (sym arrives ∙ arrives'))) in
                    (a.header.logical_id, numbered, omega (arith, e, number))
              ];
            }
      ]

  round-Watched :
      (T I P : ℕ → Type 0) (r : Round) (s : Serving F K C)
      → Tracks T I P s.game.control
      → (round float sink link r s).1 ≡ ok tt
      → Watched T I r s
        × Tracks
            (CommitsAfter T r s)
            (SignsAfter I P r s)
            (PingsAfter P r s)
            (round float sink link r s).0.game.control
  unfolding round
  round-Watched T I P r s v h =
      let (arrived, came, went, after) =
        step (arriving float sink link r) (λ arrived. take_record float sink link r arrived) s tt
          h in
      let tested = arriving-Tested float sink link r s arrived came in
      (
        record {
          interface = tested.interface;
          start = tested.start;
          active = λ busy. (s.game.control.last_committed_frame, v.frame, tested.active busy);
          idle =
              λ open' quiet. (s.game.control.last_idle_activity, v.sign, tested.idle open' quiet);
        },
        round-Tracks T I P r s arrived v came _ (
            subst
              (λ (x : Serving F K C).
                Signs float sink link r arrived (at_arrival r s) x.game.control)
              (sym after) (take_record-Signs float sink link r arrived (at_arrival r s) went)),
      )

  rounds-Tracks :
      (rs : List Round) (T I P : ℕ → Type 0) (s : Serving F K C) (done : Bool)
      → Tracks T I P s.game.control
      → (rounds float sink link rs s).1 ≡ ok done
      → AllWatched T I P rs s
  unfolding rounds
  rounds-Tracks [] T I P s done v h = tt
  rounds-Tracks (r ∷ rs) T I P s done v h = elim (Bool-cases r.stopping) [
    | inl stop ↦ inl stop
    | inr on ↦
        let next =
          step (round float sink link r) (λ _. rounds float sink link rs) s done
            (going r.stopping (round float sink link r >>= λ _. rounds float sink link rs) s done on
              h) in
        let (found, kept) = round-Watched T I P r s v next.1 in
        inr (found, rounds-Tracks rs _ _ _ (round float sink link r s).0 done kept next.2)
  ]

  -- As long as the loop goes on without an error, every round was made with the selected interface
  -- unchanged; before the deadline for its start if no session has begun; if any input is active,
  -- less than 32 ms after a frame was committed, which means that the sink took it, or after the
  -- loop began; and if a session is established and no input is active, less than 2 s after a frame
  -- was committed, or a ping of the session arrived that is newer than all before it, or the loop
  -- began.
  pub rounds-Watched :
      (T I P : ℕ → Type 0) (rs : List Round) (s : Serving F K C) (done : Bool)
      → T s.game.control.last_committed_frame
      → I s.game.control.last_idle_activity
      → ((p : ℕ) → P p → s.game.control.last_ping ≡ some p)
      → (rounds float sink link rs s).1 ≡ ok done
      → AllWatched T I P rs s
  rounds-Watched T I P rs s done t i p h =
      rounds-Tracks rs T I P s done
        (record { frame = t; sign = i; pings = λ n given. (n, p n given, omega arith) }) h
