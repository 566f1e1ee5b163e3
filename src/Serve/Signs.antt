-- ===== src/Serve/Signs.antt =====
-- What moves the times of the last committed frame and of the last sign of the phone.
use holodori_phone_trackpad.Prelude.{
  ℕ, ◌≡◌, refl, sym, ap, subst, ◌∙◌, arith, true, false, not, ◌==◌, ◌||◌, Option, some, none,
  Result, ok, Result-cases, Bool-cases, inl, inr, ◌⊎◌, ==_iff,
}
use holodori_phone_trackpad.Prelude.Actions.{Action, ◌>>=◌}
use holodori_phone_trackpad.Wire.{slice}
use holodori_phone_trackpad.Protocol.{Float32, TouchFrame}
use holodori_phone_trackpad.Ordered.{push, next_ready}
use holodori_phone_trackpad.V5.Touch.{decode_touch_payload}
use holodori_phone_trackpad.Connection.{Arrived}
use holodori_phone_trackpad.Input.{InputSink, is_session}
use holodori_phone_trackpad.Input.Fed.{Tried}
use holodori_phone_trackpad.Gameplay.{GameplayState}
use holodori_phone_trackpad.Serve.{
  HostLink, Serving, Round, session_of, newer, linked, ping, establish, set_timeout, process, touch,
  take_record,
}
use holodori_phone_trackpad.Gameplay.Moments.{Fields, process_gameplay_frame-times}

-- The next step of a call that returned.
pub step :
    {W E A B : Type 0} (m : Action W E A) (f : A → Action W E B) (w : W) (b : B)
    → ((m >>= f) w).1 ≡ ok b
    → (a : A) × ((m w).1 ≡ ok a) × ((f a (m w).0).1 ≡ ok b) × (((m >>= f) w).0 ≡ (f a (m w).0).0)
unfolding ◌>>=◌
step m f w b h = elim (Result-cases (m w).1) [
  | inl (a, fine) ↦ (a, fine, rw (◌>>=◌, fine) at h, rw (◌>>=◌, fine) refl)
  | inr (e, failed) ↦ absurd (ground (arith, h, failed))
]

pub some-injective : {A : Type 0} {a b : A} → some a ≡ some b → a ≡ b
some-injective e = cc

current_session : (o : Option ℕ) (session : ℕ) → is_session o session ≡ true → o ≡ some session
current_session none session h = absurd (cc)
current_session (some id) session h = ap some ((==_iff id session).0 h)

same_number :
    (last : Option ℕ) (a b : Arrived)
    → some a ≡ some b
    → newer last a.header.logical_id ≡ false
    → newer last b.header.logical_id ≡ false
same_number last a b e old =
    subst (λ (x : Arrived). newer last x.header.logical_id ≡ false) (some-injective e) old

pub other_type :
    (a b : Arrived) → some a ≡ some b → a.header.message_type ≡ 1 → b.header.message_type ≡ 7 → ⊥
other_type a b e one seven =
    ground (arith, one, seven, ap (λ (x : Arrived). x.header.message_type) (some-injective e))

module _ {F K C E : Type 0} (float : Float32 F) (sink : InputSink F K) (link : HostLink C E) where
  -- The record that arrived in the round is a touch frame, and the sink took the frame that was
  -- ready once it had come into the window.
  abbrev pub Commits : Round → Serving F K C → Arrived → Type 0
  Commits r s a =
      (a.header.message_type ≡ 1)
      × (frame : TouchFrame F) × (decode_touch_payload float a.header
            (slice a.bytes 48 a.header.payload_length)
          ≡ ok frame)
      × (first : TouchFrame F) × (next_ready (push s.game.live.ordered frame) ≡ some first)
      × (k : K) × Tried sink first (r.patience 0).failures s.game.live.keyboard none k

  -- It is a well-formed ping of the session.
  abbrev pub IsPing : Serving F K C → Arrived → Type 0
  IsPing s a =
      (a.header.message_type ≡ 7)
      × (a.header.flags ≡ 0)
      × (a.header.payload_length ≡ 0)
      × (session_of s ≡ some a.header.session_id)

  -- The record is no ping that is newer than the last one.
  abbrev pub NoPing : Option Arrived → Serving F K C → Type 0
  NoPing arrived s =
      (a : Arrived)
      → arrived ≡ some a
      → IsPing s a
      → newer s.game.control.last_ping a.header.logical_id ≡ false

  -- What a record does to the times.
  abbrev pub Signs : Round → Option Arrived → Serving F K C → GameplayState → Type 0
  Signs r arrived s c =
      (Fields s.game.control c × NoPing arrived s)
      ⊎ ((a : Arrived) × (arrived ≡ some a)
          × ((Commits r s a
                × (c.last_committed_frame ≡ r.times.committed)
                × (c.last_idle_activity ≡ r.times.committed)
                × (c.last_ping ≡ s.game.control.last_ping))
              ⊎ (IsPing s a
                  × (newer s.game.control.last_ping a.header.logical_id ≡ true)
                  × (c.last_committed_frame ≡ s.game.control.last_committed_frame)
                  × (c.last_idle_activity ≡ a.arrival)
                  × (c.last_ping ≡ some a.header.logical_id))))

  pub linked-control :
      (call : C → C × Result E (Unit {0})) (s : Serving F K C)
      → (linked float sink link call s).0.game.control ≡ s.game.control
  unfolding linked
  linked-control call s = ground arith

  establish-control :
      (s : Serving F K C) → (establish float sink link s).0.game.control ≡ s.game.control
  unfolding establish set_timeout linked
  establish-control s = ground arith

  ping-Signs :
      (r : Round) (a : Arrived) (s : Serving F K C)
      → a.header.message_type ≡ 7
      → (ping float sink link a s).1 ≡ ok tt
      → Signs r (some a) s (ping float sink link a s).0.game.control
  unfolding ping
  ping-Signs r a s type_ h =
      elim (Bool-cases (
        not (a.header.flags == 0)
        || (not (a.header.payload_length == 0)
            || not (is_session (session_of s) a.header.session_id)))) [
              | inl wrong ↦ absurd (ground (arith, h, wrong))
              | inr right ↦
                  let well : IsPing s a = (
                    type_,
                    ground (arith, right),
                    ground (arith, right),
                    current_session (session_of s) a.header.session_id (ground (arith, right)),
                  ) in
                  let last = s.game.control.last_ping in
                  elim (Bool-cases (newer last a.header.logical_id)) [
                    | inl fresh ↦
                        let c =
                          linked-control
                            (link.send_pong a.header.session_id a.header.logical_id
                              s.game.control.lane_count)
                            (record s {
                              game = record (s.game) {
                                control = record (s.game.control) {
                                  last_ping = some a.header.logical_id;
                                  last_idle_activity = a.arrival;
                                };
                              };
                            }) in
                        rw (ping, right, fresh)
                          (inr (
                            a,
                            refl,
                            inr (
                              well,
                              fresh,
                              ap (λ (g : GameplayState). g.last_committed_frame) c,
                              ap (λ (g : GameplayState). g.last_idle_activity) c,
                              ap (λ (g : GameplayState). g.last_ping) c,
                            ),
                          ))
                    | inr old ↦
                        let c =
                          linked-control
                            (link.send_pong a.header.session_id a.header.logical_id
                              s.game.control.lane_count)
                            s in
                        rw (ping, right, old)
                          (inl (
                            (
                              ap (λ (g : GameplayState). g.last_committed_frame) c,
                              ap (λ (g : GameplayState). g.last_idle_activity) c,
                              ap (λ (g : GameplayState). g.last_ping) c,
                            ),
                            λ b e well. same_number last a b e old,
                          ))
                  ]
            ]

  touch-Signs :
      (r : Round) (a : Arrived) (s : Serving F K C)
      → a.header.message_type ≡ 1
      → (touch float sink link r a s).1 ≡ ok tt
      → Signs r (some a) s (touch float sink link r a s).0.game.control
  unfolding touch process
  touch-Signs r a s type_ h =
      elim (Result-cases
        (decode_touch_payload float a.header (slice a.bytes 48 a.header.payload_length))) [
          | inr (e, failed) ↦ absurd (ground (arith, h, failed))
          | inl (frame, decoded) ↦
              let onward =
                step (process float sink link r a frame) (λ _. establish float sink link) s tt
                  (rw (touch, decoded) at h) in
              let s' = (process float sink link r a frame s).0 in
              let c = ap (λ (x : Serving F K C). x.game.control) onward.3 ∙ establish-control s' in
              let times : Signs r (some a) s s'.game.control =
                elim (process_gameplay_frame-times sink link.control r.patience s.game
                  (record (r.times) { arrival = a.arrival }) frame) [
                    | inl same ↦ inl (same, λ b e well. absurd (other_type a b e type_ well.0))
                    | inr ((first, ready, k, tried), moved, heard, kept) ↦ inr (
                      a,
                      refl,
                      inl ((type_, frame, decoded, first, ready, k, tried), moved, heard, kept),
                    )
                  ] in
              rw (touch, decoded)
                (subst (λ (x : GameplayState). Signs r (some a) s x) (sym c) times)
        ]

  pub take_record-Signs :
      (r : Round) (arrived : Option Arrived) (s : Serving F K C)
      → (take_record float sink link r arrived s).1 ≡ ok tt
      → Signs r arrived s (take_record float sink link r arrived s).0.game.control
  unfolding take_record
  take_record-Signs r none s h = inl ((refl, refl, refl), λ a e well. absurd (cc))
  take_record-Signs r (some a) s h = elim (Bool-cases (a.header.message_type == 6)) [
    | inl abort ↦ absurd (ground (arith, h, abort))
    | inr on ↦ elim (Bool-cases (a.header.message_type == 7)) [
      | inl asked ↦
          rw (take_record, on, asked)
            (ping-Signs r a s ((==_iff a.header.message_type 7).0 asked)
              (rw (take_record, on, asked) at h))
      | inr other ↦ elim (Bool-cases (a.header.message_type == 1)) [
        | inr unknown ↦ absurd (ground (arith, h, on, other, unknown))
        | inl touched ↦
            rw (take_record, on, other, touched)
              (touch-Signs r a s ((==_iff a.header.message_type 1).0 touched)
                (rw (take_record, on, other, touched) at h))
      ]
    ]
  ]
