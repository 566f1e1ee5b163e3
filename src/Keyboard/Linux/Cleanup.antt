-- ===== src/Keyboard/Linux/Cleanup.antt =====
-- What a cancellation writes for a change that is half written.
use holodori_phone_trackpad.Prelude.{
  ℕ, ◌≤◌, ◌<◌, ◌≡◌, refl, sym, ap, ◌∙◌, arith, true, false, ◌==◌, ◌&&◌, ltb, if◌then◌else◌, Option,
  some, none, List, [], ◌∷◌, ◌++◌, length, take, get_or, Result, ok, Result-cases, Bool-cases,
  Option-cases, inl, inr, ◌⊎◌, ==_iff,
}
use mathlib.Core.List.{append_assoc, append-nil}
use holodori_phone_trackpad.Io.{IoError}
use holodori_phone_trackpad.Keyboard.Linux.{
  InputEvent, PendingWrite, change, cleanup_sync, KeySink, key_event, sync_event, write_events,
  cleanup, discard_pending_with,
}
use holodori_phone_trackpad.Keyboard.Linux.Device.{IsDevice, done, write_events_lem}

-- `EV_KEY` with the value 0, which lets the key go, and `SYN_REPORT`.
abbrev pub let_go : ℕ → InputEvent
let_go code = record { type_ = 1; code = code; value = 0 }

abbrev pub report : InputEvent
report = record { type_ = 0; code = 0; value = 0 }

-- The events that end what is half written: a key that was pressed is let go, and what was written
-- is reported.
abbrev pub ending : List ℕ → PendingWrite → List InputEvent
ending keycodes cleanup_sync = report ∷ []
ending keycodes (change c) =
    if c.down then let_go (get_or keycodes c.lane 0) ∷ report ∷ [] else report ∷ []

abbrev pub owed : List ℕ → Option PendingWrite → List InputEvent
owed keycodes none = []
owed keycodes (some pending) = ending keycodes pending

cleanup-ending : (kc : List ℕ) (pending : PendingWrite) → ending kc pending ≡ cleanup kc pending
unfolding cleanup
cleanup-ending kc cleanup_sync = refl
cleanup-ending kc (change c) = refl

-- A cancellation writes one event, the `SYN_REPORT`, or another one before it.
cleanup-cases :
    (kc : List ℕ) (pending : PendingWrite)
    → (cleanup kc pending ≡ sync_event ∷ [])
      ⊎ ((e : InputEvent) × (cleanup kc pending ≡ e ∷ sync_event ∷ []))
unfolding cleanup
cleanup-cases kc cleanup_sync = inl refl
cleanup-cases kc (change c) = elim (Bool-cases c.down) [
  | inl down ↦ rw (cleanup, down) (inr (key_event (get_or kc c.lane 0) false, refl))
  | inr up ↦ rw (cleanup, up) (inl refl)
]

take-length : (es : List InputEvent) → take (length es) es ≡ es
take-length [] = refl
take-length (e ∷ es) = ap (λ (xs : List InputEvent). e ∷ xs) (take-length es)

module _ {D : Type 0} (event_size : ℕ) (libc_write : D → List InputEvent → D × Result IoError ℕ)
    (log : D → List InputEvent) where
  -- What is written and what is owed are together what was owed before.
  abbrev pub Settles : KeySink D → KeySink D × Result IoError (Unit {0}) → Type 0
  Settles k r =
      (log r.0.device ++ owed r.0.keycodes r.0.pending ≡ log k.device ++ owed k.keycodes k.pending)
      × (r.1 ≡ ok tt → r.0.pending ≡ none)

  -- A cancellation writes, over as many calls as the device needs, what is owed for the change that
  -- is half written, which is `EV_KEY` with the value 0 for a key that was pressed, and then
  -- `SYN_REPORT`: after each call the device's events and those that are still owed are together
  -- the same as before it, and nothing is owed any more when a call succeeds.
  pub discard_pending_with-Settles :
      (k : KeySink D)
      → 0 < event_size
      → IsDevice event_size libc_write log
      → Settles k (discard_pending_with event_size libc_write k)
  unfolding discard_pending_with cleanup
  discard_pending_with-Settles k h v = elim (Option-cases k.pending) [
    | inl idle ↦
        rw (discard_pending_with, idle)
          (ap (λ (o : Option PendingWrite). log k.device ++ owed k.keycodes o) idle, λ x. idle)
    | inr (pending, half) ↦
        let events = cleanup k.keycodes pending in
        let w = write_events_lem event_size libc_write log k.device events h v in
        let device' = (write_events event_size libc_write k.device events).0 in
        let written : (count : ℕ)
            → done (write_events event_size libc_write k.device events).1 ≡ count
            → log device' ≡ log k.device ++ take count events =
          λ count e. w.1 ∙ ap (λ (n : ℕ). log k.device ++ take n events) e in
        let half_owed : owed k.keycodes k.pending ≡ events =
          ap (owed k.keycodes) half ∙ cleanup-ending k.keycodes pending in
        let same_events : done (write_events event_size libc_write k.device events).1 ≡ 0
            → log device' ++ owed k.keycodes k.pending ≡ log k.device ++ events =
          λ nothing.
            ap (λ (es : List InputEvent). log device' ++ es) half_owed
            ∙ ap (λ (es : List InputEvent). es ++ events)
                (written 0 nothing ∙ append-nil (log k.device)) in
        elim (Result-cases (write_events event_size libc_write k.device events).1) [
          | inr (e, failed) ↦
              rw (discard_pending_with, half, failed)
                (same_events (ap done failed), λ q. ground (arith, q))
          | inl (count, answered) ↦
              let fits : count ≤ length events = omega (arith, w.0, ap done answered) in
              let bounded : ltb (length events) count ≡ false = ground (arith, fits) in
              elim (Bool-cases (count == 0)) [
                | inl zero_events ↦
                    rw (discard_pending_with, half, answered, zero_events)
                      (
                        same_events (ap done answered ∙ (==_iff count 0).0 zero_events),
                        λ q. ground (arith, q),
                      )
                | inr some_events ↦ elim (Bool-cases (count == length events)) [
                  | inl all ↦
                      rw (discard_pending_with, half, answered, some_events, bounded, all)
                        (
                          append-nil (log device')
                              ∙ written (length events)
                                  (ap done answered ∙ (==_iff count (length events)).0 all)
                              ∙ ap (λ (es : List InputEvent). log k.device ++ es)
                                  (take-length events),
                          λ q. refl,
                        )
                  | inr part ↦ elim (cleanup-cases k.keycodes pending) [
                    | inl sync ↦ absurd (
                        ground (
                          arith,
                          ap (λ (es : List InputEvent). length es) sync,
                          fits,
                          some_events,
                          part,
                        ))
                    | inr (first, two) ↦
                        let long : length events ≡ 2 =
                          ap (λ (es : List InputEvent). length es) two in
                        let one : count ≡ 1 = ground (arith, long, fits, some_events, part) in
                        let both : (count == 1 && length events == 2) ≡ true =
                          ground (arith, long, one) in
                        rw (discard_pending_with, half, answered, some_events, bounded, part, both)
                          (
                            ap (λ (es : List InputEvent). es ++ (sync_event ∷ []))
                                  (written 1 (ap done answered ∙ one)
                                    ∙ ap (λ (es : List InputEvent). log k.device ++ take 1 es) two)
                                ∙ append_assoc (log k.device) (first ∷ []) (sync_event ∷ [])
                                ∙ ap (λ (es : List InputEvent). log k.device ++ es) (sym two),
                            λ q. ground (arith, q),
                          )
                  ]
                ]
              ]
        ]
  ]
