-- ===== src/Keyboard/Linux/Remaining.antt =====
-- The changes that a call of the Linux sink has left.
use holodori_phone_trackpad.Prelude.{
  ℕ, ◌+◌, ◌*◌, ◌/◌, ◌%◌, ◌≤◌, ◌<◌, ◌≡◌, refl, sym, ap, ◌∙◌, arith, false, ◌==◌, ltb, none, List, [],
  ◌∷◌, ◌++◌, length, take, Result, Result-cases, Bool-cases, inl, inr, ==_iff,
}
use mathlib.Core.List.{append-nil}
use holodori_phone_trackpad.Io.{IoError}
use holodori_phone_trackpad.Keyboard.{KeyChange}
use holodori_phone_trackpad.Keyboard.Linux.{
  InputEvent, KeySink, encode_changes, write_events, submit_remaining,
}
use holodori_phone_trackpad.Keyboard.Linux.Device.{
  IsDevice, done, partial, length-encode, take_even, take_odd, write_events_lem,
}

module _ {D : Type 0} (event_size : ℕ) (libc_write : D → List InputEvent → D × Result IoError ℕ)
    (log : D → List InputEvent) where
  -- The log after `remaining` was submitted to a sink that had `accepted` changes done and owed no
  -- event: the answer adds the changes of which the kernel has the events, in their order.
  abbrev pub Extends :
      List ℕ → List InputEvent → ℕ → List KeyChange → KeySink D × Result IoError ℕ → Type 0
  Extends keycodes before accepted remaining r =
      (more : ℕ) × (more ≤ length remaining)
      × (done r.1 ≡ accepted + more)
      × (r.0.keycodes ≡ keycodes)
      × (log r.0.device
          ≡ before
            ++ (encode_changes keycodes (take more remaining) ++ partial keycodes r.0.pending))

  pub submit_remaining-Extends :
      (k : KeySink D) (accepted : ℕ) (remaining : List KeyChange)
      → 0 < event_size
      → IsDevice event_size libc_write log
      → k.pending ≡ none
      → Extends k.keycodes
          (log k.device)
          accepted
          remaining
          (submit_remaining event_size libc_write k accepted remaining)
  unfolding submit_remaining
  submit_remaining-Extends k accepted [] h v idle =
      let nothing : partial k.keycodes k.pending ≡ [] = ap (partial k.keycodes) idle in
      (
        0,
        omega arith,
        omega arith,
        refl,
        sym (append-nil (log k.device))
            ∙ ap (λ (es : List InputEvent). log k.device ++ es) (sym nothing),
      )
  submit_remaining-Extends k accepted (c ∷ cs) h v idle =
      let kc = k.keycodes in
      let remaining : List KeyChange = c ∷ cs in
      let events = encode_changes kc remaining in
      let nothing : partial kc k.pending ≡ [] = ap (partial kc) idle in
      let w = write_events_lem event_size libc_write log k.device events h v in
      let device' = (write_events event_size libc_write k.device events).0 in
      let written : (count : ℕ)
          → done (write_events event_size libc_write k.device events).1 ≡ count
          → (count ≤ 2 * length remaining) × (log device' ≡ log k.device ++ take count events) =
        λ count e. (
          omega (arith, length-encode kc remaining, w.0, e),
          w.1 ∙ ap (λ (n : ℕ). log k.device ++ take n events) e,
        ) in
      elim (Result-cases (write_events event_size libc_write k.device events).1) [
        | inr (e, failed) ↦
            let at = (written 0 (ap done failed)).1 in
            rw failed (
              0,
              omega arith,
              ground arith,
              refl,
              at ∙ ap (λ (es : List InputEvent). log k.device ++ es) (sym nothing),
            )
        | inl (count, answered) ↦
            let (fits, at) = written count (ap done answered) in
            let bounded : ltb (length events) count ≡ false =
              ground (arith, length-encode kc remaining, fits) in
            let half = count / 2 in
            elim (Bool-cases (count == 0)) [
              | inl zero_events ↦
                  let at' : log device' ≡ log k.device ++ [] =
                    at
                    ∙ ap (λ (n : ℕ). log k.device ++ take n events)
                        ((==_iff count 0).0 zero_events) in
                  rw (answered, zero_events)
                    (
                      0,
                      omega arith,
                      ground arith,
                      refl,
                      at' ∙ ap (λ (es : List InputEvent). log k.device ++ es) (sym nothing),
                    )
              | inr some_events ↦ elim (Bool-cases (count % 2 == 0)) [
                | inl even ↦
                    let whole : count ≡ 2 * half = omega (arith, (==_iff (count % 2) 0).0 even) in
                    rw (answered, some_events, bounded, even)
                      (
                        half,
                        omega (arith, fits, whole),
                        refl,
                        refl,
                        at
                            ∙ ap (λ (n : ℕ). log k.device ++ take n events) whole
                            ∙ ap (λ (es : List InputEvent). log k.device ++ es)
                                (take_even kc half remaining
                                  ∙ sym (append-nil (encode_changes kc (take half remaining)))
                                  ∙ ap
                                      (λ (es : List InputEvent).
                                        encode_changes kc (take half remaining) ++ es)
                                      (sym nothing)),
                      )
                | inr odd ↦
                    let whole : count ≡ 2 * half + 1 = ground (arith, odd) in
                    rw (answered, some_events, bounded, odd)
                      (
                        half,
                        omega (arith, fits, whole),
                        refl,
                        refl,
                        at
                            ∙ ap (λ (n : ℕ). log k.device ++ take n events) whole
                            ∙ ap (λ (es : List InputEvent). log k.device ++ es)
                                (take_odd kc half remaining (omega (arith, fits, whole))),
                      )
              ]
            ]
      ]
