-- ===== src/Keyboard/Linux/Device.antt =====
-- What is documented of the device, and what it means for events and changes.
use holodori_phone_trackpad.Prelude.{
  ℕ, zero, suc, ◌+◌, ◌*◌, ◌/◌, ◌%◌, ◌≤◌, ◌<◌, ◌≡◌, refl, sym, ap, ◌∙◌, arith, Bool, true, false,
  ◌==◌, ◌||◌, not, ltb, Option, some, none, List, [], ◌∷◌, ◌++◌, length, take, get_or, Result, ok,
  err, Result-cases, inl, inr,
}
use native.Mathlib.Nat.{mul-le-mul_right, mul-div_cancel, mul-mod_left}
use mathlib.Core.List.{append-nil}
use holodori_phone_trackpad.Io.{IoError}
use holodori_phone_trackpad.Keyboard.{KeyChange}
use holodori_phone_trackpad.Keyboard.Spacer.{same}
use holodori_phone_trackpad.Keyboard.Linux.{
  InputEvent, PendingWrite, change, cleanup_sync, key_event, sync_event, encode_changes, unsynced,
  write_events,
}

-- What is documented of `write` on the device, whose events so far are `log`: it takes the first of
-- the events, whole, and answers with their size in bytes, or takes none.
pub record IsDevice {D : Type 0} (event_size : ℕ)
    (libc_write : D → List InputEvent → D × Result IoError ℕ) (log : D → List InputEvent)
    : Type 0 where
  pub appends :
      (device : D) (events : List InputEvent) (written : ℕ)
      → (libc_write device events).1 ≡ ok written
      → (taken : ℕ) × (written ≡ taken * event_size)
        × (taken ≤ length events)
        × (log (libc_write device events).0 ≡ log device ++ take taken events)
  pub refuses :
      (device : D) (events : List InputEvent) (e : IoError)
      → (libc_write device events).1 ≡ err e
      → log (libc_write device events).0 ≡ log device

-- How many changes, or events, an answer says are done.
abbrev pub done : Result IoError ℕ → ℕ
done (ok n) = n
done (err e) = 0

-- The key event of a change that its `SYN_REPORT` does not follow yet.
abbrev pub partial : List ℕ → Option PendingWrite → List InputEvent
partial keycodes none = []
partial keycodes (some cleanup_sync) = []
partial keycodes (some (change c)) = key_event (get_or keycodes c.lane 0) c.down ∷ []

pub length-encode :
    (kc : List ℕ) (cs : List KeyChange) → length (encode_changes kc cs) ≡ 2 * length cs
length-encode kc [] = refl
length-encode kc (c ∷ cs) = omega (arith, length-encode kc cs)

-- An even number of events are those of whole changes.
pub take_even :
    (kc : List ℕ) (n : ℕ) (cs : List KeyChange)
    → take (2 * n) (encode_changes kc cs) ≡ encode_changes kc (take n cs)
take_even kc zero cs = refl
take_even kc (suc n) [] = let e : 2 * suc n ≡ suc (suc (2 * n)) = omega arith in rw e refl
take_even kc (suc n) (c ∷ cs) =
    let e : 2 * suc n ≡ suc (suc (2 * n)) = omega arith in
    rw e (
      ap (λ (es : List InputEvent). key_event (get_or kc c.lane 0) c.down ∷ sync_event ∷ es)
        (take_even kc n cs))

pub take_odd :
    (kc : List ℕ) (n : ℕ) (cs : List KeyChange)
    → n < length cs
    → take (2 * n + 1) (encode_changes kc cs)
      ≡ encode_changes kc (take n cs) ++ partial kc (unsynced cs n)
take_odd kc n [] h = ground (arith, h)
take_odd kc zero (c ∷ cs) h = refl
take_odd kc (suc n) (c ∷ cs) h =
    let e : 2 * suc n + 1 ≡ suc (suc (2 * n + 1)) = omega arith in
    rw e (
      ap (λ (es : List InputEvent). key_event (get_or kc c.lane 0) c.down ∷ sync_event ∷ es)
        (take_odd kc n cs (omega (arith, h))))

pub same_down : (a b : Bool) → same a b ≡ true → a ≡ b
same_down a b h = ground (arith, h)

module _ {D : Type 0} (event_size : ℕ) (libc_write : D → List InputEvent → D × Result IoError ℕ)
    (log : D → List InputEvent) where
  -- The same for the answer in events.
  pub write_events_lem :
      (device : D) (events : List InputEvent)
      → 0 < event_size
      → IsDevice event_size libc_write log
      → let r = write_events event_size libc_write device events in
        (done r.1 ≤ length events) × (log r.0 ≡ log device ++ take (done r.1) events)
  unfolding write_events
  write_events_lem device [] h v = (omega arith, sym (append-nil (log device)))
  write_events_lem device (x ∷ xs) h v =
      let events : List InputEvent = x ∷ xs in
      elim (Result-cases (libc_write device events).1) [
        | inr (e, failed) ↦
            rw failed
              (omega arith, v.refuses device events e failed ∙ sym (append-nil (log device)))
        | inl (written, answered) ↦
            let (taken, whole, fits, at) = v.appends device events written answered in
            let q : written / event_size ≡ taken =
              ap (λ (n : ℕ). n / event_size) whole ∙ mul-div_cancel taken h in
            let r : written % event_size ≡ 0 =
              ap (λ (n : ℕ). n % event_size) whole ∙ mul-mod_left taken event_size in
            let bounded : written ≤ length events * event_size =
              rw whole (mul-le-mul_right event_size fits) in
            let fine : (ltb (length events * event_size) written || not (written % event_size == 0))
                ≡ false =
              ground (arith, bounded, r) in
            rw (answered, fine, q) (fits, at)
      ]
