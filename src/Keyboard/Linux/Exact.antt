-- ===== src/Keyboard/Linux/Exact.antt =====
-- What the kernel receives of the changes that the Linux sink says are done.
use holodori_phone_trackpad.Prelude.{
  ℕ, suc, ◌≤◌, ◌<◌, ◌≡◌, refl, sym, ap, subst, ◌∙◌, arith, Bool, true, ◌==◌, if◌then◌else◌, Option,
  some, none, List, [], ◌∷◌, ◌++◌, take, get_or, Result, ok, err, Result-cases, Bool-cases,
  Option-cases, inl, inr, ◌⊎◌, ==_iff,
}
use mathlib.Core.List.{append_assoc, append-nil}
use holodori_phone_trackpad.Io.{IoError, write_zero, invalid_count, retry_mismatch, sync_pending}
use holodori_phone_trackpad.Keyboard.{KeyChange}
use holodori_phone_trackpad.Keyboard.Linux.{
  InputEvent, PendingWrite, change, cleanup_sync, KeySink, same_change, key_event, sync_event,
  encode_changes, write_events, submit_remaining, write_sync, submit_with,
}
use holodori_phone_trackpad.Keyboard.Linux.Device.{
  IsDevice, done, partial, same_down, write_events_lem,
}
use holodori_phone_trackpad.Keyboard.Linux.Remaining.{Extends, submit_remaining-Extends}

module _ {D : Type 0} (event_size : ℕ) (libc_write : D → List InputEvent → D × Result IoError ℕ)
    (log : D → List InputEvent) where
  -- A `SYN_REPORT` is written, and nothing is owed any more, or nothing is written.
  abbrev Synced : KeySink D → KeySink D × Result IoError (Unit {0}) → Type 0
  Synced k (k', answer) =
      (k'.keycodes ≡ k.keycodes)
      × (((e : IoError) × (answer ≡ err e)
            × (k'.pending ≡ k.pending)
            × (log k'.device ≡ log k.device))
          ⊎ ((answer ≡ ok tt)
              × (k'.pending ≡ none)
              × (log k'.device ≡ log k.device ++ (sync_event ∷ []))))

  write_sync-Synced :
      (k : KeySink D)
      → 0 < event_size
      → IsDevice event_size libc_write log
      → Synced k (write_sync event_size libc_write k)
  unfolding write_sync
  write_sync-Synced k h v =
      let events : List InputEvent = sync_event ∷ [] in
      let w = write_events_lem event_size libc_write log k.device events h v in
      let device' = (write_events event_size libc_write k.device events).0 in
      let written : (count : ℕ)
          → done (write_events event_size libc_write k.device events).1 ≡ count
          → log device' ≡ log k.device ++ take count events =
        λ count e. w.1 ∙ ap (λ (n : ℕ). log k.device ++ take n events) e in
      elim (Result-cases (write_events event_size libc_write k.device events).1) [
        | inr (e, failed) ↦
            rw (write_sync, failed)
              (refl, inl (e, refl, refl, written 0 (ap done failed) ∙ append-nil (log k.device)))
        | inl (count, answered) ↦
            let fits : count ≤ 1 = omega (arith, w.0, ap done answered) in
            elim (Bool-cases (count == 1)) [
              | inl one ↦
                  rw (write_sync, answered, one)
                    (refl, inr (refl, refl, written 1 (ap done answered ∙ (==_iff count 1).0 one)))
              | inr other ↦
                  let nothing : count ≡ 0 = ground (arith, fits, other) in
                  rw (write_sync, answered, other)
                    (
                      refl,
                      inl (
                        if count == 0 then write_zero else invalid_count count 1,
                        refl,
                        refl,
                        written 0 (ap done answered ∙ nothing) ∙ append-nil (log k.device),
                      ),
                    )
            ]
      ]

  rebased :
      {before after : List InputEvent} (keycodes : List ℕ) (accepted : ℕ) (changes : List KeyChange)
      (r : KeySink D × Result IoError ℕ)
      → before ≡ after
      → Extends event_size libc_write log keycodes before accepted changes r
      → Extends event_size libc_write log keycodes after accepted changes r
  rebased keycodes accepted changes r e =
      subst
        (λ (events : List InputEvent).
          Extends event_size libc_write log keycodes events accepted changes r)
        e

  unchanged :
      (k : KeySink D) (changes : List KeyChange) (before : List InputEvent) (x : IoError)
      → log k.device ≡ before ++ partial k.keycodes k.pending
      → Extends event_size libc_write log k.keycodes before 0 changes (k, err x)
  unchanged k changes before x h = (0, omega arith, omega arith, refl, h)

  first_event :
      (kc : List ℕ) (c pending : KeyChange)
      → same_change c pending ≡ true
      → key_event (get_or kc pending.lane 0) pending.down ≡ key_event (get_or kc c.lane 0) c.down
  first_event kc c pending h =
      let lane : pending.lane ≡ c.lane = ground (arith, h) in
      let down : pending.down ≡ c.down = sym (same_down c.down pending.down (ground (arith, h))) in
      ap (λ (l : ℕ). key_event (get_or kc l 0) pending.down) lane
      ∙ ap (λ (b : Bool). key_event (get_or kc c.lane 0) b) down

  -- A call that first writes the `SYN_REPORT` that an earlier one left out.
  resumed :
      (k : KeySink D) (pending : KeyChange) (changes : List KeyChange) (before : List InputEvent)
      → 0 < event_size
      → IsDevice event_size libc_write log
      → k.pending ≡ some (change pending)
      → log k.device ≡ before ++ partial k.keycodes k.pending
      → Extends event_size libc_write log k.keycodes before 0 changes
          (submit_with event_size libc_write k changes)
  unfolding submit_with
  resumed k pending [] before h v owed e =
      rw (submit_with, owed) (unchanged k [] before retry_mismatch e)
  resumed k pending (c ∷ cs) before h v owed e =
      let kc = k.keycodes in
      let changes : List KeyChange = c ∷ cs in
      let synced = (write_sync event_size libc_write k).0 in
      let s = write_sync-Synced k h v in
      elim (Bool-cases (same_change c pending)) [
        | inr other ↦ rw (submit_with, owed, other) (unchanged k changes before retry_mismatch e)
        | inl same_one ↦ elim s.1 [
          | inl (x, failed, still, at) ↦
              rw (submit_with, owed, same_one, failed)
                (
                  0,
                  omega arith,
                  omega arith,
                  s.0,
                  at ∙ e ∙ ap (λ (o : Option PendingWrite). before ++ partial kc o) (sym still),
                )
          | inr (worked, idle, at) ↦
              let (more, fits, counted, same_codes, extended) =
                submit_remaining-Extends event_size libc_write log synced 1 cs h v idle in
              let after = (submit_remaining event_size libc_write synced 1 cs).0.pending in
              let whole : log synced.device
                  ≡ before ++ (key_event (get_or kc c.lane 0) c.down ∷ sync_event ∷ []) =
                at
                ∙ ap (λ (es : List InputEvent). es ++ (sync_event ∷ []))
                    (e
                      ∙ ap (λ (o : Option PendingWrite). before ++ partial kc o) owed
                      ∙ ap (λ (event : InputEvent). before ++ (event ∷ []))
                          (first_event kc c pending same_one))
                ∙ append_assoc before (key_event (get_or kc c.lane 0) c.down ∷ [])
                    (sync_event ∷ []) in
              rw (submit_with, owed, same_one, worked)
                (
                  suc more,
                  omega (arith, fits),
                  omega (arith, counted),
                  same_codes ∙ s.0,
                  extended
                      ∙ ap
                          (λ (codes : List ℕ).
                            log synced.device
                            ++ (encode_changes codes (take more cs) ++ partial codes after))
                          s.0
                      ∙ ap
                          (λ (es : List InputEvent).
                            es ++ (encode_changes kc (take more cs) ++ partial kc after))
                          whole
                      ∙ append_assoc before
                          (key_event (get_or kc c.lane 0) c.down ∷ sync_event ∷ [])
                          (encode_changes kc (take more cs) ++ partial kc after),
                )
        ]
      ]

  -- Whatever part of its writes the device takes, and whatever part of a change an earlier call left
  -- without its `SYN_REPORT`, after `submit_with` the events that the device has of these changes
  -- are those of the changes that the answer says are done, each once and in order, and then at
  -- most the key event of a change that is now pending.
  pub submit_with-Extends :
      (k : KeySink D) (changes : List KeyChange) (before : List InputEvent)
      → 0 < event_size
      → IsDevice event_size libc_write log
      → log k.device ≡ before ++ partial k.keycodes k.pending
      → Extends event_size libc_write log k.keycodes before 0 changes
          (submit_with event_size libc_write k changes)
  unfolding submit_with
  submit_with-Extends k changes before h v e = elim (Option-cases k.pending) [
    | inl idle ↦
        let same_log : log k.device ≡ before =
          e
          ∙ ap (λ (o : Option PendingWrite). before ++ partial k.keycodes o) idle
          ∙ append-nil before in
        rw (submit_with, idle)
          (rebased k.keycodes 0 changes (submit_remaining event_size libc_write k 0 changes)
            same_log (submit_remaining-Extends event_size libc_write log k 0 changes h v idle))
    | inr (cleanup_sync, owed) ↦ rw (submit_with, owed) (unchanged k changes before sync_pending e)
    | inr (change pending, owed) ↦ resumed k pending changes before h v owed e
  ]
