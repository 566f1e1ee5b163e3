-- ===== src/Keyboard/Linux.antt =====
-- The key sink of Linux, native-host/src/keyboard/linux.rs, over the device that `fd` names.
-- `libc::write` is a parameter: it answers with a number of bytes, or with an error where it is
-- negative. The sink's `events` only holds what `encode_changes` writes before each use.
pub mod Device
pub mod Remaining
pub mod Exact
pub mod Cleanup
mod Examples
use holodori_phone_trackpad.Prelude.{
  ℕ, zero, suc, ◌+◌, ◌*◌, ◌/◌, ◌%◌, Bool, true, false, ◌==◌, ◌||◌, ◌&&◌, not, ltb, leb,
  if◌then◌else◌, Option, some, none, is_some, List, [], ◌∷◌, length, drop, get_elem?, get_or,
  Result, ok, err, refuse_if, ◌>>=◌, ◌>>◌,
}
use holodori_phone_trackpad.Io.{
  IoError, write_zero, sync_pending, retry_mismatch, sync_refused, incomplete, invalid_length,
  invalid_count,
}
use holodori_phone_trackpad.Keyboard.{KeyChange}
use holodori_phone_trackpad.Keyboard.Sink.{KeyOutput}
use holodori_phone_trackpad.Keyboard.Spacer.{same}
use holodori_phone_trackpad.Keyboard.Spacer.Flush.{is_empty}

abbrev pub ev_syn : ℕ
ev_syn = 0

abbrev pub ev_key : ℕ
ev_key = 1

abbrev pub syn_report : ℕ
syn_report = 0

-- `libc::input_event`, without its time, which is zero.
pub record InputEvent : Type 0 where
  pub type_ : ℕ
  pub code : ℕ
  pub value : ℕ

pub data PendingWrite : Type 0 where
  change : KeyChange → PendingWrite
  cleanup_sync : PendingWrite

pub record KeySink (D : Type 0) : Type 0 where
  pub device : D
  pub keycodes : List ℕ
  pub pending : Option PendingWrite

-- The derived `Eq` of a `KeyChange`.
abbrev pub same_change : KeyChange → KeyChange → Bool
same_change a b = a.lane == b.lane && (same a.down b.down && same a.touch b.touch)

abbrev pub starts_with : List KeyChange → KeyChange → Bool
starts_with [] pending = false
starts_with (c ∷ changes) pending = same_change c pending

abbrev pub key_event : ℕ → Bool → InputEvent
key_event code down = record { type_ = ev_key; code = code; value = if down then 1 else 0 }

abbrev pub sync_event : InputEvent
sync_event = record { type_ = ev_syn; code = syn_report; value = 0 }

-- The lanes of a change are those of the sink's key codes.
abbrev pub encode_changes : List ℕ → List KeyChange → List InputEvent
encode_changes keycodes [] = []
encode_changes keycodes (c ∷ changes) =
    key_event (get_or keycodes c.lane 0) c.down ∷ sync_event ∷ encode_changes keycodes changes

-- `Some(PendingWrite::Change(remaining[complete]))`.
abbrev pub unsynced : List KeyChange → ℕ → Option PendingWrite
unsynced changes complete = elim (get_elem? changes complete) [
  | none ↦ none
  | some c ↦ some (change c)
]

-- What ends a write that is pending.
unfoldable pub cleanup : List ℕ → PendingWrite → List InputEvent
cleanup keycodes cleanup_sync = sync_event ∷ []
cleanup keycodes (change c) =
    if c.down then key_event (get_or keycodes c.lane 0) false ∷ sync_event ∷ [] else sync_event ∷ []

module _ {D : Type 0} (event_size : ℕ)
    (libc_write : D → List InputEvent → D × Result IoError ℕ) where
  -- The answer in events, from the one in bytes.
  unfoldable pub write_events : D → List InputEvent → D × Result IoError ℕ
  write_events device events =
      let byte_length = length events * event_size in
      let (device', answer) = libc_write device events in
      if is_empty events then (device, ok 0) else elim answer [
        | err e ↦ (device', err e)
        | ok written ↦
            if ltb byte_length written || not (written % event_size == 0)
            then (device', err (invalid_length written byte_length))
            else (device', ok (written / event_size))
      ]

  -- The rest of `submit_with` once `accepted` changes are done.
  unfoldable pub submit_remaining : KeySink D → ℕ → List KeyChange → KeySink D × Result IoError ℕ
  submit_remaining k accepted remaining =
      let events = encode_changes k.keycodes remaining in
      let (device', answer) = write_events k.device events in
      let written = record k { device = device' } in
      if is_empty remaining then (k, ok accepted) else elim answer [
        | err e ↦ (written, if accepted == 0 then err e else ok accepted)
        | ok count ↦
            if count == 0
            then (written, if accepted == 0 then err write_zero else ok accepted)
            else if ltb (length events) count
            then (written, err (invalid_count count (length events)))
            else if count % 2 == 0
            then (written, ok (accepted + count / 2))
            else (
              record written { pending = unsynced remaining (count / 2) },
              ok (accepted + count / 2),
            )
      ]

  -- The write of a `SYN_REPORT` that is owed.
  unfoldable pub write_sync : KeySink D → KeySink D × Result IoError (Unit {0})
  write_sync k =
      let (device', answer) = write_events k.device (sync_event ∷ []) in
      let written = record k { device = device' } in
      elim answer [
        | err e ↦ (written, err e)
        | ok count ↦
            if count == 1
            then (record written { pending = none }, ok tt)
            else (written, err (if count == 0 then write_zero else invalid_count count 1))
      ]

  unfoldable pub submit_with : KeySink D → List KeyChange → KeySink D × Result IoError ℕ
  submit_with k changes = elim k.pending [
    | none ↦ submit_remaining k 0 changes
    | some cleanup_sync ↦ (k, err sync_pending)
    | some (change pending) ↦
        let (synced, answer) = write_sync k in
        if not (starts_with changes pending) then (k, err retry_mismatch) else elim answer [
          | err e ↦ (synced, err e)
          | ok _ ↦ submit_remaining synced 1 (drop 1 changes)
        ]
  ]

  unfoldable pub discard_pending_with : KeySink D → KeySink D × Result IoError (Unit {0})
  discard_pending_with k = elim k.pending [
    | none ↦ (k, ok tt)
    | some pending ↦
        let events = cleanup k.keycodes pending in
        let (device', answer) = write_events k.device events in
        let written = record k { device = device' } in
        elim answer [
          | err e ↦ (written, err e)
          | ok count ↦
              if count == 0
              then (written, err write_zero)
              else if ltb (length events) count
              then (written, err (invalid_count count (length events)))
              else if count == length events
              then (record written { pending = none }, ok tt)
              else if count == 1 && length events == 2
              then (record written { pending = some cleanup_sync }, err sync_refused)
              else (written, err (incomplete count (length events)))
        ]
  ]

  pub output : KeyOutput (KeySink D)
  output = record {
    submit = submit_with;
    discard_pending = discard_pending_with;
    has_pending = λ k. is_some k.pending;
  }
