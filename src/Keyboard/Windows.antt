-- ===== src/Keyboard/Windows.antt =====
-- The key sink of Windows, native-host/src/keyboard/windows.rs. `MapVirtualKeyW` and `SendInput` are
-- parameters; `SendInput` answers with the number of inputs that it took, and the error code that
-- `last_os_error` would read. The sink's `inputs` only holds what a call fills it with.
use holodori_phone_trackpad.Prelude.{
  ℕ, zero, suc, ◌+◌, ◌-◌, ◌^◌, Bool, false, ◌==◌, ◌||◌, ltb, if◌then◌else◌, List, [], ◌∷◌, map,
  length, get_or, Result, ok, err, ◌>>=◌, ◌>>◌, refuse_if,
}
use holodori_phone_trackpad.Io.{IoError, incomplete, os, too_many_events, unmapped_key}
use holodori_phone_trackpad.Keyboard.{KeyChange}
use holodori_phone_trackpad.Keyboard.Keys.{parse_virtual_key}
use holodori_phone_trackpad.Keyboard.Sink.{KeyOutput}
use holodori_phone_trackpad.Keyboard.Spacer.Flush.{is_empty}

-- `KEYEVENTF_SCANCODE` and `KEYEVENTF_KEYUP`.
abbrev pub keyeventf_scancode : ℕ
keyeventf_scancode = 8

abbrev pub keyeventf_keyup : ℕ
keyeventf_keyup = 2

-- A keyboard `INPUT`; its other fields are zero.
pub record Input : Type 0 where
  pub scan : ℕ
  pub flags : ℕ

abbrev pub key_input : ℕ → Bool → Input
key_input scan_code down = record {
  scan = scan_code;
  flags = keyeventf_scancode + (if down then 0 else keyeventf_keyup);
}

pub record KeySink (W : Type 0) : Type 0 where
  pub system : W
  pub scan_codes : List ℕ

abbrev pub encode_changes : List ℕ → List KeyChange → List Input
encode_changes scan_codes = map λ c. key_input (get_or scan_codes c.lane 0) c.down

-- The loop of `KeySink::new`.
unfoldable pub scan_codes_of : (ℕ → ℕ) → List (List ℕ) → Result IoError (List ℕ)
scan_codes_of map_virtual_key [] = ok []
scan_codes_of map_virtual_key (key ∷ keys) = do
  vk ← parse_virtual_key key
  let scan_code = map_virtual_key vk
  refuse_if (scan_code == 0 || ltb 65535 scan_code) (unmapped_key key)
  codes ← scan_codes_of map_virtual_key keys
  ok (scan_code ∷ codes)

module _ {W : Type 0} (send_input : W → List Input → W × ℕ) (last_os_error : W → ℕ) where
  unfoldable pub submit : KeySink W → List KeyChange → KeySink W × Result IoError ℕ
  submit k changes =
      let inputs = encode_changes k.scan_codes changes in
      let (system', accepted) = send_input k.system inputs in
      let sent = record k { system = system' } in
      if is_empty changes
      then (k, ok 0)
      else if ltb (2 ^ 32 - 1) (length inputs)
      then (k, err too_many_events)
      else if accepted == 0
      then (sent, err (os (last_os_error system')))
      else (sent, ok accepted)

  pub output : KeyOutput (KeySink W)
  output = record { submit = submit; discard_pending = λ k. (k, ok tt); has_pending = λ k. false }

  -- The changes that release every lane.
  unfoldable pub all_releases : ℕ → ℕ → List KeyChange
  all_releases lane zero = []
  all_releases lane (suc lanes) =
      record { lane = lane; down = false; touch = false } ∷ all_releases (lane + 1) lanes

  -- `release_lane_keys`, once the sink is open.
  pub release_lane_keys : KeySink W → KeySink W × Result IoError (Unit {0})
  release_lane_keys k =
      let changes = all_releases 0 (length k.scan_codes) in
      let (k', answer) = submit k changes in
      elim answer [
        | err e ↦ (k', err e)
        | ok accepted ↦
            if accepted == length changes
            then (k', ok tt)
            else (k', err (incomplete accepted (length changes)))
      ]
