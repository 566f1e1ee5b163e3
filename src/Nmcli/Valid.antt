-- ===== src/Nmcli/Valid.antt =====
-- What is parsed of a device was checked.
use holodori_phone_trackpad.Prelude.{
  ◌≡◌, arith, true, Option, some, none, List, [], ◌∷◌, ok, Bool-cases, inl, inr,
}
use holodori_phone_trackpad.Nmcli.{
  Text, first, is_connected, split_whitespace, valid_uuid, valid_device_dbus_path,
  parse_device_lines, normalized_lines, parse_active_device,
}

abbrev pub Checked : Option (Text × Text) → Type 0
Checked none = Unit {0}
Checked (some (uuid, path)) = (valid_uuid uuid ≡ true) × (valid_device_dbus_path path ≡ true)

device_lines :
    (state uuid path : Text) (o : Option (Text × Text))
    → parse_device_lines (state ∷ uuid ∷ path ∷ []) ≡ ok o
    → Checked o
unfolding parse_device_lines
device_lines state uuid path none h = tt
device_lines state uuid path (some (u, p)) h =
    elim (Bool-cases (is_connected (first (split_whitespace state)))) [
      | inr off ↦ absurd (ground (arith, off, h))
      | inl on ↦ elim (Bool-cases (valid_uuid uuid)) [
        | inr bad ↦ absurd (ground (arith, on, bad, h))
        | inl good ↦ elim (Bool-cases (valid_device_dbus_path path)) [
          | inr wrong ↦ absurd (ground (arith, on, good, wrong, h))
          | inl fine ↦ ground (arith, on, good, fine, h)
        ]
      ]
    ]

lines-Checked :
    (lines : List Text) (o : Option (Text × Text)) → parse_device_lines lines ≡ ok o → Checked o
unfolding parse_device_lines
lines-Checked [] o h = absurd (cc)
lines-Checked (state ∷ []) o h = absurd (cc)
lines-Checked (state ∷ uuid ∷ []) o h = absurd (cc)
lines-Checked (state ∷ uuid ∷ path ∷ []) o h = device_lines state uuid path o h
lines-Checked (state ∷ uuid ∷ path ∷ line ∷ lines) o h = absurd (cc)

pub parse_active_device-Checked :
    (output : Text) (o : Option (Text × Text)) → parse_active_device output ≡ ok o → Checked o
unfolding parse_active_device
parse_active_device-Checked output o h = lines-Checked (normalized_lines output) o h
