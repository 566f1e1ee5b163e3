-- ===== src/Nmcli.antt =====
-- The texts of nmcli and of the NetworkManager daemon, in
-- tauri-launcher/src-tauri/src/linux_network_manager.rs: what is read out of them and what is
-- refused. A text is the list of its characters' numbers.
pub mod Valid
use Prim.Native.Char.{code}
use Prim.Native.String.{String}
use holodori_phone_trackpad.Prelude.{
  ℕ, ◌+◌, ◌-◌, ◌*◌, ◌/◌, ◌%◌, ◌^◌, Bool, true, false, ◌==◌, ◌||◌, ◌&&◌, not, ltb, leb,
  if◌then◌else◌, Option, some, none, List, [], ◌∷◌, ◌++◌, map, length, Result, ok, err, ◌>>=◌, ◌>>◌,
  refuse_if,
}

abbrev pub Text : Type 0
Text = List ℕ

abbrev pub codes : String → Text
codes String.[] = []
codes (String.◌∷◌ c s) = code c ∷ codes s

abbrev pub same_text : Text → Text → Bool
same_text [] [] = true
same_text [] (d ∷ ds) = false
same_text (c ∷ cs) [] = false
same_text (c ∷ cs) (d ∷ ds) = (c == d) && same_text cs ds

-- The bytes of a text in UTF-8.
unfoldable pub utf8_char : ℕ → List ℕ
utf8_char c =
    if ltb c 0x80
    then c ∷ []
    else if ltb c 0x800
    then (0xC0 + c / 2 ^ 6) ∷ (0x80 + c % 2 ^ 6) ∷ []
    else if ltb c 0x10000
    then (0xE0 + c / 2 ^ 12) ∷ (0x80 + c / 2 ^ 6 % 2 ^ 6) ∷ (0x80 + c % 2 ^ 6) ∷ []
    else (0xF0 + c / 2 ^ 18)
      ∷ (0x80 + c / 2 ^ 12 % 2 ^ 6)
      ∷ (0x80 + c / 2 ^ 6 % 2 ^ 6)
      ∷ (0x80 + c % 2 ^ 6)
      ∷ []

unfoldable pub utf8 : Text → List ℕ
unfolding utf8_char
utf8 [] = []
utf8 (c ∷ cs) = utf8_char c ++ utf8 cs

-- `char::is_whitespace`.
unfoldable pub is_whitespace : ℕ → Bool
is_whitespace c =
    (leb 9 c && leb c 13)
    || (c == 0x20)
    || (c == 0x85)
    || (c == 0xA0)
    || (c == 0x1680)
    || (leb 0x2000 c && leb c 0x200A)
    || (c == 0x2028)
    || (c == 0x2029)
    || (c == 0x202F)
    || (c == 0x205F)
    || (c == 0x3000)

abbrev pub is_ascii_digit : ℕ → Bool
is_ascii_digit c = leb b'0' c && leb c b'9'

abbrev pub is_ascii_hexdigit : ℕ → Bool
is_ascii_hexdigit c = is_ascii_digit c || (leb b'A' c && leb c b'F') || (leb b'a' c && leb c b'f')

abbrev pub is_ascii_alphanumeric : ℕ → Bool
is_ascii_alphanumeric c =
    is_ascii_digit c || (leb b'A' c && leb c b'Z') || (leb b'a' c && leb c b'z')

abbrev pub all : (ℕ → Bool) → List ℕ → Bool
all p [] = true
all p (b ∷ bs) = p b && all p bs

-- `trim_start_matches` and `trim_end_matches`.
unfoldable pub trim_start : (ℕ → Bool) → Text → Text
trim_start p [] = []
trim_start p (c ∷ cs) = let rest = trim_start p cs in if p c then rest else c ∷ cs

unfoldable pub trim_end : (ℕ → Bool) → Text → Text
trim_end p [] = []
trim_end p (c ∷ cs) = elim (trim_end p cs) [ [] ↦ if p c then [] else c ∷ [] | d ∷ ds ↦ c ∷ d ∷ ds ]

unfoldable pub trim : Text → Text
unfolding trim_start trim_end is_whitespace
trim cs = trim_end is_whitespace (trim_start is_whitespace cs)

-- `str::split`, at every character `p`: always one part or more.
unfoldable pub split : (ℕ → Bool) → Text → List Text
split p [] = [] ∷ []
split p (c ∷ cs) = elim (split p cs) [
  | [] ↦ []
  | part ∷ parts ↦ if p c then [] ∷ part ∷ parts else (c ∷ part) ∷ parts
]

unfoldable pub non_empty : List Text → List Text
non_empty [] = []
non_empty ([] ∷ parts) = non_empty parts
non_empty ((c ∷ cs) ∷ parts) = (c ∷ cs) ∷ non_empty parts

unfoldable pub split_whitespace : Text → List Text
unfolding split non_empty is_whitespace
split_whitespace cs = non_empty (split is_whitespace cs)

abbrev pub first : List Text → Option Text
first [] = none
first (t ∷ ts) = some t

abbrev pub rest : List Text → List Text
rest [] = []
rest (t ∷ ts) = ts

unfoldable pub strip_prefix : Text → Text → Option Text
strip_prefix [] cs = some cs
strip_prefix (p ∷ ps) [] = none
strip_prefix (p ∷ ps) (c ∷ cs) = let suffix = strip_prefix ps cs in if p == c then suffix else none

unfoldable pub take_while : (ℕ → Bool) → Text → Text
take_while p [] = []
take_while p (c ∷ cs) = let kept = take_while p cs in if p c then c ∷ kept else []

-- The number that decimal digits stand for.
unfoldable pub decimal : ℕ → Text → ℕ
decimal value [] = value
decimal value (c ∷ cs) = decimal (value * 10 + (c - b'0')) cs

-- What the texts are refused for.
pub data NmcliError : Type 0 where
  unexpected_response : NmcliError
  invalid_uuid : NmcliError
  invalid_dbus_path : NmcliError
  empty_version : NmcliError
  invalid_version : NmcliError

unfoldable pub normalized_lines : Text → List Text
unfolding trim_end split
normalized_lines output =
    map (trim_end (λ c. c == 13))
      (split (λ c. c == 10) (trim_end (λ c. (c == 13) || (c == 10)) output))

abbrev pub is_hyphen_index : ℕ → Bool
is_hyphen_index index = (index == 8) || (index == 13) || (index == 18) || (index == 23)

-- A byte of a UUID, at its index.
abbrev pub valid_uuid_byte : ℕ → ℕ → Bool
valid_uuid_byte index byte = if is_hyphen_index index then byte == b'-' else is_ascii_hexdigit byte

unfoldable pub valid_uuid_bytes : ℕ → List ℕ → Bool
valid_uuid_bytes index [] = true
valid_uuid_bytes index (b ∷ bs) = valid_uuid_byte index b && valid_uuid_bytes (index + 1) bs

unfoldable pub valid_uuid : Text → Bool
unfolding utf8 valid_uuid_bytes
valid_uuid value = (length (utf8 value) == 36) && valid_uuid_bytes 0 (utf8 value)

abbrev pub name_byte : ℕ → Bool
name_byte b = is_ascii_alphanumeric b || (b == b'_') || (b == b'-') || (b == b'.')

-- The name's bytes.
unfoldable pub valid_name_bytes : List ℕ → Bool
valid_name_bytes [] = false
valid_name_bytes (b ∷ bs) =
    leb (length (b ∷ bs)) 15 && is_ascii_alphanumeric b && all name_byte (b ∷ bs)

unfoldable pub valid_interface_name : Text → Bool
unfolding utf8 valid_name_bytes
valid_interface_name value = valid_name_bytes (utf8 value)

-- A prefix, and then one decimal digit or more.
unfoldable pub valid_dbus_path : Text → Text → Bool
unfolding utf8 strip_prefix
valid_dbus_path prefix value = elim (strip_prefix prefix value) [
  | none ↦ false
  | some [] ↦ false
  | some (c ∷ cs) ↦ all is_ascii_digit (utf8 (c ∷ cs))
]

abbrev pub devices_prefix : Text
devices_prefix = codes "/org/freedesktop/NetworkManager/Devices/"

unfoldable pub valid_device_dbus_path : Text → Bool
unfolding valid_dbus_path
valid_device_dbus_path = valid_dbus_path devices_prefix

abbrev pub settings_prefix : Text
settings_prefix = codes "/org/freedesktop/NetworkManager/Settings/"

unfoldable pub valid_settings_connection_dbus_path : Text → Bool
unfolding valid_dbus_path
valid_settings_connection_dbus_path = valid_dbus_path settings_prefix

abbrev pub is_connected : Option Text → Bool
is_connected none = false
is_connected (some state) = same_text state (codes "100")

-- The three lines of a device: its state, the UUID of its connection and its D-Bus path.
unfoldable pub parse_device_lines : List Text → Result NmcliError (Option (Text × Text))
unfolding split_whitespace valid_uuid valid_device_dbus_path
parse_device_lines [] = err unexpected_response
parse_device_lines (state ∷ []) = err unexpected_response
parse_device_lines (state ∷ uuid ∷ []) = err unexpected_response
parse_device_lines (state ∷ uuid ∷ path ∷ []) =
    if not (is_connected (first (split_whitespace state))) then ok none else do
      refuse_if (not (valid_uuid uuid)) invalid_uuid
      refuse_if (not (valid_device_dbus_path path)) invalid_dbus_path
      ok (some (uuid, path))
parse_device_lines (state ∷ uuid ∷ path ∷ line ∷ lines) = err unexpected_response

unfoldable pub parse_active_device : Text → Result NmcliError (Option (Text × Text))
unfolding normalized_lines parse_device_lines
parse_active_device output = parse_device_lines (normalized_lines output)

-- Digits as a 32-bit number.
unfoldable pub parse_u32 : Text → Result NmcliError ℕ
unfolding decimal
parse_u32 [] = err invalid_version
parse_u32 (c ∷ cs) =
    let value = decimal 0 (c ∷ cs) in if ltb value (2 ^ 32) then ok value else err invalid_version

unfoldable pub numeric_prefix : Option Text → Result NmcliError ℕ
unfolding take_while parse_u32
numeric_prefix none = err invalid_version
numeric_prefix (some value) = parse_u32 (take_while is_ascii_digit value)

-- `unwrap_or(0)`.
abbrev pub or_zero : Result NmcliError ℕ → ℕ
or_zero (ok n) = n
or_zero (err e) = 0

unfoldable pub parse_token : Text → Result NmcliError (ℕ × ℕ × ℕ)
unfolding split numeric_prefix
parse_token token =
    let components = split (λ c. c == b'.') token in
    do
      major ← numeric_prefix (first components)
      minor ← numeric_prefix (first (rest components))
      ok (major, minor, or_zero (numeric_prefix (first (rest (rest components)))))

unfoldable pub parse_network_manager_version : Text → Result NmcliError (ℕ × ℕ × ℕ)
unfolding trim split_whitespace parse_token
parse_network_manager_version output = elim (first (split_whitespace (trim output))) [
  | none ↦ err empty_version
  | some token ↦ parse_token token
]
