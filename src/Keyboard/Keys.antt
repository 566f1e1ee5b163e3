-- ===== src/Keyboard/Keys.antt =====
-- The lane keys: `validate_lane_keys` of native-host/src/keyboard/mod.rs, and what the two key sinks
-- make of a key, `linux_keycode` and `KeySink::new` of keyboard/linux.rs and `parse_virtual_key`
-- of keyboard/windows.rs. A string is the list of its characters' numbers.
pub mod Distinct
mod Examples
use holodori_phone_trackpad.Prelude.{
  ℕ, ◌+◌, ◌-◌, Bool, true, false, ◌==◌, ◌||◌, ◌&&◌, not, leb, if◌then◌else◌, Option, some, none,
  List, [], ◌∷◌, map, Result, ok, err, ◌>>=◌,
}
use holodori_phone_trackpad.Io.{IoError, empty_key, invalid_key, duplicated_key}

abbrev pub is_ascii_alphanumeric : ℕ → Bool
is_ascii_alphanumeric c =
    (leb 48 c && leb c 57) || ((leb 65 c && leb c 90) || (leb 97 c && leb c 122))

abbrev pub to_ascii_uppercase : ℕ → ℕ
to_ascii_uppercase c = if leb 97 c && leb c 122 then c - 32 else c

unfoldable pub upper : List ℕ → List ℕ
upper = map to_ascii_uppercase

unfoldable pub same_text : List ℕ → List ℕ → Bool
same_text [] [] = true
same_text [] (d ∷ ds) = false
same_text (c ∷ cs) [] = false
same_text (c ∷ cs) (d ∷ ds) = c == d && same_text cs ds

-- Whether the set of texts has one.
unfoldable pub has_text : List (List ℕ) → List ℕ → Bool
has_text [] key = false
has_text (k ∷ keys) key = same_text k key || has_text keys key

-- The rest of the loop, once the texts of `seen` were inserted.
unfoldable pub validate_unseen : List (List ℕ) → List (List ℕ) → Result IoError (Unit {0})
validate_unseen seen [] = ok tt
validate_unseen seen (key ∷ keys) =
    let rest = validate_unseen (upper key ∷ seen) keys in
    if has_text seen (upper key) then err (duplicated_key key) else rest

unfoldable pub validate_lane_keys : List (List ℕ) → Result IoError (Unit {0})
validate_lane_keys = validate_unseen []

-- The key codes of the digits and of the upper-case letters.
abbrev pub keycode_table : List (ℕ × ℕ)
keycode_table =
    (49, 2)
    ∷ (50, 3)
    ∷ (51, 4)
    ∷ (52, 5)
    ∷ (53, 6)
    ∷ (54, 7)
    ∷ (55, 8)
    ∷ (56, 9)
    ∷ (57, 10)
    ∷ (48, 11)
    ∷ (81, 16)
    ∷ (87, 17)
    ∷ (69, 18)
    ∷ (82, 19)
    ∷ (84, 20)
    ∷ (89, 21)
    ∷ (85, 22)
    ∷ (73, 23)
    ∷ (79, 24)
    ∷ (80, 25)
    ∷ (65, 30)
    ∷ (83, 31)
    ∷ (68, 32)
    ∷ (70, 33)
    ∷ (71, 34)
    ∷ (72, 35)
    ∷ (74, 36)
    ∷ (75, 37)
    ∷ (76, 38)
    ∷ (90, 44)
    ∷ (88, 45)
    ∷ (67, 46)
    ∷ (86, 47)
    ∷ (66, 48)
    ∷ (78, 49)
    ∷ (77, 50)
    ∷ []

-- The arms of the `match`.
unfoldable pub find_code : List (ℕ × ℕ) → ℕ → Option ℕ
find_code [] c = none
find_code (row ∷ table) c = let rest = find_code table c in if row.0 == c then some row.1 else rest

-- The one character of a key.
unfoldable pub key_character : List ℕ → Result IoError ℕ
key_character [] = err empty_key
key_character (c ∷ []) =
    if is_ascii_alphanumeric c then ok (to_ascii_uppercase c) else err (invalid_key (c ∷ []))
key_character (c ∷ d ∷ cs) = err (invalid_key (c ∷ d ∷ cs))

abbrev pub code_or : List ℕ → Option ℕ → Result IoError ℕ
code_or key none = err (invalid_key key)
code_or key (some code) = ok code

unfoldable pub linux_keycode : List ℕ → Result IoError ℕ
linux_keycode key = do c ← key_character key; code_or key (find_code keycode_table c)

-- The virtual key of a letter or a digit is its upper-case character.
pub parse_virtual_key : List ℕ → Result IoError ℕ
parse_virtual_key = key_character

-- The loop at the start of `KeySink::new`.
unfoldable pub keycodes : List (List ℕ) → Result IoError (List ℕ)
keycodes [] = ok []
keycodes (key ∷ keys) = do code ← linux_keycode key; codes ← keycodes keys; ok (code ∷ codes)
