-- ===== src/Keyboard/Keys/Examples.antt =====
-- Tests of the lane keys.
use holodori_phone_trackpad.Prelude.{ℕ, ◌≡◌, refl, true, List, [], ◌∷◌, length, distinct}
use holodori_phone_trackpad.Keyboard.Keys.{
  validate_unseen, validate_lane_keys, upper, same_text, has_text, find_code, key_character,
  linux_keycode, keycodes,
}
use holodori_phone_trackpad.Keyboard.Keys.Distinct.{keycodes-distinct}

-- The keys s, D and 7.
abbrev keys : List (List ℕ)
keys = (115 ∷ []) ∷ (68 ∷ []) ∷ (55 ∷ []) ∷ []

abbrev codes : List ℕ
codes = 31 ∷ 32 ∷ 8 ∷ []

keycodes-distinct_example : (distinct codes ≡ true) × (length codes ≡ length keys)
unfolding validate_lane_keys validate_unseen upper same_text has_text find_code key_character
    linux_keycode keycodes
keycodes-distinct_example = keycodes-distinct keys codes refl refl
