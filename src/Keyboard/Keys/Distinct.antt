-- ===== src/Keyboard/Keys/Distinct.antt =====
-- Which lane keys are accepted, and that their key codes differ.
use holodori_phone_trackpad.Prelude.{
  ℕ, suc, ◌≡◌, refl, sym, ap, ◌∙◌, arith, true, false, ◌==◌, Option, some, none, List, [], ◌∷◌, map,
  length, Result, ok, err, contains, distinct, Bool-cases, Result-cases, inl, inr, ==_iff,
}
use holodori_phone_trackpad.Io.{IoError}
use holodori_phone_trackpad.Keyboard.Keys.{
  is_ascii_alphanumeric, to_ascii_uppercase, upper, same_text, has_text, validate_unseen,
  validate_lane_keys, keycode_table, find_code, key_character, code_or, linux_keycode, keycodes,
}

codes_of : List (ℕ × ℕ) → List ℕ
codes_of = map λ row. row.1

find_code-contains :
    (table : List (ℕ × ℕ)) (c n : ℕ)
    → find_code table c ≡ some n
    → contains (codes_of table) n ≡ true
unfolding find_code contains codes_of
find_code-contains [] c n h = ground (arith, h)
find_code-contains (row ∷ table) c n h = ground (arith, h, find_code-contains table c n)

-- A table without repeated codes has each under one character.
find_code-injective :
    (table : List (ℕ × ℕ)) (c d n : ℕ)
    → distinct (codes_of table) ≡ true
    → find_code table c ≡ some n
    → find_code table d ≡ some n
    → c ≡ d
unfolding find_code distinct codes_of
find_code-injective [] c d n u h k = ground (arith, h)
find_code-injective (row ∷ table) c d n u h k = ground (
  arith,
  u,
  h,
  k,
  find_code-injective table c d n,
  find_code-contains table c n,
  find_code-contains table d n,
)

same_text_refl : (k : List ℕ) → same_text k k ≡ true
unfolding same_text
same_text_refl [] = refl
same_text_refl (c ∷ cs) = ground (arith, same_text_refl cs)

code_or-ok : (key : List ℕ) (o : Option ℕ) (n : ℕ) → code_or key o ≡ ok n → o ≡ some n
code_or-ok key none n h = ground (arith, h)
code_or-ok key (some m) n h = ground (arith, h)

-- The character of an accepted key, and its row of the table.
linux_keycode-row :
    (key : List ℕ) (n : ℕ)
    → linux_keycode key ≡ ok n
    → (c : ℕ) × (upper key ≡ c ∷ []) × (find_code keycode_table c ≡ some n)
unfolding linux_keycode key_character upper
linux_keycode-row [] n h = ground (arith, h)
linux_keycode-row (c ∷ []) n h = elim (Bool-cases (is_ascii_alphanumeric c)) [
  | inl fine ↦ (
    to_ascii_uppercase c,
    refl,
    code_or-ok (c ∷ []) (find_code keycode_table (to_ascii_uppercase c)) n (rw fine at h),
  )
  | inr other ↦ absurd (ground (arith, rw other at h))
]
linux_keycode-row (c ∷ d ∷ cs) n h = ground (arith, h)

-- Keys with the same code are the same but for their case.
linux_keycode-injective :
    (key other : List ℕ) (n : ℕ)
    → linux_keycode key ≡ ok n
    → linux_keycode other ≡ ok n
    → upper key ≡ upper other
unfolding distinct contains codes_of
linux_keycode-injective key other n h k =
    let (c, e, at) = linux_keycode-row key n h in
    let (d, f, found) = linux_keycode-row other n k in
    e ∙ ap (λ (x : ℕ). x ∷ []) (find_code-injective keycode_table c d n refl at found) ∙ sym f

value : Result IoError (List ℕ) → List ℕ
value (ok codes) = codes
value (err e) = []

keycodes-cons :
    (key : List ℕ) (keys : List (List ℕ)) (codes : List ℕ)
    → keycodes (key ∷ keys) ≡ ok codes
    → (n : ℕ) × (rest : List ℕ) × (linux_keycode key ≡ ok n)
      × (keycodes keys ≡ ok rest)
      × (codes ≡ n ∷ rest)
unfolding keycodes value
keycodes-cons key keys codes h = elim (Result-cases (linux_keycode key)) [
  | inr (e, failed) ↦ absurd (ground (arith, rw failed at h))
  | inl (n, coded) ↦ elim (Result-cases (keycodes keys)) [
    | inr (e, failed) ↦ absurd (ground (arith, rw (coded, failed) at h))
    | inl (rest, others) ↦ (n, rest, coded, others, sym (ap value (rw (coded, others) at h)))
  ]
]

-- A key whose text was seen has none of the codes of the keys to come.
unseen_code :
    (key : List ℕ) (n : ℕ) (seen keys : List (List ℕ)) (codes : List ℕ)
    → linux_keycode key ≡ ok n
    → has_text seen (upper key) ≡ true
    → validate_unseen seen keys ≡ ok tt
    → keycodes keys ≡ ok codes
    → contains codes n ≡ false
unfolding validate_unseen keycodes contains value has_text
unseen_code key n seen [] codes e s v k =
    ap (λ (r : Result IoError (List ℕ)). contains (value r) n) (sym k)
unseen_code key n seen (next ∷ keys) codes e s v k =
    let (m, rest, coded, others, whole) = keycodes-cons next keys codes k in
    let new : has_text seen (upper next) ≡ false = ground (arith, v) in
    let ih : contains rest n ≡ false =
      unseen_code key n (upper next ∷ seen) keys rest e (ground (arith, s)) (ground (arith, v))
        others in
    let other : (m == n) ≡ false = elim (Bool-cases (m == n)) [
      | inr differs ↦ differs
      | inl same_code ↦
          let same_key : upper key ≡ upper next =
            linux_keycode-injective key next n e (coded ∙ ap ok ((==_iff m n).0 same_code)) in
          absurd (ground (arith, new, s, ap (has_text seen) same_key))
    ] in
    rw whole (ground (arith, ih, other))

-- The key codes of valid lane keys are pairwise distinct.
validated-distinct :
    (seen keys : List (List ℕ)) (codes : List ℕ)
    → validate_unseen seen keys ≡ ok tt
    → keycodes keys ≡ ok codes
    → (distinct codes ≡ true) × (length codes ≡ length keys)
unfolding validate_unseen keycodes distinct value has_text
validated-distinct seen [] codes v k =
    let nothing : codes ≡ [] = sym (ap value k) in rw nothing (refl, refl)
validated-distinct seen (key ∷ keys) codes v k =
    let (n, rest, coded, others, whole) = keycodes-cons key keys codes k in
    let valid : validate_unseen (upper key ∷ seen) keys ≡ ok tt = ground (arith, v) in
    let ih = validated-distinct (upper key ∷ seen) keys rest valid others in
    let fresh =
      unseen_code key n (upper key ∷ seen) keys rest coded
        (ground (arith, same_text_refl (upper key))) valid others in
    rw whole (ground (arith, ih.0, fresh), ap suc ih.1)

-- Lane keys that `validate_lane_keys` accepts and that all have a key code have as many different
-- key codes as there are keys: no two lanes press the same key.
pub keycodes-distinct :
    (keys : List (List ℕ)) (codes : List ℕ)
    → validate_lane_keys keys ≡ ok tt
    → keycodes keys ≡ ok codes
    → (distinct codes ≡ true) × (length codes ≡ length keys)
unfolding validate_lane_keys
keycodes-distinct keys codes = validated-distinct [] keys codes
