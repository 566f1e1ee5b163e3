-- ===== src/Keyboard/Moves/Counts.antt =====
-- How many pointers own a lane.
use holodori_phone_trackpad.Prelude.{
  ℕ, zero, suc, ◌+◌, ◌≤◌, ◌<◌, ◌≡◌, refl, arith, ◌==◌, if◌then◌else◌, Option, some, none, List, [],
  ◌∷◌, get_or, set, length, replicate, ap, Bool-cases, ==_iff, inl, inr,
}

unfoldable pub one : ℕ → ℕ → ℕ
one lane l = if lane == l then 1 else 0

abbrev pub one_of : Option ℕ → ℕ → ℕ
one_of none l = 0
one_of (some lane) l = one lane l

unfoldable pub owners : List (Option ℕ) → ℕ → ℕ
owners [] l = 0
owners (o ∷ os) l = one_of o l + owners os l

pub owners-set :
    (os : List (Option ℕ)) (p l : ℕ) (o : Option ℕ)
    → p < length os
    → owners (set os p o) l ≡ owners (set os p none) l + one_of o l
unfolding owners
owners-set [] p l o h = elim h [ ]
owners-set (x ∷ os) zero l o h = omega arith
owners-set (x ∷ os) (suc p) l o h = omega (arith, owners-set os p l o)

pub owners_split :
    (os : List (Option ℕ)) (p l : ℕ)
    → owners os l ≡ owners (set os p none) l + one_of (get_or os p none) l
unfolding owners
owners_split [] p l = omega arith
owners_split (x ∷ os) zero l = omega arith
owners_split (x ∷ os) (suc p) l = omega (arith, owners_split os p l)

pub one-le : (lane l : ℕ) → one lane l ≤ 1
unfolding one
one-le lane l = ground arith

pub owners-le-length : (os : List (Option ℕ)) (l : ℕ) → owners os l ≤ length os
unfolding owners
owners-le-length [] l = omega arith
owners-le-length (none ∷ os) l = omega (arith, owners-le-length os l)
owners-le-length (some x ∷ os) l = omega (arith, owners-le-length os l, one-le x l)

-- A lane that a pointer owns has an owner.
pub owners-positive : (os : List (Option ℕ)) (p l : ℕ) → get_or os p none ≡ some l → 1 ≤ owners os l
unfolding owners one
owners-positive [] p l e = ground arith
owners-positive (x ∷ os) zero l e = ground arith
owners-positive (x ∷ os) (suc p) l e = omega (arith, owners-positive os p l e)

pub owners_exist :
    (os : List (Option ℕ)) (l : ℕ) → 1 ≤ owners os l → ((p : ℕ) × (get_or os p none ≡ some l))
unfolding owners one
owners_exist [] l h = ground arith
owners_exist (none ∷ os) l h = let (p, e) = owners_exist os l (omega (arith, h)) in (suc p, e)
owners_exist (some x ∷ os) l h = elim (Bool-cases (x == l)) [
  | inl same ↦ (0, ap some ((==_iff x l).0 same))
  | inr other ↦ let (p, e) = owners_exist os l (ground (arith, h)) in (suc p, e)
]

pub owners-replicate : (n l : ℕ) → owners (replicate n none) l ≡ 0
unfolding owners
owners-replicate zero l = refl
owners-replicate (suc n) l = omega (arith, owners-replicate n l)
