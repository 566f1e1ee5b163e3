-- ===== src/Wire/Buffers.antt =====
-- Writing into a buffer, part by part.
use mathlib.Core.List.{append_assoc, append-nil}
use holodori_phone_trackpad.Prelude.{
  ℕ, zero, suc, ◌+◌, ◌≡◌, refl, sym, ap, ◌∙◌, arith, List, [], ◌∷◌, ◌++◌, length, set, get_or, drop,
  take, ◌-◌, ◌≤◌, replicate, length-append,
}
use holodori_phone_trackpad.Wire.{copy_at}

set-append :
    (xs ys : List ℕ) (y b : ℕ) → set (xs ++ (y ∷ ys)) (length xs) b ≡ (xs ++ (b ∷ [])) ++ ys
set-append [] ys y b = refl
set-append (x ∷ xs) ys y b = ap (λ (t : List ℕ). x ∷ t) (set-append xs ys y b)

-- A part replaces as many elements as it has, and what follows them stays.
pub copy_at_middle :
    (xs ys zs source : List ℕ)
    → length ys ≡ length source
    → copy_at (xs ++ (ys ++ zs)) (length xs) source ≡ xs ++ (source ++ zs)
unfolding copy_at
copy_at_middle xs [] zs [] h = refl
copy_at_middle xs [] zs (b ∷ source) h = absurd (omega arith)
copy_at_middle xs (y ∷ ys) zs [] h = absurd (omega arith)
copy_at_middle xs (y ∷ ys) zs (b ∷ source) h =
    let more : length (xs ++ (b ∷ [])) ≡ suc (length xs) =
      omega (arith, length-append xs (b ∷ [])) in
    ap (λ (t : List ℕ). copy_at t (suc (length xs)) source) (set-append xs (ys ++ zs) y b)
    ∙ ap (λ (n : ℕ). copy_at ((xs ++ (b ∷ [])) ++ (ys ++ zs)) n source) (sym more)
    ∙ copy_at_middle (xs ++ (b ∷ [])) ys zs source (omega arith)
    ∙ append_assoc xs (b ∷ []) (source ++ zs)

-- A part as long as what is left of the buffer replaces all of it.
pub copy_at_end :
    (xs ys source : List ℕ)
    → length ys ≡ length source
    → copy_at (xs ++ ys) (length xs) source ≡ xs ++ source
copy_at_end xs ys source h =
    rw (append-nil ys, append-nil source) at (copy_at_middle xs ys [] source h)

pub replicate-add : (n m : ℕ) (v : ℕ) → replicate (n + m) v ≡ replicate n v ++ replicate m v
replicate-add zero m v = ground arith
replicate-add (suc n) m v =
    let next : suc n + m ≡ suc (n + m) = omega arith in
    rw next (ap (λ (t : List ℕ). v ∷ t) (replicate-add n m v))

-- The elements of a list from `index` on, one by one.
unfoldable pub elements : List ℕ → ℕ → ℕ → List ℕ
elements xs index zero = []
elements xs index (suc count) = get_or xs index 0 ∷ elements xs (suc index) count

elements-cons :
    (x : ℕ) (xs : List ℕ) (index count : ℕ)
    → elements (x ∷ xs) (suc index) count ≡ elements xs index count
unfolding elements
elements-cons x xs index zero = refl
elements-cons x xs index (suc count) =
    ap (λ (t : List ℕ). get_or xs index 0 ∷ t) (elements-cons x xs (suc index) count)

pub elements_all : (xs : List ℕ) → elements xs 0 (length xs) ≡ xs
unfolding elements
elements_all [] = refl
elements_all (x ∷ xs) =
    ap (λ (t : List ℕ). x ∷ t) (elements-cons x xs 0 (length xs) ∙ elements_all xs)

-- A buffer as its first elements and the rest.
pub elements-drop :
    (count : ℕ) (xs : List ℕ) → count ≤ length xs → elements xs 0 count ++ drop count xs ≡ xs
unfolding elements
elements-drop zero xs h = refl
elements-drop (suc count) [] h = absurd (omega arith)
elements-drop (suc count) (x ∷ xs) h =
    ap (λ (t : List ℕ). x ∷ (t ++ drop count xs)) (elements-cons x xs 0 count)
    ∙ ap (λ (t : List ℕ). x ∷ t) (elements-drop count xs (omega arith))

pub take-append : (xs ys : List ℕ) → take (length xs) (xs ++ ys) ≡ xs
take-append [] ys = refl
take-append (x ∷ xs) ys = ap (λ (t : List ℕ). x ∷ t) (take-append xs ys)

pub drop-append : (xs ys : List ℕ) → drop (length xs) (xs ++ ys) ≡ ys
drop-append [] ys = refl
drop-append (x ∷ xs) ys = drop-append xs ys

drop-nil : (n : ℕ) → drop {A = ℕ} n [] ≡ []
drop-nil zero = refl
drop-nil (suc n) = refl

pub drop-add : (n m : ℕ) (xs : List ℕ) → drop (n + m) xs ≡ drop m (drop n xs)
drop-add zero m xs = let e : zero + m ≡ m = omega arith in rw e
drop-add (suc n) m [] = rw (drop-nil (suc n + m), drop-nil m)
drop-add (suc n) m (x ∷ xs) =
    let e : suc n + m ≡ suc (n + m) = omega arith in rw e (drop-add n m xs)

take-drop :
    (n : ℕ) (xs : List ℕ) → n ≤ length xs → (take n xs ++ drop n xs ≡ xs) × (length (take n xs) ≡ n)
take-drop zero xs h = (refl, refl)
take-drop (suc n) [] h = absurd (omega arith)
take-drop (suc n) (x ∷ xs) h =
    let (joined, long) = take-drop n xs (omega arith) in
    (ap (λ (t : List ℕ). x ∷ t) joined, ap suc long)

-- A part is written over the front of what is left of the buffer.
pub copy_at_into :
    (xs rest source : List ℕ)
    → length source ≤ length rest
    → copy_at (xs ++ rest) (length xs) source ≡ xs ++ (source ++ drop (length source) rest)
copy_at_into xs rest source h =
    let (joined, long) = take-drop (length source) rest h in
    ap (λ (t : List ℕ). copy_at (xs ++ t) (length xs) source) (sym joined)
    ∙ copy_at_middle xs (take (length source) rest) (drop (length source) rest) source long

pub length-drop : (n : ℕ) (xs : List ℕ) → length (drop n xs) ≡ length xs - n
length-drop zero xs = omega arith
length-drop (suc n) [] = omega arith
length-drop (suc n) (x ∷ xs) = omega (arith, length-drop n xs)
