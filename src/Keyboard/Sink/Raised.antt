-- ===== src/Keyboard/Sink/Raised.antt =====
-- What the releases do to the keys of the system.
use holodori_phone_trackpad.Prelude.{
  ℕ, zero, suc, ◌+◌, ◌<◌, ◌≤◌, ◌≡◌, refl, ap, ◌∙◌, arith, Bool, true, false, ◌==◌, ltb, List, [],
  ◌∷◌, length, take, get_or, Bool-cases, inl, inr, ok, Result-cases, ==_iff,
}
use holodori_phone_trackpad.Keyboard.{KeyChange}
use holodori_phone_trackpad.Keyboard.Moves.{settle}
use holodori_phone_trackpad.Keyboard.Sink.{
  KeyOutput, KeyboardSink, releases, submit_releases, release_all_with, release_all,
}

-- What a sink of the system promises, where `down` are the keys that are down: a submission that
-- returns has made as many of the changes as it says, in their order, and to discard what is half
-- made leaves the keys as they were.
pub record IsKeyOutput {S : Type 0} (output : KeyOutput S) (down : S → ℕ → Bool) : Type 0 where
  pub submits :
      (s : S) (changes : List KeyChange) (count : ℕ)
      → (output.submit s changes).1 ≡ ok count
      → count ≤ length changes
      → (l : ℕ) → down (output.submit s changes).0 l ≡ settle (down s l) l (take count changes)
  pub discards :
      (s : S)
      → (output.discard_pending s).1 ≡ ok tt
      → (l : ℕ) → down (output.discard_pending s).0 l ≡ down s l

pub take-all : (n : ℕ) (cs : List KeyChange) → n ≡ length cs → take n cs ≡ cs
take-all zero [] h = refl
take-all zero (c ∷ cs) h = ground arith
take-all (suc n) [] h = refl
take-all (suc n) (c ∷ cs) h =
    ap (λ (xs : List KeyChange). c ∷ xs) (take-all n cs (omega (arith, h)))

-- The releases of the lanes from `n` on leave those before alone.
settle-releases_before :
    (n l : ℕ) (ps : List Bool) (b : Bool) → l < n → settle b l (releases n ps) ≡ b
unfolding settle releases
settle-releases_before n l [] b h = refl
settle-releases_before n l (p ∷ ps) b h =
    ground (arith, settle-releases_before (n + 1) l ps b (omega (arith, h)))

-- After the releases of the keys that are down, none is.
settle-releases :
    (n l : ℕ) (ps : List Bool) → settle (get_or ps l false) (n + l) (releases n ps) ≡ false
unfolding settle releases
settle-releases n l [] = refl
settle-releases n zero (true ∷ ps) =
    ground (arith, settle-releases_before (n + 1) (n + 0) ps false (omega arith))
settle-releases n zero (false ∷ ps) = settle-releases_before (n + 1) (n + 0) ps false (omega arith)
settle-releases n (suc l) (p ∷ ps) =
    let ih = settle-releases (n + 1) l ps in
    let e : n + suc l ≡ n + 1 + l = omega arith in rw e (ground (arith, ih))

module _ {S : Type 0} (output : KeyOutput S) (down : S → ℕ → Bool)
    (promises : IsKeyOutput output down) where
  submit_releases-Raised :
      (now : ℕ) (k : KeyboardSink S) (cs : List KeyChange)
      → ((l : ℕ) → settle (down k.sink l) l cs ≡ false)
      → (submit_releases output k now cs).1 ≡ ok tt
      → (l : ℕ) → down (submit_releases output k now cs).0.sink l ≡ false
  unfolding submit_releases settle
  submit_releases-Raised now k [] up h l = up l
  submit_releases-Raised now k (c ∷ cs) up h l =
      let changes : List KeyChange = c ∷ cs in
      elim (Result-cases (output.submit k.sink changes).1) [
        | inr (x, failed) ↦ absurd (ground (arith, h, failed))
        | inl (accepted, answered) ↦ elim (Bool-cases (ltb (length changes) accepted)) [
          | inl excess ↦ absurd (ground (arith, h, answered, excess))
          | inr fine ↦ elim (Bool-cases (accepted == length changes)) [
            | inr part ↦ absurd (ground (arith, h, answered, fine, part))
            | inl all ↦
                let same = (==_iff accepted (length changes)).0 all in
                rw (submit_releases, answered, fine, all)
                  (promises.submits k.sink changes accepted answered (omega (arith, same)) l
                    ∙ ap (settle (down k.sink l) l) (take-all accepted changes same)
                    ∙ up l)
          ]
        ]
      ]

  -- A release of all keys that succeeds leaves no key of the system down.
  pub release_all-Raised :
      (now : ℕ) (k : KeyboardSink S)
      → ((l : ℕ) → down k.sink l ≡ get_or k.pressed l false)
      → (release_all output k now).1 ≡ ok tt
      → (l : ℕ) → down (release_all output k now).0.sink l ≡ false
  unfolding release_all release_all_with
  release_all-Raised now k right h = elim (Result-cases (output.discard_pending k.sink).1) [
    | inr (x, failed) ↦ absurd (ground (arith, h, failed))
    | inl (x, dropped) ↦
        rw (release_all, dropped)
          (submit_releases-Raised now _ (releases 0 k.pressed)
            (λ l.
              ap (λ (b : Bool). settle b l (releases 0 k.pressed))
                (promises.discards k.sink dropped l ∙ right l)
              ∙ ap (λ (n : ℕ). settle (get_or k.pressed l false) n (releases 0 k.pressed)) {x = l}
                  {y = 0 + l} (omega arith)
              ∙ settle-releases 0 l k.pressed)
            (rw (release_all, dropped) at h))
  ]
