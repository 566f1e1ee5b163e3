-- ===== src/Prelude/Actions.antt =====
-- Calls that change a state and may fail: what a failing call has changed stays changed.
use mathlib.Core.Path.{◌≡◌, refl}
use mathlib.Core.Bool.{Bool, true, false}
use holodori_phone_trackpad.Prelude.Tests.{if◌then◌else◌}
use holodori_phone_trackpad.Prelude.Results.{Result, ok, err}

abbrev pub Action : Type 0 → Type 0 → Type 0 → Type 0
Action W E A = W → W × Result E A

module _ {W E A : Type 0} where
  unfoldable pub pure : A → Action W E A
  pure a w = (w, ok a)

  unfoldable pub raise : E → Action W E A
  raise e w = (w, err e)

  -- A result that was computed without the state.
  unfoldable pub lift : Result E A → Action W E A
  lift r w = (w, r)

  -- `match call { Ok(a) => …, Err(e) => … }`: the failure as a value, with the error of the caller.
  unfoldable pub attempt : {F : Type 0} → Action W E A → Action W F (Result E A)
  attempt m w = let (w', r) = m w in (w', ok r)

-- `call?` and what follows it.
infixl 5 ◌>>=◌
unfoldable pub ◌>>=◌ : {W E A B : Type 0} → Action W E A → (A → Action W E B) → Action W E B
◌>>=◌ m f w = let (w', r) = m w in elim r [ ok a ↦ f a w' | err e ↦ (w', err e) ]

-- A failure under another error.
unfoldable pub wrapped : {W E F A : Type 0} → (E → F) → Action W E A → Action W F A
wrapped g m w = let (w', r) = m w in (w', elim r [ ok a ↦ ok a | err e ↦ err (g e) ])

-- What is true of the value of a call that returned.
abbrev pub On : {E A : Type 0} → (A → Type 0) → Result E A → Type 0
On Q (ok a) = Q a
On Q (err e) = Unit {0}

module _ {W E A : Type 0} where
  -- `m` keeps `P`, whether it returns or fails, and a value that it returns satisfies `Q`.
  pub record Does (P : W → Type 0) (m : Action W E A) (Q : A → Type 0) : Type 0 where
    pub at : (w : W) → P w → P (m w).0 × On Q (m w).1

module _ {W E A : Type 0} {P : W → Type 0} {Q : A → Type 0} where
  pub Does-pure : (a : A) → Q a → Does {E = E} P (pure a) Q
  unfolding pure
  Does-pure a q = record { at = λ w h. (h, q) }

  pub Does-raise : (e : E) → Does P (raise e) Q
  unfolding raise
  Does-raise e = record { at = λ w h. (h, tt) }

  pub Does-lift : (r : Result E A) → ((a : A) → r ≡ ok a → Q a) → Does P (lift r) Q
  unfolding lift
  Does-lift (ok a) q = record { at = λ w h. (h, q a refl) }
  Does-lift (err e) q = record { at = λ w h. (h, tt) }

  pub Does-attempt :
      {F : Type 0} (m : Action W E A) → Does P m Q → Does {E = F} P (attempt m) (λ r. On Q r)
  unfolding attempt
  Does-attempt m d = record { at = λ w h. d.at w h }

  pub Does-if :
      (b : Bool) (m n : Action W E A)
      → (b ≡ true → Does P m Q)
      → (b ≡ false → Does P n Q)
      → Does P (if b then m else n) Q
  Does-if true m n first second = first refl
  Does-if false m n first second = second refl

module _ {W E A B : Type 0} {P : W → Type 0} {Q : A → Type 0} {R : B → Type 0} where
  after :
      (f : A → Action W E B) (w : W) (r : Result E A)
      → P w
      → On Q r
      → ((a : A) → Q a → Does P (f a) R)
      → let x : W × Result E B = elim r [ ok a ↦ f a w | err e ↦ (w, err e) ] in P x.0 × On R x.1
  after f w (ok a) h q rest = (rest a q).at w h
  after f w (err e) h q rest = (h, tt)

  pub Does-bind :
      (m : Action W E A) (f : A → Action W E B)
      → Does P m Q
      → ((a : A) → Q a → Does P (f a) R)
      → Does P (m >>= f) R
  unfolding ◌>>=◌
  Does-bind m f d rest = record {
    at = λ w h. after f (m w).0 (m w).1 (d.at w h).0 (d.at w h).1 rest;
  }

weaker :
    {E A : Type 0} {Q R : A → Type 0} (r : Result E A) → On Q r → ((a : A) → Q a → R a) → On R r
weaker (ok a) q f = f a q
weaker (err e) q f = tt

module _ {W E A : Type 0} {P : W → Type 0} {Q R : A → Type 0} where
  pub Does-weaken : (m : Action W E A) → Does P m Q → ((a : A) → Q a → R a) → Does P m R
  Does-weaken m d f = record { at = λ w h. let x = d.at w h in (x.0, weaker (m w).1 x.1 f) }

-- What is true of the state and of the result that a call ends with.
abbrev pub Ends : {W E A : Type 0} → (W → Result E A → Type 0) → W × Result E A → Type 0
Ends S x = S x.0 x.1

module _ {W E A B : Type 0} (R : W → Result E A → Type 0) (S : W → Result E B → Type 0) where
  onward :
      (f : A → Action W E B) (w : W) (r : Result E A)
      → R w r
      → ((w' : W) (e : E) → R w' (err e) → S w' (err e))
      → ((w' : W) (a : A) → R w' (ok a) → Ends S (f a w'))
      → Ends S (elim r [ ok a ↦ f a w | err e ↦ (w, err e) ])
  onward f w (ok a) h failed fine = fine w a h
  onward f w (err e) h failed fine = failed w e h

  pub bind-Ends :
      (m : Action W E A) (f : A → Action W E B) (w : W)
      → Ends R (m w)
      → ((w' : W) (e : E) → R w' (err e) → S w' (err e))
      → ((w' : W) (a : A) → R w' (ok a) → Ends S (f a w'))
      → Ends S ((m >>= f) w)
  unfolding ◌>>=◌
  bind-Ends m f w h failed fine = onward f (m w).0 (m w).1 h failed fine

module _ {W E F A B : Type 0} (R : W → Result E A → Type 0) (S : W → Result F B → Type 0) where
  pub attempt-Ends :
      (m : Action W E A) (f : Result E A → Action W F B) (w : W)
      → Ends R (m w)
      → ((w' : W) (r : Result E A) → R w' r → Ends S (f r w'))
      → Ends S ((attempt m >>= f) w)
  unfolding ◌>>=◌ attempt
  attempt-Ends m f w h next = next (m w).0 (m w).1 h

module _ {W E F A : Type 0} (P : W → Type 0) (Q : W → A → Type 0) where
  under_wrap :
      (g : E → F) (w : W) (r : Result E A)
      → P w
      → On (Q w) r
      → P w × On (Q w) (elim r [ ok a ↦ ok a | err e ↦ err (g e) ])
  under_wrap g w (ok a) h q = (h, q)
  under_wrap g w (err e) h q = (h, tt)

  pub wrapped-Ends :
      (g : E → F) (m : Action W E A) (w : W)
      → Ends (λ w' r. P w' × On (Q w') r) (m w)
      → Ends (λ w' r. P w' × On (Q w') r) (wrapped g m w)
  unfolding wrapped
  wrapped-Ends g m w h = under_wrap g (m w).0 (m w).1 h.0 h.1

module _ {W E F A B : Type 0} (R : W → Result E A → Type 0) (S : W → Result F B → Type 0) where
  onward_wrapped :
      (g : E → F) (f : A → Action W F B) (w : W) (r : Result E A)
      → R w r
      → ((w' : W) (e : E) → R w' (err e) → S w' (err (g e)))
      → ((w' : W) (a : A) → R w' (ok a) → Ends S (f a w'))
      → let r' : Result F A = elim r [ ok a ↦ ok a | err e ↦ err (g e) ] in
        Ends S (elim r' [ ok a ↦ f a w | err e ↦ (w, err e) ])
  onward_wrapped g f w (ok a) h failed fine = fine w a h
  onward_wrapped g f w (err x) h failed fine = failed w x h

  pub wrapped_bind-Ends :
      (g : E → F) (m : Action W E A) (f : A → Action W F B) (w : W)
      → Ends R (m w)
      → ((w' : W) (e : E) → R w' (err e) → S w' (err (g e)))
      → ((w' : W) (a : A) → R w' (ok a) → Ends S (f a w'))
      → Ends S ((wrapped g m >>= f) w)
  unfolding ◌>>=◌ wrapped
  wrapped_bind-Ends g m f w h failed fine = onward_wrapped g f (m w).0 (m w).1 h failed fine
