-- ===== src/NetworkManager/Manager.antt =====
-- What is documented of NetworkManager: reads change nothing and are true, and a write that
-- returns has been done; `gone` is what an answer that a device is not there leaves behind, such as
-- an entry in a log. Nobody else changes the settings meanwhile.
use holodori_phone_trackpad.Prelude.{◌≡◌, refl, ◌∙◌, Bool, true, false, Result, ok}
use holodori_phone_trackpad.Prelude.Actions.{Action, On, Ends, Does}
use holodori_phone_trackpad.Nmcli.{Text}
use holodori_phone_trackpad.NetworkManager.{Pair, same_pair, Backend}
use holodori_phone_trackpad.NetworkManager.Observed.{Reads}

abbrev pub Active : Type 0
Active = Text × Bool × Bool

pub same_pair-eq : (p q : Pair) → same_pair p q ≡ true → p ≡ q
same_pair-eq (true, true) (true, true) h = refl
same_pair-eq (true, true) (true, false) h = absurd (cc)
same_pair-eq (true, true) (false, b) h = absurd (cc)
same_pair-eq (true, false) (true, true) h = absurd (cc)
same_pair-eq (true, false) (true, false) h = refl
same_pair-eq (true, false) (false, b) h = absurd (cc)
same_pair-eq (false, true) (false, true) h = refl
same_pair-eq (false, true) (false, false) h = absurd (cc)
same_pair-eq (false, true) (true, b) h = absurd (cc)
same_pair-eq (false, false) (false, true) h = absurd (cc)
same_pair-eq (false, false) (false, false) h = refl
same_pair-eq (false, false) (true, b) h = absurd (cc)

module _ {W D : Type 0} (k : Backend W D) (profile : W → Text → Pair) (active : W → Text → Active)
    (gone : D → W → Type 0) where
  -- The settings are those of `w`.
  pub record Same (w w' : W) : Type 0 where
    pub profiles : (uuid : Text) → profile w' uuid ≡ profile w uuid
    pub actives : (path : Text) → active w' path ≡ active w path
    -- What was found to be gone stays found.
    pub still : (d : D) → gone d w → gone d w'

  pub record IsManager : Type 0 where
    pub reads :
        (w : W) → Reads k (Same w) (λ uuid p. p ≡ profile w uuid) (λ path a. a ≡ active w path)
    -- `gone` holds of a device once it was asked for and not there.
    pub finds :
        (d : D) (w : W) → (k.verify_device d w).1 ≡ ok false → gone d (k.verify_device d w).0
    pub updates :
        (uuid : Text) (expected desired : Pair) (w : W)
        → Ends
            (λ w' r.
              ((path : Text) → active w' path ≡ active w path)
              × On (λ _. profile w' uuid ≡ desired) r)
            (k.update_profile uuid expected desired w)
    pub applies :
        (path uuid : Text) (expected desired : Pair) (w : W)
        → Ends
            (λ w' r.
              ((u : Text) → profile w' u ≡ profile w u)
              × On (λ _. active w' path ≡ (uuid, desired.0, desired.1)) r)
            (k.apply_active path uuid expected desired w)

  pub Same-refl : (w : W) → Same w w
  Same-refl w = record { profiles = λ uuid. refl; actives = λ path. refl; still = λ d g. g }

  pub Same-trans : {w w' w'' : W} → Same w w' → Same w' w'' → Same w w''
  Same-trans a b = record {
    profiles = λ uuid. b.profiles uuid ∙ a.profiles uuid;
    actives = λ path. b.actives path ∙ a.actives path;
    still = λ d g. b.still d (a.still d g);
  }

  -- A read, from `w` on.
  abbrev pub Read : {E A : Type 0} → W → W × Result E A → (A → Type 0) → W → Result E A → Type 0
  Read w x Q w' r = Same w w' × On Q r × (r ≡ x.1) × (w' ≡ x.0)

  pub read :
      {E A : Type 0} {Q : A → Type 0} (w : W) (m : Action W E A)
      → Does (Same w) m Q
      → Ends (Read w (m w) Q) (m w)
  read w m d = let x = d.at w (Same-refl w) in (x.0, x.1, refl, refl)
