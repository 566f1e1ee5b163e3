-- ===== src/NetworkManager/Observed.antt =====
-- What the calls of `resolve_target` come to, given what each single call does.
use holodori_phone_trackpad.Prelude.{
  ℕ, ◌≡◌, refl, subst, arith, Bool, true, false, Option, some, none, List, [], ◌∷◌, Result, ok, err,
}
use holodori_phone_trackpad.Prelude.Actions.{
  Action, wrapped, pure, raise, On, Ends, Does, Does-pure, Does-raise, Does-lift, Does-if,
  Does-bind, Does-weaken, lift, ◌>>=◌,
}
use holodori_phone_trackpad.Nmcli.Valid.{Checked, parse_active_device-Checked}
use holodori_phone_trackpad.Nmcli.{
  Text, codes, trim, same_text, NmcliError, valid_uuid, valid_device_dbus_path,
}
use holodori_phone_trackpad.NetworkManager.{
  Pair, NetworkError, Backend, Resolution, target, not_available, not_running,
}
use holodori_phone_trackpad.NetworkManager.Resolve.{
  Active, require, asked, read_text, must_verify, inspect_device, inspect_devices, read_target,
  choose_active, resolve_devices, resolve_target, resolve_version, with_found, older,
  minimum_network_manager_version,
}

pub same_text-eq : (a b : Text) → same_text a b ≡ true → a ≡ b
same_text-eq [] [] h = refl
same_text-eq [] (d ∷ ds) h = cc
same_text-eq (c ∷ cs) [] h = cc
same_text-eq (c ∷ cs) (d ∷ ds) h = ground (arith, same_text-eq cs ds)

abbrev pub Anything : {A : Type 0} → A → Type 0
Anything a = Unit {0}

module _ {W : Type 0} {P : W → Type 0} where
  pub Does-wrapped :
      {E F A : Type 0} {Q : A → Type 0} (g : E → F) (m : Action W E A)
      → Does P m Q
      → Does P (wrapped g m) Q
  unfolding wrapped
  Does-wrapped {Q} g m d = record { at = λ w h. let x = d.at w h in (x.0, kept (m w).1 x.1) }
    where
      kept : (r : Result _ _) → On Q r → On Q (elim r [ ok a ↦ ok a | err e ↦ err (g e) ])
      kept (ok a) q = q
      kept (err e) q = tt

  pub Does-require : {E : Type 0} (b : Bool) (e : E) → Does P (require b e) (λ _. b ≡ true)
  unfolding require
  Does-require true e = Does-pure tt refl
  Does-require false e = Does-raise e

pub require-Ends :
    {W E : Type 0} (S : W → Result E (Unit {0}) → Type 0) (b : Bool) (e : E) (w : W)
    → (b ≡ true → S w (ok tt))
    → (b ≡ false → S w (err e))
    → Ends S (require b e w)
unfolding require pure raise
require-Ends S true e w fine failed = fine refl
require-Ends S false e w fine failed = failed refl

module _ {W D : Type 0} (k : Backend W D) where
  -- Every call that only reads keeps `P`, and what it reads of a profile and of the active
  -- settings satisfies `RP` and `RA`.
  pub record Reads (P : W → Type 0) (RP : Text → Pair → Type 0)
      (RA : Text → Text × Bool × Bool → Type 0) : Type 0 where
    pub devices : Does P k.devices Anything
    pub device_name : (d : D) → Does P (k.device_name d) Anything
    pub verify_device : (d : D) → Does P (k.verify_device d) Anything
    pub default_routes_present : (d : D) → Does P (k.default_routes_present d) Anything
    pub daemon_version : Does P k.daemon_version Anything
    pub nmcli : (args : List Text) → Does P (k.nmcli args) Anything
    pub read_profile : (uuid : Text) → Does P (k.read_profile uuid) (RP uuid)
    pub read_active : (path : Text) → Does P (k.read_active path) (RA path)

-- What is known of the device's connection.
abbrev pub Known : {D : Type 0} → Option (Active D) → Type 0
Known none = Unit {0}
Known (some a) =
    (valid_uuid a.connection_uuid ≡ true) × (valid_device_dbus_path a.device_dbus_path ≡ true)

abbrev pub AllKnown : {D : Type 0} → List (Active D) → Type 0
AllKnown [] = Unit {0}
AllKnown (a ∷ as_) = Known (some a) × AllKnown as_

all_known :
    {D : Type 0} (found : Option (Active D)) (others : List (Active D))
    → Known found
    → AllKnown others
    → AllKnown (with_found found others)
all_known none others c cs = cs
all_known (some a) others c cs = (c, cs)

module _ {W D : Type 0} (k : Backend W D) (P : W → Type 0) (RP : Text → Pair → Type 0)
    (RA : Text → Text × Bool × Bool → Type 0) (reads : Reads k P RP RA) where
  -- A target as it was read.
  abbrev pub Resolved : Resolution D → Type 0
  Resolved (target t) =
      (valid_uuid t.connection_uuid ≡ true)
      × (valid_device_dbus_path t.device_dbus_path ≡ true)
      × RP t.connection_uuid t.profile
      × RA t.device_dbus_path (t.connection_uuid, t.applied.0, t.applied.1)
  Resolved (not_available reason) = Unit {0}

  call : {A : Type 0} {Q : A → Type 0} (m : Action W Text A) → Does P m Q → Does P (asked k m) Q
  unfolding asked
  call m d = Does-wrapped _ m d

  pub must_verify-Does : (d : D) → Does P (must_verify k d) Anything
  unfolding must_verify
  must_verify-Does d =
      Does-bind _ _ (call _ (reads.verify_device d))
        (λ fine _. Does-weaken _ (Does-require fine _) (λ _ _. tt))

  text :
      {A : Type 0} {Q : A → Type 0} (r : Result NmcliError A)
      → ((a : A) → r ≡ ok a → Q a)
      → Does P (read_text k r) Q
  unfolding read_text
  text r h = Does-wrapped _ (lift r) (Does-lift r h)

  found_one :
      (d : D) (name : Text) (o : Option (Text × Text))
      → Checked o
      → Does {E = NetworkError} P
          (elim o [
            | none ↦ pure none
            | some (uuid, path) ↦ must_verify k d >>= λ _. pure (
                some (record {
                  device = d;
                  interface_name = name;
                  connection_uuid = uuid;
                  device_dbus_path = path;
                }))
          ])
          (Known {D = D})
  found_one d name none c = Does-pure none tt
  found_one d name (some (uuid, path)) c = Does-bind _ _ (must_verify-Does d) (λ _ _. Does-pure _ c)

  inspect_device-Does : (d : D) → Does P (inspect_device k d) Known
  unfolding inspect_device
  inspect_device-Does d = Does-bind _ _ (call _ (reads.device_name d)) (λ name _.
      Does-bind _ _ (Does-require _ _) (λ _ _. Does-bind _ _ (call _ (reads.nmcli _)) (λ output _.
        Does-bind _ _ (text _ (parse_active_device-Checked output)) (λ o c. found_one d name o c))))

  inspect_devices-Does : (ds : List D) → Does P (inspect_devices k ds) AllKnown
  unfolding inspect_devices
  inspect_devices-Does [] = Does-pure [] tt
  inspect_devices-Does (d ∷ ds) = Does-bind _ _ (inspect_device-Does d) (λ found known.
      Does-bind _ _ (inspect_devices-Does ds)
        (λ others rest. Does-pure _ (all_known found others known rest)))

  read_target-Does : (a : Active D) → Known (some a) → Does P (read_target k a) Resolved
  unfolding read_target
  read_target-Does a c = Does-bind _ _ (call _ (reads.read_profile _)) (λ profile p.
      Does-bind _ _ (call _ (reads.read_active _)) (λ applied q.
        Does-bind _ _ (Does-require _ _) (λ _ equal. Does-bind _ _ (must_verify-Does _) (λ _ _.
          Does-bind _ _ (call _ (reads.default_routes_present _)) (λ routes _.
            Does-bind _ _ (must_verify-Does _) (λ _ _. Does-pure _ (
              c.0,
              c.1,
              p,
              subst (λ (u : Text). RA a.device_dbus_path (u, applied.1, applied.2))
                  (same_text-eq applied.0 a.connection_uuid equal) q,
            )))))))

  choose_active-Does :
      (active : List (Active D)) → AllKnown active → Does P (choose_active k active) Resolved
  unfolding choose_active
  choose_active-Does [] c = Does-pure _ tt
  choose_active-Does (a ∷ []) c = read_target-Does a c.0
  choose_active-Does (a ∷ b ∷ others) c = Does-pure _ tt

  resolve_devices-Does : (version : ℕ × ℕ × ℕ) → Does P (resolve_devices k version) Resolved
  unfolding resolve_devices
  resolve_devices-Does version =
      Does-if (older version minimum_network_manager_version) _ _ (λ _. Does-pure _ tt)
        (λ _. Does-bind _ _ (call _ reads.devices) (λ devices _.
          Does-bind _ _ (inspect_devices-Does devices) (λ active c. choose_active-Does active c)))

  resolve_version-Does : Does P (resolve_version k) Resolved
  unfolding resolve_version
  resolve_version-Does = Does-bind _ _ (call _ reads.daemon_version) (λ output _.
      Does-bind _ _ (text {Q = Anything} _ (λ _ _. tt)) (λ version _. resolve_devices-Does version))

  pub resolve_target-Does : Does P (resolve_target k) Resolved
  unfolding resolve_target
  resolve_target-Does = Does-bind _ _ (call _ (reads.nmcli _)) (λ running _.
      Does-if (same_text (trim running) (codes "running")) (resolve_version k)
        (pure (not_available not_running)) (λ _. resolve_version-Does) (λ _. Does-pure _ tt))
