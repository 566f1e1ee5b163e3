-- ===== src/NetworkManager/Applied.antt =====
-- The active settings after a rollback.
use holodori_phone_trackpad.Prelude.{
  ◌≡◌, refl, sym, subst, ap, ◌∙◌, Bool, true, false, Result, ok, err, Bool-cases, inl, inr, ◌⊎◌,
}
use holodori_phone_trackpad.Prelude.Actions.{
  pure, raise, On, Ends, bind-Ends, attempt-Ends, wrapped-Ends,
}
use holodori_phone_trackpad.Nmcli.{Text, same_text}
use holodori_phone_trackpad.NetworkManager.{
  Pair, same_pair, NetworkError, backend, Backend, Target, device_changed,
}
use holodori_phone_trackpad.NetworkManager.Resolve.{asked}
use holodori_phone_trackpad.NetworkManager.Rollback.{
  apply_profile_from, active_read, restore_present, restore_active,
}
use holodori_phone_trackpad.NetworkManager.Observed.{Anything, same_text-eq, require-Ends}
use holodori_phone_trackpad.NetworkManager.Manager.{Active, same_pair-eq, Same, IsManager, Read}
use holodori_phone_trackpad.NetworkManager.Persistent.{ask, asked_gone}

module _ {W D : Type 0} (k : Backend W D) (profile : W → Text → Pair) (active : W → Text → Active)
    (gone : D → W → Type 0) (manager : IsManager k profile active gone) where
  -- What restored active settings are, from `w` on.
  abbrev pub ActiveDone : Target D → W → W → Result NetworkError (Unit {0}) → Type 0
  ActiveDone t w w' r =
      ((uuid : Text) → profile w' uuid ≡ profile w uuid)
      × On
          (λ _.
            (active w' t.device_dbus_path ≡ (t.connection_uuid, t.applied.0, t.applied.1))
            ⊎ gone t.device w')
          r

  apply_profile_from-Done :
      (t : Target D) (expected : Pair) (w : W)
      → Ends (ActiveDone t w) (apply_profile_from k t expected t.applied w)
  unfolding apply_profile_from asked
  apply_profile_from-Done t expected w =
      bind-Ends
        (λ w' r.
          ((uuid : Text) → profile w' uuid ≡ profile w uuid)
          × On (λ _. active w' t.device_dbus_path ≡ (t.connection_uuid, t.applied.0, t.applied.1))
              r)
        (ActiveDone t w) _ _ w
        (wrapped-Ends (λ w'. (uuid : Text) → profile w' uuid ≡ profile w uuid)
          (λ w' _. active w' t.device_dbus_path ≡ (t.connection_uuid, t.applied.0, t.applied.1))
          backend _ w (manager.applies t.device_dbus_path t.connection_uuid expected t.applied w))
        (λ w' e h. (h.0, tt))
        (λ w' _ h.
          bind-Ends (Read k profile active gone w' _ Anything) (ActiveDone t w) _ _ w'
            (ask k profile active gone manager w' _ ((manager.reads w').verify_device t.device))
            (λ w'' e read. ((λ uuid. read.0.profiles uuid ∙ h.0 uuid), tt))
            (λ w'' fine read.
              require-Ends (ActiveDone t w) fine device_changed w''
                (λ _. (
                  (λ uuid. read.0.profiles uuid ∙ h.0 uuid),
                  inl (read.0.actives t.device_dbus_path ∙ h.1),
                ))
                (λ _. ((λ uuid. read.0.profiles uuid ∙ h.0 uuid), tt))))

  active_read-Done :
      (t : Target D) (owned : Pair) (w w' : W) (r : Result NetworkError Active)
      → Same k profile active gone w w'
      → On (λ a. a ≡ active w t.device_dbus_path) r
      → Ends (ActiveDone t w) (active_read k t owned r w')
  unfolding active_read raise pure
  active_read-Done t owned w w' (err e) h q = (h.profiles, tt)
  active_read-Done t owned w w' (ok (uuid, ipv4, ipv6)) h q =
      elim (Bool-cases (same_text uuid t.connection_uuid)) [
        | inr foreign ↦ rw foreign (h.profiles, tt)
        | inl ours ↦ elim (Bool-cases (same_pair (ipv4, ipv6) t.applied)) [
          | inl equal ↦
              let e : (uuid, ipv4, ipv6) ≡ (t.connection_uuid, t.applied.0, t.applied.1) = cc (
                same_text-eq uuid t.connection_uuid ours,
                same_pair-eq (ipv4, ipv6) t.applied equal,
              ) in
              rw (ours, equal) (h.profiles, inl (h.actives t.device_dbus_path ∙ sym q ∙ e))
          | inr other ↦ elim (Bool-cases (same_pair (ipv4, ipv6) owned)) [
            | inr newer ↦ rw (ours, other, newer) (h.profiles, tt)
            | inl written ↦
                let d = apply_profile_from-Done t owned w' in
                rw (ours, other, written) ((λ u. d.0 u ∙ h.profiles u), d.1)
          ]
        ]
      ]

  restore_present-Done :
      (t : Target D) (owned : Pair) (w w' : W) (present : Bool)
      → Same k profile active gone w w'
      → (present ≡ false → gone t.device w')
      → Ends (ActiveDone t w) (restore_present k t owned present w')
  unfolding restore_present pure
  restore_present-Done t owned w w' false h absent = (h.profiles, inr (absent refl))
  restore_present-Done t owned w w' true h absent =
      attempt-Ends (Read k profile active gone w' _ (λ a. a ≡ active w' t.device_dbus_path))
        (ActiveDone t w) _ _ w'
        (ask k profile active gone manager w' _ ((manager.reads w').read_active t.device_dbus_path))
        (λ w'' r read.
          let d = active_read-Done t owned w' w'' r read.0 read.1 in
          ((λ u. d.0 u ∙ h.profiles u), d.1))

  pub restore_active-Done :
      (t : Target D) (owned : Pair) (w : W) → Ends (ActiveDone t w) (restore_active k t owned w)
  unfolding restore_active
  restore_active-Done t owned w =
      bind-Ends (Read k profile active gone w _ Anything) (ActiveDone t w) _ _ w
        (ask k profile active gone manager w _ ((manager.reads w).verify_device t.device))
        (λ w' e read. (read.0.profiles, tt))
        (λ w' present read. restore_present-Done t owned w w' present read.0 (λ absent.
          subst (gone t.device) (sym read.3)
            (asked_gone k profile active gone manager t.device w (sym read.2 ∙ ap ok absent))))
