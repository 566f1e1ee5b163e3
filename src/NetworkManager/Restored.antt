-- ===== src/NetworkManager/Restored.antt =====
-- A rollback that reports success has put the settings back.
use holodori_phone_trackpad.Prelude.{
  ◌≡◌, ◌∙◌, Bool, true, false, Result, ok, err, Bool-cases, inl, inr, ◌⊎◌,
}
use holodori_phone_trackpad.Prelude.Actions.{pure, raise, lift, On, Ends, bind-Ends, attempt-Ends}
use holodori_phone_trackpad.Nmcli.{Text}
use holodori_phone_trackpad.NetworkManager.{Pair, same_pair, NetworkError, Backend, Target}
use holodori_phone_trackpad.NetworkManager.Rollback.{
  all_ok, check_present, check_routes, rollback_profile,
}
use holodori_phone_trackpad.NetworkManager.Observed.{Anything}
use holodori_phone_trackpad.NetworkManager.Manager.{Active, Same, Same-trans, IsManager, Read}
use holodori_phone_trackpad.NetworkManager.Persistent.{ask, PersistentDone, restore_persistent-Done}
use holodori_phone_trackpad.NetworkManager.Applied.{ActiveDone, restore_active-Done}

module _ {W D : Type 0} (k : Backend W D) (profile : W → Text → Pair) (active : W → Text → Active)
    (gone : D → W → Type 0) (manager : IsManager k profile active gone) where
  check_present-Same :
      (t : Target D) (w w' : W) (present : Bool)
      → Same k profile active gone w w'
      → Ends (λ w'' r. Same k profile active gone w w'') (check_present k t present w')
  unfolding check_present pure raise
  check_present-Same t w w' false h = h
  check_present-Same t w w' true h =
      bind-Ends (Read k profile active gone w' _ Anything)
        (λ w'' r. Same k profile active gone w w'') _ _ w'
        (ask k profile active gone manager w' _
          ((manager.reads w').default_routes_present t.device))
        (λ w'' e read. Same-trans k profile active gone h read.0)
        (λ w'' routes read. elim (Bool-cases (same_pair routes t.default_routes)) [
          | inl equal ↦ rw equal (Same-trans k profile active gone h read.0)
          | inr other ↦ rw other (Same-trans k profile active gone h read.0)
        ])

  check_routes-Same :
      (t : Target D) (w : W) → Ends (λ w' r. Same k profile active gone w w') (check_routes k t w)
  unfolding check_routes
  check_routes-Same t w =
      bind-Ends (Read k profile active gone w _ Anything) (λ w' r. Same k profile active gone w w')
        _ _ w (ask k profile active gone manager w _ ((manager.reads w).verify_device t.device))
        (λ w' e read. read.0) (λ w' present read. check_present-Same t w w' present read.0)

  -- The settings are as they were when the target was chosen, unless the device is gone.
  abbrev pub Restored : Target D → W → Type 0
  Restored t w =
      (profile w t.connection_uuid ≡ t.profile)
      × ((active w t.device_dbus_path ≡ (t.connection_uuid, t.applied.0, t.applied.1))
          ⊎ gone t.device w)

  all_ok-On :
      (p a r : Result NetworkError (Unit {0})) (A B : Type 0)
      → On (λ _. A) p
      → On (λ _. B) a
      → On (λ _. A × B) (all_ok (record { persistent = p; active = a; routes = r }))
  all_ok-On (err e) a r A B x y = tt
  all_ok-On (ok _) (err e) r A B x y = tt
  all_ok-On (ok _) (ok _) (err e) A B x y = tt
  all_ok-On (ok _) (ok _) (ok _) A B x y = (x, y)

  -- From any settings: a rollback that reports success has left the target's profile as it was
  -- when the target was chosen, and its active settings too unless the device was asked for and
  -- not there. Reads are true and change nothing, and writes that return are done.
  pub rollback_profile-Restored :
      (t : Target D) (owned : Pair) (w : W)
      → Ends (λ w' r. On (λ _. Restored t w') r) (rollback_profile k t owned w)
  unfolding rollback_profile lift
  rollback_profile-Restored t owned w =
      attempt-Ends (PersistentDone k profile active gone manager t w)
        (λ w' r. On (λ _. Restored t w') r) _ _ w
        (restore_persistent-Done k profile active gone manager t owned w)
        (λ w1 p first.
          attempt-Ends (ActiveDone k profile active gone manager t w1)
            (λ w' r. On (λ _. Restored t w') r) _ _ w1
            (restore_active-Done k profile active gone manager t owned w1)
            (λ w2 a second.
              attempt-Ends (λ w3 r. Same k profile active gone w2 w3)
                (λ w' r. On (λ _. Restored t w') r) _ _ w2 (check_routes-Same t w2)
                (λ w3 r third.
                  all_ok-On p a r _ _
                    (moved p
                      (λ e. third.profiles t.connection_uuid ∙ second.0 t.connection_uuid ∙ e)
                      first.1)
                    (moved a (still w2 w3 third (third.actives t.device_dbus_path)) second.1))))
    where
      moved :
          {A B : Type 0} (r : Result NetworkError (Unit {0}))
          → (A → B)
          → On (λ _. A) r
          → On (λ _. B) r
      moved (ok _) f x = f x
      moved (err e) f x = tt

      still :
          (w2 w3 : W)
          → Same k profile active gone w2 w3
          → active w3 t.device_dbus_path ≡ active w2 t.device_dbus_path
          → (active w2 t.device_dbus_path ≡ (t.connection_uuid, t.applied.0, t.applied.1))
            ⊎ gone t.device w2
          → (active w3 t.device_dbus_path ≡ (t.connection_uuid, t.applied.0, t.applied.1))
            ⊎ gone t.device w3
      still w2 w3 same e (inl h) = inl (e ∙ h)
      still w2 w3 same e (inr g) = inr (same.still t.device g)
