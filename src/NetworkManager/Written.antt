-- ===== src/NetworkManager/Written.antt =====
-- How a change of the policy ends from the writing of the profile on.
use holodori_phone_trackpad.Prelude.{
  if◌then◌else◌, ◌≡◌, refl, sym, ap, ◌∙◌, arith, Bool, true, false, not, ◌&&◌, ◌||◌, Result, ok,
  err, Bool-cases, inl, inr, ◌⊎◌,
}
use holodori_phone_trackpad.Prelude.Actions.{
  Action, pure, raise, On, Ends, attempt-Ends, wrapped_bind-Ends,
}
use holodori_phone_trackpad.Nmcli.{Text}
use holodori_phone_trackpad.NetworkManager.{
  Pair, same_pair, NetworkError, RollbackError, Backend, Target, device_changed, Resolution, target,
  not_available, SetError, failed, unavailable, with_rollback, LinuxLocalOnlyStatus, settings_all,
  policy_enabled,
}
use holodori_phone_trackpad.NetworkManager.Resolve.{asked, resolve_target}
use holodori_phone_trackpad.NetworkManager.Rollback.{rollback_profile}
use holodori_phone_trackpad.NetworkManager.Change.{
  same_selection, same_values, is_unchanged, confirm_original_or_rollback, undone, retained,
  confirm_found, confirm, activate_present, activate, check_read, check_profile, change_profile,
}
use holodori_phone_trackpad.NetworkManager.Observed.{
  Anything, same_text-eq, Resolved, resolve_target-Does,
}
use holodori_phone_trackpad.NetworkManager.Manager.{
  Active, same_pair-eq, Same, Same-refl, IsManager, Read,
}
use holodori_phone_trackpad.NetworkManager.Persistent.{ask}
use holodori_phone_trackpad.NetworkManager.Restored.{Restored, rollback_profile-Restored}
use holodori_phone_trackpad.NetworkManager.Status.{
  Reported, and_true, settings_all-eq, target_status-Reported,
}

module _ {W D : Type 0} (k : Backend W D) (profile : W → Text → Pair) (active : W → Text → Active)
    (gone : D → W → Type 0) (manager : IsManager k profile active gone) where
  -- How a change that began at `w` with the target `t` has ended at `w'`.
  abbrev pub Outcome : Target D → Bool → W → W → Result SetError LinuxLocalOnlyStatus → Type 0
  -- Done, and reported as done.
  Outcome t enabled w w' (ok s) =
      Reported enabled s
      × (profile w' t.connection_uuid ≡ (enabled, enabled))
      × (active w' t.device_dbus_path ≡ (t.connection_uuid, enabled, enabled))
  -- Nothing was changed, or else the profile was written and the last call, to verify the device, failed.
  Outcome t enabled w w' (err (failed e)) =
      Same k profile active gone w w'
      ⊎ ((profile w' t.connection_uuid ≡ (enabled, enabled))
          × ((v : W) × ((asked k (k.verify_device t.device) v).1 ≡ err e)
              × (w' ≡ (asked k (k.verify_device t.device) v).0)))
  Outcome t enabled w w' (err (unavailable reason)) = Same k profile active gone w w'
  -- The settings are what they were before, unless the device was found to be gone.
  Outcome t enabled w w' (err (with_rollback e (ok _))) =
      (profile w' t.connection_uuid ≡ profile w t.connection_uuid)
      × ((active w' t.device_dbus_path ≡ active w t.device_dbus_path) ⊎ gone t.device w')
  -- Reported as not taken back.
  Outcome t enabled w w' (err (with_rollback e (err r))) = Unit {0}

  module _ (t : Target D) (enabled : Bool) (w : W)
      (chosen : profile w t.connection_uuid ≡ t.profile)
      (applied : active w t.device_dbus_path ≡ (t.connection_uuid, t.applied.0, t.applied.1)) where
    abbrev Over : W → Result SetError LinuxLocalOnlyStatus → Type 0
    Over = Outcome t enabled w

    undone-Over :
        (rollback : Action W RollbackError (Unit {0})) (e : NetworkError) (v : W)
        → Ends (λ w' r. On (λ _. Restored k profile active gone manager t w') r) (rollback v)
        → Ends Over (undone k rollback e v)
    unfolding undone raise
    undone-Over rollback e v h =
        attempt-Ends (λ w' r. On (λ _. Restored k profile active gone manager t w') r) Over _ _ v h
          (λ w' r d. ended w' r d)
      where
        ended :
            (w' : W) (r : Result RollbackError (Unit {0}))
            → On (λ _. Restored k profile active gone manager t w') r
            → Over w' (err (with_rollback e r))
        ended w' (err x) d = tt
        ended w' (ok _) (d, inl a) = (d ∙ sym chosen, inl (a ∙ sym applied))
        ended w' (ok _) (d, inr gone) = (d ∙ sym chosen, inr gone)

    rolled_back :
        (e : NetworkError) (v : W)
        → Ends Over (undone k (rollback_profile k t (enabled, enabled)) e v)
    rolled_back e v =
        undone-Over _ e v
          (rollback_profile-Restored k profile active gone manager t (enabled, enabled) v)

    -- What a resolution found, from `v` on.
    abbrev Found : W → W → Result NetworkError (Resolution D) → Type 0
    Found v v' r =
        Same k profile active gone v v'
        × On
            (Resolved k (Same k profile active gone v) (λ uuid p. p ≡ profile v uuid)
              (λ path a. a ≡ active v path) (manager.reads v))
            r

    resolved : (v : W) → Ends (Found v) (resolve_target k v)
    resolved v =
        (resolve_target-Does k _ _ _ (manager.reads v)).at v (Same-refl k profile active gone v)

    retained-eq :
        (current : Target D)
        → retained k t current enabled ≡ true
        → (settings_all current enabled ≡ true)
          × (current.connection_uuid ≡ t.connection_uuid)
          × (current.device_dbus_path ≡ t.device_dbus_path)
    unfolding retained same_selection
    retained-eq current h =
        let x = and_true _ _ h in
        let y = and_true _ _ x.0 in
        let z = and_true _ _ y.0 in
        (
          either enabled (settings_all current enabled) (policy_enabled current)
              (settings_all current true) (λ e. ap (settings_all current) e) x.1,
          same_text-eq _ _ z.1,
          same_text-eq _ _ y.1,
        )
      where
        either :
            (b s p u : Bool)
            → (b ≡ true → s ≡ u)
            → ((s && (not b || p)) || (b && u)) ≡ true
            → s ≡ true
        either b s p u e h = ground (arith, e)

    confirm_found-Over :
        (v v' : W) (r : Result NetworkError (Resolution D))
        → Found v v' r
        → Ends Over (confirm_found k t enabled r v')
    unfolding confirm_found pure
    confirm_found-Over v v' (err e) h = rolled_back _ v'
    confirm_found-Over v v' (ok (not_available reason)) h = rolled_back _ v'
    confirm_found-Over v v' (ok (target current)) (h, (u, p, q, a)) =
        elim (Bool-cases (retained k t current enabled)) [
          | inr lost ↦ rw lost (rolled_back _ v')
          | inl kept ↦
              let e = retained-eq current kept in
              let s = settings_all-eq current enabled e.0 in
              let there : (current.connection_uuid, current.applied.0, current.applied.1)
                  ≡ (t.connection_uuid, enabled, enabled) =
                λ i. (e.1 i, (s.1 i).0, (s.1 i).1) in
              rw kept (
                target_status-Reported current enabled e.0,
                h.profiles t.connection_uuid ∙ ap (profile v) (sym e.1) ∙ sym q ∙ s.0,
                h.actives t.device_dbus_path ∙ ap (active v) (sym e.2) ∙ sym a ∙ there,
              )
        ]

    confirm-Over :
        (v : W) (r : Result NetworkError (Unit {0})) → Ends Over (confirm k t enabled r v)
    unfolding confirm
    confirm-Over v (err e) = rolled_back e v
    confirm-Over v (ok _) =
        attempt-Ends (Found v) Over _ _ v (resolved v) (λ v' r h. confirm_found-Over v v' r h)

    activate_present-Over :
        (v : W) (present : Bool) → Ends Over (activate_present k t enabled present v)
    unfolding activate_present
    activate_present-Over v false = rolled_back device_changed v
    activate_present-Over v true =
        attempt-Ends (λ v' r. Unit {0}) Over _ _ v tt (λ v' r _. confirm-Over v' r)

    -- The one failure after the profile was written that nothing is done about.
    activate-Over :
        (v : W)
        → profile v t.connection_uuid ≡ (enabled, enabled)
        → Ends Over (activate k t enabled v)
    unfolding activate
    activate-Over v written =
        wrapped_bind-Ends
          (Read k profile active gone v (asked k (k.verify_device t.device) v) Anything) Over failed
          _ _ v (ask k profile active gone manager v _ ((manager.reads v).verify_device t.device))
          (λ v' e read. inr (read.0.profiles t.connection_uuid ∙ written, (v, sym read.2, read.3)))
          (λ v' present read. activate_present-Over v' present)

    check_read-Over :
        (v v' : W) (r : Result NetworkError Pair)
        → Same k profile active gone v v'
        → On (λ p. p ≡ profile v t.connection_uuid) r
        → Ends Over (check_read k t enabled r v')
    unfolding check_read
    check_read-Over v v' (err e) h q = rolled_back _ v'
    check_read-Over v v' (ok current) h q =
        elim (Bool-cases (same_pair current (enabled, enabled))) [
          | inr other ↦ rw other (rolled_back _ v')
          | inl equal ↦ rw equal (
              activate-Over v' (
                h.profiles t.connection_uuid
                ∙ sym q
                ∙ same_pair-eq current (enabled, enabled) equal))
        ]

    -- After a failed update: the same target with the same settings, or a rollback.
    unchanged_or_rolled_back :
        (v v' : W) (r : Result NetworkError (Resolution D)) (b : Bool)
        → is_unchanged k t r ≡ b
        → Found v v' r
        → Ends
            (λ w' r. On (λ _. Restored k profile active gone manager t w') r)
            ((if b then pure tt else rollback_profile k t (enabled, enabled)) v')
    unfolding pure same_selection same_values
    unchanged_or_rolled_back v v' r false e h =
        rollback_profile-Restored k profile active gone manager t (enabled, enabled) v'
    unchanged_or_rolled_back v v' (err x) true e h = absurd (cc)
    unchanged_or_rolled_back v v' (ok (not_available reason)) true e h = absurd (cc)
    unchanged_or_rolled_back v v' (ok (target current)) true e (h, (u, p, q, a)) =
        let x = and_true _ _ e in
        let y = and_true _ _ x.0 in
        let z = and_true _ _ x.1 in
        let id = same_text-eq _ _ (and_true _ _ y.0).1 in
        let path = same_text-eq _ _ y.1 in
        let values = same_pair-eq _ _ z.0 in
        let actives = same_pair-eq _ _ z.1 in
        let there : (current.connection_uuid, current.applied.0, current.applied.1)
            ≡ (t.connection_uuid, t.applied.0, t.applied.1) =
          λ i. (id i, (actives i).0, (actives i).1) in
        (
          h.profiles t.connection_uuid ∙ ap (profile v) (sym id) ∙ sym q ∙ values,
          inl (h.actives t.device_dbus_path ∙ ap (active v) (sym path) ∙ sym a ∙ there),
        )

    confirm_original-Restored :
        (v : W)
        → Ends
            (λ w' r. On (λ _. Restored k profile active gone manager t w') r)
            (confirm_original_or_rollback k t (enabled, enabled) v)
    unfolding confirm_original_or_rollback
    confirm_original-Restored v =
        attempt-Ends (Found v) (λ w' r. On (λ _. Restored k profile active gone manager t w') r) _ _
          v (resolved v) (λ v' r h. unchanged_or_rolled_back v v' r (is_unchanged k t r) refl h)

    check_profile-Over :
        (v : W) (r : Result NetworkError (Unit {0})) → Ends Over (check_profile k t enabled r v)
    unfolding check_profile
    check_profile-Over v (err e) = undone-Over _ _ v (confirm_original-Restored v)
    check_profile-Over v (ok _) =
        attempt-Ends (Read k profile active gone v _ (λ p. p ≡ profile v t.connection_uuid)) Over _
          _ v
          (ask k profile active gone manager v _ ((manager.reads v).read_profile t.connection_uuid))
          (λ v' r read. check_read-Over v v' r read.0 read.1)

    pub change_profile-Over : (v : W) → Ends Over (change_profile k t enabled v)
    unfolding change_profile
    change_profile-Over v =
        attempt-Ends (λ v' r. Unit {0}) Over _ _ v tt (λ v' r _. check_profile-Over v' r)
