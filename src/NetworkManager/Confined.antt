-- ===== src/NetworkManager/Confined.antt =====
-- What a change of the policy may write at all, whatever the system answers.
use holodori_phone_trackpad.Prelude.{refl, Bool, true, false, not, ◌&&◌, ◌||◌, Result, ok, err, inl}
use holodori_phone_trackpad.Prelude.Actions.{
  Action, pure, Does, Does-pure, Does-raise, Does-if, Does-bind, Does-attempt,
}
use holodori_phone_trackpad.NetworkManager.{
  Pair, same_pair, NetworkError, RollbackError, Backend, Target, Resolution, target, not_available,
  failed, settings_all, policy_enabled, target_status, not_retained, changed_after_update,
}
use holodori_phone_trackpad.NetworkManager.Rollback.{rollback_profile}
use holodori_phone_trackpad.NetworkManager.Change.{
  is_unchanged, retained, confirm_original_or_rollback, undone, confirm_found, confirm,
  activate_present, activate, check_read, check_profile, change_profile, change_verified,
  set_target, set_found, set_with_backend,
}
use holodori_phone_trackpad.NetworkManager.Observed.{Reads, Anything, Does-wrapped, Resolved}
use holodori_phone_trackpad.NetworkManager.Allowed.{
  Nothing, Writes, call, Checked, resolves, must, apply_profile-Does, rollback_profile-Does,
}

module _ {W D : Type 0} (k : Backend W D) (P : W → Type 0) (enabled : Bool)
    (reads : Reads k P Nothing Nothing) (writes : Writes k P enabled) where
  module _ (t : Target D) (checked : Checked k P enabled reads writes t) where
    restores : Does P (rollback_profile k t (enabled, enabled)) Anything
    restores = rollback_profile-Does k P enabled reads writes t checked

    confirm_original-Does : Does P (confirm_original_or_rollback k t (enabled, enabled)) Anything
    unfolding confirm_original_or_rollback
    confirm_original-Does =
        Does-bind _ _ (Does-attempt _ (resolves k P enabled reads writes)) (λ found _.
          Does-if (is_unchanged k t found) (pure tt) (rollback_profile k t (enabled, enabled))
            (λ _. Does-pure tt tt) (λ _. restores))

    undone-Does :
        {A : Type 0} (rollback : Action W RollbackError (Unit {0})) (e : NetworkError)
        → Does P rollback Anything
        → Does P (undone k {A = A} rollback e) Anything
    unfolding undone
    undone-Does rollback e d = Does-bind _ _ (Does-attempt _ d) (λ answer _. Does-raise _)

    confirm_found-Does :
        (r : Result NetworkError (Resolution D)) → Does P (confirm_found k t enabled r) Anything
    unfolding confirm_found
    confirm_found-Does (err e) = undone-Does _ _ restores
    confirm_found-Does (ok (not_available reason)) = undone-Does _ _ restores
    confirm_found-Does (ok (target current)) =
        Does-if (retained k t current enabled) (pure (target_status current))
          (undone k (rollback_profile k t (enabled, enabled)) not_retained) (λ _. Does-pure _ tt)
          (λ _. undone-Does _ _ restores)

    confirm-Does : (r : Result NetworkError (Unit {0})) → Does P (confirm k t enabled r) Anything
    unfolding confirm
    confirm-Does (err e) = undone-Does _ _ restores
    confirm-Does (ok _) =
        Does-bind _ _ (Does-attempt _ (resolves k P enabled reads writes))
          (λ found _. confirm_found-Does found)

    activate_present-Does : (b : Bool) → Does P (activate_present k t enabled b) Anything
    unfolding activate_present
    activate_present-Does false = undone-Does _ _ restores
    activate_present-Does true =
        Does-bind _ _ (Does-attempt _ (apply_profile-Does k P enabled reads writes t checked))
          (λ applied _. confirm-Does applied)

    activate-Does : Does P (activate k t enabled) Anything
    unfolding activate
    activate-Does =
        Does-bind _ _ (Does-wrapped _ _ (call k P enabled reads writes _ (reads.verify_device _)))
          (λ b _. activate_present-Does b)

    check_read-Does : (r : Result NetworkError Pair) → Does P (check_read k t enabled r) Anything
    unfolding check_read
    check_read-Does (err e) = undone-Does _ _ restores
    check_read-Does (ok current) =
        Does-if (same_pair current (enabled, enabled)) (activate k t enabled)
          (undone k (rollback_profile k t (enabled, enabled)) changed_after_update)
          (λ _. activate-Does) (λ _. undone-Does _ _ restores)

    check_profile-Does :
        (r : Result NetworkError (Unit {0})) → Does P (check_profile k t enabled r) Anything
    unfolding check_profile
    check_profile-Does (err e) = undone-Does _ _ confirm_original-Does
    check_profile-Does (ok _) =
        Does-bind _ _ (Does-attempt _ (call k P enabled reads writes _ (reads.read_profile _)))
          (λ r _. check_read-Does r)

    change_profile-Does : Does P (change_profile k t enabled) Anything
    unfolding change_profile
    change_profile-Does =
        Does-bind _ _
          (Does-attempt _
            (call k P enabled reads writes _ (writes.update_profile _ _ _ checked.0 (inl refl))))
          (λ r _. check_profile-Does r)

    change_verified-Does : Does P (change_verified k t enabled) Anything
    unfolding change_verified
    change_verified-Does =
        Does-bind _ _ (Does-wrapped _ _ (call k P enabled reads writes _ (reads.verify_device _)))
          (λ fine _. Does-bind _ _ (must k P enabled reads writes _ _) (λ _ _.
            Does-bind _ _
              (Does-wrapped _ _ (call k P enabled reads writes _ (reads.read_profile _)))
              (λ now _.
                Does-bind _ _ (must k P enabled reads writes _ _) (λ _ _. change_profile-Does))))

    set_target-Does : Does P (set_target k t enabled) Anything
    unfolding set_target
    set_target-Does =
        Does-if (settings_all t enabled && (not enabled || policy_enabled t))
          (pure (target_status t)) (change_verified k t enabled) (λ _. Does-pure _ tt)
          (λ _. change_verified-Does)

  set_found-Does :
      (r : Resolution D)
      → Resolved k P Nothing Nothing reads r
      → Does P (set_found k enabled r) Anything
  unfolding set_found
  set_found-Does (not_available reason) c = Does-raise _
  set_found-Does (target t) c = set_target-Does t (c.0, c.1)

  -- Whatever the system answers, in whatever state it is: a change of the policy keeps every
  -- property of the system that the reads keep, and that is kept by a write to a profile whose UUID
  -- was checked, and through a D-Bus path that was checked, which puts down the values asked for or
  -- is made only in the place of these.
  pub set_with_backend_confined : (w : W) → P w → P (set_with_backend k enabled w).0
  unfolding set_with_backend
  set_with_backend_confined w h =
      ((Does-bind _ _ (Does-wrapped failed _ (resolves k P enabled reads writes))
          (λ r c. set_found-Does r c)).at
        w h).0
