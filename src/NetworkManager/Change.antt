-- ===== src/NetworkManager/Change.antt =====
-- `set_with_backend`: the change of the policy.
use holodori_phone_trackpad.Prelude.{
  Bool, true, false, ◌||◌, ◌&&◌, not, if◌then◌else◌, Result, ok, err,
}
use holodori_phone_trackpad.Prelude.Actions.{Action, pure, raise, attempt, wrapped, ◌>>=◌}
use holodori_phone_trackpad.Nmcli.{same_text}
use holodori_phone_trackpad.NetworkManager.{
  Pair, same_pair, NetworkError, device_changed, persistent_changed, not_updated,
  changed_after_update, update_not_verified, update_not_confirmed, not_retained,
  local_only_not_verified, RollbackError, SetError, failed, unavailable, with_rollback, Backend,
  Target, Resolution, target, not_available, LinuxLocalOnlyStatus, settings_all, policy_enabled,
  target_status,
}
use holodori_phone_trackpad.NetworkManager.Resolve.{asked, resolve_target, require}
use holodori_phone_trackpad.NetworkManager.Rollback.{apply_profile, rollback_profile}

module _ {W D : Type 0} (k : Backend W D) where
  unfoldable pub same_selection : Target D → Target D → Bool
  same_selection left right =
      k.same_device left.device right.device
      && same_text left.connection_uuid right.connection_uuid
      && same_text left.device_dbus_path right.device_dbus_path

  unfoldable pub same_values : Target D → Target D → Bool
  same_values left right =
      same_pair left.profile right.profile && same_pair left.applied right.applied

  abbrev pub is_unchanged : Target D → Result NetworkError (Resolution D) → Bool
  is_unchanged t (err e) = false
  is_unchanged t (ok (not_available reason)) = false
  is_unchanged t (ok (target current)) = same_selection current t && same_values current t

  unfoldable pub confirm_original_or_rollback : Target D → Pair → Action W RollbackError (Unit {0})
  confirm_original_or_rollback t owned = do
    found ← attempt (resolve_target k)
    if is_unchanged t found then pure tt else rollback_profile k t owned

  -- `return Err(with_rollback(error, rollback))`.
  unfoldable pub undone :
      {A : Type 0} → Action W RollbackError (Unit {0}) → NetworkError → Action W SetError A
  undone rollback e = do answer ← attempt rollback; raise (with_rollback e answer)

  -- The setting that was asked for is on the tether that was chosen.
  unfoldable pub retained : Target D → Target D → Bool → Bool
  retained t current enabled =
      same_selection current t
      && ((settings_all current enabled && (not enabled || policy_enabled current))
          || (enabled && settings_all current true))

  unfoldable pub confirm_found :
      Target D → Bool → Result NetworkError (Resolution D) → Action W SetError LinuxLocalOnlyStatus
  confirm_found t enabled (err e) =
      undone (rollback_profile k t (enabled, enabled)) (update_not_confirmed e)
  confirm_found t enabled (ok (not_available reason)) =
      undone (rollback_profile k t (enabled, enabled)) not_retained
  confirm_found t enabled (ok (target current)) =
      if retained t current enabled
      then pure (target_status current)
      else undone (rollback_profile k t (enabled, enabled)) not_retained

  unfoldable pub confirm :
      Target D → Bool → Result NetworkError (Unit {0}) → Action W SetError LinuxLocalOnlyStatus
  confirm t enabled (err e) = undone (rollback_profile k t (enabled, enabled)) e
  confirm t enabled (ok _) = do found ← attempt (resolve_target k); confirm_found t enabled found

  unfoldable pub activate_present : Target D → Bool → Bool → Action W SetError LinuxLocalOnlyStatus
  activate_present t enabled false = undone (rollback_profile k t (enabled, enabled)) device_changed
  activate_present t enabled true = do
    applied ← attempt (apply_profile k t (enabled, enabled))
    confirm t enabled applied

  unfoldable pub activate : Target D → Bool → Action W SetError LinuxLocalOnlyStatus
  activate t enabled = do
    present ← wrapped failed (asked k (k.verify_device t.device))
    activate_present t enabled present

  unfoldable pub check_read :
      Target D → Bool → Result NetworkError Pair → Action W SetError LinuxLocalOnlyStatus
  check_read t enabled (err e) =
      undone (rollback_profile k t (enabled, enabled)) (update_not_verified e)
  check_read t enabled (ok current) =
      if same_pair current (enabled, enabled)
      then activate t enabled
      else undone (rollback_profile k t (enabled, enabled)) changed_after_update

  unfoldable pub check_profile :
      Target D → Bool → Result NetworkError (Unit {0}) → Action W SetError LinuxLocalOnlyStatus
  check_profile t enabled (err e) =
      undone (confirm_original_or_rollback t (enabled, enabled)) (not_updated e)
  check_profile t enabled (ok _) = do
    read ← attempt (asked k (k.read_profile t.connection_uuid))
    check_read t enabled read

  unfoldable pub change_profile : Target D → Bool → Action W SetError LinuxLocalOnlyStatus
  change_profile t enabled = do
    updated ← attempt (asked k (k.update_profile t.connection_uuid t.profile (enabled, enabled)))
    check_profile t enabled updated

  unfoldable pub change_verified : Target D → Bool → Action W SetError LinuxLocalOnlyStatus
  change_verified t enabled = do
    fine ← wrapped failed (asked k (k.verify_device t.device))
    _ ← require fine (failed device_changed)
    now ← wrapped failed (asked k (k.read_profile t.connection_uuid))
    _ ← require (same_pair now t.profile) (failed persistent_changed)
    change_profile t enabled

  unfoldable pub set_target : Target D → Bool → Action W SetError LinuxLocalOnlyStatus
  set_target t enabled =
      if settings_all t enabled && (not enabled || policy_enabled t)
      then pure (target_status t)
      else change_verified t enabled

  unfoldable pub set_found : Bool → Resolution D → Action W SetError LinuxLocalOnlyStatus
  set_found enabled (not_available reason) = raise (unavailable reason)
  set_found enabled (target t) = set_target t enabled

  unfoldable pub set_with_backend : Bool → Action W SetError LinuxLocalOnlyStatus
  set_with_backend enabled = do found ← wrapped failed (resolve_target k); set_found enabled found

  -- `ensure_enabled`: whether a session may start.
  unfoldable pub ensure_found : Resolution D → Action W SetError (Unit {0})
  ensure_found (not_available reason) = raise (unavailable reason)
  ensure_found (target t) =
      if policy_enabled t then pure tt else raise (failed local_only_not_verified)

  unfoldable pub ensure_enabled : Action W SetError (Unit {0})
  ensure_enabled = do found ← wrapped failed (resolve_target k); ensure_found found
