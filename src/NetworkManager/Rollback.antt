-- ===== src/NetworkManager/Rollback.antt =====
-- `apply_profile` and `rollback_profile`: writes to the active settings, and what takes them back.
use holodori_phone_trackpad.Prelude.{◌&&◌, not, Bool, true, false, if◌then◌else◌, Result, ok, err}
use holodori_phone_trackpad.Prelude.Actions.{Action, pure, raise, lift, attempt, ◌>>=◌}
use holodori_phone_trackpad.Nmcli.{Text, same_text}
use holodori_phone_trackpad.NetworkManager.{
  Pair, same_pair, NetworkError, device_changed, persistent_changed, active_profile_changed,
  active_changed, changed_again, not_verified, unreadable_profile, unreadable_active,
  routes_changed, RollbackError, Backend, Target,
}
use holodori_phone_trackpad.NetworkManager.Resolve.{asked, require}

abbrev pub all_ok : RollbackError → Result RollbackError (Unit {0})
all_ok r = elim r.persistent [
  | err e ↦ err r
  | ok _ ↦ elim r.active [ err e ↦ err r | ok _ ↦ elim r.routes [ err e ↦ err r | ok _ ↦ ok tt ] ]
]

module _ {W D : Type 0} (k : Backend W D) where
  unfoldable pub still_present : Target D → Action W NetworkError (Unit {0})
  still_present t = do fine ← asked k (k.verify_device t.device); require fine device_changed

  unfoldable pub apply_profile_from : Target D → Pair → Pair → Action W NetworkError (Unit {0})
  unfolding still_present
  apply_profile_from t expected desired = do
    _ ← asked k (k.apply_active t.device_dbus_path t.connection_uuid expected desired)
    still_present t

  -- From the active settings that were read.
  unfoldable pub apply_to : Target D → Pair → Pair → Action W NetworkError (Unit {0})
  apply_to t desired current =
      if not (same_pair current t.applied) && not (same_pair current desired)
      then raise active_changed
      else if same_pair current desired
      then still_present t
      else apply_profile_from t current desired

  unfoldable pub apply_profile : Target D → Pair → Action W NetworkError (Unit {0})
  apply_profile t desired = do
    applied ← asked k (k.read_active t.device_dbus_path)
    _ ← require (same_text applied.0 t.connection_uuid) active_profile_changed
    apply_to t desired (applied.1, applied.2)

  -- The profile, after it was written back.
  unfoldable pub restored_again :
      Target D → Result NetworkError Pair → Action W NetworkError (Unit {0})
  restored_again t (err e) = raise (not_verified e)
  restored_again t (ok latest) = if same_pair latest t.profile then pure tt else raise changed_again

  unfoldable pub write_back : Target D → Pair → Action W NetworkError (Unit {0})
  write_back t owned = do
    _ ← asked k (k.update_profile t.connection_uuid owned t.profile)
    again ← attempt (asked k (k.read_profile t.connection_uuid))
    restored_again t again

  unfoldable pub restore_read :
      Target D → Pair → Result NetworkError Pair → Action W NetworkError (Unit {0})
  restore_read t owned (err e) = raise (unreadable_profile e)
  restore_read t owned (ok current) =
      if same_pair current t.profile
      then pure tt
      else if same_pair current owned
      then write_back t owned
      else raise persistent_changed

  -- The profile's own rollback.
  unfoldable pub restore_persistent : Target D → Pair → Action W NetworkError (Unit {0})
  restore_persistent t owned = do
    read ← attempt (asked k (k.read_profile t.connection_uuid))
    restore_read t owned read

  unfoldable pub active_read :
      Target D → Pair → Result NetworkError (Text × Bool × Bool) → Action W NetworkError (Unit {0})
  active_read t owned (err e) = raise (unreadable_active e)
  active_read t owned (ok (uuid, ipv4, ipv6)) =
      if not (same_text uuid t.connection_uuid)
      then raise active_profile_changed
      else if same_pair (ipv4, ipv6) t.applied
      then pure tt
      else if same_pair (ipv4, ipv6) owned
      then apply_profile_from t owned t.applied
      else raise active_changed

  -- Of a device that is gone there is nothing to restore.
  unfoldable pub restore_present : Target D → Pair → Bool → Action W NetworkError (Unit {0})
  restore_present t owned false = pure tt
  restore_present t owned true = do
    read ← attempt (asked k (k.read_active t.device_dbus_path))
    active_read t owned read

  unfoldable pub restore_active : Target D → Pair → Action W NetworkError (Unit {0})
  restore_active t owned = do
    present ← asked k (k.verify_device t.device)
    restore_present t owned present

  unfoldable pub check_present : Target D → Bool → Action W NetworkError (Unit {0})
  check_present t false = pure tt
  check_present t true = do
    current ← asked k (k.default_routes_present t.device)
    if same_pair current t.default_routes then pure tt else raise routes_changed

  unfoldable pub check_routes : Target D → Action W NetworkError (Unit {0})
  check_routes t = do present ← asked k (k.verify_device t.device); check_present t present

  unfoldable pub rollback_profile : Target D → Pair → Action W RollbackError (Unit {0})
  rollback_profile t owned = do
    persistent ← attempt (restore_persistent t owned)
    active ← attempt (restore_active t owned)
    routes ← attempt (check_routes t)
    lift (all_ok (record { persistent = persistent; active = active; routes = routes }))
