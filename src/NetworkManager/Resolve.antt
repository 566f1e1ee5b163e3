-- ===== src/NetworkManager/Resolve.antt =====
-- `resolve_target` and `status_with_backend`: the one active tether, and what is set for it.
use holodori_phone_trackpad.Prelude.{
  ℕ, Bool, true, false, ◌==◌, ◌||◌, ◌&&◌, ltb, if◌then◌else◌, Option, some, none, List, [], ◌∷◌,
  Result,
}
use holodori_phone_trackpad.Prelude.Actions.{Action, pure, raise, lift, wrapped, ◌>>=◌}
use holodori_phone_trackpad.Nmcli.{
  Text, codes, same_text, trim, NmcliError, valid_interface_name, parse_active_device,
  parse_network_manager_version,
}
use holodori_phone_trackpad.NetworkManager.{
  NetworkError, backend, nmcli_text, unsafe_name, changed_identity, uuid_differs, too_old,
  no_tether, several_tethers, not_running, Backend, Resolution, target, not_available,
  LinuxLocalOnlyStatus, unavailable_status, target_status,
}

abbrev pub running_args : List Text
running_args =
    codes "--wait" ∷ codes "15" ∷ codes "--get-values" ∷ codes "RUNNING" ∷ codes "general" ∷ []

abbrev pub device_args : Text → List Text
device_args name =
    codes "--wait"
    ∷ codes "15"
    ∷ codes "--get-values"
    ∷ codes "GENERAL.STATE,GENERAL.CON-UUID,GENERAL.DBUS-PATH"
    ∷ codes "device"
    ∷ codes "show"
    ∷ name
    ∷ []

-- Tuples in their order.
abbrev pub older : ℕ × ℕ × ℕ → ℕ × ℕ × ℕ → Bool
older (a, b, c) (a', b', c') = ltb a a' || ((a == a') && (ltb b b' || ((b == b') && ltb c c')))

abbrev pub minimum_network_manager_version : ℕ × ℕ × ℕ
minimum_network_manager_version = (1, 44, 0)

-- One active tether.
pub record Active (D : Type 0) : Type 0 where
  pub device : D
  pub interface_name : Text
  pub connection_uuid : Text
  pub device_dbus_path : Text

-- `Err` unless the test holds.
unfoldable pub require : {W E : Type 0} → Bool → E → Action W E (Unit {0})
require true e = pure tt
require false e = raise e

abbrev pub with_found : {D : Type 0} → Option (Active D) → List (Active D) → List (Active D)
with_found none others = others
with_found (some a) others = a ∷ others

module _ {W D : Type 0} (k : Backend W D) where
  -- `backend.call()?`
  unfoldable pub asked : {A : Type 0} → Action W Text A → Action W NetworkError A
  asked call = wrapped backend call

  unfoldable pub read_text : {A : Type 0} → Result NmcliError A → Action W NetworkError A
  read_text r = wrapped nmcli_text (lift r)

  unfoldable pub must_verify : D → Action W NetworkError (Unit {0})
  must_verify device = do fine ← asked (k.verify_device device); require fine changed_identity

  -- One device of the loop of `resolve_target`.
  unfoldable pub inspect_device : D → Action W NetworkError (Option (Active D))
  inspect_device device = do
    name ← asked (k.device_name device)
    _ ← require (valid_interface_name name) unsafe_name
    output ← asked (k.nmcli (device_args name))
    parsed ← read_text (parse_active_device output)
    elim parsed [
      | none ↦ pure none
      | some (uuid, path) ↦ do
        _ ← must_verify device
        pure (
            some (record {
              device = device;
              interface_name = name;
              connection_uuid = uuid;
              device_dbus_path = path;
            }))
    ]

  unfoldable pub inspect_devices : List D → Action W NetworkError (List (Active D))
  inspect_devices [] = pure []
  inspect_devices (device ∷ devices) = do
    found ← inspect_device device
    others ← inspect_devices devices
    pure (with_found found others)

  -- The settings and the routes of the one active tether.
  unfoldable pub read_target : Active D → Action W NetworkError (Resolution D)
  read_target a = do
    profile ← asked (k.read_profile a.connection_uuid)
    applied ← asked (k.read_active a.device_dbus_path)
    _ ← require (same_text applied.0 a.connection_uuid) uuid_differs
    _ ← must_verify a.device
    routes ← asked (k.default_routes_present a.device)
    _ ← must_verify a.device
    pure (
        target (record {
          device = a.device;
          interface_name = a.interface_name;
          connection_uuid = a.connection_uuid;
          device_dbus_path = a.device_dbus_path;
          profile = profile;
          applied = (applied.1, applied.2);
          default_routes = routes;
        }))

  unfoldable pub choose_active : List (Active D) → Action W NetworkError (Resolution D)
  choose_active [] = pure (not_available no_tether)
  choose_active (a ∷ []) = read_target a
  choose_active (a ∷ b ∷ others) = pure (not_available several_tethers)

  unfoldable pub resolve_devices : ℕ × ℕ × ℕ → Action W NetworkError (Resolution D)
  resolve_devices version =
      if older version minimum_network_manager_version
      then pure (not_available (too_old version))
      else do devices ← asked k.devices; active ← inspect_devices devices; choose_active active

  unfoldable pub resolve_version : Action W NetworkError (Resolution D)
  resolve_version = do
    text ← asked k.daemon_version
    version ← read_text (parse_network_manager_version text)
    resolve_devices version

  unfoldable pub resolve_target : Action W NetworkError (Resolution D)
  resolve_target = do
    running ← asked (k.nmcli running_args)
    if same_text (trim running) (codes "running")
        then resolve_version
        else pure (not_available not_running)

  unfoldable pub status_with_backend : Action W NetworkError LinuxLocalOnlyStatus
  status_with_backend = do
    found ← resolve_target
    elim found [
      | target t ↦ pure (target_status t)
      | not_available reason ↦ pure (unavailable_status reason)
    ]
