-- ===== src/NetworkManager.antt =====
-- The local-only policy of the tether's NetworkManager profile, in
-- tauri-launcher/src-tauri/src/linux_network_manager.rs: what is read of it, and its change with
-- the steps that take a change back. The system is any `Backend`.
pub mod Resolve
pub mod Rollback
pub mod Change
pub mod Observed
pub mod Manager
pub mod Persistent
pub mod Applied
pub mod Restored
pub mod Status
pub mod Written
pub mod Outcome
pub mod Allowed
pub mod Confined
mod Examples
use Prim.Native.String.{String}
use holodori_phone_trackpad.Prelude.{
  ℕ, Bool, true, false, ◌==◌, ◌||◌, ◌&&◌, not, ltb, if◌then◌else◌, Option, some, none, is_some,
  List, [], ◌∷◌, Result, ok, err,
}
use holodori_phone_trackpad.Prelude.Actions.{Action, pure, raise, lift, attempt, wrapped, ◌>>=◌}
use holodori_phone_trackpad.Nmcli.{
  Text, codes, same_text, trim, NmcliError, valid_interface_name, parse_active_device,
  parse_network_manager_version,
}

-- The settings for IPv4 and for IPv6.
abbrev pub Pair : Type 0
Pair = Bool × Bool

abbrev pub same : Bool → Bool → Bool
same true b = b
same false b = not b

abbrev pub same_pair : Pair → Pair → Bool
same_pair (a, b) (c, d) = same a c && same b d

pub data NetworkError : Type 0 where
  -- The text of the backend's own error.
  backend : Text → NetworkError
  nmcli_text : NmcliError → NetworkError
  unsafe_name : NetworkError
  changed_identity : NetworkError
  uuid_differs : NetworkError
  device_changed : NetworkError
  persistent_changed : NetworkError
  active_profile_changed : NetworkError
  active_changed : NetworkError
  changed_again : NetworkError
  not_verified : NetworkError → NetworkError
  unreadable_profile : NetworkError → NetworkError
  unreadable_active : NetworkError → NetworkError
  routes_changed : NetworkError
  not_updated : NetworkError → NetworkError
  changed_after_update : NetworkError
  update_not_verified : NetworkError → NetworkError
  update_not_confirmed : NetworkError → NetworkError
  not_retained : NetworkError
  local_only_not_verified : NetworkError

-- What a rollback could not do: for the profile, the active settings and the routes.
pub record RollbackError : Type 0 where
  pub persistent : Result NetworkError (Unit {0})
  pub active : Result NetworkError (Unit {0})
  pub routes : Result NetworkError (Unit {0})

pub data Reason : Type 0 where
  not_running : Reason
  too_old : ℕ × ℕ × ℕ → Reason
  no_tether : Reason
  several_tethers : Reason

-- What ends a change: an error, or an error with what its rollback came to.
pub data SetError : Type 0 where
  failed : NetworkError → SetError
  unavailable : Reason → SetError
  with_rollback : NetworkError → Result RollbackError (Unit {0}) → SetError

-- `trait Backend`; its errors are texts.
pub record Backend (W D : Type 0) : Type 0 where
  pub devices : Action W Text (List D)
  pub device_name : D → Action W Text Text
  pub verify_device : D → Action W Text Bool
  pub default_routes_present : D → Action W Text Pair
  pub daemon_version : Action W Text Text
  pub nmcli : List Text → Action W Text Text
  pub read_profile : Text → Action W Text Pair
  pub update_profile : Text → Pair → Pair → Action W Text (Unit {0})
  pub read_active : Text → Action W Text (Text × Bool × Bool)
  pub apply_active : Text → Text → Pair → Pair → Action W Text (Unit {0})
  pub same_device : D → D → Bool

pub record Target (D : Type 0) : Type 0 where
  pub device : D
  pub interface_name : Text
  pub connection_uuid : Text
  pub device_dbus_path : Text
  pub profile : Pair
  pub applied : Pair
  pub default_routes : Pair

pub data Resolution (D : Type 0) : Type 0 where
  target : Target D → Resolution D
  not_available : Reason → Resolution D

-- The text of the status, without the interface's name in it.
pub data Message : Type 0 where
  local_only : Message
  off_with_route : Message
  may_route : Message
  routes_still_use : Bool → Bool → Message
  settings_differ : Message
  because : Reason → Message
  -- `unreachable!`
  unreachable : Message

pub record LinuxLocalOnlyStatus : Type 0 where
  pub available : Bool
  pub enabled : Bool
  pub configured : Bool
  pub mixed : Bool
  pub interface_name : Option Text
  pub message : Message

unfoldable pub unavailable_status : Reason → LinuxLocalOnlyStatus
unavailable_status reason = record {
  available = false;
  enabled = false;
  configured = false;
  mixed = false;
  interface_name = none;
  message = because reason;
}

abbrev pub some_route : Pair → Bool
some_route (ipv4, ipv6) = ipv4 || ipv6

module _ {D : Type 0} where
  unfoldable pub settings_all : Target D → Bool → Bool
  settings_all t value =
      same t.profile.0 value
      && same t.profile.1 value
      && same t.applied.0 value
      && same t.applied.1 value

  unfoldable pub policy_enabled : Target D → Bool
  unfolding settings_all
  policy_enabled t = settings_all t true && not t.default_routes.0 && not t.default_routes.1

  unfoldable pub status_message : Target D → Bool → Bool → Bool → Message
  status_message t enabled disabled mixed =
      if enabled
      then local_only
      else if disabled
      then (if some_route t.default_routes then off_with_route else may_route)
      else if some_route t.default_routes
      then routes_still_use t.default_routes.0 t.default_routes.1
      else if mixed
      then settings_differ
      else unreachable

  unfoldable pub target_status : Target D → LinuxLocalOnlyStatus
  unfolding status_message policy_enabled settings_all
  target_status t =
      let enabled = policy_enabled t in
      let disabled = settings_all t false in
      let mixed = not enabled && not disabled in
      record {
        available = true;
        enabled = enabled;
        configured = settings_all t true;
        mixed = mixed;
        interface_name = some t.interface_name;
        message = status_message t enabled disabled mixed;
      }
