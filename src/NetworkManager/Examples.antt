-- ===== src/NetworkManager/Examples.antt =====
-- Tests of the policy on a system with one tether.
use holodori_phone_trackpad.Prelude.{
  ◌≡◌, refl, sym, arith, ◌||◌, not, All, Bool-cases, inl, inr, Bool, true, false, List, [], ◌∷◌,
  Result, ok, err, ℕ, ◌++◌,
}
use holodori_phone_trackpad.Nmcli.{
  Text, codes, same_text, valid_uuid, parse_active_device, parse_network_manager_version,
  valid_interface_name, trim,
}
use holodori_phone_trackpad.NetworkManager.{
  Backend, Target, target, Pair, same_pair, with_rollback, failed, backend, SetError,
  LinuxLocalOnlyStatus,
}
use holodori_phone_trackpad.NetworkManager.Change.{
  set_with_backend, same_selection, same_values, confirm_original_or_rollback, undone, retained,
  confirm_found, confirm, activate_present, activate, check_read, check_profile, change_profile,
  change_verified, set_found, set_target,
}
use holodori_phone_trackpad.NetworkManager.Rollback.{
  still_present, apply_to, apply_profile_from, apply_profile, restored_again, write_back,
  restore_read, restore_persistent, active_read, restore_present, restore_active, check_present,
  check_routes, rollback_profile,
}
use holodori_phone_trackpad.NetworkManager.Resolve.{
  require, asked, read_text, must_verify, inspect_device, inspect_devices, read_target,
  choose_active, resolve_devices, resolve_version, resolve_target,
}
use holodori_phone_trackpad.NetworkManager.{
  settings_all, policy_enabled, target_status, status_message,
}
use holodori_phone_trackpad.NetworkManager.Observed.{Reads, same_text-eq}
use holodori_phone_trackpad.NetworkManager.Manager.{Same, IsManager}
use holodori_phone_trackpad.NetworkManager.Written.{Outcome}
use holodori_phone_trackpad.NetworkManager.Outcome.{set_with_backend-Outcome}
use holodori_phone_trackpad.NetworkManager.Allowed.{Writes, Nothing}
use holodori_phone_trackpad.NetworkManager.Confined.{set_with_backend_confined}
use holodori_phone_trackpad.Prelude.Actions.{Ends, pure, raise, lift, attempt, wrapped, ◌>>=◌}
use holodori_phone_trackpad.Prelude.{if◌then◌else◌}

abbrev uuid : Text
uuid = codes "11111111-2222-3333-4444-555555555555"

abbrev path : Text
path = codes "/org/freedesktop/NetworkManager/Devices/7"

-- The profile, the active settings, whether applications fail, and the UUIDs that were written.
record System : Type 0 where
  profile : Pair
  applied : Pair
  broken : Bool
  written : List Text

abbrev is_general : List Text → Bool
is_general (a ∷ b ∷ c ∷ d ∷ e ∷ []) = true
is_general args = false

abbrev one_tether : Backend System ℕ
one_tether = record {
  devices = λ s. (s, ok (7 ∷ []));
  device_name = λ d s. (s, ok (codes "usb0"));
  verify_device = λ d s. (s, ok true);
  default_routes_present = λ d s. (s, ok (false, false));
  daemon_version = λ s. (s, ok (codes "1.58.0"));
  nmcli = λ args s. (
    s,
    ok (
        if is_general args
        then codes "running\n"
        else codes "100 (connected)\n" ++ uuid ++ codes "\n" ++ path ++ codes "\n"),
  );
  read_profile = λ u s. (s, ok s.profile);
  update_profile = λ u expected desired s.
      if same_pair s.profile expected
      then (record s { profile = desired; written = u ∷ s.written }, ok tt)
      else (s, err (codes "changed"));
  read_active = λ p s. (s, ok (uuid, s.applied.0, s.applied.1));
  apply_active = λ p u expected desired s.
      if s.broken || not (same_text u uuid)
      then (s, err (codes "broken"))
      else (record s { applied = desired; written = u ∷ s.written }, ok tt);
  same_device = λ a b. true;
}

abbrev system : Bool → System
system broken = record {
  profile = (false, true);
  applied = (false, true);
  broken = broken;
  written = [];
}

-- A device that cannot be verified once the profile is written leaves it written.
abbrev unverified : Backend System ℕ
unverified = record one_tether {
  verify_device = λ d s.
      if same_pair s.profile (true, true) then (s, err (codes "unplugged")) else (s, ok true);
}

-- A change, one that cannot be applied and is taken back, and one that is left half done.
changes_test :
    ◌≡◌
      {A = System
        × (System × Result SetError LinuxLocalOnlyStatus)
        × (System × Result SetError LinuxLocalOnlyStatus)}
      (
        (set_with_backend one_tether true (system false)).0,
        set_with_backend one_tether true (system true),
        set_with_backend unverified true (system false),
      )
      (
        record {
          profile = (true, true);
          applied = (true, true);
          broken = false;
          written = uuid ∷ uuid ∷ [];
        },
        (
          record (system true) { written = uuid ∷ uuid ∷ [] },
          err (with_rollback (backend (codes "broken")) (ok tt)),
        ),
        (
          record (system false) { profile = (true, true); written = uuid ∷ [] },
          err (failed (backend (codes "unplugged"))),
        ),
      )
unfolding set_with_backend pure raise lift attempt wrapped ◌>>=◌ require asked read_text must_verify
    inspect_device inspect_devices read_target choose_active resolve_devices resolve_version
    resolve_target still_present apply_to apply_profile_from apply_profile restored_again write_back
    restore_read restore_persistent active_read restore_present restore_active check_present
    check_routes rollback_profile same_selection same_values confirm_original_or_rollback undone
    retained confirm_found confirm activate_present activate check_read check_profile change_profile
    change_verified set_found set_target settings_all policy_enabled target_status status_message
    parse_active_device parse_network_manager_version valid_interface_name trim
changes_test = refl

abbrev profile : System → Text → Pair
profile s u = s.profile

abbrev active : System → Text → Text × Bool × Bool
active s p = (uuid, s.applied.0, s.applied.1)

-- This device is always there.
abbrev Gone : ℕ → System → Type 0
Gone d s = ⊥

abbrev chosen : Target ℕ
chosen = record {
  device = 7;
  interface_name = codes "usb0";
  connection_uuid = uuid;
  device_dbus_path = path;
  profile = (false, true);
  applied = (false, true);
  default_routes = (false, false);
}

one_tether-Reads :
    (w : System)
    → Reads one_tether
        (Same one_tether profile active Gone w)
        (λ u p. p ≡ profile w u)
        (λ p a. a ≡ active w p)
one_tether-Reads w = record {
  devices = record { at = λ v h. (h, tt) };
  device_name = λ d. record { at = λ v h. (h, tt) };
  verify_device = λ d. record { at = λ v h. (h, tt) };
  default_routes_present = λ d. record { at = λ v h. (h, tt) };
  daemon_version = record { at = λ v h. (h, tt) };
  nmcli = λ args. record { at = λ v h. (h, tt) };
  read_profile = λ u. record { at = λ v h. (h, h.profiles u) };
  read_active = λ p. record { at = λ v h. (h, h.actives p) };
}

names : (u : Text) (broken : Bool) → (broken || not (same_text u uuid)) ≡ false → uuid ≡ u
names u broken h = elim (Bool-cases (same_text u uuid)) [
  | inl equal ↦ sym (same_text-eq u uuid equal)
  | inr other ↦ absurd (neither broken (same_text u uuid) h other)
]
  where
    neither : (a b : Bool) → (a || not b) ≡ false → b ≡ false → ⊥
    neither a b h e = ground (arith, h, e)

path_of :
    (u : Text) (desired : Pair)
    → uuid ≡ u
    → ◌≡◌ {A = Text × Bool × Bool} (uuid, desired.0, desired.1) (u, desired.0, desired.1)
path_of u desired e = λ i. (e i, desired.0, desired.1)

resolved : (resolve_target one_tether (system true)).1 ≡ ok (target chosen)
unfolding resolve_target pure raise lift attempt wrapped ◌>>=◌ require asked read_text must_verify
    inspect_device inspect_devices read_target choose_active resolve_devices resolve_version
    parse_active_device parse_network_manager_version valid_interface_name trim
resolved = refl

one_tether-IsManager : IsManager one_tether profile active Gone
one_tether-IsManager = record {
  reads = one_tether-Reads;
  finds = λ d w h. cc;
  updates = λ u expected desired w. elim (Bool-cases (same_pair w.profile expected)) [
    | inl fits ↦ rw fits ((λ p. refl), refl)
    | inr other ↦ rw other ((λ p. refl), tt)
  ];
  applies = λ p u expected desired w. elim (Bool-cases (w.broken || not (same_text u uuid))) [
    | inl refused ↦ rw refused ((λ v. refl), tt)
    | inr taken ↦ rw taken ((λ v. refl), path_of u desired (names u w.broken taken))
  ];
}

set_with_backend-Outcome_example :
    Ends
      (Outcome one_tether profile active Gone one_tether-IsManager chosen true (system true))
      (set_with_backend one_tether true (system true))
set_with_backend-Outcome_example =
    set_with_backend-Outcome one_tether profile active Gone one_tether-IsManager chosen true
      (system true) resolved

-- Every UUID that was written is one.
abbrev AllValid : System → Type 0
AllValid s = All (λ u. valid_uuid u ≡ true) s.written

one_tether-AllValid : Reads one_tether AllValid Nothing Nothing
one_tether-AllValid = record {
  devices = record { at = λ v h. (h, tt) };
  device_name = λ d. record { at = λ v h. (h, tt) };
  verify_device = λ d. record { at = λ v h. (h, tt) };
  default_routes_present = λ d. record { at = λ v h. (h, tt) };
  daemon_version = record { at = λ v h. (h, tt) };
  nmcli = λ args. record { at = λ v h. (h, tt) };
  read_profile = λ u. record { at = λ v h. (h, tt) };
  read_active = λ p. record { at = λ v h. (h, tt) };
}

one_tether-Writes : Writes one_tether AllValid true
one_tether-Writes = record {
  update_profile = λ u expected desired good ours. record {
    at = λ v h. elim (Bool-cases (same_pair v.profile expected)) [
      | inl fits ↦ rw fits ((good, h), tt)
      | inr other ↦ rw other (h, tt)
    ];
  };
  apply_active = λ p u expected desired right good ours. record {
    at = λ v h. elim (Bool-cases (v.broken || not (same_text u uuid))) [
      | inl refused ↦ rw refused (h, tt)
      | inr taken ↦ rw taken ((good, h), tt)
    ];
  };
}

set_with_backend_confined_example : AllValid (set_with_backend one_tether true (system false)).0
set_with_backend_confined_example =
    set_with_backend_confined one_tether AllValid true one_tether-AllValid one_tether-Writes
      (system false) tt
