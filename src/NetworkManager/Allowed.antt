-- ===== src/NetworkManager/Allowed.antt =====
-- The writes that a change of the policy may make, and that its steps back keep to them.
use holodori_phone_trackpad.Prelude.{
  ◌≡◌, refl, Bool, true, false, not, ◌&&◌, Result, ok, err, inl, inr, ◌⊎◌,
}
use holodori_phone_trackpad.Prelude.Actions.{
  Action, pure, raise, Does, Does-pure, Does-raise, Does-lift, Does-if, Does-bind, Does-attempt,
  Does-weaken,
}
use holodori_phone_trackpad.Nmcli.{Text, same_text, valid_uuid, valid_device_dbus_path}
use holodori_phone_trackpad.NetworkManager.{
  Pair, same_pair, NetworkError, Backend, Target, active_changed, changed_again, persistent_changed,
  active_profile_changed, routes_changed,
}
use holodori_phone_trackpad.NetworkManager.Resolve.{asked, require, resolve_target}
use holodori_phone_trackpad.NetworkManager.Rollback.{
  still_present, apply_to, apply_profile_from, apply_profile, restored_again, write_back,
  restore_read, restore_persistent, active_read, restore_present, restore_active, check_present,
  check_routes, rollback_profile,
}
use holodori_phone_trackpad.NetworkManager.Observed.{
  Reads, Anything, Does-wrapped, Does-require, Resolved, resolve_target-Does,
}

-- The write puts down what is asked for, or takes the place of what is asked for.
abbrev pub Owned : Bool → Pair → Pair → Type 0
Owned enabled expected desired = (desired ≡ (enabled, enabled)) ⊎ (expected ≡ (enabled, enabled))

abbrev pub Nothing : {I A : Type 0} → I → A → Type 0
Nothing i a = Unit {0}

-- The writes that a change may make keep `P`.
module _ {W D : Type 0} where
  pub record Writes (k : Backend W D) (P : W → Type 0) (enabled : Bool) : Type 0 where
    pub update_profile :
        (uuid : Text) (expected desired : Pair)
        → valid_uuid uuid ≡ true
        → Owned enabled expected desired
        → Does P (k.update_profile uuid expected desired) Anything
    pub apply_active :
        (path uuid : Text) (expected desired : Pair)
        → valid_device_dbus_path path ≡ true
        → valid_uuid uuid ≡ true
        → Owned enabled expected desired
        → Does P (k.apply_active path uuid expected desired) Anything

module _ {W D : Type 0} (k : Backend W D) (P : W → Type 0) (enabled : Bool)
    (reads : Reads k P Nothing Nothing) (writes : Writes k P enabled) where
  pub call : {A : Type 0} {Q : A → Type 0} (m : Action W Text A) → Does P m Q → Does P (asked k m) Q
  unfolding asked
  call m d = Does-wrapped _ m d

  -- What is known of a target that was resolved.
  abbrev pub Checked : Target D → Type 0
  Checked t =
      (valid_uuid t.connection_uuid ≡ true) × (valid_device_dbus_path t.device_dbus_path ≡ true)

  pub resolves : Does P (resolve_target k) (Resolved k P Nothing Nothing reads)
  resolves = resolve_target-Does k P Nothing Nothing reads

  pub must : {E : Type 0} (b : Bool) (e : E) → Does P (require b e) Anything
  must b e = Does-weaken _ (Does-require b e) (λ _ _. tt)

  module _ (t : Target D) (checked : Checked t) where
    apply_profile_from-Does :
        (expected desired : Pair)
        → Owned enabled expected desired
        → Does P (apply_profile_from k t expected desired) Anything
    unfolding apply_profile_from
    apply_profile_from-Does expected desired ours =
        Does-bind _ _ (call _ (writes.apply_active _ _ expected desired checked.1 checked.0 ours))
          (λ _ _. Does-bind _ _ (call _ (reads.verify_device t.device)) (λ fine _. must fine _))

    still_present-Does : Does P (still_present k t) Anything
    unfolding still_present
    still_present-Does =
        Does-bind _ _ (call _ (reads.verify_device t.device)) (λ fine _. must fine _)

    apply_to-Does : (current : Pair) → Does P (apply_to k t (enabled, enabled) current) Anything
    unfolding apply_to
    apply_to-Does current =
        Does-if (not (same_pair current t.applied) && not (same_pair current (enabled, enabled)))
          (raise active_changed) _ (λ _. Does-raise _)
          (λ _.
            Does-if (same_pair current (enabled, enabled)) (still_present k t)
              (apply_profile_from k t current (enabled, enabled)) (λ _. still_present-Does)
              (λ _. apply_profile_from-Does _ _ (inl refl)))

    pub apply_profile-Does : Does P (apply_profile k t (enabled, enabled)) Anything
    unfolding apply_profile
    apply_profile-Does =
        Does-bind _ _ (call _ (reads.read_active _))
          (λ applied _. Does-bind _ _ (must _ _) (λ _ _. apply_to-Does _))

    restored_again-Does : (r : Result NetworkError Pair) → Does P (restored_again k t r) Anything
    unfolding restored_again
    restored_again-Does (err e) = Does-raise _
    restored_again-Does (ok latest) =
        Does-if (same_pair latest t.profile) (pure tt) (raise changed_again) (λ _. Does-pure tt tt)
          (λ _. Does-raise _)

    write_back-Does : Does P (write_back k t (enabled, enabled)) Anything
    unfolding write_back
    write_back-Does =
        Does-bind _ _ (call _ (writes.update_profile _ _ _ checked.0 (inr refl))) (λ _ _.
          Does-bind _ _ (Does-attempt _ (call _ (reads.read_profile _)))
            (λ again _. restored_again-Does again))

    restore_read-Does :
        (r : Result NetworkError Pair) → Does P (restore_read k t (enabled, enabled) r) Anything
    unfolding restore_read
    restore_read-Does (err e) = Does-raise _
    restore_read-Does (ok current) =
        Does-if (same_pair current t.profile) (pure tt) _ (λ _. Does-pure tt tt)
          (λ _.
            Does-if (same_pair current (enabled, enabled)) (write_back k t (enabled, enabled))
              (raise persistent_changed) (λ _. write_back-Does) (λ _. Does-raise _))

    active_read-Does :
        (r : Result NetworkError (Text × Bool × Bool))
        → Does P (active_read k t (enabled, enabled) r) Anything
    unfolding active_read
    active_read-Does (err e) = Does-raise _
    active_read-Does (ok (uuid, ipv4, ipv6)) =
        Does-if (not (same_text uuid t.connection_uuid)) (raise active_profile_changed) _
          (λ _. Does-raise _)
          (λ _.
            Does-if (same_pair (ipv4, ipv6) t.applied) (pure tt) _ (λ _. Does-pure tt tt)
              (λ _.
                Does-if (same_pair (ipv4, ipv6) (enabled, enabled))
                  (apply_profile_from k t (enabled, enabled) t.applied) (raise active_changed)
                  (λ _. apply_profile_from-Does _ _ (inr refl)) (λ _. Does-raise _)))

    restore_present-Does :
        (present : Bool) → Does P (restore_present k t (enabled, enabled) present) Anything
    unfolding restore_present
    restore_present-Does false = Does-pure tt tt
    restore_present-Does true =
        Does-bind _ _ (Does-attempt _ (call _ (reads.read_active _))) (λ r _. active_read-Does r)

    check_present-Does : (present : Bool) → Does P (check_present k t present) Anything
    unfolding check_present
    check_present-Does false = Does-pure tt tt
    check_present-Does true = Does-bind _ _ (call _ (reads.default_routes_present _)) (λ current _.
        Does-if (same_pair current t.default_routes) (pure tt) (raise routes_changed)
          (λ _. Does-pure tt tt) (λ _. Does-raise _))

    persistent : Does P (restore_persistent k t (enabled, enabled)) Anything
    unfolding restore_persistent
    persistent =
        Does-bind _ _ (Does-attempt _ (call _ (reads.read_profile _))) (λ r _. restore_read-Does r)

    actives : Does P (restore_active k t (enabled, enabled)) Anything
    unfolding restore_active
    actives =
        Does-bind _ _ (call _ (reads.verify_device _)) (λ present _. restore_present-Does present)

    routes : Does P (check_routes k t) Anything
    unfolding check_routes
    routes =
        Does-bind _ _ (call _ (reads.verify_device _)) (λ present _. check_present-Does present)

    pub rollback_profile-Does : Does P (rollback_profile k t (enabled, enabled)) Anything
    unfolding rollback_profile
    rollback_profile-Does = Does-bind _ _ (Does-attempt _ persistent) (λ p _.
        Does-bind _ _ (Does-attempt _ actives)
          (λ a _. Does-bind _ _ (Does-attempt _ routes) (λ r _. Does-lift _ (λ _ _. tt))))
