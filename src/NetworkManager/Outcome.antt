-- ===== src/NetworkManager/Outcome.antt =====
-- What a change of the policy comes to, however it ends.
use holodori_phone_trackpad.Prelude.{
  ◌≡◌, sym, subst, ◌∙◌, Bool, not, ◌&&◌, ◌||◌, Result, ok, err, Bool-cases, inl, inr,
}
use holodori_phone_trackpad.Prelude.Actions.{
  Action, pure, ◌>>=◌, On, Ends, bind-Ends, wrapped_bind-Ends,
}
use holodori_phone_trackpad.Nmcli.{Text}
use holodori_phone_trackpad.NetworkManager.{
  Pair, same_pair, NetworkError, Backend, Target, device_changed, Resolution, target, not_available,
  SetError, failed, unavailable, with_rollback, LinuxLocalOnlyStatus, settings_all, policy_enabled,
  persistent_changed,
}
use holodori_phone_trackpad.NetworkManager.Resolve.{asked, require, resolve_target}
use holodori_phone_trackpad.NetworkManager.Change.{
  change_verified, set_target, set_found, set_with_backend,
}
use holodori_phone_trackpad.NetworkManager.Observed.{
  Anything, require-Ends, Resolved, resolve_target-Does,
}
use holodori_phone_trackpad.NetworkManager.Manager.{
  Active, Same, Same-refl, Same-trans, IsManager, Read,
}
use holodori_phone_trackpad.NetworkManager.Persistent.{ask}
use holodori_phone_trackpad.NetworkManager.Status.{
  and_true, settings_all-eq, target_status-Reported,
}
use holodori_phone_trackpad.NetworkManager.Written.{Outcome, change_profile-Over}

module _ {W D : Type 0} (k : Backend W D) (profile : W → Text → Pair) (active : W → Text → Active)
    (gone : D → W → Type 0) (manager : IsManager k profile active gone) where
  module _ (t : Target D) (enabled : Bool) (w : W)
      (chosen : profile w t.connection_uuid ≡ t.profile)
      (applied : active w t.device_dbus_path ≡ (t.connection_uuid, t.applied.0, t.applied.1)) where
    abbrev Over : W → Result SetError LinuxLocalOnlyStatus → Type 0
    Over = Outcome k profile active gone manager t enabled w

    -- An error before anything was written.
    abbrev IsEarly : {A : Type 0} → Result SetError A → Type 0
    IsEarly (ok a) = Unit {0}
    IsEarly (err (failed e)) = Unit {0}
    IsEarly (err (unavailable reason)) = Unit {0}
    IsEarly (err (with_rollback e r)) = ⊥

    early :
        (v : W) (e : SetError)
        → Same k profile active gone w v
        → IsEarly {A = Unit {0}} (err e)
        → Over v (err e)
    early v (failed e) h x = inl h
    early v (unavailable reason) h x = h
    early v (with_rollback e r) h x = absurd x

    -- A test before anything was written, and what follows it.
    required :
        (b : Bool) (e : NetworkError) (f : Unit {0} → Action W SetError LinuxLocalOnlyStatus)
        (v : W)
        → Same k profile active gone w v
        → ((v' : W) → Same k profile active gone w v' → Ends Over (f tt v'))
        → Ends Over ((require b (failed e) >>= f) v)
    required b e f v h next =
        bind-Ends (λ v' r. Same k profile active gone w v' × IsEarly r) Over _ _ v
          (require-Ends (λ v' r. Same k profile active gone w v' × IsEarly r) b (failed e) v
            (λ _. (h, tt)) (λ _. (h, tt)))
          (λ v' x d. early v' x d.0 d.1) (λ v' _ d. next v' d.0)

    change_verified-Over :
        (v : W) → Same k profile active gone w v → Ends Over (change_verified k t enabled v)
    unfolding change_verified
    change_verified-Over v h =
        wrapped_bind-Ends
          (Read k profile active gone v (asked k (k.verify_device t.device) v) Anything) Over failed
          _ _ v (ask k profile active gone manager v _ ((manager.reads v).verify_device t.device))
          (λ v' e read. inl (Same-trans k profile active gone h read.0))
          (λ v' fine read.
            required fine device_changed _ v' (Same-trans k profile active gone h read.0) (λ v1 h1.
              wrapped_bind-Ends
                (Read k profile active gone v1 _ (λ p. p ≡ profile v1 t.connection_uuid)) Over
                failed _ _ v1
                (ask k profile active gone manager v1 _
                  ((manager.reads v1).read_profile t.connection_uuid))
                (λ v2 e read. inl (Same-trans k profile active gone h1 read.0))
                (λ v2 now read.
                  required (same_pair now t.profile) persistent_changed _ v2
                    (Same-trans k profile active gone h1 read.0)
                    (λ v3 h3.
                      change_profile-Over k profile active gone manager t enabled w chosen applied
                        v3))))

    set_target-Over :
        (v : W) → Same k profile active gone w v → Ends Over (set_target k t enabled v)
    unfolding set_target pure
    set_target-Over v h =
        elim (Bool-cases (settings_all t enabled && (not enabled || policy_enabled t))) [
          | inr due ↦ rw due (change_verified-Over v h)
          | inl done ↦
              let kept = (and_true _ _ done).0 in
              let s = settings_all-eq t enabled kept in
              rw done (
                target_status-Reported t enabled kept,
                h.profiles t.connection_uuid ∙ chosen ∙ s.0,
                h.actives t.device_dbus_path
                    ∙ applied
                    ∙ (λ i. (t.connection_uuid, (s.1 i).0, (s.1 i).1)),
              )
        ]

  set_found-Outcome :
      (t : Target D) (enabled : Bool) (w v : W) (r : Resolution D)
      → Same k profile active gone w v
      → Resolved k
          (Same k profile active gone w)
          (λ uuid p. p ≡ profile w uuid)
          (λ path a. a ≡ active w path)
          (manager.reads w)
          r
      → ◌≡◌ {A = Result NetworkError (Resolution D)} (ok r) (ok (target t))
      → Ends (Outcome k profile active gone manager t enabled w) (set_found k enabled r v)
  unfolding set_found
  set_found-Outcome t enabled w v (not_available reason) h q e = absurd (cc)
  set_found-Outcome t enabled w v (target found) h (x, y, p, a) e =
      let same_one : found ≡ t = cc in
      subst
        (λ (u : Target D).
          Ends (Outcome k profile active gone manager u enabled w)
            (set_found k enabled (target found) v))
        same_one (set_target-Over found enabled w (sym p) (sym a) v h)

  -- A change of the policy, of the tether that is chosen before it. If it succeeds, the profile
  -- and the active settings are as asked for, for IPv4 and IPv6, and the status that is returned
  -- is available, configured as asked, enabled only if asked, and `mixed` just if the policy is
  -- asked for and not reported as enabled; the `unreachable!` of its message is not met. If it
  -- reports a rollback that succeeded, the tether's profile is what it was, and its active
  -- settings too unless in the course of the rollback the system answered that the device is not
  -- there (`gone` is any trace that such an answer leaves and that reads keep). If it fails
  -- without a rollback, no settings were changed, except for one case: the profile was written,
  -- and the last call, which failed with the error that is returned, was to verify the device;
  -- then the profile stays written. Reads are true and change nothing, and writes that return are
  -- done.
  pub set_with_backend-Outcome :
      (t : Target D) (enabled : Bool) (w : W)
      → (resolve_target k w).1 ≡ ok (target t)
      → Ends (Outcome k profile active gone manager t enabled w) (set_with_backend k enabled w)
  unfolding set_with_backend
  set_with_backend-Outcome t enabled w chosen =
      wrapped_bind-Ends
        (λ v r.
          Same k profile active gone w v
          × On
              (Resolved k (Same k profile active gone w) (λ uuid p. p ≡ profile w uuid)
                (λ path a. a ≡ active w path) (manager.reads w))
              r
          × (r ≡ ok (target t)))
        (Outcome k profile active gone manager t enabled w) failed _ _ w
        (
          ((resolve_target-Does k _ _ _ (manager.reads w)).at w
              (Same-refl k profile active gone w)).0,
          ((resolve_target-Does k _ _ _ (manager.reads w)).at w
              (Same-refl k profile active gone w)).1,
          chosen,
        )
        (λ v e h. inl h.0) (λ v r h. set_found-Outcome t enabled w v r h.0 h.1 h.2)
