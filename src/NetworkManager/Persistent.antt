-- ===== src/NetworkManager/Persistent.antt =====
-- The profile after a rollback.
use holodori_phone_trackpad.Prelude.{
  Result-cases, ◌≡◌, sym, ◌∙◌, false, Result, ok, err, Bool-cases, inl, inr,
}
use holodori_phone_trackpad.Prelude.Actions.{
  Action, pure, raise, wrapped, On, Ends, Does, bind-Ends, attempt-Ends, wrapped-Ends,
}
use holodori_phone_trackpad.Nmcli.{Text}
use holodori_phone_trackpad.NetworkManager.{Pair, same_pair, NetworkError, backend, Backend, Target}
use holodori_phone_trackpad.NetworkManager.Resolve.{asked}
use holodori_phone_trackpad.NetworkManager.Rollback.{
  restored_again, write_back, restore_read, restore_persistent,
}
use holodori_phone_trackpad.NetworkManager.Observed.{Does-wrapped}
use holodori_phone_trackpad.NetworkManager.Manager.{
  Active, same_pair-eq, Same, IsManager, Read, read,
}

module _ {W D : Type 0} (k : Backend W D) (profile : W → Text → Pair) (active : W → Text → Active)
    (gone : D → W → Type 0) (manager : IsManager k profile active gone) where
  pub ask :
      {A : Type 0} {Q : A → Type 0} (w : W) (m : Action W Text A)
      → Does (Same k profile active gone w) m Q
      → Ends (Read k profile active gone w (asked k m w) Q) (asked k m w)
  unfolding asked
  ask w m d = read k profile active gone w (wrapped backend m) (Does-wrapped backend m d)

  -- A device that is not there is found to be gone.
  pub asked_gone :
      (d : D) (w : W)
      → (asked k (k.verify_device d) w).1 ≡ ok false
      → gone d (asked k (k.verify_device d) w).0
  unfolding asked wrapped
  asked_gone d w absent = elim (Result-cases (k.verify_device d w).1) [
    | inl (present, answered) ↦ manager.finds d w (cc (rw answered at absent, answered))
    | inr (e, failed) ↦ absurd (cc (rw failed at absent))
  ]

  -- What a restored profile is, from `w` on.
  abbrev pub PersistentDone : Target D → W → W → Result NetworkError (Unit {0}) → Type 0
  PersistentDone t w w' r =
      ((path : Text) → active w' path ≡ active w path)
      × On (λ _. profile w' t.connection_uuid ≡ t.profile) r

  restored_again-Done :
      (t : Target D) (w w' : W) (r : Result NetworkError Pair)
      → ((path : Text) → active w' path ≡ active w path)
      → On (λ p. p ≡ profile w' t.connection_uuid) r
      → Ends (PersistentDone t w) (restored_again k t r w')
  unfolding restored_again raise pure
  restored_again-Done t w w' (err e) h q = (h, tt)
  restored_again-Done t w w' (ok latest) h q = elim (Bool-cases (same_pair latest t.profile)) [
    | inl equal ↦ rw equal (h, sym q ∙ same_pair-eq latest t.profile equal)
    | inr other ↦ rw other (h, tt)
  ]

  write_back-Done :
      (t : Target D) (owned : Pair) (w : W) → Ends (PersistentDone t w) (write_back k t owned w)
  unfolding write_back asked
  write_back-Done t owned w =
      bind-Ends
        (λ w' r.
          ((path : Text) → active w' path ≡ active w path)
          × On (λ _. profile w' t.connection_uuid ≡ t.profile) r)
        (PersistentDone t w) _ _ w
        (wrapped-Ends (λ w'. (path : Text) → active w' path ≡ active w path)
          (λ w' _. profile w' t.connection_uuid ≡ t.profile) backend _ w
          (manager.updates t.connection_uuid owned t.profile w))
        (λ w' e h. (h.0, tt))
        (λ w' _ h.
          attempt-Ends (Read k profile active gone w' _ (λ p. p ≡ profile w' t.connection_uuid))
            (PersistentDone t w) _ _ w'
            (ask w' _ ((manager.reads w').read_profile t.connection_uuid))
            (λ w'' r read.
              restored_again-Done t w w'' r (λ path. read.0.actives path ∙ h.0 path)
                (honest r w' w'' (sym (read.0.profiles t.connection_uuid)) read.1)))
    where
      honest :
          (r : Result NetworkError Pair) (w' w'' : W)
          → profile w' t.connection_uuid ≡ profile w'' t.connection_uuid
          → On (λ p. p ≡ profile w' t.connection_uuid) r
          → On (λ p. p ≡ profile w'' t.connection_uuid) r
      honest (ok p) w' w'' e q = q ∙ e
      honest (err x) w' w'' e q = tt

  restore_read-Done :
      (t : Target D) (owned : Pair) (w w' : W) (r : Result NetworkError Pair)
      → Same k profile active gone w w'
      → On (λ p. p ≡ profile w t.connection_uuid) r
      → Ends (PersistentDone t w) (restore_read k t owned r w')
  unfolding restore_read raise pure
  restore_read-Done t owned w w' (err e) h q = (h.actives, tt)
  restore_read-Done t owned w w' (ok current) h q =
      elim (Bool-cases (same_pair current t.profile)) [
        | inl equal ↦
            rw equal (
              h.actives,
              h.profiles t.connection_uuid ∙ sym q ∙ same_pair-eq current t.profile equal,
            )
        | inr other ↦ elim (Bool-cases (same_pair current owned)) [
          | inr foreign ↦ rw (other, foreign) (h.actives, tt)
          | inl ours ↦
              let d = write_back-Done t owned w' in
              rw (other, ours) ((λ path. d.0 path ∙ h.actives path), d.1)
        ]
      ]

  pub restore_persistent-Done :
      (t : Target D) (owned : Pair) (w : W)
      → Ends (PersistentDone t w) (restore_persistent k t owned w)
  unfolding restore_persistent
  restore_persistent-Done t owned w =
      attempt-Ends (Read k profile active gone w _ (λ p. p ≡ profile w t.connection_uuid))
        (PersistentDone t w) _ _ w (ask w _ ((manager.reads w).read_profile t.connection_uuid))
        (λ w' r h. restore_read-Done t owned w w' r h.0 h.1)
