-- ===== src/NetworkManager/Status.antt =====
-- What the status of a target says once all four settings are as asked.
use holodori_phone_trackpad.Prelude.{◌≡◌, refl, arith, Bool, true, false, not, ◌&&◌}
use holodori_phone_trackpad.NetworkManager.{
  Pair, same, Target, LinuxLocalOnlyStatus, settings_all, policy_enabled, target_status,
  status_message, unreachable,
}

-- All four settings are as asked for, and the status says so.
abbrev pub Reported : Bool → LinuxLocalOnlyStatus → Type 0
Reported enabled s =
    (s.available ≡ true)
    × (s.configured ≡ enabled)
    × (s.enabled ≡ true → enabled ≡ true)
    × (s.mixed ≡ (enabled && not s.enabled))
    × ((s.message ≡ unreachable) → ⊥)

pair_true : (p : Pair) → same p.0 true ≡ true → same p.1 true ≡ true → p ≡ (true, true)
pair_true (true, true) x y = refl
pair_true (true, false) x y = absurd (cc)
pair_true (false, b) x y = absurd (cc)

pair_false : (p : Pair) → same p.0 false ≡ true → same p.1 false ≡ true → p ≡ (false, false)
pair_false (false, false) x y = refl
pair_false (false, true) x y = absurd (cc)
pair_false (true, b) x y = absurd (cc)

pub and_true : (a b : Bool) → (a && b) ≡ true → (a ≡ true) × (b ≡ true)
and_true a b h = ground arith

pair_of : (p : Pair) (e : Bool) → same p.0 e ≡ true → same p.1 e ≡ true → p ≡ (e, e)
pair_of p true = pair_true p
pair_of p false = pair_false p

pub settings_all-eq :
    {D : Type 0} (t : Target D) (enabled : Bool)
    → settings_all t enabled ≡ true
    → (t.profile ≡ (enabled, enabled)) × (t.applied ≡ (enabled, enabled))
unfolding settings_all
settings_all-eq t enabled h =
    let x = and_true _ _ h in
    let y = and_true _ _ x.0 in
    let z = and_true _ _ y.0 in
    (pair_of t.profile enabled z.0 z.1, pair_of t.applied enabled y.1 x.1)

reported :
    {D : Type 0} (t : Target D) (enabled r1 r2 : Bool)
    → t.default_routes ≡ (r1, r2)
    → t.profile ≡ (enabled, enabled)
    → t.applied ≡ (enabled, enabled)
    → Reported enabled (target_status t)
unfolding target_status status_message policy_enabled settings_all
reported t true true true r p a = simp (r, p, a) (refl, refl, (λ _. refl), refl, (λ e. cc))
reported t true true false r p a = simp (r, p, a) (refl, refl, (λ _. refl), refl, (λ e. cc))
reported t true false true r p a = simp (r, p, a) (refl, refl, (λ _. refl), refl, (λ e. cc))
reported t true false false r p a = simp (r, p, a) (refl, refl, (λ _. refl), refl, (λ e. cc))
reported t false true true r p a = simp (r, p, a) (refl, refl, (λ e. e), refl, (λ e. cc))
reported t false true false r p a = simp (r, p, a) (refl, refl, (λ e. e), refl, (λ e. cc))
reported t false false true r p a = simp (r, p, a) (refl, refl, (λ e. e), refl, (λ e. cc))
reported t false false false r p a = simp (r, p, a) (refl, refl, (λ e. e), refl, (λ e. cc))

pub target_status-Reported :
    {D : Type 0} (t : Target D) (enabled : Bool)
    → settings_all t enabled ≡ true
    → Reported enabled (target_status t)
target_status-Reported t enabled h =
    let x = settings_all-eq t enabled h in
    reported t enabled t.default_routes.0 t.default_routes.1 refl x.0 x.1
