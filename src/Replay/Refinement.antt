-- ===== src/Replay/Refinement.antt =====
-- What the replay window promises, for every history of commits.
use holodori_phone_trackpad.Prelude.{
  contains, ℕ, ◌+◌, ◌-◌, ◌≤◌, ◌≡◌, arith, Bool, true, false, not, ◌&&◌, ltb, List, [], ◌∷◌, some,
  none, Option-cases, inl, inr,
}
use holodori_phone_trackpad.Replay.{ReplayWindow, default, would_accept, commit, accepts_below}
use holodori_phone_trackpad.Replay.Window.{
  newest, Tracks, default-Tracks, commit-Tracks, accepts_below-seen, newest-bound, none-contains,
}

-- The window after a history of commits, the latest first.
unfoldable pub committed : List ℕ → ReplayWindow
committed [] = default
committed (n ∷ ns) = commit (committed ns) n

pub committed-Tracks : (ns : List ℕ) → Tracks (committed ns) ns
unfolding committed
committed-Tracks [] = default-Tracks
committed-Tracks (n ∷ ns) = commit-Tracks (committed ns) ns n (committed-Tracks ns)

-- Whether `n` is less than 1,024 below the newest number of the history.
unfoldable pub in_window : List ℕ → ℕ → Bool
in_window ns n = elim (newest ns) [ none ↦ true | some h ↦ ltb h (n + 1024) ]

accepts_below_far : (words : List ℕ) (d : ℕ) → 1024 ≤ d → accepts_below words d ≡ false
unfolding accepts_below
accepts_below_far words d h = ground arith

pub accept_tracked :
    (w : ReplayWindow) (ns : List ℕ) (n : ℕ)
    → Tracks w ns
    → would_accept w n ≡ not (contains ns n) && in_window ns n
unfolding would_accept in_window
accept_tracked w ns n t = elim (Option-cases (newest ns)) [
  | inl e ↦ ground (arith, t.highest_is, none-contains ns n e)
  | inr (h, e) ↦ ground (
    arith,
    t.highest_is,
    t.seen_is h (h - n),
    accepts_below-seen w.words (h - n),
    newest-bound ns h n e,
    accepts_below_far w.words (h - n),
  )
]

-- A packet number is accepted exactly when no earlier commit was of that number and it is less
-- than 1,024 below the highest number committed, whatever the history of commits was.
pub would_accept-committed :
    (ns : List ℕ) (n : ℕ) → would_accept (committed ns) n ≡ not (contains ns n) && in_window ns n
would_accept-committed ns n = accept_tracked (committed ns) ns n (committed-Tracks ns)
