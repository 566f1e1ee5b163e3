-- ===== src/Replay/Examples.antt =====
-- Tests of the replay window.
use holodori_phone_trackpad.Prelude.{ℕ, ◌≡◌, true, false, List, [], ◌∷◌, contains}
use holodori_phone_trackpad.Replay.{would_accept}
use holodori_phone_trackpad.Replay.Window.{newest}
use holodori_phone_trackpad.Replay.Refinement.{committed, in_window, would_accept-committed}

abbrev history : List ℕ
history = 1100 ∷ 3 ∷ 80 ∷ []

would_accept-committed_example : would_accept (committed history) 79 ≡ true
unfolding contains in_window newest
would_accept-committed_example = would_accept-committed history 79

twice : would_accept (committed history) 80 ≡ false
unfolding contains in_window newest
twice = would_accept-committed history 80

too_old : would_accept (committed history) 76 ≡ false
unfolding contains in_window newest
too_old = would_accept-committed history 76
