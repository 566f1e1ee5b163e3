-- ===== src/Keyboard/Sink/Release.antt =====
-- When all keys are released.
use holodori_phone_trackpad.Prelude.{ℕ, ◌≡◌, false, none, List, [], map, get_or, Result, ok}
use holodori_phone_trackpad.Io.{IoError}
use holodori_phone_trackpad.Keyboard.{KeyChange}
use holodori_phone_trackpad.Keyboard.Moves.{held}
use holodori_phone_trackpad.Keyboard.Sink.{KeyOutput, KeyboardSink}
use holodori_phone_trackpad.Keyboard.Sink.Sound.{queue_of, IsSound}

lanes_of : List KeyChange → List ℕ
lanes_of = map λ c. c.lane

module _ {S : Type 0} where
  -- No key is pressed, nothing is planned or waits, and no finger is on a lane.
  pub record IsReleased (lanes : ℕ) (k : KeyboardSink S) : Type 0 where
    pub sound : IsSound lanes k
    pub idle : k.pending.sequence ≡ none
    pub up : (l : ℕ) → get_or k.pressed l false ≡ false
    pub nothing_waits : queue_of k.spacer ≡ []
    pub no_hold : (l : ℕ) → held k.state l ≡ false

  module _ (output : KeyOutput S) where
    Releases : ℕ → KeyboardSink S × Result IoError (Unit {0}) → Type 0
    Releases lanes (k, answer) = answer ≡ ok tt → IsReleased lanes k
