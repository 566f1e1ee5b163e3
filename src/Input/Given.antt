-- ===== src/Input/Given.antt =====
-- The frames that the sink is given, one after the other.
use holodori_phone_trackpad.Prelude.{
  ℕ, suc, ◌+◌, ◌≡◌, refl, arith, Bool, true, ◌||◌, ◌&&◌, ltb, leb, if◌then◌else◌, Option, some,
  none, List, [], ◌∷◌, length, Result, ok, err,
}
use holodori_phone_trackpad.Io.{IoError}
use holodori_phone_trackpad.Protocol.{TouchFrame}
use holodori_phone_trackpad.Ordered.{OrderedFrames, slot, next_ready}
use holodori_phone_trackpad.Ordered as Ordered
use holodori_phone_trackpad.Ordered.Lookup.{lookup}
use holodori_phone_trackpad.Metrics.Recorder.{HostMetrics}
use holodori_phone_trackpad.Input.{InputSink, Patience, Live, accept_frame, commit_loop}

-- What became of the frames: the states, how many were accepted, and why not all were.
pub record Given (K : Type 0) : Type 0 where
  pub keyboard : K
  pub metrics : HostMetrics
  pub accepted : ℕ
  pub failed : Option IoError

-- The answer of `commit_ready`.
abbrev pub answer_of : Bool → Option IoError → Result IoError Bool
answer_of progressed none = ok progressed
answer_of progressed (some e) = err e

module _ {F K : Type 0} (sink : InputSink F K) (patience : ℕ → Patience) where
  -- Frames given to the sink one after the other, up to the first that it does not accept.
  unfoldable pub give : ℕ → List (TouchFrame F) → K → HostMetrics → Given K
  give round [] k m = record { keyboard = k; metrics = m; accepted = 0; failed = none }
  give round (frame ∷ frames) k m =
      let (k', (m', failed)) = accept_frame sink (patience round) frame k m in
      let rest = give (round + 1) frames k' m' in
      elim failed [
        | some e ↦ record { keyboard = k'; metrics = m'; accepted = 0; failed = some e }
        | none ↦ record rest { accepted = rest.accepted + 1 }
      ]

  pub give-all :
      (round : ℕ) (frames : List (TouchFrame F)) (k : K) (m : HostMetrics)
      → (give round frames k m).failed ≡ none
      → (give round frames k m).accepted ≡ length frames
  unfolding give
  give-all round [] k m h = refl
  give-all round (frame ∷ frames) k m h =
      let r = accept_frame sink (patience round) frame k m in
      ground (arith, h, give-all (round + 1) frames r.0 r.1.0)

  -- The window without the frames of `count` numbers from the expected one on.
  pub record Commits (before : Live F K) (progressed : Bool) (g : Given K) (after : Live F K)
      (answer : Result IoError Bool) : Type 0 where
    pub keyboard : after.keyboard ≡ g.keyboard
    pub metrics : after.metrics ≡ g.metrics
    pub expected : after.ordered.next_sequence ≡ before.ordered.next_sequence + g.accepted
    pub window :
        (s : ℕ)
        → lookup after.ordered s ≡ (
            if leb before.ordered.next_sequence s
              && ltb s (before.ordered.next_sequence + g.accepted)
            then none
            else lookup before.ordered s)
    pub answers : answer ≡ answer_of (progressed || ltb 0 g.accepted) g.failed

  -- The keyboard and the recorder after a frame was given to the sink, and the window after it was
  -- taken.
  unfoldable pub given : ℕ → TouchFrame F → Live F K → Live F K
  given round frame live =
      let r = accept_frame sink (patience round) frame live.keyboard live.metrics in
      record live { keyboard = r.0; metrics = r.1.0 }

  unfoldable pub taken : ℕ → TouchFrame F → Live F K → Live F K
  unfolding given
  taken round frame live = record (given round frame live) {
    ordered = (Ordered.commit_ready live.ordered).0;
  }

  pub commit_loop-none :
      (fuel round : ℕ) (live : Live F K) (progressed : Bool)
      → next_ready live.ordered ≡ none
      → commit_loop sink patience (suc fuel) round live progressed ≡ (live, ok progressed)
  unfolding commit_loop
  commit_loop-none fuel round live progressed missing = rw (commit_loop, missing) refl

  pub commit_loop-failed :
      (fuel round : ℕ) (live : Live F K) (progressed : Bool) (frame : TouchFrame F) (e : IoError)
      → next_ready live.ordered ≡ some frame
      → (accept_frame sink (patience round) frame live.keyboard live.metrics).1.1 ≡ some e
      → commit_loop sink patience (suc fuel) round live progressed ≡ (given round frame live, err e)
  unfolding commit_loop given
  commit_loop-failed fuel round live progressed frame e found failed =
      rw (commit_loop, found, failed) refl

  pub commit_loop-next :
      (fuel round : ℕ) (live : Live F K) (progressed : Bool) (frame : TouchFrame F)
      → next_ready live.ordered ≡ some frame
      → (accept_frame sink (patience round) frame live.keyboard live.metrics).1.1 ≡ none
      → (Ordered.commit_ready live.ordered).1 ≡ true
      → commit_loop sink patience (suc fuel) round live progressed
        ≡ commit_loop sink patience fuel (round + 1) (taken round frame live) true
  unfolding commit_loop given taken
  commit_loop-next fuel round live progressed frame found accepted there =
      rw (commit_loop, found, accepted, there) refl

  pub give-failed :
      (round : ℕ) (frame : TouchFrame F) (frames : List (TouchFrame F)) (live : Live F K)
      (e : IoError)
      → (accept_frame sink (patience round) frame live.keyboard live.metrics).1.1 ≡ some e
      → give round (frame ∷ frames) live.keyboard live.metrics ≡ record {
        keyboard = (given round frame live).keyboard;
        metrics = (given round frame live).metrics;
        accepted = 0;
        failed = some e;
      }
  unfolding give given
  give-failed round frame frames live e failed = rw (give, failed) refl

  unfoldable pub one_more : Given K → Given K
  one_more g = record g { accepted = g.accepted + 1 }

  pub give-next :
      (round : ℕ) (frame : TouchFrame F) (frames : List (TouchFrame F)) (live : Live F K)
      → (accept_frame sink (patience round) frame live.keyboard live.metrics).1.1 ≡ none
      → give round (frame ∷ frames) live.keyboard live.metrics
        ≡ one_more (
            give
              (round + 1)
              frames
              (taken round frame live).keyboard
              (taken round frame live).metrics)
  unfolding give given taken one_more
  give-next round frame frames live accepted = rw (give, accepted) refl
