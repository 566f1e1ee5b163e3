-- ===== src/Serve/Ended.antt =====
-- What holds once a session has ended.
use holodori_phone_trackpad.Prelude.{
  ℕ, zero, suc, ◌+◌, ◌≡◌, refl, arith, Bool, true, false, Option, some, none, List, Result, ok, err,
  Result-cases, Option-cases, Bool-cases, inl, inr,
}
use holodori_phone_trackpad.Io.{IoError}
use holodori_phone_trackpad.Protocol.{Float32, TouchFrame, session_start}
use holodori_phone_trackpad.Ordered.{require_fresh_session, push}
use holodori_phone_trackpad.Ordered.Lookup.{lookup}
use holodori_phone_trackpad.Ordered.Delivery.{require_fresh_session_lem, push_refused}
use holodori_phone_trackpad.Metrics.Recorder.{HostMetrics}
use holodori_phone_trackpad.Input.{InputSink, Patience, Live, retry, cancel_with_deadline}
use holodori_phone_trackpad.Gameplay.{HostError, io}
use holodori_phone_trackpad.Serve.{HostLink, Serving, Round}
use holodori_phone_trackpad.Serve.Session.{
  Start, Ending, opening, serve_gameplay_inner, end_session, serve_gameplay, finished,
}

answered :
    {E : Type 0} (cancelled : Result IoError (Unit {0})) (answer : Result (HostError E) Bool)
    → ◌≡◌ {A = Result (HostError E) (Unit {0})}
        (elim cancelled [ ok _ ↦ finished answer | err x ↦ err (io x) ])
        (ok tt)
    → cancelled ≡ ok tt
answered (ok _) answer h = refl
answered (err x) answer h = absurd (cc)

module _ {F K : Type 0} (sink : InputSink F K) (Released : K → Type 0)
    (releases : (k : K) → (sink.cancel_all k).1 ≡ ok tt → Released (sink.cancel_all k).0) where
  -- A retry that ended without an error ended with a call that returned.
  retry-Released :
      (failures retries : ℕ) (k : K)
      → (retry sink.cancel_all failures retries k).1.0 ≡ none
      → Released (retry sink.cancel_all failures retries k).0
  unfolding retry
  retry-Released zero retries k h = elim (Result-cases (sink.cancel_all k).1) [
    | inl (x, fine) ↦ rw (retry, fine) (releases k fine)
    | inr (e, failed) ↦ absurd (ground (arith, h, failed))
  ]
  retry-Released (suc failures) retries k h = elim (Result-cases (sink.cancel_all k).1) [
    | inl (x, fine) ↦ rw (retry, fine) (releases k fine)
    | inr (e, failed) ↦
        rw (retry, failed)
          (retry-Released failures (retries + 1) (sink.cancel_all k).0 (ground (arith, h, failed)))
  ]

  cancel-Released :
      (p : Patience) (k : K) (m : HostMetrics)
      → (cancel_with_deadline sink p k m).1.1 ≡ ok tt
      → Released (cancel_with_deadline sink p k m).0
  unfolding cancel_with_deadline
  cancel-Released p k m h = elim (Option-cases (retry sink.cancel_all p.failures 0 k).1.0) [
    | inl fine ↦ rw (cancel_with_deadline, fine) (retry-Released p.failures 0 k fine)
    | inr (e, failed) ↦ absurd (ground (arith, h, failed))
  ]

  -- What the end of a session leaves.
  abbrev pub Over :
      {C E : Type 0} → Option ((C × Live F K) × Result (HostError E) (Unit {0})) → Type 0
  Over none = Unit {0}
  Over (some ((c, live), answer)) =
      (live.ordered.session_id ≡ none)
      × (live.ordered.requires_session_start ≡ true)
      × ((s : ℕ) → lookup live.ordered s ≡ none)
      × ((frame : TouchFrame F)
          → session_start frame ≡ false
          → push live.ordered frame ≡ live.ordered)
      × (answer ≡ ok tt → Released live.keyboard)

  module _ {C E : Type 0} (float : Float32 F) (link : HostLink C E) where
    end_session-Over :
        (e : Ending) (s : Serving F K C) (answer : Result (HostError E) Bool)
        → Over (some (end_session float sink link e s answer))
    unfolding end_session
    end_session-Over e s answer =
        let fresh = require_fresh_session_lem s.game.live.ordered in
        (
          fresh.0,
          fresh.1,
          fresh.2,
          (λ frame other.
              push_refused (require_fresh_session s.game.live.ordered) frame fresh.1 other),
          (λ h. cancel-Released _ _ _ (answered _ answer h)),
        )

    -- However a session ends, by the flag `stopping` or by an error of any part: no session is
    -- open in the window, which holds no frame and takes none but one that starts a session; and
    -- if the call returns without an error then the keyboard is released, which is whatever a
    -- `cancel_all` of the sink that returns without an error brings about.
    pub serve_gameplay-Over :
        (c : C) (live : Live F K) (lanes : ℕ) (start : Start) (rs : List Round) (e : Ending)
        → Over (serve_gameplay float sink link c live lanes start rs e)
    unfolding serve_gameplay
    serve_gameplay-Over c live lanes start rs e =
        let fresh : Live F K = record live { ordered = require_fresh_session live.ordered } in
        let begun = opening float sink link c fresh lanes start in
        let x = serve_gameplay_inner float sink link lanes rs begun in
        elim (Result-cases x.1) [
          | inr (err', failed) ↦ rw (serve_gameplay, failed) (end_session-Over e x.0 (err err'))
          | inl (done, ended) ↦ elim (Bool-cases done) [
            | inl over ↦ rw (serve_gameplay, ended, over) (end_session-Over e x.0 (ok done))
            | inr open' ↦ rw (serve_gameplay, ended, open') tt
          ]
        ]
