-- ===== src/Serve/Tested.antt =====
-- What a round of the loop has found once it waits for a record.
use holodori_phone_trackpad.Prelude.{
  ◌-◌, ◌<◌, ◌≡◌, refl, ap, ◌∙◌, Option, Result, err, arith, true, false, none, ok, Bool-cases, inl,
  inr,
}
use holodori_phone_trackpad.Prelude.Actions.{Action, On, Does, Does-bind}
use holodori_phone_trackpad.Protocol.{Float32}
use holodori_phone_trackpad.Input.{InputSink, Live}
use holodori_phone_trackpad.Gameplay.{GameplayState, HostError}
use holodori_phone_trackpad.NetworkManager.Observed.{Anything}
use holodori_phone_trackpad.Connection.{Arrived}
use holodori_phone_trackpad.Serve.Signs.{step}
use holodori_phone_trackpad.Serve.{
  HostLink, Serving, Round, session_of, active_input_silence_timeout, idle_peer_silence_timeout,
  check_interface, repeat_hello, check_start, watch_active, watch_idle, linked, arriving,
  serve_deferred, adjust_timeout, set_timeout, receive_next, note_discard,
}

module _ {F K C E : Type 0} (float : Float32 F) (sink : InputSink F K) (link : HostLink C E) where
  watch_active-ok :
      (r : Round) (s : Serving F K C)
      → (watch_active float sink link r s).1 ≡ ok tt
      → (sink.has_active_input s.game.live.keyboard ≡ true
          → r.active_checked - s.game.control.last_committed_frame < active_input_silence_timeout)
        × ((watch_active float sink link r s).0 ≡ s)
  unfolding watch_active
  watch_active-ok r s h = (λ a. ground (arith, h, a), ground (arith, h))

  watch_idle-ok :
      (r : Round) (s : Serving F K C)
      → (watch_idle float sink link r s).1 ≡ ok tt
      → (s.session_established ≡ true
          → sink.has_active_input s.game.live.keyboard ≡ false
          → r.idle_checked - s.game.control.last_idle_activity < idle_peer_silence_timeout)
        × ((watch_idle float sink link r s).0 ≡ s)
  unfolding watch_idle
  watch_idle-ok r s h = (λ a b. ground (arith, h, a, b), ground (arith, h))

  -- What the tests of the interface and of the start leave alone.
  record Leaves (s s' : Serving F K C) : Type 0 where
    live : s'.game.live ≡ s.game.live
    control : s'.game.control ≡ s.game.control
    established : s'.session_established ≡ s.session_established
    deadline : s'.session_start_deadline ≡ s.session_start_deadline

  check_interface-ok :
      (r : Round) (s : Serving F K C)
      → (check_interface float sink link r s).1 ≡ ok tt
      → ((link.changed s.game.link).1 ≡ false) × Leaves s (check_interface float sink link r s).0
  unfolding check_interface
  check_interface-ok r s h = elim (Bool-cases (link.changed s.game.link).1) [
    | inl changed ↦ absurd (ground (arith, h, changed))
    | inr same ↦
        rw (check_interface, same)
          (refl, record { live = refl; control = refl; established = refl; deadline = refl })
  ]

  check_start-ok :
      (r : Round) (s : Serving F K C)
      → (check_start float sink link r s).1 ≡ ok tt
      → (session_of s ≡ none → r.start_checked < s.session_start_deadline)
        × Leaves s (check_start float sink link r s).0
  unfolding check_start repeat_hello linked
  check_start-ok r s h = (
    (λ closed. ground (arith, h, closed)),
    record {
      live = ground arith;
      control = ground arith;
      established = ground arith;
      deadline = ground arith;
    },
  )

  -- What a round that goes on has found of the variables of the loop.
  pub record Tested (r : Round) (s : Serving F K C) : Type 0 where
    pub interface : (link.changed s.game.link).1 ≡ false
    pub start : session_of s ≡ none → r.start_checked < s.session_start_deadline
    pub active :
        sink.has_active_input s.game.live.keyboard ≡ true
        → r.active_checked - s.game.control.last_committed_frame < active_input_silence_timeout
    pub idle :
        s.session_established ≡ true
        → sink.has_active_input s.game.live.keyboard ≡ false
        → r.idle_checked - s.game.control.last_idle_activity < idle_peer_silence_timeout

  pub arriving-Tested :
      (r : Round) (s : Serving F K C) (arrived : Option Arrived)
      → (arriving float sink link r s).1 ≡ ok arrived
      → Tested r s
  unfolding arriving
  arriving-Tested r s arrived h =
      let a = step (check_interface float sink link r) _ s arrived h in
      let i = check_interface-ok r s a.1 in
      let s1 = (check_interface float sink link r s).0 in
      let b = step (check_start float sink link r) _ s1 arrived a.2 in
      let j = check_start-ok r s1 b.1 in
      let s2 = (check_start float sink link r s1).0 in
      let c = step (watch_active float sink link r) _ s2 arrived b.2 in
      let k = watch_active-ok r s2 c.1 in
      let s3 = (watch_active float sink link r s2).0 in
      let d = step (watch_idle float sink link r) _ s3 arrived c.2 in
      let l = watch_idle-ok r s3 d.1 in
      let live = j.1.live ∙ i.1.live in
      let control = j.1.control ∙ i.1.control in
      let kept = ap (λ (x : Serving F K C). x.game.live) k.1 ∙ live in
      let guarded =
        ap (λ (x : Serving F K C). x.game.control.last_idle_activity) k.1
        ∙ ap (λ (x : GameplayState). x.last_idle_activity) control in
      record {
        interface = i.0;
        start = λ closed. omega (
          arith,
          i.1.deadline,
          j.0 (ap (λ (x : Live F K). x.ordered.session_id) i.1.live ∙ closed),
        );
        active = λ busy. omega (
          arith,
          ap (λ (x : GameplayState). x.last_committed_frame) control,
          k.0 (ap (λ (x : Live F K). sink.has_active_input x.keyboard) live ∙ busy),
        );
        idle = λ open' quiet. omega (
          arith,
          guarded,
          l.0
              (ap (λ (x : Serving F K C). x.session_established) k.1
                ∙ j.1.established
                ∙ i.1.established
                ∙ open')
              (ap (λ (x : Live F K). sink.has_active_input x.keyboard) kept ∙ quiet),
        );
      }

  -- Nothing before the record that arrives moves the times.
  keeps :
      {A : Type 0} {c : GameplayState} (m : Action (Serving F K C) (HostError E) A)
      → ((s : Serving F K C) → (m s).0.game.control ≡ s.game.control)
      → Does (λ s. s.game.control ≡ c) m Anything
  keeps m h = record { at = λ s e. (h s ∙ e, anything (m s).1) }
    where
      anything : {X Y : Type 0} (x : Result X Y) → On (Anything {A = Y}) x
      anything (ok y) = tt
      anything (err x) = tt

  pub arriving-control :
      (r : Round) (s : Serving F K C)
      → (arriving float sink link r s).0.game.control ≡ s.game.control
  unfolding arriving check_interface check_start repeat_hello watch_active watch_idle serve_deferred
      adjust_timeout set_timeout receive_next note_discard linked
  arriving-control r s =
      ((Does-bind _ _ (keeps (check_interface float sink link r) (λ x. ground arith)) (λ _ _.
          Does-bind _ _ (keeps (check_start float sink link r) (λ x. ground arith)) (λ _ _.
            Does-bind _ _ (keeps (watch_active float sink link r) (λ x. ground arith)) (λ _ _.
              Does-bind _ _ (keeps (watch_idle float sink link r) (λ x. ground arith)) (λ _ _.
                Does-bind _ _ (keeps (serve_deferred float sink link r) (λ x. ground arith)) (λ _ _.
                  Does-bind _ _ (keeps (adjust_timeout float sink link r) (λ x. ground arith))
                    (λ _ _. keeps (receive_next float sink link) (λ x. ground arith)))))))).at
        s refl).0
