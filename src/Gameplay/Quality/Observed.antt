-- ===== src/Gameplay/Quality/Observed.antt =====
-- How the replies to the probes are counted.
use holodori_phone_trackpad.Prelude.{
  ℕ, ◌+◌, ◌-◌, ◌/◌, ◌≤◌, ◌≡◌, refl, sym, ap, ◌∙◌, arith, true, ◌||◌, ◌==◌, not, ltb, Option,
  is_some, List, [], ◌∷◌, length, length-append, contains, distinct, Bool-cases, Option-cases, inl,
  inr,
}
use holodori_phone_trackpad.V5.Quality.{QualityReply}
use holodori_phone_trackpad.Gameplay.Quality.{
  QualityStats, ordered, delayed, radio, timed, observe, abs_diff,
}

-- Every reply is to a probe that was sent, and none is counted twice; of those that were counted,
-- each has a delay or an invalid timing, except for delays after the first 512; and there is a
-- jitter for every delay after the first.
pub record IsQuality (q : QualityStats) : Type 0 where
  pub once : distinct q.received ≡ true
  pub asked : (p : ℕ) → contains q.received p ≡ true → contains q.sent p ≡ true
  pub samples : length q.delays_micros ≤ 512
  pub jitters : length q.jitter_micros ≡ length q.delays_micros - 1
  pub latest : is_some q.last_delay_micros ≡ not (length q.delays_micros == 0)
  pub accounted : length q.delays_micros + q.invalid_timing ≤ length q.received
  pub complete :
      length q.received ≤ 512 → length q.delays_micros + q.invalid_timing ≡ length q.received
  pub late : q.reordered ≤ length q.received

-- What becomes of the delays once a reply's timing is counted.
record Timed (q q' : QualityStats) : Type 0 where
  same_received : q'.received ≡ q.received
  same_sent : q'.sent ≡ q.sent
  same_reordered : q'.reordered ≡ q.reordered
  samples : length q.delays_micros ≤ 512 → length q'.delays_micros ≤ 512
  jitters :
      length q.jitter_micros ≡ length q.delays_micros - 1
      → is_some q.last_delay_micros ≡ not (length q.delays_micros == 0)
      → length q'.jitter_micros ≡ length q'.delays_micros - 1
  latest :
      is_some q.last_delay_micros ≡ not (length q.delays_micros == 0)
      → is_some q'.last_delay_micros ≡ not (length q'.delays_micros == 0)
  at_most :
      length q'.delays_micros + q'.invalid_timing ≤ length q.delays_micros + q.invalid_timing + 1
  exactly :
      length q.delays_micros ≤ 511
      → length q'.delays_micros + q'.invalid_timing ≡ length q.delays_micros + q.invalid_timing + 1

delayed-Timed :
    (q : QualityStats) (reply : QualityReply) (completion micros : ℕ)
    → Timed q (radio (delayed q reply completion micros) reply)
unfolding delayed radio
delayed-Timed q reply completion micros = elim (Bool-cases (ltb (length q.delays_micros) 512)) [
  | inr full ↦ rw full record {
    same_received = refl;
    same_sent = refl;
    same_reordered = refl;
    samples = λ h. h;
    jitters = λ h k. h;
    latest = λ h. h;
    at_most = omega arith;
    exactly = λ h. ground (arith, h, full);
  }
  | inl free ↦
      let longer = length-append q.delays_micros (micros ∷ []) in
      rw free record {
        same_received = refl;
        same_sent = refl;
        same_reordered = refl;
        samples = λ h. ground (arith, longer, free);
        jitters = λ h k. elim (Option-cases q.last_delay_micros) [
          | inl first ↦ ground (arith, h, k, first, longer)
          | inr (previous, later) ↦ ground (
            arith,
            h,
            k,
            later,
            longer,
            length-append q.jitter_micros (abs_diff previous micros ∷ []),
          )
        ];
        latest = λ h. ground (arith, longer);
        at_most = omega (arith, longer);
        exactly = λ h. omega (arith, longer);
      }
]

invalid-Timed : (q : QualityStats) → Timed q (record q { invalid_timing = q.invalid_timing + 1 })
invalid-Timed q = record {
  same_received = refl;
  same_sent = refl;
  same_reordered = refl;
  samples = λ h. h;
  jitters = λ h k. h;
  latest = λ h. h;
  at_most = omega arith;
  exactly = λ h. omega arith;
}

timed-Timed : (q : QualityStats) (reply : QualityReply) (now : ℕ) → Timed q (timed q reply now)
unfolding timed
timed-Timed q reply now =
    let turnaround = reply.phone_send_nanos - reply.phone_receive_nanos in
    let completion = now - reply.host_send_nanos in
    elim (Bool-cases
      (ltb reply.phone_send_nanos reply.phone_receive_nanos || ltb now reply.host_send_nanos)) [
        | inl backwards ↦ rw (timed, backwards) (invalid-Timed q)
        | inr forwards ↦ elim (Bool-cases (ltb completion turnaround)) [
          | inl short ↦ rw (timed, forwards, short) (invalid-Timed q)
          | inr fine ↦
              rw (timed, forwards, fine)
                (delayed-Timed q reply completion ((completion - turnaround) / 1000))
        ]
      ]

-- A reply that is counted for the first time.
abbrev counted : QualityStats → ℕ → QualityStats
counted q probe_id = ordered (record q { received = probe_id ∷ q.received }) probe_id

record Counted (q : QualityStats) (probe_id : ℕ) (q' : QualityStats) : Type 0 where
  received : q'.received ≡ probe_id ∷ q.received
  sent : q'.sent ≡ q.sent
  delays : q'.delays_micros ≡ q.delays_micros
  jitter : q'.jitter_micros ≡ q.jitter_micros
  last_delay : q'.last_delay_micros ≡ q.last_delay_micros
  invalid : q'.invalid_timing ≡ q.invalid_timing
  reordered : q'.reordered ≤ q.reordered + 1

counted-Counted : (q : QualityStats) (probe_id : ℕ) → Counted q probe_id (counted q probe_id)
unfolding ordered
counted-Counted q probe_id = elim (Option-cases q.highest_probe_id) [
  | inl first ↦ rw first record {
    received = refl;
    sent = refl;
    delays = refl;
    jitter = refl;
    last_delay = refl;
    invalid = refl;
    reordered = omega arith;
  }
  | inr (highest, later) ↦ elim (Bool-cases (ltb probe_id highest)) [
    | inl behind ↦
        rw (later, behind)
          record {
            received = refl;
            sent = refl;
            delays = refl;
            jitter = refl;
            last_delay = refl;
            invalid = refl;
            reordered = omega arith;
          }
    | inr ahead ↦
        rw (later, ahead)
          record {
            received = refl;
            sent = refl;
            delays = refl;
            jitter = refl;
            last_delay = refl;
            invalid = refl;
            reordered = omega arith;
          }
  ]
]

-- A reply at any time keeps the counts in order, whether it is counted or not.
pub observe-IsQuality :
    (q : QualityStats) (reply : QualityReply) (now : ℕ)
    → IsQuality q
    → IsQuality (observe q reply now)
unfolding observe contains distinct
observe-IsQuality q reply now v = elim (Bool-cases (contains q.sent reply.probe_id)) [
  | inr unknown ↦ rw (observe, unknown) v
  | inl known ↦ elim (Bool-cases (contains q.received reply.probe_id)) [
    | inl again ↦
        rw (observe, known, again)
          record {
            once = v.once;
            asked = v.asked;
            samples = v.samples;
            jitters = v.jitters;
            latest = v.latest;
            accounted = v.accounted;
            complete = v.complete;
            late = v.late;
          }
    | inr fresh ↦
        let c = counted-Counted q reply.probe_id in
        let t = timed-Timed (counted q reply.probe_id) reply now in
        let received = t.same_received ∙ c.received in
        let sent = t.same_sent ∙ c.sent in
        let longer = ap (λ (xs : List ℕ). length xs) received in
        let delays = ap (λ (xs : List ℕ). length xs) c.delays in
        let jitter = ap (λ (xs : List ℕ). length xs) c.jitter in
        let latest = ap (λ (o : Option ℕ). is_some o) c.last_delay in
        let has_latest = latest ∙ v.latest ∙ ap (λ (n : ℕ). not (n == 0)) (sym delays) in
        rw (observe, known, fresh)
          record {
            once = ap distinct received ∙ ground (arith, fresh, v.once);
            asked = λ p h.
                ap (λ (xs : List ℕ). contains xs p) sent
                ∙ ground (
                  arith,
                  sym (ap (λ (xs : List ℕ). contains xs p) received) ∙ h,
                  known,
                  v.asked p,
                  λ (e : reply.probe_id ≡ p). ap (contains q.sent) e,
                );
            samples = t.samples (omega (arith, delays, v.samples));
            jitters = t.jitters (omega (arith, jitter, delays, v.jitters)) has_latest;
            latest = t.latest has_latest;
            accounted = omega (arith, t.at_most, longer, delays, c.invalid, v.accounted);
            complete = λ h. omega (
              arith,
              h,
              longer,
              delays,
              c.invalid,
              v.complete (omega (arith, h, longer)),
              t.exactly (omega (arith, h, longer, delays, v.complete (omega (arith, h, longer)))),
            );
            late = omega (arith, ap (λ (n : ℕ). n) t.same_reordered, c.reordered, longer, v.late);
          }
  ]
]
