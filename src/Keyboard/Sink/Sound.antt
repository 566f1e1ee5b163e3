-- ===== src/Keyboard/Sink/Sound.antt =====
-- The keyboard keeps the keys of the system in step with the lanes that the phone's fingers hold.
use holodori_phone_trackpad.Prelude.{
  ℕ, ◌+◌, ◌<◌, ◌≡◌, refl, sym, ap, ◌∙◌, arith, Bool, true, false, ◌==◌, ltb, Option, some, none,
  List, [], ◌∷◌, length, take, drop, get_or, get_or-replicate, length-replicate, replicate,
  Bool-cases, Option-cases, inl, inr, ok, Result-cases, ◌⊎◌, ==_iff,
}
use holodori_phone_trackpad.Keyboard.{KeyboardState, KeyChange}
use holodori_phone_trackpad.Keyboard.Moves.{settle, held}
use holodori_phone_trackpad.Keyboard.Plan.Keys.{IsReady, new-IsReady}
use holodori_phone_trackpad.Keyboard.Spacer.{ScheduledEdge, RepressSpacer}
use holodori_phone_trackpad.Keyboard.Spacer.Waiting.{settled, alternates}
use holodori_phone_trackpad.Keyboard.Spacer.Flush.{flush, is_empty}
use holodori_phone_trackpad.Keyboard.Spacer.Flush.Kept.{flush-Keeps, length-flush}
use holodori_phone_trackpad.Keyboard as Keyboard
use holodori_phone_trackpad.Keyboard.Sink.{
  new, advance, KeyOutput, PendingFrame, KeyboardSink, follow, finish, with_flushed, service_at,
  submit_rest,
}
use holodori_phone_trackpad.Keyboard.Sink.Emission.{
  follow-settle, length-follow, settle-take, drop-add, drop-length,
}

abbrev pub queue_of : Option RepressSpacer → List ScheduledEdge
queue_of none = []
queue_of (some s) = s.queue

-- The planned changes that are still to be submitted, or enqueued.
abbrev pub left_of : Option ℕ → PendingFrame → List KeyChange
left_of none p = []
left_of (some sequence) p = drop p.applied p.changes

-- The state that the keyboard is heading for.
abbrev pub goal_of : Option ℕ → KeyboardState → KeyboardState → KeyboardState
goal_of none state next = state
goal_of (some sequence) state next = next

pub List-cases : {A : Type 0} (xs : List A) → (xs ≡ []) ⊎ (is_empty xs ≡ false)
List-cases [] = inl refl
List-cases (x ∷ xs) = inr refl

module _ {S : Type 0} where
  abbrev pub goal : KeyboardSink S → KeyboardState
  goal k = goal_of k.pending.sequence k.state k.pending.next_state

  -- The key of a lane once the edges that wait for it are emitted.
  abbrev pub key_after : KeyboardSink S → ℕ → Bool
  key_after k l = settled (get_or k.pressed l false) l (queue_of k.spacer)

  -- The keys, the edges that wait and the changes that are left lead, lane by lane, to the keys of
  -- the goal, whose holds are in order.
  pub record IsSound (lanes : ℕ) (k : KeyboardSink S) : Type 0 where
    pub size : length k.pressed ≡ lanes
    pub ready : IsReady lanes k.state
    pub goal_ready : IsReady lanes (goal k)
    pub alternate :
        (l : ℕ) → l < lanes → alternates (get_or k.pressed l false) l (queue_of k.spacer) ≡ true
    pub reaches :
        (l : ℕ)
        → l < lanes
        → settle (key_after k l) l (left_of k.pending.sequence k.pending) ≡ held (goal k) l

  -- A keyboard that was just opened.
  pub new-IsSound : (sink : S) (lanes : ℕ) → IsSound lanes (new sink lanes)
  unfolding new settle settled alternates Keyboard.new
  new-IsSound sink lanes =
      let ready = new-IsReady lanes in
      let up : (l : ℕ) → get_or (replicate lanes false) l false ≡ false =
        get_or-replicate lanes false in
      record {
        size = length-replicate lanes false;
        ready = ready;
        goal_ready = ready;
        alternate = λ l h. refl;
        reaches = λ l h. ground (arith, up l, get_or-replicate {A = ℕ} lanes 0 l);
      }

  -- Nothing is left of the pending frame.
  pub finish-IsSound :
      (lanes sequence : ℕ) (k : KeyboardSink S)
      → k.pending.sequence ≡ some sequence
      → drop k.pending.applied k.pending.changes ≡ []
      → IsSound lanes k
      → IsSound lanes (finish k)
  unfolding finish settle
  finish-IsSound lanes sequence k e d v =
      let next : IsReady lanes k.pending.next_state = rw e at v.goal_ready in
      record {
        size = v.size;
        ready = next;
        goal_ready = next;
        alternate = v.alternate;
        reaches = λ l h. rw (e, d) at (v.reaches l h);
      }

  module _ (output : KeyOutput S) where
    abbrev pub flushed : KeyboardSink S → RepressSpacer → ℕ → KeyboardSink S
    flushed k s now = with_flushed k (flush output.submit s now k.sink k.pressed)

    pub service_at-none :
        (k : KeyboardSink S) (now : ℕ) → k.spacer ≡ none → service_at output k now ≡ (k, ok tt)
    unfolding service_at
    service_at-none k now e = ground arith

    pub service_at-some :
        (k : KeyboardSink S) (s : RepressSpacer) (now : ℕ)
        → k.spacer ≡ some s
        → service_at output k now
          ≡ (flushed k s now, (flush output.submit s now k.sink k.pressed).result)
    unfolding service_at
    service_at-some k s now e = ground arith

    -- A spacer whose waiting edges lead on from the keys as `k`'s own do, flushed.
    pub flushed-IsSound :
        (lanes now : ℕ) (k : KeyboardSink S) (s : RepressSpacer)
        → k.spacer ≡ some s
        → IsSound lanes k
        → IsSound lanes (flushed k s now)
    unfolding with_flushed
    flushed-IsSound lanes now k s e v =
        let f = flush output.submit s now k.sink k.pressed in
        let same_queue : queue_of k.spacer ≡ s.queue = ap queue_of e in
        let keeps = λ (l : ℕ) (h : l < lanes).
          flush-Keeps output.submit s now k.sink k.pressed l (omega (arith, v.size, h))
            (ap (alternates (get_or k.pressed l false) l) (sym same_queue) ∙ v.alternate l h) in
        record {
          size = length-flush output.submit s now k.sink k.pressed ∙ v.size;
          ready = v.ready;
          goal_ready = v.goal_ready;
          alternate = λ l h. (keeps l h).1;
          reaches = λ l h.
              ap (λ (b : Bool). settle b l (left_of k.pending.sequence k.pending))
                ((keeps l h).0 ∙ ap (settled (get_or k.pressed l false) l) (sym same_queue))
              ∙ v.reaches l h;
        }

    pub service_at-IsSound :
        (lanes now : ℕ) (k : KeyboardSink S)
        → IsSound lanes k
        → IsSound lanes (service_at output k now).0
    service_at-IsSound lanes now k v = elim (Option-cases k.spacer) [
      | inl absent ↦ rw (service_at-none k now absent) v
      | inr (s, spaced) ↦
          rw (service_at-some k s now spaced) (flushed-IsSound lanes now k s spaced v)
    ]

    pub with_sink-IsSound :
        (lanes : ℕ) (k : KeyboardSink S) (sink : S)
        → IsSound lanes k
        → IsSound lanes (record k { sink = sink })
    with_sink-IsSound lanes k sink v = record {
      size = v.size;
      ready = v.ready;
      goal_ready = v.goal_ready;
      alternate = v.alternate;
      reaches = v.reaches;
    }

    advance-IsSound :
        (lanes sequence accepted : ℕ) (k : KeyboardSink S) (sink : S)
        → k.pending.sequence ≡ some sequence
        → k.spacer ≡ none
        → IsSound lanes k
        → IsSound lanes (advance k sink accepted)
    unfolding advance settled alternates
    advance-IsSound lanes sequence accepted k sink e absent v =
        let rest = drop k.pending.applied k.pending.changes in
        let gone = take accepted rest in
        let empty : queue_of k.spacer ≡ [] = ap queue_of absent in
        let left : left_of k.pending.sequence k.pending ≡ rest =
          ap (λ (o : Option ℕ). left_of o k.pending) e in
        let later : left_of k.pending.sequence
              (record (k.pending) { applied = k.pending.applied + accepted })
            ≡ drop accepted rest =
          ap
            (λ (o : Option ℕ).
              left_of o (record (k.pending) { applied = k.pending.applied + accepted }))
            e
          ∙ drop-add k.pending.applied accepted k.pending.changes in
        record {
          size = length-follow gone k.pressed ∙ v.size;
          ready = v.ready;
          goal_ready = v.goal_ready;
          alternate = λ l h. ap (alternates (get_or (follow gone k.pressed) l false) l) empty;
          reaches = λ l h.
              let now_down : settled (get_or (follow gone k.pressed) l false) l (queue_of k.spacer)
                  ≡ settle (get_or k.pressed l false) l gone =
                ap (settled (get_or (follow gone k.pressed) l false) l) empty
                ∙ (follow-settle gone k.pressed l (omega (arith, v.size, h))).0 in
              let before : settled (get_or k.pressed l false) l (queue_of k.spacer)
                  ≡ get_or k.pressed l false =
                ap (settled (get_or k.pressed l false) l) empty in
              cc (
                now_down,
                before,
                left,
                later,
                settle-take accepted (get_or k.pressed l false) l rest,
                v.reaches l h,
              );
        }

    all_taken :
        (k : KeyboardSink S) (sink : S) (accepted : ℕ)
        → accepted ≡ length (drop k.pending.applied k.pending.changes)
        → drop (advance k sink accepted).pending.applied (advance k sink accepted).pending.changes
          ≡ []
    unfolding advance
    all_taken k sink accepted all =
        let rest = drop k.pending.applied k.pending.changes in
        drop-add k.pending.applied accepted k.pending.changes
        ∙ ap (λ (n : ℕ). drop n rest) all
        ∙ drop-length rest

    pub submit_rest-IsSound :
        (lanes sequence : ℕ) (k : KeyboardSink S)
        → k.pending.sequence ≡ some sequence
        → k.spacer ≡ none
        → IsSound lanes k
        → IsSound lanes (submit_rest output k).0
    unfolding submit_rest advance
    submit_rest-IsSound lanes sequence k e absent v =
        let rest = drop k.pending.applied k.pending.changes in
        let sink = (output.submit k.sink rest).0 in
        elim (List-cases rest) [
          | inl done ↦ rw done (finish-IsSound lanes sequence k e done v)
          | inr some_left ↦ elim (Result-cases (output.submit k.sink rest).1) [
            | inr (x, failed) ↦ rw (some_left, failed) (with_sink-IsSound lanes k sink v)
            | inl (accepted, answered) ↦ elim (Bool-cases (ltb (length rest) accepted)) [
              | inl excess ↦ rw (some_left, answered, excess) (with_sink-IsSound lanes k sink v)
              | inr fine ↦
                  let moved = advance-IsSound lanes sequence accepted k sink e absent v in
                  elim (Bool-cases (accepted == length rest)) [
                    | inr part ↦ rw (some_left, answered, fine, part) moved
                    | inl all ↦
                        rw (some_left, answered, fine, all)
                          (finish-IsSound lanes sequence (advance k sink accepted) e
                            (all_taken k sink accepted ((==_iff accepted (length rest)).0 all))
                            moved)
                  ]
            ]
          ]
        ]
