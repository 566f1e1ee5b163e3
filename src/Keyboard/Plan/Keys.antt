-- ===== src/Keyboard/Plan/Keys.antt =====
-- The key changes that a frame's plan leaves lead to a key that is down exactly on held lanes.
use holodori_phone_trackpad.Prelude.{
  ℕ, ◌↔◌, ◌≤◌, ◌<◌, ◌≡◌, refl, sym, ◌∙◌, arith, Bool, true, false, not, ◌&&◌, ◌||◌, ◌==◌, ltb,
  if◌then◌else◌, Option, some, none, List, [], ◌∷◌, fill, length-replicate, ==_iff,
  get_or-replicate, get_or_above, Option-cases, Bool-cases, inl, inr, distinct,
}
use holodori_phone_trackpad.Protocol.{Float32, Contact, TouchFrame, touching, key_suppressed}
use holodori_phone_trackpad.Keyboard.{
  KeyboardState, KeyChange, new, Draft, holds, pointer_lane, release_pointer, lane_for,
  apply_contact,
}
use holodori_phone_trackpad.Keyboard.Moves.{settle, settle-append, held}
use holodori_phone_trackpad.Keyboard.Moves.Balanced.{
  Balanced, move_pointer-Balanced, release_pointer-Balanced,
}
use holodori_phone_trackpad.Keyboard.Moves.Counts.{owners-positive, owners_exist, owners-replicate}
use holodori_phone_trackpad.Keyboard.Plan.{
  find, release_all, apply_others, apply_contacts, settle_pointers, retain_edges, represses,
  plan_into,
}
use holodori_phone_trackpad.Keyboard.Plan.Ownership.{
  AreBytes, ids, find-some, snapshot_lane, settle_pointers-snapshot,
}

-- Dropping the changes of lanes held both before and after leaves every other lane's key.
retain_edges-settle :
    (state next : KeyboardState) (b : Bool) (l : ℕ) (cs : List KeyChange)
    → settle b l (retain_edges state next cs)
      ≡ (if holds state l == 0 || holds next l == 0 then settle b l cs else b)
unfolding retain_edges settle
retain_edges-settle state next b l [] = ground arith
retain_edges-settle state next b l (c ∷ cs) =
    elim (Bool-cases (holds state c.lane == 0 || holds next c.lane == 0)) [
      | inl kept ↦
          rw (kept, settle)
            (ground (
              arith,
              kept,
              ==_iff c.lane l,
              retain_edges-settle state next (if c.lane == l then c.down else b) l cs,
            ))
      | inr dropped ↦
          rw (dropped, settle)
            (ground (arith, dropped, ==_iff c.lane l, retain_edges-settle state next b l cs))
    ]

-- The keys before the frame are as the holds say.
abbrev pub IsReady : ℕ → KeyboardState → Type 0
IsReady lanes state = Balanced lanes (held state) (state, [])

-- A keyboard on which nothing was touched is ready.
pub new-IsReady : (lanes : ℕ) → IsReady lanes (new lanes)
unfolding new settle
new-IsReady lanes = record {
  pointers_size = length-replicate {A = Option ℕ} 256 none;
  in_range = λ p l e.
      let idle : pointer_lane (new lanes) p ≡ none = get_or-replicate 256 none p in
      ground (arith, e, idle);
  tallied = record {
    holds_size = length-replicate lanes 0;
    counted = λ l h. ground (arith, get_or-replicate {A = ℕ} lanes 0 l, owners-replicate 256 l);
    keys = λ l. refl;
  };
}

module _ {F : Type 0} (float : Float32 F) where
  -- A re-press ends with its key down, and is only made on a lane that a pointer owns.
  represses-settle :
      (state next : KeyboardState) (frame : TouchFrame F) (split : Bool) (b : Bool) (l : ℕ)
      (cs : List (Contact F))
      → ((p : ℕ) → pointer_lane next p ≡ some l → b ≡ true)
      → settle b l (represses float state next frame split cs) ≡ b
  unfolding represses settle
  represses-settle state next frame split b l [] o = refl
  represses-settle state next frame split b l (c ∷ cs) o =
      let ih = represses-settle state next frame split b l cs o in
      ground (arith, ih, o c.pointer_id, ==_iff l)

  module _ (lanes : ℕ) (base : ℕ → Bool) where
    -- The pressure flags play no part in it.
    marked-Balanced :
        (d : Draft) (flags : List Bool)
        → Balanced lanes base d
        → Balanced lanes base (record (d.0) { pressure_suppressed = flags }, d.1)
    marked-Balanced d flags v = record {
      pointers_size = v.pointers_size;
      in_range = v.in_range;
      tallied = record {
        holds_size = v.tallied.holds_size;
        counted = v.tallied.counted;
        keys = v.tallied.keys;
      };
    }

    apply_contact-Balanced :
        (d : Draft) (c : Contact F)
        → 0 < lanes
        → c.pointer_id < 256
        → Balanced lanes base d
        → Balanced lanes base (apply_contact float c lanes d)
    unfolding apply_contact lane_for
    apply_contact-Balanced d c some_lanes h v =
        elim (Bool-cases (touching c && not (key_suppressed c))) [
          | inl on ↦ rw on (
              move_pointer-Balanced lanes base d c.pointer_id (lane_for float c.x lanes) h
                (ground arith) v)
          | inr off ↦ rw off (release_pointer-Balanced lanes base d c.pointer_id h v)
        ]

    apply_others-Balanced :
        (d : Draft) (action : ℕ) (cs : List (Contact F))
        → 0 < lanes
        → AreBytes cs
        → Balanced lanes base d
        → Balanced lanes base (apply_others float action lanes cs d)
    unfolding apply_others
    apply_others-Balanced d action [] some_lanes b v = v
    apply_others-Balanced d action (c ∷ cs) some_lanes (h, hs) v =
        elim (Bool-cases (c.pointer_id == action)) [
          | inl skipped ↦ rw skipped (apply_others-Balanced d action cs some_lanes hs v)
          | inr other ↦ rw other (
              apply_others-Balanced (apply_contact float c lanes d) action cs some_lanes hs
                (apply_contact-Balanced d c some_lanes h v))
        ]

    apply_contacts-Balanced :
        (d : Draft) (frame : TouchFrame F)
        → 0 < lanes
        → AreBytes frame.contacts
        → Balanced lanes base d
        → Balanced lanes base (apply_contacts float lanes frame d)
    unfolding apply_contacts
    apply_contacts-Balanced d frame some_lanes b v =
        let action = frame.action_pointer_id in
        elim (Option-cases (find action frame.contacts)) [
          | inl missing_one ↦
              rw missing_one (apply_others-Balanced d action frame.contacts some_lanes b v)
          | inr (c, found) ↦ rw found (
              apply_others-Balanced (apply_contact float c lanes d) action frame.contacts some_lanes
                b
                (apply_contact-Balanced d c some_lanes
                  (find-some float frame.contacts action c b found).1 v))
        ]

    release_pointer_above :
        (d : Draft) (p : ℕ) → Balanced lanes base d → 256 ≤ p → release_pointer p d ≡ d
    unfolding release_pointer
    release_pointer_above d p v h =
        let idle : pointer_lane d.0 p ≡ none =
          get_or_above (d.0).pointer_lanes p none (omega (arith, v.pointers_size)) in
        rw (idle, release_pointer) refl

    release_all-Balanced :
        (d : Draft) (ps : List ℕ) → Balanced lanes base d → Balanced lanes base (release_all ps d)
    unfolding release_all
    release_all-Balanced d [] v = v
    release_all-Balanced d (p ∷ ps) v = elim (Bool-cases (ltb p 256)) [
      | inl h ↦
          release_all-Balanced (release_pointer p d) ps
            (release_pointer-Balanced lanes base d p (ground arith) v)
      | inr h ↦
          release_all-Balanced (release_pointer p d) ps
            (rw (release_pointer_above d p v (ground arith)) v)
    ]

    settle_pointers-Balanced :
        (state : KeyboardState) (frame : TouchFrame F)
        → 0 < lanes
        → AreBytes frame.contacts
        → Balanced lanes base (state, [])
        → Balanced lanes base (settle_pointers float state lanes frame)
    unfolding settle_pointers
    settle_pointers-Balanced state frame some_lanes b v = release_all-Balanced _ _ (
        marked-Balanced _ _ (
          apply_contacts-Balanced _ frame some_lanes b
            (marked-Balanced (state, []) (fill state.pressure_suppressed false) v)))

  owned-held :
      (lanes : ℕ) (base : ℕ → Bool) (d : Draft) (p l : ℕ)
      → Balanced lanes base d
      → pointer_lane d.0 p ≡ some l
      → held d.0 l ≡ true
  owned-held lanes base d p l v e =
      ground
        (arith, v.tallied.counted l (v.in_range p l e), owners-positive (d.0).pointer_lanes p l e)

  -- On a ready keyboard with at least one lane, a frame of contacts with one-byte ids makes
  -- changes that take every lane's key from where it was to where it belongs: down exactly if the
  -- lane is held after the frame.
  pub plan_into-settle :
      (lanes : ℕ) (state : KeyboardState) (frame : TouchFrame F) (split : Bool) (l : ℕ)
      → 0 < lanes
      → AreBytes frame.contacts
      → IsReady lanes state
      → settle (held state l) l (plan_into float state lanes frame split).1
        ≡ held (plan_into float state lanes frame split).0 l
  unfolding plan_into
  plan_into-settle lanes state frame split l some_lanes b v =
      let d = settle_pointers float state lanes frame in
      let w = settle_pointers-Balanced lanes (held state) state frame some_lanes b v in
      let kept : settle (held state l) l (retain_edges state d.0 d.1) ≡ held d.0 l =
        ground (arith, retain_edges-settle state d.0 (held state l) l d.1, w.tallied.keys l) in
      settle-append (held state l) l (retain_edges state d.0 d.1)
        (represses float state d.0 frame split frame.contacts)
      ∙ represses-settle state d.0 frame split
          (settle (held state l) l (retain_edges state d.0 d.1)) l frame.contacts
          (λ p e. kept ∙ owned-held lanes (held state) d p l w e)
      ∙ kept

  -- A frame of contacts with one-byte ids takes a ready keyboard of at least one lane to a ready
  -- keyboard: the holds of each lane count the pointers that own it, which own no other lanes
  -- than the keyboard's.
  pub plan_into-IsReady :
      (lanes : ℕ) (state : KeyboardState) (frame : TouchFrame F) (split : Bool)
      → 0 < lanes
      → AreBytes frame.contacts
      → IsReady lanes state
      → IsReady lanes (plan_into float state lanes frame split).0
  unfolding plan_into settle
  plan_into-IsReady lanes state frame split some_lanes b v =
      let w = settle_pointers-Balanced lanes (held state) state frame some_lanes b v in
      record {
        pointers_size = w.pointers_size;
        in_range = w.in_range;
        tallied = record {
          holds_size = w.tallied.holds_size;
          counted = w.tallied.counted;
          keys = λ l. refl;
        };
      }

  -- On a ready keyboard, after a frame whose contacts have different one-byte ids, a lane of the
  -- keyboard is held exactly when the contact of some pointer asks for it.
  pub plan_into-held :
      (lanes : ℕ) (state : KeyboardState) (frame : TouchFrame F) (split : Bool) (l : ℕ)
      → l < lanes
      → AreBytes frame.contacts
      → distinct (ids frame.contacts) ≡ true
      → IsReady lanes state
      → (held (plan_into float state lanes frame split).0 l ≡ true)
        ↔ ((p : ℕ) × (snapshot_lane float lanes frame.contacts p none ≡ some l))
  unfolding plan_into
  plan_into-held lanes state frame split l h b u v =
      let d = settle_pointers float state lanes frame in
      let w = settle_pointers-Balanced lanes (held state) state frame (omega arith) b v in
      let own : (p : ℕ) → pointer_lane d.0 p ≡ snapshot_lane float lanes frame.contacts p none =
        λ p. settle_pointers-snapshot float state lanes p frame b u v.pointers_size in
      (
        (λ e.
            let (p, q) =
              owners_exist (d.0).pointer_lanes l (ground (arith, w.tallied.counted l h)) in
            (p, sym (own p) ∙ q)),
        (λ (p, e). owned-held lanes (held state) d p l w (own p ∙ e)),
      )
