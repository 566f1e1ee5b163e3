-- ===== src/Keyboard/Sink/Emission.antt =====
-- How the keys of the system follow the changes that are submitted or enqueued.
use holodori_phone_trackpad.Prelude.{
  ℕ, zero, suc, ◌+◌, ◌<◌, ◌≡◌, refl, ap, ◌∙◌, arith, Bool, true, false, ◌==◌, if◌then◌else◌, List,
  [], ◌∷◌, length, length-set, take, drop, get_or, set, get_or-set, get_or-set_ne,
}
use holodori_phone_trackpad.Keyboard.{KeyChange}
use holodori_phone_trackpad.Keyboard.Moves.{settle}
use holodori_phone_trackpad.Keyboard.Spacer.{RepressSpacer, enqueue}
use holodori_phone_trackpad.Keyboard.Spacer.Waiting.{settled, alternates, enqueue_lem}
use holodori_phone_trackpad.Keyboard.Sink.{follow, enqueue_all}

-- `pressed` follows the changes.
pub follow-settle :
    (changes : List KeyChange) (pressed : List Bool) (l : ℕ)
    → l < length pressed
    → (get_or (follow changes pressed) l false ≡ settle (get_or pressed l false) l changes)
      × (length (follow changes pressed) ≡ length pressed)
unfolding follow settle
follow-settle [] pressed l h = (refl, refl)
follow-settle (c ∷ changes) pressed l h =
    let longer = length-set pressed c.lane c.down in
    let ih = follow-settle changes (set pressed c.lane c.down) l (omega (arith, longer)) in
    let at : (c.lane == l) ≡ true → get_or (set pressed c.lane c.down) l false ≡ c.down =
      λ q. ground (arith, get_or-set pressed c.lane l c.down false) in
    let elsewhere : (c.lane == l) ≡ false
        → get_or (set pressed c.lane c.down) l false ≡ get_or pressed l false =
      λ q. get_or-set_ne pressed c.lane l c.down false (λ r. ground (arith, r)) in
    (ground (arith, ih.0, at, elsewhere), ih.1 ∙ longer)

pub length-follow :
    (changes : List KeyChange) (pressed : List Bool)
    → length (follow changes pressed) ≡ length pressed
unfolding follow
length-follow [] pressed = refl
length-follow (c ∷ changes) pressed =
    length-follow changes (set pressed c.lane c.down) ∙ length-set pressed c.lane c.down

-- Some of the changes, and then the others.
pub settle-take :
    (n : ℕ) (b : Bool) (l : ℕ) (changes : List KeyChange)
    → settle (settle b l (take n changes)) l (drop n changes) ≡ settle b l changes
unfolding settle
settle-take zero b l changes = refl
settle-take (suc n) b l [] = refl
settle-take (suc n) b l (c ∷ changes) = settle-take n (if c.lane == l then c.down else b) l changes

drop_none : (m : ℕ) → drop {A = KeyChange} m [] ≡ []
drop_none zero = refl
drop_none (suc m) = refl

pub drop-add : (n m : ℕ) (changes : List KeyChange) → drop (n + m) changes ≡ drop m (drop n changes)
drop-add zero m changes = let e : zero + m ≡ m = omega arith in rw e
drop-add (suc n) m [] = rw (drop_none (suc n + m), drop_none m)
drop-add (suc n) m (c ∷ changes) =
    let e : suc n + m ≡ suc (n + m) = omega arith in rw e (drop-add n m changes)

pub drop-length : (changes : List KeyChange) → drop (length changes) changes ≡ []
drop-length [] = refl
drop-length (c ∷ changes) = drop-length changes

-- Once they are all enqueued, the waiting edges lead where the changes lead.
pub enqueue_all-settle :
    (s : RepressSpacer) (changes : List KeyChange) (now l : ℕ) (pressed : List Bool)
    → alternates (get_or pressed l false) l s.queue ≡ true
    → (alternates (get_or pressed l false) l (enqueue_all s changes now pressed).queue ≡ true)
      × (settled (get_or pressed l false) l (enqueue_all s changes now pressed).queue
          ≡ settle (settled (get_or pressed l false) l s.queue) l changes)
unfolding enqueue_all settle
enqueue_all-settle s [] now l pressed a = (a, refl)
enqueue_all-settle s (c ∷ changes) now l pressed a =
    let step = enqueue_lem s c now l (λ (k : ℕ). get_or pressed k false) a in
    let ih =
      enqueue_all-settle (enqueue s c now (get_or pressed c.lane false)) changes now l pressed
        step.0 in
    (ih.0, ih.1 ∙ ap (λ (b : Bool). settle b l changes) step.1)
