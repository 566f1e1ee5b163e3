-- ===== src/Replay/Window.antt =====
-- The window against a list of all packet numbers committed so far.
use holodori_phone_trackpad.Bits.Laws.{bit_and_one_bit, test_bit-zero, test_bit_two_pow}
use holodori_phone_trackpad.Prelude.{
  contains, ℕ, ◌-◌, ◌/◌, ◌%◌, ◌≤◌, ◌<◌, ◌≡◌, refl, ◌∙◌, arith, true, false, not, ◌==◌, ltb, List,
  [], ◌∷◌, get_or, set, length, max, Option, some, none, length-set, Option-cases, Bool-cases, inl,
  inr, get_or-replicate, get_or-set_self, get_or-set_ne,
}
use holodori_phone_trackpad.Replay.{
  ReplayWindow, default, shl64, commit, shift, or_word, accepts_below,
}
use holodori_phone_trackpad.Replay.Shift.{
  seen, AreWords, seen-shift, seen-or_word, shift-AreWords, or_word-AreWords, length-shift,
  shl64_one, length-or_word,
}

-- The highest packet number of a list.
unfoldable pub newest : List ℕ → Option ℕ
newest [] = none
newest (m ∷ ns) = elim (newest ns) [ none ↦ some m | some k ↦ some (max m k) ]

pub none-contains : (ns : List ℕ) (n : ℕ) → newest ns ≡ none → contains ns n ≡ false
unfolding newest contains
none-contains [] n e = refl
none-contains (m ∷ ns) n e = ground arith

-- The window remembers the newest number, and for each number up to 1,023 below it whether it
-- was committed. Before the first commit it is all zeros.
pub record Tracks (w : ReplayWindow) (ns : List ℕ) : Type 0 where
  pub highest_is : w.highest ≡ newest ns
  pub word_count : length w.words ≡ 16
  pub word_range : AreWords w.words
  pub blank : w.highest ≡ none → (i : ℕ) → get_or w.words i 0 ≡ 0
  pub seen_is :
      (h d : ℕ) → w.highest ≡ some h → d < 1024 → d ≤ h → seen w.words d ≡ contains ns (h - d)

pub accepts_below-seen :
    (words : List ℕ) (d : ℕ) → d < 1024 → accepts_below words d ≡ not (seen words d)
unfolding accepts_below seen
accepts_below-seen words d h =
    ground (arith, shl64_one (d % 64), bit_and_one_bit (get_or words (d / 64) 0) (d % 64))

pub newest-bound : (ns : List ℕ) (h n : ℕ) → newest ns ≡ some h → contains ns n ≡ true → n ≤ h
unfolding newest contains
newest-bound [] h n e c = cc
newest-bound (m ∷ ns) h n e c = elim (Option-cases (newest ns)) [
  | inl none' ↦ ground (arith, none-contains ns n none')
  | inr (k, some') ↦ ground (arith, newest-bound ns k n some')
]

pub default-Tracks : Tracks default []
unfolding default newest
default-Tracks = record {
  highest_is = refl;
  word_count = refl;
  word_range = λ i. rw (get_or-replicate {A = ℕ} 16 0 i) (omega arith);
  blank = λ e i. get_or-replicate {A = ℕ} 16 0 i;
  seen_is = λ h d e. cc;
}

-- The first commit marks distance 0 in a window of zeros.
seen_first :
    (words : List ℕ) (d : ℕ)
    → ((i : ℕ) → get_or words i 0 ≡ 0)
    → length words ≡ 16
    → seen (set words 0 1) d ≡ (d == 0)
unfolding seen
seen_first words d z l = ground (
  arith,
  get_or-set_self words 0 1 0,
  get_or-set_ne words 0 (d / 64) 1 0,
  z (d / 64),
  test_bit_two_pow 0 (d % 64),
  test_bit-zero (d % 64),
)

module _ (w : ReplayWindow) (ns : List ℕ) (n : ℕ) (t : Tracks w ns) where
  first-Tracks :
      w.highest ≡ none → Tracks (record { highest = some n; words = set w.words 0 1 }) (n ∷ ns)
  unfolding newest contains
  first-Tracks e = record {
    highest_is = ground (arith, t.highest_is);
    word_count = length-set w.words 0 1 ∙ t.word_count;
    word_range = λ i. ground (
      arith,
      get_or-set_self w.words 0 1 0,
      get_or-set_ne w.words 0 i 1 0,
      t.word_count,
      t.word_range i,
    );
    blank = λ f. cc;
    seen_is = λ h d f near le. ground (
      arith,
      seen_first w.words d (t.blank e),
      t.word_count,
      none-contains ns (n - d),
      t.highest_is,
    );
  }

  newer-Tracks :
      (h : ℕ)
      → w.highest ≡ some h
      → h < n
      → Tracks (record { highest = some n; words = or_word (shift w.words (n - h)) 0 1 }) (n ∷ ns)
  unfolding newest contains
  newer-Tracks h e lt = record {
    highest_is = ground (arith, t.highest_is);
    word_count =
        length-or_word (shift w.words (n - h)) 0 1 ∙ length-shift w.words (n - h) t.word_count;
    word_range =
        or_word-AreWords (shift w.words (n - h)) 0 1
          (shift-AreWords w.words (n - h) t.word_range t.word_count) (omega arith);
    blank = λ f. cc;
    seen_is = λ h' d f near le. ground (
      arith,
      seen-or_word (shift w.words (n - h)) 0 d,
      length-shift w.words (n - h) t.word_count,
      seen-shift w.words (n - h) d t.word_range t.word_count near,
      t.seen_is h (d - (n - h)) e,
      newest-bound ns h (n - d),
      t.highest_is,
    );
  }

  older-Tracks :
      (h : ℕ)
      → w.highest ≡ some h
      → n ≤ h
      → h - n < 1024
      → Tracks
          (record {
            highest = w.highest;
            words = or_word w.words ((h - n) / 64) (shl64 1 ((h - n) % 64));
          })
          (n ∷ ns)
  unfolding newest contains
  older-Tracks h e le near = record {
    highest_is = ground (arith, t.highest_is);
    word_count = length-or_word w.words _ _ ∙ t.word_count;
    word_range = or_word-AreWords w.words _ _ t.word_range (omega arith);
    blank = λ f. cc;
    seen_is = λ h' d f near' le'.
        ground (arith, seen-or_word w.words (h - n) d t.word_count near, t.seen_is h d e near');
  }

  ancient-Tracks : (h : ℕ) → w.highest ≡ some h → n ≤ h → 1024 ≤ h - n → Tracks w (n ∷ ns)
  unfolding newest contains
  ancient-Tracks h e le far = record {
    highest_is = ground (arith, t.highest_is);
    word_count = t.word_count;
    word_range = t.word_range;
    blank = λ f. cc;
    seen_is = λ h' d f near' le'. ground (arith, t.seen_is h d e near');
  }

  -- Every commit is recorded.
  pub commit-Tracks : Tracks (commit w n) (n ∷ ns)
  unfolding commit
  commit-Tracks = elim (Option-cases w.highest) [
    | inl e ↦ rw (e, commit) (first-Tracks e)
    | inr (h, e) ↦ elim (Bool-cases (ltb h n)) [
      | inl new ↦ rw (e, commit) (rw new (newer-Tracks h e (ground arith)))
      | inr old ↦ elim (Bool-cases (ltb (h - n) 1024)) [
        | inl near ↦
            rw (e, commit) (rw (old, near) (older-Tracks h e (ground arith) (ground arith)))
        | inr far ↦
            rw (e, commit) (rw (old, far) (ancient-Tracks h e (ground arith) (ground arith)))
      ]
    ]
  ]
