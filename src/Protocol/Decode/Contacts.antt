-- ===== src/Protocol/Decode/Contacts.antt =====
-- The loop over the contacts of a frame, against a description without flags or indices.
use holodori_phone_trackpad.Prelude.{
  ℕ, zero, suc, ◌+◌, ◌*◌, ◌<◌, ◌≡◌, refl, sym, ap, ◌∙◌, arith, Bool, true, false, not, ◌&&◌,
  if◌then◌else◌, Option, some, none, is_some, List, [], ◌∷◌, ◌++◌, length, replicate, get_or, set,
  All, IsByte, contains, distinct, get_or-set, get_or-replicate, length-set, Result, ok, err,
}
use mathlib.Core.List.{append_assoc, append-nil}
use holodori_phone_trackpad.Wire.{byte_at}
use holodori_phone_trackpad.Protocol.{Float32, Contact, ProtocolError, duplicate_pointer_id}
use holodori_phone_trackpad.Protocol.Decode.{contact_at, contacts_loop}

-- The pointer ids of `rounds` contacts from `index` on.
unfoldable pub ids : List ℕ → ℕ → ℕ → List ℕ
ids bytes index zero = []
ids bytes index (suc rounds) = byte_at bytes (68 + index * 10) ∷ ids bytes (index + 1) rounds

-- The first number of a list that is in `seen` or that the list had before.
unfoldable pub first_repeat : List ℕ → List ℕ → Option ℕ
first_repeat seen [] = none
first_repeat seen (n ∷ ns) = if contains seen n then some n else first_repeat (n ∷ seen) ns

-- The flags say of every byte whether it was seen.
abbrev pub Marks : List Bool → List ℕ → Type 0
Marks flags seen = (length flags ≡ 256) × ((n : ℕ) → get_or flags n false ≡ contains seen n)

pub byte_at-IsByte : (bytes : List ℕ) (i : ℕ) → All IsByte bytes → IsByte (byte_at bytes i)
byte_at-IsByte [] i h = omega arith
byte_at-IsByte (b ∷ bytes) zero h = h.0
byte_at-IsByte (b ∷ bytes) (suc i) h = byte_at-IsByte bytes i h.1

pub Marks-set :
    (flags : List Bool) (seen : List ℕ) (n : ℕ)
    → n < 256
    → Marks flags seen
    → Marks (set flags n true) (n ∷ seen)
unfolding contains
Marks-set flags seen n h (l, m) =
    (length-set flags n true ∙ l, λ k. ground (arith, get_or-set flags n k true false, m k))

module _ {F : Type 0} (float : Float32 F) where
  -- The contacts as the wire lists them.
  unfoldable pub contacts_from : List ℕ → ℕ → ℕ → List (Contact F)
  contacts_from bytes index zero = []
  contacts_from bytes index (suc rounds) =
      contact_at float bytes (68 + index * 10) ∷ contacts_from bytes (index + 1) rounds

  abbrev pub unless_repeated : Option ℕ → List (Contact F) → Result ProtocolError (List (Contact F))
  unless_repeated none contacts = ok contacts
  unless_repeated (some id) contacts = err (duplicate_pointer_id id)

  contacts_loop-Marks :
      (bytes : List ℕ) (rounds index : ℕ) (flags : List Bool) (seen : List ℕ)
      (acc : List (Contact F))
      → All IsByte bytes
      → Marks flags seen
      → contacts_loop float bytes rounds index flags acc
        ≡ unless_repeated
            (first_repeat seen (ids bytes index rounds))
            (acc ++ contacts_from bytes index rounds)
  unfolding contacts_loop ids first_repeat contacts_from
  contacts_loop-Marks bytes zero index flags seen acc b m = ap ok (sym (append-nil acc))
  contacts_loop-Marks bytes (suc rounds) index flags seen acc b m =
      let id : ℕ = byte_at bytes (68 + index * 10) in
      let c : List (Contact F) = contact_at float bytes (68 + index * 10) ∷ [] in
      let ih =
        contacts_loop-Marks bytes rounds (index + 1) (set flags id true) (id ∷ seen) (acc ++ c) b
          (Marks-set flags seen id (byte_at-IsByte bytes (68 + index * 10) b) m) in
      ground (arith, ih, m.1 id, append_assoc acc c (contacts_from bytes (index + 1) rounds))

  -- The loop returns the contacts in wire order, or the first pointer id that comes twice.
  pub contacts_loop_lem :
      (bytes : List ℕ) (count : ℕ)
      → All IsByte bytes
      → contacts_loop float bytes count 0 (replicate 256 false) []
        ≡ unless_repeated (first_repeat [] (ids bytes 0 count)) (contacts_from bytes 0 count)
  contacts_loop_lem bytes count b =
      contacts_loop-Marks bytes count 0 (replicate 256 false) [] [] b
        (refl, λ n. unfold contains in get_or-replicate {A = Bool} 256 false n)

unfoldable pub disjoint : List ℕ → List ℕ → Bool
disjoint [] seen = true
disjoint (n ∷ ns) seen = not (contains seen n) && disjoint ns seen

pub disjoint-cons :
    (ns seen : List ℕ) (m : ℕ) → disjoint ns (m ∷ seen) ≡ not (contains ns m) && disjoint ns seen
unfolding disjoint contains
disjoint-cons [] seen m = refl
disjoint-cons (n ∷ ns) seen m = ground (arith, disjoint-cons ns seen m)

repeat_or_distinct :
    (ns seen : List ℕ) → is_some (first_repeat seen ns) ≡ not (disjoint ns seen && distinct ns)
unfolding first_repeat disjoint distinct
repeat_or_distinct [] seen = refl
repeat_or_distinct (n ∷ ns) seen =
    ground (arith, repeat_or_distinct ns (n ∷ seen), disjoint-cons ns seen n)

pub disjoint-nil : (ns : List ℕ) → disjoint ns [] ≡ true
unfolding disjoint contains
disjoint-nil [] = refl
disjoint-nil (n ∷ ns) = disjoint-nil ns

-- A list has no repeated number exactly when it is distinct.
pub first_repeat-distinct : (ns : List ℕ) → is_some (first_repeat [] ns) ≡ not (distinct ns)
first_repeat-distinct ns = ground (arith, repeat_or_distinct ns [], disjoint-nil ns)
