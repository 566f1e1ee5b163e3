-- ===== src/V5/Touch/Accepted.antt =====
-- Which touch payloads are accepted.
use holodori_phone_trackpad.Prelude.{
  ℕ, zero, suc, ◌+◌, ◌*◌, ◌≤◌, ◌≡◌, refl, sym, ap, subst, ◌∙◌, arith, ◌↔◌, Bool, true, false, not,
  ◌==◌, ◌&&◌, if◌then◌else◌, Option, some, none, is_some, List, [], ◌∷◌, ◌++◌, map, length,
  replicate, set, All, IsByte, contains, distinct, get_or-replicate, Result, ok, err, Result-cases,
  inl, inr,
}
use mathlib.Core.List.{append_assoc, append-nil}
use holodori_phone_trackpad.Wire.{byte_at, read_u64}
use holodori_phone_trackpad.Protocol.{Float32, Contact, TouchFrame, session_start}
use holodori_phone_trackpad.Protocol.Layout.{
  from_le-number, wire_contact-contact_at, wire_contacts, wire_touch,
}
use holodori_phone_trackpad.Protocol.Decode.{contact_at}
use holodori_phone_trackpad.Protocol.Decode.Contacts.{
  Marks, Marks-set, byte_at-IsByte, disjoint, disjoint-cons, disjoint-nil,
}
use holodori_phone_trackpad.V5.{WireError, reserved_bits, duplicate_pointer, bad_session_start}
use holodori_phone_trackpad.V5.Record.{RecordHeader}
use holodori_phone_trackpad.V5.Touch.{
  from_phone, reserved, is_empty, validate_session_start, touch_frame_from, check_touch,
  touch_contacts_loop, decode_touch_payload,
}

module _ {F : Type 0} where
  abbrev pub pointers : List (Contact F) → List ℕ
  pointers = map λ c. c.pointer_id

  -- Contacts whose flags are all defined.
  unfoldable pub defined : List (Contact F) → Bool
  defined [] = true
  defined (c ∷ cs) = not (reserved c.flags 7) && defined cs

  -- The first contact's fault, where contacts with the ids `seen` went before.
  unfoldable pub first_fault : List ℕ → List (Contact F) → Option WireError
  first_fault seen [] = none
  first_fault seen (c ∷ cs) =
      if contains seen c.pointer_id
      then some (duplicate_pointer c.pointer_id)
      else if reserved c.flags 7
      then some reserved_bits
      else first_fault (c.pointer_id ∷ seen) cs

  abbrev pub unless_fault :
      Option WireError → List (Contact F) → Result WireError (List (Contact F))
  unless_fault none contacts = ok contacts
  unless_fault (some e) contacts = err e

  first_fault-disjoint :
      (cs : List (Contact F)) (seen : List ℕ)
      → is_some (first_fault seen cs)
        ≡ not (disjoint (pointers cs) seen && (distinct (pointers cs) && defined cs))
  unfolding first_fault disjoint distinct defined
  first_fault-disjoint [] seen = refl
  first_fault-disjoint (c ∷ cs) seen = ground (
    arith,
    first_fault-disjoint cs (c.pointer_id ∷ seen),
    disjoint-cons (pointers cs) seen c.pointer_id,
  )

  -- There is no fault exactly when the ids are distinct and the flags defined.
  pub first_fault-distinct :
      (cs : List (Contact F))
      → is_some (first_fault [] cs) ≡ not (distinct (pointers cs) && defined cs)
  first_fault-distinct cs = ground (arith, first_fault-disjoint cs [], disjoint-nil (pointers cs))

module _ {F : Type 0} (float : Float32 F) where
  -- The contacts as the payload lists them.
  unfoldable pub touch_contacts : List ℕ → ℕ → ℕ → List (Contact F)
  touch_contacts payload index zero = []
  touch_contacts payload index (suc rounds) =
      contact_at float payload (44 + index * 10) ∷ touch_contacts payload (index + 1) rounds

  loop-Marks :
      (payload : List ℕ) (rounds index : ℕ) (flags : List Bool) (seen : List ℕ)
      (acc : List (Contact F))
      → All IsByte payload
      → Marks flags seen
      → touch_contacts_loop float payload rounds index flags acc
        ≡ unless_fault
            (first_fault seen (touch_contacts payload index rounds))
            (acc ++ touch_contacts payload index rounds)
  unfolding touch_contacts_loop first_fault touch_contacts contact_at
  loop-Marks payload zero index flags seen acc b m = ap ok (sym (append-nil acc))
  loop-Marks payload (suc rounds) index flags seen acc b m =
      let id : ℕ = byte_at payload (44 + index * 10) in
      let c : List (Contact F) = contact_at float payload (44 + index * 10) ∷ [] in
      let ih =
        loop-Marks payload rounds (index + 1) (set flags id true) (id ∷ seen) (acc ++ c) b
          (Marks-set flags seen id (byte_at-IsByte payload (44 + index * 10) b) m) in
      ground (arith, ih, m.1 id, append_assoc acc c (touch_contacts payload (index + 1) rounds))

  pub touch_contacts_loop_lem :
      (payload : List ℕ) (count : ℕ)
      → All IsByte payload
      → touch_contacts_loop float payload count 0 (replicate 256 false) []
        ≡ unless_fault
            (first_fault [] (touch_contacts payload 0 count))
            (touch_contacts payload 0 count)
  touch_contacts_loop_lem payload count b =
      loop-Marks payload count 0 (replicate 256 false) [] [] b
        (refl, λ n. unfold contains in get_or-replicate {A = Bool} 256 false n)

-- What the header of a touch record and the fixed part of its payload must be.
pub record IsTouch (header : RecordHeader) (payload : List ℕ) : Type 0 where
  pub direction : from_phone header.direction ≡ true
  pub message_type : header.message_type ≡ 1
  pub session : (header.session_id == 0) ≡ false
  pub no_flags : header.flags ≡ 0
  pub few_contacts : byte_at payload 42 ≤ 16
  pub size : length payload ≡ 44 + byte_at payload 42 * 10
  pub action : byte_at payload 40 ≤ 4
  pub frame_flags : reserved (byte_at payload 43) 7 ≡ false

check_touch-ok :
    (header : RecordHeader) (payload : List ℕ)
    → check_touch header payload ≡ ok tt
    → IsTouch header payload
unfolding check_touch
check_touch-ok header payload e = ground arith

check_touch-IsTouch :
    (header : RecordHeader) (payload : List ℕ)
    → IsTouch header payload
    → check_touch header payload ≡ ok tt
unfolding check_touch
check_touch-IsTouch header payload h = ground (arith, h)

-- Sequence number 0 is a lone cancel that starts the session, and no other frame starts one.
abbrev pub starts_well : {F : Type 0} → TouchFrame F → Bool
starts_well frame =
    if frame.sequence == 0
    then frame.action == 4 && (frame.flags == 2 && is_empty frame.contacts)
    else not (session_start frame)

session_start_lem :
    {F : Type 0} (frame : TouchFrame F)
    → validate_session_start frame ≡ (if starts_well frame then ok tt else err bad_session_start)
unfolding validate_session_start
session_start_lem frame = ground arith

module _ {F : Type 0} (float : Float32 F) where
  touch_contacts-wire :
      (payload : List ℕ) (index count : ℕ)
      → touch_contacts float payload index count
        ≡ wire_contacts float payload (44 + index * 10) count
  unfolding touch_contacts wire_contacts
  touch_contacts-wire payload index zero = refl
  touch_contacts-wire payload index (suc count) =
      let rest =
        touch_contacts-wire payload (index + 1) count
        ∙ ap (λ (at : ℕ). wire_contacts float payload at count) {x = 44 + (index + 1) * 10}
            {y = 44 + index * 10 + 10} (omega arith) in
      λ i. wire_contact-contact_at float payload (44 + index * 10) i ∷ rest i

  touch_frame_from-wire :
      (header : RecordHeader) (payload : List ℕ)
      → touch_frame_from header payload (wire_contacts float payload 44 (byte_at payload 42))
        ≡ wire_touch float header.session_id header.logical_id payload
  unfolding touch_frame_from wire_touch read_u64
  touch_frame_from-wire header payload = λ i. record {
    session_id = header.session_id;
    sequence = header.logical_id;
    phone_event_nanos = from_le-number payload 0 8 i;
    phone_callback_nanos = from_le-number payload 8 8 i;
    phone_send_nanos = from_le-number payload 16 8 i;
    echo_host_send_nanos = from_le-number payload 24 8 i;
    phone_control_receive_nanos = from_le-number payload 32 8 i;
    action = byte_at payload 40;
    action_pointer_id = byte_at payload 41;
    flags = byte_at payload 43;
    contacts = wire_contacts float payload 44 (byte_at payload 42);
  }

  -- What is accepted with the contacts `cs`.
  abbrev Accepts : RecordHeader → List ℕ → TouchFrame F → List (Contact F) → Type 0
  Accepts header payload frame cs =
      IsTouch header payload
      × (distinct (pointers cs) ≡ true)
      × (defined cs ≡ true)
      × (starts_well frame ≡ true)
      × (frame ≡ touch_frame_from header payload cs)

  decode_touch_payload-from :
      (header : RecordHeader) (payload : List ℕ) (frame : TouchFrame F)
      → All IsByte payload
      → (decode_touch_payload float header payload ≡ ok frame)
        ↔ Accepts header payload frame (touch_contacts float payload 0 (byte_at payload 42))
  unfolding decode_touch_payload
  decode_touch_payload-from header payload frame b =
      let contacts = touch_contacts float payload 0 (byte_at payload 42) in
      let loop = touch_contacts_loop_lem float payload (byte_at payload 42) b in
      let fault = first_fault-distinct contacts in
      let starts = session_start_lem (touch_frame_from header payload contacts) in
      (
        λ e. elim (Result-cases (check_touch header payload)) [
          | inl (_, c) ↦ (
            check_touch-ok header payload c,
            ground (arith, loop, fault, starts),
            ground (arith, loop, fault, starts),
            ground (arith, loop, fault, starts),
            ground (arith, loop, fault, starts),
          )
          | inr (x, c) ↦ absurd (cc (rw (c, decode_touch_payload) at e))
        ],
        λ (h, d, f, s, g).
            ground (arith, check_touch-IsTouch header payload h, loop, fault, starts, s, g, d, f),
      )

  -- Of all byte strings `decode_touch_payload` accepts exactly those under a header of a touch
  -- record that have an exact length, defined flags throughout, pairwise distinct pointer ids and
  -- a legal session start, and then returns the frame whose fields and contacts stand at the
  -- offsets of the format.
  pub decode_touch_payload_iff :
      (header : RecordHeader) (payload : List ℕ) (frame : TouchFrame F)
      → All IsByte payload
      → (decode_touch_payload float header payload ≡ ok frame) ↔ (
          IsTouch header payload
          × (distinct (pointers (wire_contacts float payload 44 (byte_at payload 42))) ≡ true)
          × (defined (wire_contacts float payload 44 (byte_at payload 42)) ≡ true)
          × (starts_well frame ≡ true)
          × (frame ≡ wire_touch float header.session_id header.logical_id payload))
  decode_touch_payload_iff header payload frame b =
      let found =
        subst
          (λ (cs : List (Contact F)).
            (decode_touch_payload float header payload ≡ ok frame)
            ↔ Accepts header payload frame cs)
          (touch_contacts-wire payload 0 (byte_at payload 42))
          (decode_touch_payload-from header payload frame b) in
      let wire = touch_frame_from-wire header payload in
      (
        λ e. let (h, d, f, s, g) = found.0 e in (h, d, f, s, g ∙ wire),
        λ (h, d, f, s, g). found.1 (h, d, f, s, g ∙ sym wire),
      )
