-- ===== src/Protocol/Layout.antt =====
-- The layouts of touch frames in PROTOCOL_V4.md and of touch payloads, by their offsets.
use holodori_phone_trackpad.Prelude.{
  ℕ, zero, suc, ◌+◌, ◌*◌, ◌-◌, ◌≡◌, refl, sym, ap, ◌∙◌, arith, ltb, if◌then◌else◌, List, [], ◌∷◌,
  get_or, take, drop,
}
use holodori_phone_trackpad.Prelude.Int.{ℤ, pos, negsuc}
use holodori_phone_trackpad.Wire.{from_le, read_u16}
use holodori_phone_trackpad.Protocol.{Float32, Contact, TouchFrame}
use holodori_phone_trackpad.Protocol.Decode.{contact_at}

-- The number whose digits to the base 256 stand from an offset on, the lowest one first.
unfoldable pub number : List ℕ → ℕ → ℕ → ℕ
number bytes at zero = 0
number bytes at (suc width) = get_or bytes at 0 + 256 * number bytes (suc at) width

-- Two's complement.
abbrev pub int16 : ℕ → ℤ
int16 n = if ltb n 32768 then pos n else negsuc (65535 - n)

number-cons :
    (b : ℕ) (bytes : List ℕ) (at width : ℕ)
    → number (b ∷ bytes) (suc at) width ≡ number bytes at width
unfolding number
number-cons b bytes at zero = refl
number-cons b bytes at (suc width) =
    ap (λ (n : ℕ). get_or bytes at 0 + 256 * n) (number-cons b bytes (suc at) width)

number-nil : (at width : ℕ) → number [] at width ≡ 0
unfolding number
number-nil at zero = refl
number-nil at (suc width) = omega (arith, number-nil (suc at) width)

-- A slice is read as the number that stands there.
pub from_le-number :
    (bytes : List ℕ) (at width : ℕ) → from_le (take width (drop at bytes)) ≡ number bytes at width
unfolding from_le number
from_le-number bytes at zero = ground arith
from_le-number [] zero (suc width) = omega (arith, number-nil 1 width)
from_le-number [] (suc at) (suc width) = omega (arith, number-nil (suc (suc at)) width)
from_le-number (b ∷ bytes) zero (suc width) =
    ap (λ (n : ℕ). b + 256 * n) (from_le-number bytes 0 width ∙ sym (number-cons b bytes 0 width))
from_le-number (b ∷ bytes) (suc at) (suc width) =
    from_le-number bytes at (suc width) ∙ sym (number-cons b bytes at (suc width))

module _ {F : Type 0} (float : Float32 F) where
  -- A contact of ten bytes: the id, the flags, two signed coordinates in units of 1/10000, and the
  -- pressure and the major axis in units of 1/65535.
  unfoldable pub wire_contact : List ℕ → ℕ → Contact F
  wire_contact bytes at = record {
    pointer_id = get_or bytes at 0;
    flags = get_or bytes (at + 1) 0;
    x = float.div (float.of_int (int16 (number bytes (at + 2) 2))) (float.of_int (pos 10000));
    y = float.div (float.of_int (int16 (number bytes (at + 4) 2))) (float.of_int (pos 10000));
    pressure = float.div (float.of_int (pos (number bytes (at + 6) 2))) (float.of_int (pos 65535));
    touch_major =
        float.div (float.of_int (pos (number bytes (at + 8) 2))) (float.of_int (pos 65535));
  }

  -- Contacts one after the other.
  unfoldable pub wire_contacts : List ℕ → ℕ → ℕ → List (Contact F)
  wire_contacts bytes at zero = []
  wire_contacts bytes at (suc count) = wire_contact bytes at ∷ wire_contacts bytes (at + 10) count

  pub wire_contact-contact_at :
      (bytes : List ℕ) (at : ℕ) → contact_at float bytes at ≡ wire_contact bytes at
  unfolding contact_at wire_contact read_u16
  wire_contact-contact_at bytes at = λ i. record {
    pointer_id = get_or bytes at 0;
    flags = get_or bytes (at + 1) 0;
    x = float.div (float.of_int (short (at + 2) i)) (float.of_int (pos 10000));
    y = float.div (float.of_int (short (at + 4) i)) (float.of_int (pos 10000));
    pressure = float.div (float.of_int (pos (word (at + 6) i))) (float.of_int (pos 65535));
    touch_major = float.div (float.of_int (pos (word (at + 8) i))) (float.of_int (pos 65535));
  }
    where
      word : (n : ℕ) → read_u16 bytes n ≡ number bytes n 2
      word n = from_le-number bytes n 2

      int16-signed : (n : ℕ) → (if ltb n 32768 then pos n else negsuc (2 * 32768 - n - 1)) ≡ int16 n
      int16-signed n = ap (λ (m : ℕ). if ltb n 32768 then pos n else negsuc m) (omega arith)

      short :
          (n : ℕ)
          → (if ltb (read_u16 bytes n) 32768
              then pos (read_u16 bytes n)
              else negsuc (2 * 32768 - read_u16 bytes n - 1))
            ≡ int16 (number bytes n 2)
      short n = int16-signed (read_u16 bytes n) ∙ ap (λ (m : ℕ). int16 m) (word n)

  -- A touch frame: 68 bytes, the contacts and the checksum.
  unfoldable pub wire_frame : List ℕ → TouchFrame F
  wire_frame bytes = record {
    session_id = number bytes 8 8;
    sequence = number bytes 16 8;
    phone_event_nanos = number bytes 24 8;
    phone_callback_nanos = number bytes 32 8;
    phone_send_nanos = number bytes 40 8;
    echo_host_send_nanos = number bytes 48 8;
    phone_control_receive_nanos = number bytes 56 8;
    action = get_or bytes 64 0;
    action_pointer_id = get_or bytes 65 0;
    flags = get_or bytes 67 0;
    contacts = wire_contacts bytes 68 (get_or bytes 66 0);
  }

  -- The payload of a touch record, of a session and with a logical id: 44 bytes and the contacts.
  unfoldable pub wire_touch : ℕ → ℕ → List ℕ → TouchFrame F
  wire_touch session_id logical_id payload = record {
    session_id = session_id;
    sequence = logical_id;
    phone_event_nanos = number payload 0 8;
    phone_callback_nanos = number payload 8 8;
    phone_send_nanos = number payload 16 8;
    echo_host_send_nanos = number payload 24 8;
    phone_control_receive_nanos = number payload 32 8;
    action = get_or payload 40 0;
    action_pointer_id = get_or payload 41 0;
    flags = get_or payload 43 0;
    contacts = wire_contacts payload 44 (get_or payload 42 0);
  }
