-- ===== src/V5/Examples.antt =====
-- Tests of the datagrams of protocol version 5.
use holodori_phone_trackpad.Prelude.{
  ℕ, List, distinct, false, some, refl, length, ◌≡◌, refl, arith, [], ◌∷◌, ◌++◌, replicate, ok,
  ◌>>=◌,
}
use holodori_phone_trackpad.V5.{phone_to_host, usb}
use holodori_phone_trackpad.V5.Envelope.{encode_pair_envelope, decode_pair_envelope}
use holodori_phone_trackpad.V5.Envelope.RoundTrip.{decode_pair_envelope-encode}
use holodori_phone_trackpad.V5.Record.{RecordHeader, decode_record_header}
use holodori_phone_trackpad.Protocol.Examples.{fixed_point, all_small, small_bytes}
use holodori_phone_trackpad.V5.Touch.{decode_touch_payload}
use holodori_phone_trackpad.Protocol.Layout.{number, wire_contact, wire_contacts, wire_touch}
use holodori_phone_trackpad.V5.Touch.Accepted.{defined, decode_touch_payload_iff}
use holodori_phone_trackpad.Prelude.Int.{negsuc}
use holodori_phone_trackpad.Wire.{from_le}
use holodori_phone_trackpad.V5.Sas.{
  sas_pattern, first_below, rehashed, IsDigit, digits_value, sas_pattern_lem,
}
use holodori_phone_trackpad.Prelude.{All}
use holodori_phone_trackpad.V5.Quality.{
  QualityReply, IsQuality, decode_quality_reply, quality_payload, decode_quality_reply-payload,
}
use holodori_phone_trackpad.V5.Record.Layout.{layout, IsWire, decode_record_header-layout}

abbrev touch_header : RecordHeader
touch_header = record {
  direction = phone_to_host;
  message_type = 1;
  connection_id = 77;
  session_id = 9;
  packet_number = 0;
  logical_id = 4;
  flags = 0;
  payload_length = 2;
}

touch_header-IsWire : IsWire touch_header
touch_header-IsWire = record {
  connection_id = omega arith;
  session_id = omega arith;
  packet_number = omega arith;
  logical_id = omega arith;
  flags = omega arith;
  fits = omega arith;
}

decode_record_header-layout_example :
    decode_record_header (layout touch_header ++ replicate 18 3) phone_to_host ≡ ok touch_header
decode_record_header-layout_example =
    decode_record_header-layout touch_header (replicate 18 3) touch_header-IsWire refl

decode_pair_envelope-encode_example :
    (encode_pair_envelope 1 (replicate 16 6) 3 usb (1 ∷ []) >>= decode_pair_envelope)
    ≡ ok (record {
      kind = 1;
      exchange_id = replicate 16 6;
      step = 3;
      transport = usb;
      payload = 1 ∷ [];
    })
decode_pair_envelope-encode_example =
    decode_pair_envelope-encode 1 3 (replicate 16 6) (1 ∷ []) usb refl (omega arith) (omega arith)

-- A finger that comes down in the middle.
abbrev touch_payload : List ℕ
touch_payload =
    replicate 40 0 ++ (1 ∷ 5 ∷ 1 ∷ 1 ∷ 5 ∷ 3 ∷ 136 ∷ 19 ∷ 136 ∷ 19 ∷ 255 ∷ 255 ∷ 143 ∷ 2 ∷ [])

decode_touch_payload_iff_example :
    decode_touch_payload fixed_point (record touch_header { payload_length = 54 }) touch_payload
    ≡ ok (wire_touch fixed_point 9 4 touch_payload)
unfolding wire_contacts wire_contact wire_touch number defined distinct all_small
decode_touch_payload_iff_example =
    (decode_touch_payload_iff fixed_point (record touch_header { payload_length = 54 })
        touch_payload (wire_touch fixed_point 9 4 touch_payload) (small_bytes touch_payload refl)).1
      (
        record {
          direction = refl;
          message_type = refl;
          session = refl;
          no_flags = refl;
          few_contacts = omega arith;
          size = refl;
          action = omega arith;
          frame_flags = refl;
        },
        refl,
        refl,
        refl,
        refl,
      )

abbrev reply : QualityReply
reply = record {
  probe_id = 12;
  host_send_nanos = 1000;
  phone_receive_nanos = 2000;
  phone_send_nanos = 2100;
  repair_only = false;
  signal_level = negsuc 0;
  rssi_dbm = negsuc 66;
  frequency_mhz = 5180;
}

abbrev reply_header : RecordHeader
reply_header = record {
  direction = phone_to_host;
  message_type = 2;
  connection_id = 77;
  session_id = 0;
  packet_number = 3;
  logical_id = 12;
  flags = 0;
  payload_length = 32;
}

reply-IsQuality : IsQuality reply
reply-IsQuality = record {
  host_send = omega arith;
  phone_receive = omega arith;
  phone_send = omega arith;
  level = refl;
  rssi = omega arith;
  frequency = omega arith;
}

decode_quality_reply-payload_example :
    decode_quality_reply (record { header = reply_header; payload = quality_payload reply })
    ≡ ok reply
decode_quality_reply-payload_example =
    decode_quality_reply-payload reply reply_header reply-IsQuality (record {
      direction = refl;
      message_type = refl;
      no_session = refl;
      no_flags = refl;
      probe_id = refl;
    })

-- The first word of this digest is above the limit, the second one is 7.
abbrev digest : List ℕ
digest = replicate 4 255 ++ (7 ∷ replicate 27 0)

sas_pattern_lem_example :
    (ds : List ℕ) × (sas_pattern (λ parts. replicate 32 0) 3 digest ≡ some ds)
    × (length ds ≡ 8)
    × All IsDigit ds
    × (digits_value ds 0 ≡ 7)
unfolding first_below rehashed from_le
sas_pattern_lem_example =
    sas_pattern_lem (λ parts. replicate 32 0) 0 3 digest 7 (omega arith)
      (λ j h. absurd (omega arith)) refl
