-- ===== src/V5/Cipher/Examples.antt =====
-- Tests of the record cipher, with a cipher that changes nothing.
use holodori_phone_trackpad.Prelude.{
  ℕ, ◌≡◌, refl, arith, if◌then◌else◌, some, none, List, [], ◌∷◌, ◌++◌, length-replicate, replicate,
  take, ok, err, IsU64,
}
use holodori_phone_trackpad.Wire.{same_bytes, le_bytes, read_u16, read_u32, read_u64}
use holodori_phone_trackpad.Wire.Numbers.{same_bytes_refl}
use holodori_phone_trackpad.Replay.{would_accept, commit, default}
use holodori_phone_trackpad.V5.{phone_to_host, bad_length}
use holodori_phone_trackpad.V5.Record.{RecordHeader, decode_record_header}
use holodori_phone_trackpad.V5.Record.Layout.{layout, IsWire}
use holodori_phone_trackpad.V5.Cipher.{
  Aead, IsAead, RecordCipher, from_keys, seal_into, open_checked, open_in_place,
}
use holodori_phone_trackpad.V5.Cipher.Nonces.{
  SealCall, AllDifferent, Encrypts, nonces, nonces-AllDifferent,
}
use holodori_phone_trackpad.V5.Cipher.RoundTrip.{header_of, open_in_place-seal_into}

abbrev no_tag : List ℕ
no_tag = replicate 16 0

-- A cipher that changes nothing, with a tag of zeros.
abbrev plain_aead : Aead
plain_aead = record {
  encrypt = λ key nonce data' plain. some (plain, no_tag);
  decrypt = λ key nonce data' cipher tag. if same_bytes tag no_tag then some cipher else none;
}

plain_aead-IsAead : IsAead plain_aead
unfolding same_bytes
plain_aead-IsAead = record {
  sizes = λ key nonce data' plain cipher tag e. (ground arith, ground arith);
  inverts = λ key nonce data' plain cipher tag e. ground (arith, same_bytes_refl tag);
}

abbrev phone : RecordCipher
phone = from_keys (1 ∷ []) (2 ∷ []) 77

abbrev host : RecordCipher
host = from_keys (2 ∷ []) (1 ∷ []) 77

abbrev touch_header : RecordHeader
touch_header = header_of phone phone_to_host 1 9 4 0 (10 ∷ 20 ∷ [])

abbrev datagram : List ℕ
datagram = layout touch_header ++ ((10 ∷ 20 ∷ []) ++ no_tag)

touch_header-IsWire : IsWire touch_header
unfolding from_keys
touch_header-IsWire = record {
  connection_id = omega arith;
  session_id = omega arith;
  packet_number = omega arith;
  logical_id = omega arith;
  flags = omega arith;
  fits = omega arith;
}

opens : (open_in_place plain_aead host phone_to_host datagram).2 ≡ ok touch_header
unfolding open_in_place decode_record_header layout open_checked from_keys would_accept same_bytes
    default le_bytes read_u16 read_u32 read_u64
opens = refl

refuses : (open_in_place plain_aead host phone_to_host (1 ∷ [])).2 ≡ err (bad_length 1)
unfolding open_in_place decode_record_header
refuses = refl

abbrev touch_call : SealCall
touch_call = record {
  direction = phone_to_host;
  message_type = 1;
  session_id = 9;
  logical_id = 4;
  flags = 0;
  payload = 10 ∷ 20 ∷ [];
  output = replicate 1200 0;
}

phone-IsU64 : IsU64 phone.next_packet_number
unfolding from_keys
phone-IsU64 = omega arith

nonces-AllDifferent_example :
    AllDifferent (nonces plain_aead phone (touch_call ∷ touch_call ∷ []))
    × Encrypts plain_aead phone (touch_call ∷ touch_call ∷ [])
nonces-AllDifferent_example =
    nonces-AllDifferent plain_aead phone (touch_call ∷ touch_call ∷ []) phone-IsU64

open_in_place-seal_into_example :
    ((seal_into plain_aead phone phone_to_host 1 9 4 0 (10 ∷ 20 ∷ []) (replicate 1200 0)).2 ≡ ok 66)
    × (open_in_place plain_aead host phone_to_host (
          take 66
            (seal_into plain_aead phone phone_to_host 1 9 4 0 (10 ∷ 20 ∷ []) (replicate 1200 0)).1)
        ≡ (
          record host { replay = commit host.replay phone.next_packet_number },
          datagram,
          ok touch_header,
        ))
unfolding from_keys would_accept default
open_in_place-seal_into_example =
    open_in_place-seal_into plain_aead phone host phone_to_host 1 9 4 0 (10 ∷ 20 ∷ [])
      (replicate 1200 0) (10 ∷ 20 ∷ []) no_tag plain_aead-IsAead touch_header-IsWire (omega arith)
      (omega (arith, length-replicate {A = ℕ} 1200 0)) refl refl refl refl
