-- ===== src/Connection/Examples.antt =====
-- Tests of a connection whose socket is the list of the datagrams to come.
use holodori_phone_trackpad.Prelude.{
  ℕ, ◌≡◌, refl, false, true, ◌==◌, none, some, List, [], ◌∷◌, replicate, distinct, ok, err,
}
use holodori_phone_trackpad.Io.{timed_out, interrupted}
use holodori_phone_trackpad.V5.{phone_to_host, host_to_phone}
use holodori_phone_trackpad.V5.Cipher.{Aead, seal, from_keys}
use holodori_phone_trackpad.Connection.{Socket, V5Connection, usb, receive_record_into}
use holodori_phone_trackpad.Connection.Received.{Receives, receive_record_into-Receives}
use holodori_phone_trackpad.Connection.Once.{receive, send_once, received, received_once}

-- An encryption that does not hide anything.
abbrev plain : Aead
plain = record {
  encrypt = λ key nonce data' text. some (text, replicate 16 7);
  decrypt = λ key nonce data' text tag. some text;
}

abbrev socket : Socket (List (List ℕ)) ℕ
socket = record {
  receive = λ datagrams. elim datagrams [
    | [] ↦ ([], err (timed_out interrupted))
    | d ∷ ds ↦ (ds, ok (d, 1, some 3))
  ];
  send = λ datagrams bytes. (datagrams, ok 0);
  now = λ datagrams. (datagrams, 0);
  is_timeout = λ e. true;
  same_peer = λ a b. a == b;
}

-- The record of type 7 of the session 9 with the number `logical`.
datagram : ℕ → List ℕ
datagram logical = elim (seal plain (from_keys [] [] 5) phone_to_host 7 9 logical 0 []).1 [
  | ok bytes ↦ bytes
  | err e ↦ []
]

abbrev connected : V5Connection (List (List ℕ)) ℕ
connected = record {
  socket = datagram 40 ∷ datagram 41 ∷ [];
  peer = 1;
  binding = usb 3;
  cipher = from_keys [] [] 5;
  cached_handshake = none;
  send_buffer = replicate 1200 0;
  last_diagnostic_discard = none;
  peer_aborted = false;
}

receive_record_into-Receives_example :
    let x = receive_record_into plain socket connected in Receives plain socket connected x.0 x.1
receive_record_into-Receives_example = receive_record_into-Receives plain socket connected

received_once_example :
    distinct (
      received plain socket connected
        (receive ∷ send_once host_to_phone 2 9 0 0 [] ∷ receive ∷ receive ∷ [])
        [])
    ≡ true
received_once_example =
    received_once plain socket connected [] [] 5
      (receive ∷ send_once host_to_phone 2 9 0 0 [] ∷ receive ∷ receive ∷ []) refl
