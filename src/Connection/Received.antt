-- ===== src/Connection/Received.antt =====
-- What a connection takes for a record of the peer.
use holodori_phone_trackpad.Prelude.{
  ℕ, suc, length, ◌≡◌, refl, sym, ap, arith, true, false, ◌==◌, Option, some, none, is_some, List,
  Result, ok, err, Result-cases, Option-cases, Bool-cases, inl, inr, ◌⊎◌,
}
use holodori_phone_trackpad.Io.{IoError, write_zero}
use holodori_phone_trackpad.Wire.Numbers.{same_bytes→eq}
use holodori_phone_trackpad.Replay.{would_accept, commit}
use holodori_phone_trackpad.V5.{Direction, phone_to_host, WireError}
use holodori_phone_trackpad.V5.Record.{decode_record_header}
use holodori_phone_trackpad.V5.Cipher.{Aead, RecordCipher, open_checked, open_in_place}
use holodori_phone_trackpad.V5.Cipher.Replays.{authentic, open_in_place-err, open_in_place-ok}
use holodori_phone_trackpad.Connection.{
  Socket, V5Connection, Arrived, LinkError, io, discard_reason, accepts_ingress, is_request,
  response_of, send_plain_connected_redundant, send_plain_copies, open_datagram, take_datagram,
  receive_record_into,
}

decode-discards :
    (bytes : List ℕ) (d : Direction) (e : WireError)
    → decode_record_header bytes d ≡ err e
    → is_some (discard_reason e) ≡ true
unfolding decode_record_header
decode-discards bytes d e h = ground arith

module _ {S P : Type 0} (aead : Aead) (socket : Socket S P) where
  open-discards :
      (c : RecordCipher) (bytes : List ℕ) (e : WireError)
      → (open_in_place aead c phone_to_host bytes).2 ≡ err e
      → is_some (discard_reason e) ≡ true
  unfolding open_in_place open_checked
  open-discards c bytes e h = ground (arith, decode-discards bytes phone_to_host e)

  -- A record from the datagram, or none and the replay window as it was, but no error.
  abbrev Takes :
      V5Connection S P → List ℕ → V5Connection S P → Result LinkError (Option Arrived) → Type 0
  Takes c bytes c' (ok (some a)) =
      (decode_record_header bytes phone_to_host ≡ ok a.header)
      × (would_accept c.cipher.replay a.header.packet_number ≡ true)
      × (authentic aead c.cipher bytes a.header ≡ true)
      × (c'.cipher.replay ≡ commit c.cipher.replay a.header.packet_number)
  Takes c bytes c' (ok none) = c'.cipher.replay ≡ c.cipher.replay
  Takes c bytes c' (err e) = ⊥

  open_datagram-Takes :
      (c : V5Connection S P) (bytes : List ℕ) (arrival : ℕ)
      → let x = open_datagram aead socket c bytes arrival in Takes c bytes x.0 x.1
  unfolding open_datagram
  open_datagram-Takes c bytes arrival =
      elim (Result-cases (open_in_place aead c.cipher phone_to_host bytes).2) [
        | inl (header, opened) ↦
            let (decoded, _, accepted, next, tag) =
              open_in_place-ok aead c.cipher phone_to_host bytes header opened in
            rw (open_datagram, opened)
              (decoded, accepted, tag, ap (λ (x : RecordCipher). x.replay) next)
        | inr (e, refused) ↦
            let kept =
              ap (λ (x : RecordCipher). x.replay)
                (open_in_place-err aead c.cipher phone_to_host bytes e refused).0 in
            elim (Option-cases (discard_reason e)) [
              | inl reported ↦
                  absurd (cc (open-discards c.cipher bytes e refused, ap is_some reported))
              | inr (reason, noted) ↦ rw (open_datagram, refused, noted) kept
            ]
      ]

  -- The socket did not send the bytes, or not all of them, from its state `at` on.
  abbrev pub Unsent : S → List ℕ → LinkError → Type 0
  Unsent at bytes e =
      ((x : IoError) × ((socket.send at bytes).1 ≡ err x) × (e ≡ io x))
      ⊎ ((sent : ℕ) × ((socket.send at bytes).1 ≡ ok sent)
          × ((sent == length bytes) ≡ false)
          × (e ≡ io write_zero))

  -- The socket's state once a datagram was read.
  abbrev pub after_read : V5Connection S P → S
  after_read c = (socket.now (socket.receive c.socket).0).0

  -- The socket could not be read, for another reason than the time, or it could not send one of the
  -- two copies of the response to the peer, which repeated its handshake.
  abbrev pub Broken : V5Connection S P → LinkError → Type 0
  Broken c e =
      ((x : IoError) × ((socket.receive c.socket).1 ≡ err x)
        × (socket.is_timeout x ≡ false)
        × (e ≡ io x))
      ⊎ ((request : List ℕ) × (response : List ℕ) × (peer : P) × (ingress : Option ℕ)
          × ((socket.receive c.socket).1 ≡ ok (request, peer, ingress))
          × (socket.same_peer peer c.peer ≡ true)
          × (accepts_ingress c.binding ingress ≡ true)
          × (c.cached_handshake ≡ some (request, response))
          × (Unsent (after_read c) response e
              ⊎ Unsent (socket.send (after_read c) response).0 response e))

  -- The same of a call that reads the socket: the datagram came from the peer, and in by the
  -- interface of the connection.
  abbrev pub Receives :
      V5Connection S P → V5Connection S P → Result LinkError (Option Arrived) → Type 0
  Receives c c' (ok (some a)) =
      (bytes : List ℕ) × (peer : P) × (ingress : Option ℕ) × ((socket.receive c.socket).1
        ≡ ok (bytes, peer, ingress))
      × (socket.same_peer peer c.peer ≡ true)
      × (accepts_ingress c.binding ingress ≡ true)
      × (decode_record_header bytes phone_to_host ≡ ok a.header)
      × (would_accept c.cipher.replay a.header.packet_number ≡ true)
      × (authentic aead c.cipher bytes a.header ≡ true)
      × (c'.cipher.replay ≡ commit c.cipher.replay a.header.packet_number)
  Receives c c' (ok none) = c'.cipher.replay ≡ c.cipher.replay
  Receives c c' (err e) = Broken c e × (c'.cipher.replay ≡ c.cipher.replay)

  lifted :
      (c c' : V5Connection S P) (bytes : List ℕ) (peer : P) (ingress : Option ℕ)
      (r : Result LinkError (Option Arrived))
      → (socket.receive c.socket).1 ≡ ok (bytes, peer, ingress)
      → socket.same_peer peer c.peer ≡ true
      → accepts_ingress c.binding ingress ≡ true
      → Takes c bytes c' r
      → Receives c c' r
  lifted c c' bytes peer ingress (ok (some a)) read same fits (d, w, t, n) =
      (bytes, peer, ingress, read, same, fits, d, w, t, n)
  lifted c c' bytes peer ingress (ok none) read same fits t = t
  lifted c c' bytes peer ingress (err e) read same fits t = absurd t

  copy_or_rest :
      (copies : ℕ) (at : S) (bytes : List ℕ) (e : LinkError)
      → (send_plain_copies socket (suc copies) at bytes).1 ≡ err e
      → Unsent at bytes e
        ⊎ ((send_plain_copies socket copies (socket.send at bytes).0 bytes).1 ≡ err e)
  unfolding send_plain_copies
  copy_or_rest copies at bytes e h = elim (Result-cases (socket.send at bytes).1) [
    | inr (x, failed) ↦ inl (inl (x, failed, ground (arith, h, failed)))
    | inl (sent, fine) ↦ elim (Bool-cases (sent == length bytes)) [
      | inl whole ↦ inr (ground (arith, h, fine, whole))
      | inr short ↦ inl (inr (sent, fine, short, ground (arith, h, fine, short)))
    ]
  ]

  unanswered :
      (at : S) (bytes : List ℕ) (e : LinkError)
      → (send_plain_connected_redundant socket at bytes).1 ≡ err e
      → Unsent at bytes e ⊎ Unsent (socket.send at bytes).0 bytes e
  unfolding send_plain_connected_redundant send_plain_copies
  unanswered at bytes e h = elim (copy_or_rest 1 at bytes e h) [
    | inl first ↦ inl first
    | inr rest ↦ elim (copy_or_rest 0 (socket.send at bytes).0 bytes e rest) [
      | inl second ↦ inr second
      | inr nothing ↦ absurd (cc)
    ]
  ]

  -- The datagram is the request of the handshake, and this is the response to it.
  repeated :
      (cached : Option (List ℕ × List ℕ)) (bytes : List ℕ)
      → is_request cached bytes ≡ true
      → cached ≡ some (bytes, response_of cached)
  repeated none bytes h = absurd (cc)
  repeated (some (request, response)) bytes h =
      ap (λ (r : List ℕ). some (r, response)) (sym (same_bytes→eq bytes request h))

  take_datagram-Receives :
      (c : V5Connection S P) (bytes : List ℕ) (peer : P) (ingress : Option ℕ) (arrival : ℕ)
      → (socket.receive c.socket).1 ≡ ok (bytes, peer, ingress)
      → let read = record c { socket = after_read c; last_diagnostic_discard = none } in
        let x = take_datagram aead socket read bytes peer ingress arrival in Receives c x.0 x.1
  unfolding take_datagram
  take_datagram-Receives c bytes peer ingress arrival got =
      let read : V5Connection S P = record c {
        socket = after_read c;
        last_diagnostic_discard = none;
      } in
      elim (Bool-cases (socket.same_peer peer c.peer)) [
        | inr other ↦ rw (take_datagram, other) refl
        | inl same ↦ elim (Bool-cases (accepts_ingress c.binding ingress)) [
          | inr elsewhere ↦ rw (take_datagram, same, elsewhere) refl
          | inl fits ↦ elim (Bool-cases (is_request c.cached_handshake bytes)) [
            | inr fresh ↦
                rw (take_datagram, same, fits, fresh)
                  (lifted c (open_datagram aead socket read bytes arrival).0 bytes peer ingress
                    (open_datagram aead socket read bytes arrival).1 got same fits
                    (open_datagram-Takes read bytes arrival))
            | inl again ↦
                elim (Result-cases
                  (send_plain_connected_redundant socket (after_read c)
                    (response_of c.cached_handshake)).1) [
                      | inl (x, sent) ↦ rw (take_datagram, same, fits, again, sent) refl
                      | inr (e, failed) ↦
                          rw (take_datagram, same, fits, again, failed)
                            (
                              inr (
                                bytes,
                                response_of c.cached_handshake,
                                peer,
                                ingress,
                                got,
                                same,
                                fits,
                                repeated c.cached_handshake bytes again,
                                unanswered (after_read c) (response_of c.cached_handshake) e failed,
                              ),
                              refl,
                            )
                    ]
          ]
        ]
      ]

  -- One call returns a record only if its datagram came from the peer and in by the interface of
  -- the connection, has a valid header and an acceptable packet number, and is authentic: then
  -- its number is committed. Every other call leaves the replay window as it is. It reports an
  -- error only if the socket could not be read, and not for lack of time, or if a datagram of
  -- the peer repeated the request of its handshake and the socket could not send one of the two
  -- copies of the response. So no datagram ends the connection by what it holds or where it is
  -- from.
  pub receive_record_into-Receives :
      (c : V5Connection S P) → let x = receive_record_into aead socket c in Receives c x.0 x.1
  unfolding receive_record_into
  receive_record_into-Receives c = elim (Result-cases (socket.receive c.socket).1) [
    | inr (e, failed) ↦ elim (Bool-cases (socket.is_timeout e)) [
      | inl late ↦ rw (receive_record_into, failed, late) refl
      | inr broken ↦ rw (receive_record_into, failed, broken) (inl (e, failed, broken, refl), refl)
    ]
    | inl ((bytes, peer, ingress), got) ↦
        rw (receive_record_into, got)
          (take_datagram-Receives c bytes peer ingress (socket.now (socket.receive c.socket).0).1
            got)
  ]
