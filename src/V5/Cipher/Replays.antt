-- ===== src/V5/Cipher/Replays.antt =====
-- What opening records does to the replay window.
use mathlib.Core.Path.{subst}
use holodori_phone_trackpad.Prelude.{
  ℕ, ◌+◌, ◌≡◌, refl, arith, Bool, true, is_some, List, [], ◌∷◌, distinct, ok, err, Result-cases,
  inl, inr, take, drop,
}
use holodori_phone_trackpad.Wire.{slice}
use holodori_phone_trackpad.Replay.{would_accept, commit}
use holodori_phone_trackpad.Replay.Window.{Tracks, default-Tracks, commit-Tracks}
use holodori_phone_trackpad.Replay.Refinement.{accept_tracked}
use holodori_phone_trackpad.V5.{Direction, WireError}
use holodori_phone_trackpad.V5.Record.{RecordHeader, decode_record_header}
use holodori_phone_trackpad.V5.Cipher.{
  Aead, RecordCipher, open_checked, open_in_place, seal_into, noise_nonce, from_keys,
}

module _ (aead : Aead) where
  -- A datagram that is refused, for whatever reason, leaves the cipher and the buffer as they were.
  pub open_in_place-err :
      (c : RecordCipher) (d : Direction) (bytes : List ℕ) (e : WireError)
      → (open_in_place aead c d bytes).2 ≡ err e
      → ((open_in_place aead c d bytes).0 ≡ c) × ((open_in_place aead c d bytes).1 ≡ bytes)
  unfolding open_in_place open_checked
  open_in_place-err c d bytes e h = (ground arith, ground arith)

  pub authentic : RecordCipher → List ℕ → RecordHeader → Bool
  authentic c bytes h = is_some (
      aead.decrypt c.receive_key (noise_nonce h.packet_number) (take 48 bytes)
        (slice bytes 48 h.payload_length) (drop (48 + h.payload_length) bytes))

  open_checked-ok :
      (c : RecordCipher) (bytes : List ℕ) (g h : RecordHeader)
      → (open_checked aead c bytes g).2 ≡ ok h
      → (g ≡ h)
        × (g.connection_id ≡ c.connection_id)
        × (would_accept c.replay g.packet_number ≡ true)
        × ((open_checked aead c bytes g).0 ≡ record c { replay = commit c.replay g.packet_number })
        × (authentic c bytes g ≡ true)
  unfolding open_checked authentic
  open_checked-ok c bytes g h e =
      (ground arith, ground arith, ground arith, ground arith, ground arith)

  -- A record is opened only if its header is valid and of this connection, its packet number is
  -- acceptable, and its tag authenticates header and payload; its number is then committed.
  pub open_in_place-ok :
      (c : RecordCipher) (d : Direction) (bytes : List ℕ) (h : RecordHeader)
      → (open_in_place aead c d bytes).2 ≡ ok h
      → (decode_record_header bytes d ≡ ok h)
        × (h.connection_id ≡ c.connection_id)
        × (would_accept c.replay h.packet_number ≡ true)
        × ((open_in_place aead c d bytes).0 ≡ record c { replay = commit c.replay h.packet_number })
        × (authentic c bytes h ≡ true)
  unfolding open_in_place
  open_in_place-ok c d bytes h e = elim (Result-cases (decode_record_header bytes d)) [
    | inr (x, p) ↦ absurd (cc (rw (p, open_in_place) at e))
    | inl (g, p) ↦
        let (same, conn, fits, next, auth) =
          open_checked-ok c bytes g h (rw (p, open_in_place) at e) in
        subst
          (λ (k : RecordHeader).
            (decode_record_header bytes d ≡ ok k)
            × (k.connection_id ≡ c.connection_id)
            × (would_accept c.replay k.packet_number ≡ true)
            × ((open_in_place aead c d bytes).0
                ≡ record c { replay = commit c.replay k.packet_number })
            × (authentic c bytes k ≡ true))
          same (p, conn, fits, rw (p, open_in_place) next, auth)
  ]

  -- The packet numbers opened in a run of datagrams, the latest first, before those of `seen`.
  unfoldable pub opened : RecordCipher → List (Direction × List ℕ) → List ℕ → List ℕ
  opened c [] seen = seen
  opened c ((d, bytes) ∷ rest) seen =
      let next = (open_in_place aead c d bytes).0 in
      opened next rest
        (elim (open_in_place aead c d bytes).2 [ ok h ↦ h.packet_number ∷ seen | err e ↦ seen ])

  opened-distinct :
      (c : RecordCipher) (datagrams : List (Direction × List ℕ)) (seen : List ℕ)
      → Tracks c.replay seen
      → distinct seen ≡ true
      → distinct (opened c datagrams seen) ≡ true
  unfolding opened distinct
  opened-distinct c [] seen t h = h
  opened-distinct c ((d, bytes) ∷ rest) seen t h =
      elim (Result-cases (open_in_place aead c d bytes).2) [
        | inl (header, e) ↦
            let n : ℕ = header.packet_number in
            let (_, _, accepted, next, _) = open_in_place-ok c d bytes header e in
            rw e (
              opened-distinct (open_in_place aead c d bytes).0 rest (n ∷ seen)
                (rw next (commit-Tracks c.replay seen n t))
                (ground (arith, accept_tracked c.replay seen n t, accepted)))
        | inr (x, e) ↦ rw (e, (open_in_place-err c d bytes x e).0) (opened-distinct c rest seen t h)
      ]

  -- No packet number is opened twice on a connection, whatever datagrams arrive in whatever order.
  pub opened_once :
      (send_key receive_key : List ℕ) (connection_id : ℕ) (datagrams : List (Direction × List ℕ))
      → distinct (opened (from_keys send_key receive_key connection_id) datagrams []) ≡ true
  unfolding from_keys distinct
  opened_once send_key receive_key connection_id datagrams =
      opened-distinct (from_keys send_key receive_key connection_id) datagrams [] default-Tracks
        refl

  -- Sealing records leaves the replay window as it is.
  pub seal_into-replay :
      (c : RecordCipher) (d : Direction) (message_type session_id logical_id flags : ℕ)
      (payload output : List ℕ)
      → (seal_into aead c d message_type session_id logical_id flags payload output).0.replay
        ≡ c.replay
  unfolding seal_into
  seal_into-replay c d message_type session_id logical_id flags payload output = ground arith

-- A new cipher has opened nothing.
pub from_keys-Tracks :
    (send_key receive_key : List ℕ) (connection_id : ℕ)
    → Tracks (from_keys send_key receive_key connection_id).replay []
unfolding from_keys
from_keys-Tracks send_key receive_key connection_id = default-Tracks
