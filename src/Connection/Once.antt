-- ===== src/Connection/Once.antt =====
-- No record is received twice on a connection.
use holodori_phone_trackpad.Prelude.{
  ℕ, ◌≡◌, refl, subst, sym, ◌∙◌, arith, true, Option, some, none, List, [], ◌∷◌, distinct, Result,
  ok, err, Bool-cases, inl, inr,
}
use holodori_phone_trackpad.Replay.{ReplayWindow}
use holodori_phone_trackpad.Replay.Window.{Tracks, commit-Tracks}
use holodori_phone_trackpad.Replay.Refinement.{accept_tracked}
use holodori_phone_trackpad.V5.{Direction, WireError, host_to_phone}
use holodori_phone_trackpad.V5.Cipher.{Aead, RecordCipher, seal_into, from_keys}
use holodori_phone_trackpad.V5.Cipher.Replays.{seal_into-replay, from_keys-Tracks}
use holodori_phone_trackpad.V5.Quality.{encode_control_payload}
use holodori_phone_trackpad.Connection.{
  Socket, V5Connection, Arrived, LinkError, send_sealed, is_control, or_no_ack, receive_record_into,
  send_record_once, send_record_redundant, send_control_once, send_control_copy, send_control,
}
use holodori_phone_trackpad.Connection.Received.{Receives, receive_record_into-Receives}

-- A call of one of the connection's methods.
pub data Call : Type 0 where
  receive : Call
  send_once send_redundant : Direction → ℕ → ℕ → ℕ → ℕ → List ℕ → Call
  control : ℕ → ℕ → Option ℕ → ℕ → ℕ → Call
  control_once : ℕ → ℕ → Option ℕ → ℕ → ℕ → ℕ → Call

module _ {S P : Type 0} (aead : Aead) (socket : Socket S P) where
  abbrev replay_of : V5Connection S P → ReplayWindow
  replay_of c = c.cipher.replay

  send_sealed-replay :
      (c : V5Connection S P) (r : Result WireError ℕ)
      → replay_of (send_sealed aead socket c r).0 ≡ replay_of c
  send_sealed-replay c (err e) = refl
  send_sealed-replay c (ok size) = ground arith

  send_record_once-replay :
      (c : V5Connection S P) (d : Direction) (t s l f : ℕ) (payload : List ℕ)
      → replay_of (send_record_once aead socket c d t s l f payload).0 ≡ replay_of c
  unfolding send_record_once
  send_record_once-replay c d t s l f payload =
      let x = seal_into aead c.cipher d t s l f payload c.send_buffer in
      send_sealed-replay (record c { cipher = x.0; send_buffer = x.1 }) x.2
      ∙ seal_into-replay aead c.cipher d t s l f payload c.send_buffer

  send_record_redundant-replay :
      (c : V5Connection S P) (d : Direction) (t s l f : ℕ) (payload : List ℕ)
      → replay_of (send_record_redundant aead socket c d t s l f payload).0 ≡ replay_of c
  unfolding send_record_redundant
  send_record_redundant-replay c d t s l f payload =
      send_record_once-replay (send_record_once aead socket c d t s l f payload).0 d t s l f payload
      ∙ send_record_once-replay c d t s l f payload

  send_control_once-replay :
      (c : V5Connection S P) (t s : ℕ) (a : Option ℕ) (w l n : ℕ)
      → replay_of (send_control_once aead socket c t s a w l n).0 ≡ replay_of c
  unfolding send_control_once
  send_control_once-replay c t s a w l n =
      let sent =
        send_record_once-replay c host_to_phone t s (or_no_ack aead socket a) 0
          (encode_control_payload w l n) in
      elim (Bool-cases (is_control aead socket t)) [
        | inl known ↦ rw (send_control_once, known) sent
        | inr other ↦ rw (send_control_once, other) refl
      ]

  send_control_copy-replay :
      (c : V5Connection S P) (t s : ℕ) (a : Option ℕ) (w l : ℕ)
      → replay_of (send_control_copy aead socket c t s a w l).0 ≡ replay_of c
  unfolding send_control_copy
  send_control_copy-replay c t s a w l =
      let clock = socket.now c.socket in
      send_record_once-replay (record c { socket = clock.0 }) host_to_phone t s
        (or_no_ack aead socket a) 0 (encode_control_payload w l clock.1)

  send_control-replay :
      (c : V5Connection S P) (t s : ℕ) (a : Option ℕ) (w l : ℕ)
      → replay_of (send_control aead socket c t s a w l).0 ≡ replay_of c
  unfolding send_control
  send_control-replay c t s a w l =
      let sent =
        send_control_copy-replay (send_control_copy aead socket c t s a w l).0 t s a w l
        ∙ send_control_copy-replay c t s a w l in
      elim (Bool-cases (is_control aead socket t)) [
        | inl known ↦ rw (send_control, known) sent
        | inr other ↦ rw (send_control, other) refl
      ]

  -- The connection after a call.
  unfoldable pub perform : V5Connection S P → Call → V5Connection S P
  perform c receive = (receive_record_into aead socket c).0
  perform c (send_once d t s l f payload) = (send_record_once aead socket c d t s l f payload).0
  perform c (send_redundant d t s l f payload) =
      (send_record_redundant aead socket c d t s l f payload).0
  perform c (control t s a w l) = (send_control aead socket c t s a w l).0
  perform c (control_once t s a w l n) = (send_control_once aead socket c t s a w l n).0

  -- With the packet number that the call has returned, if one, before those of `seen`.
  abbrev pub with_number : Result LinkError (Option Arrived) → List ℕ → List ℕ
  with_number (ok (some a)) seen = a.header.packet_number ∷ seen
  with_number (ok none) seen = seen
  with_number (err e) seen = seen

  unfoldable pub numbers : V5Connection S P → Call → List ℕ → List ℕ
  numbers c receive seen = with_number (receive_record_into aead socket c).1 seen
  numbers c (send_once d t s l f payload) seen = seen
  numbers c (send_redundant d t s l f payload) seen = seen
  numbers c (control t s a w l) seen = seen
  numbers c (control_once t s a w l n) seen = seen

  -- The packet numbers of all records that a run of calls has returned.
  unfoldable pub received : V5Connection S P → List Call → List ℕ → List ℕ
  received c [] seen = seen
  received c (call ∷ calls) seen = received (perform c call) calls (numbers c call seen)

  received_one :
      (c c' : V5Connection S P) (r : Result LinkError (Option Arrived)) (seen : List ℕ)
      → Receives aead socket c c' r
      → Tracks (replay_of c) seen
      → distinct seen ≡ true
      → Tracks (replay_of c') (with_number r seen) × (distinct (with_number r seen) ≡ true)
  unfolding distinct
  received_one c c' (ok (some a)) seen h t d =
      let (_, _, _, _, _, _, _, accepted, _, next) = h in
      let n : ℕ = a.header.packet_number in
      (
        rw next (commit-Tracks (replay_of c) seen n t),
        ground (arith, accept_tracked (replay_of c) seen n t, accepted, d),
      )
  received_one c c' (ok none) seen h t d = (rw h t, d)
  received_one c c' (err e) seen h t d = (rw h.1 t, d)

  perform-Tracks :
      (c : V5Connection S P) (call : Call) (seen : List ℕ)
      → Tracks (replay_of c) seen
      → distinct seen ≡ true
      → Tracks (replay_of (perform c call)) (numbers c call seen)
        × (distinct (numbers c call seen) ≡ true)
  unfolding perform numbers
  perform-Tracks c receive seen t d =
      let x = receive_record_into aead socket c in
      received_one c x.0 x.1 seen (receive_record_into-Receives aead socket c) t d
  perform-Tracks c (send_once a b e f g payload) seen t d =
      (rw (send_record_once-replay c a b e f g payload) t, d)
  perform-Tracks c (send_redundant a b e f g payload) seen t d =
      (rw (send_record_redundant-replay c a b e f g payload) t, d)
  perform-Tracks c (control a b e f g) seen t d = (rw (send_control-replay c a b e f g) t, d)
  perform-Tracks c (control_once a b e f g n) seen t d =
      (rw (send_control_once-replay c a b e f g n) t, d)

  received-distinct :
      (c : V5Connection S P) (calls : List Call) (seen : List ℕ)
      → Tracks (replay_of c) seen
      → distinct seen ≡ true
      → distinct (received c calls seen) ≡ true
  unfolding received
  received-distinct c [] seen t d = d
  received-distinct c (call ∷ calls) seen t d =
      let next = perform-Tracks c call seen t d in
      received-distinct (perform c call) calls (numbers c call seen) next.0 next.1

  -- Whatever arrives on the socket of a connection with a new cipher, and whatever calls of its
  -- methods receive and send records in between, no two records that are received have the same
  -- packet number.
  pub received_once :
      (c : V5Connection S P) (send_key receive_key : List ℕ) (connection_id : ℕ) (calls : List Call)
      → c.cipher ≡ from_keys send_key receive_key connection_id
      → distinct (received c calls []) ≡ true
  unfolding distinct
  received_once c send_key receive_key connection_id calls fresh =
      received-distinct c calls []
        (subst (λ (x : RecordCipher). Tracks x.replay []) (sym fresh)
          (from_keys-Tracks send_key receive_key connection_id))
        refl
