-- ===== src/V5/Cipher/Nonces.antt =====
-- No nonce serves twice.
use holodori_phone_trackpad.Prelude.{
  ℕ, ◌+◌, ◌<◌, ◌^◌, ◌≡◌, ◌≢◌, refl, sym, ap, ◌∙◌, arith, not, ◌||◌, ltb, if◌then◌else◌, List, [],
  ◌∷◌, length, All, IsU64, Result, drop, Bool-cases, inl, inr,
}
use holodori_phone_trackpad.Wire.{le_bytes, from_le, copy_at}
use holodori_phone_trackpad.Wire.Numbers.{from_le-le_bytes}
use holodori_phone_trackpad.V5.{Direction, WireError}
use holodori_phone_trackpad.V5.Cipher.{Aead, RecordCipher, seal_into, sealed, noise_nonce}
use holodori_phone_trackpad.V5.Record.{RecordHeader}

-- The arguments of one call of `seal_into`.
pub record SealCall : Type 0 where
  pub direction : Direction
  pub message_type : ℕ
  pub session_id : ℕ
  pub logical_id : ℕ
  pub flags : ℕ
  pub payload : List ℕ
  pub output : List ℕ

nonce-number : (n : ℕ) → IsU64 n → from_le (drop 4 (noise_nonce n)) ≡ n
unfolding noise_nonce copy_at le_bytes
nonce-number n h = from_le-le_bytes 8 n h

-- Different packet numbers have different nonces.
pub noise_nonce-injective : (n m : ℕ) → IsU64 n → IsU64 m → noise_nonce n ≡ noise_nonce m → n ≡ m
noise_nonce-injective n m hn hm e =
    sym (nonce-number n hn) ∙ ap (λ (t : List ℕ). from_le (drop 4 t)) e ∙ nonce-number m hm

abbrev pub AllDifferent : List (List ℕ) → Type 0
AllDifferent [] = Unit {0}
AllDifferent (x ∷ xs) = All (λ y. x ≢ y) xs × AllDifferent xs

module _ (aead : Aead) where
  pub call : RecordCipher → SealCall → RecordCipher
  call c s =
      (seal_into aead c s.direction s.message_type s.session_id s.logical_id s.flags s.payload
        s.output).0

  -- The nonces under which a run of calls encrypts: one for each call that gets past the checks of
  -- the packet number and of the lengths, whether or not the encryption succeeds.
  unfoldable pub nonces : RecordCipher → List SealCall → List (List ℕ)
  nonces c [] = []
  nonces c (s ∷ calls) =
      let total = 48 + length s.payload + 16 in
      let rest = nonces (call c s) calls in
      if not (ltb (c.next_packet_number + 1) (2 ^ 64))
        || (ltb 1200 total || ltb (length s.output) total)
      then rest
      else noise_nonce c.next_packet_number ∷ rest

  -- A call takes the next packet number, or there is none left.
  next-call :
      (c : RecordCipher) (s : SealCall)
      → (call c s).next_packet_number ≡ (
          if ltb (c.next_packet_number + 1) (2 ^ 64)
          then c.next_packet_number + 1
          else c.next_packet_number)
  unfolding call seal_into
  next-call c s = ground arith

  later_nonces :
      (c : RecordCipher) (calls : List SealCall) (n : ℕ)
      → n < c.next_packet_number
      → IsU64 c.next_packet_number
      → All (λ y. noise_nonce n ≢ y) (nonces c calls)
  unfolding nonces
  later_nonces c [] n h u = tt
  later_nonces c (s ∷ calls) n h u = ground (
    arith,
    later_nonces (call c s) calls n,
    next-call c s,
    noise_nonce-injective n c.next_packet_number,
  )

  -- The two agree on what they encrypt under the nonces.
  abbrev pub AgreeAt : Aead → List (List ℕ) → Type 0
  AgreeAt other = All λ nonce.
      (key data' plain : List ℕ)
      → aead.encrypt key nonce data' plain ≡ other.encrypt key nonce data' plain

  -- Each call encrypts under its own nonce only: whatever another encryption does under all other
  -- nonces, the call comes to the same.
  abbrev pub Encrypts : RecordCipher → List SealCall → Type 0
  Encrypts c [] = Unit {0}
  Encrypts c (s ∷ calls) =
      ((other : Aead)
        → AgreeAt other (nonces c (s ∷ []))
        → seal_into aead c s.direction s.message_type s.session_id s.logical_id s.flags s.payload
            s.output
          ≡ seal_into other c s.direction s.message_type s.session_id s.logical_id s.flags s.payload
              s.output)
      × Encrypts (call c s) calls

  sealed-AgreeAt :
      (other : Aead) (c : RecordCipher) (header : RecordHeader) (payload output : List ℕ)
      → ((key data' plain : List ℕ)
          → aead.encrypt key (noise_nonce header.packet_number) data' plain
            ≡ other.encrypt key (noise_nonce header.packet_number) data' plain)
      → sealed aead c header payload output ≡ sealed other c header payload output
  unfolding sealed
  sealed-AgreeAt other c header payload output same = rw (sealed, same _ _ _) refl

  call-AgreeAt :
      (other : Aead) (c : RecordCipher) (s : SealCall)
      → AgreeAt other (nonces c (s ∷ []))
      → seal_into aead c s.direction s.message_type s.session_id s.logical_id s.flags s.payload
          s.output
        ≡ seal_into other c s.direction s.message_type s.session_id s.logical_id s.flags s.payload
            s.output
  unfolding seal_into nonces
  call-AgreeAt other c s agree = elim (Bool-cases (not (ltb (c.next_packet_number + 1) (2 ^ 64)))) [
    | inl exhausted ↦ rw (seal_into, exhausted) refl
    | inr numbered ↦
        let total = 48 + length s.payload + 16 in
        elim (Bool-cases (ltb 1200 total || ltb (length s.output) total)) [
          | inl long ↦ rw (seal_into, numbered, long) refl
          | inr fits ↦
              let same = rw (nonces, numbered, fits) at agree in
              rw (seal_into, numbered, fits)
                (ap
                  (λ (x : List ℕ × Result WireError ℕ).
                    (record c { next_packet_number = c.next_packet_number + 1 }, x.0, x.1))
                  (sealed-AgreeAt other c _ s.payload s.output same.0))
        ]
  ]

  nonces-Encrypts : (c : RecordCipher) (calls : List SealCall) → Encrypts c calls
  nonces-Encrypts c [] = tt
  nonces-Encrypts c (s ∷ calls) =
      ((λ other agree. call-AgreeAt other c s agree), nonces-Encrypts (call c s) calls)

  distinct_nonces :
      (c : RecordCipher) (calls : List SealCall)
      → IsU64 c.next_packet_number
      → AllDifferent (nonces c calls)
  unfolding nonces
  distinct_nonces c [] u = tt
  distinct_nonces c (s ∷ calls) u = ground (
    arith,
    distinct_nonces (call c s) calls,
    later_nonces (call c s) calls c.next_packet_number,
    next-call c s,
  )

  -- Over any run of calls on one cipher whose next packet number is of 64 bits, failing calls
  -- included, no two encryptions share a nonce: what a call comes to depends on the encryption under
  -- its own nonce only, of which a call that is refused has none, and these are all different.
  pub nonces-AllDifferent :
      (c : RecordCipher) (calls : List SealCall)
      → IsU64 c.next_packet_number
      → AllDifferent (nonces c calls) × Encrypts c calls
  nonces-AllDifferent c calls u = (distinct_nonces c calls u, nonces-Encrypts c calls)
