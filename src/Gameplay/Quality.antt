-- ===== src/Gameplay/Quality.antt =====
-- `QualityStats` of native-host/src/v5_host.rs: what the replies to the probes of a pairing tell of
-- the link. A set is the list of its members; its summary is text, and is not here.
pub mod Observed
use holodori_phone_trackpad.Prelude.{
  ℕ, zero, suc, ◌+◌, ◌-◌, ◌/◌, ◌≤◌, ◌≡◌, refl, arith, Bool, true, false, ◌||◌, ◌&&◌, ◌==◌, not, ltb,
  leb, if◌then◌else◌, Option, some, none, is_some, List, [], ◌∷◌, ◌++◌, length, length-append,
  contains, distinct, Bool-cases, inl, inr,
}
use holodori_phone_trackpad.Prelude.Int.{ℤ, pos, negsuc}
use holodori_phone_trackpad.V5.Quality.{QualityReply}

pub record QualityStats : Type 0 where
  pub sent : List ℕ
  pub received : List ℕ
  pub delays_micros : List ℕ
  pub jitter_micros : List ℕ
  pub repair_completion_micros : List ℕ
  pub duplicates : ℕ
  pub invalid_timing : ℕ
  pub reordered : ℕ
  pub highest_probe_id : Option ℕ
  pub last_delay_micros : Option ℕ
  pub signal_level : Option ℤ
  pub rssi : Option ℤ
  pub frequency : Option ℕ

abbrev pub abs_diff : ℕ → ℕ → ℕ
abs_diff a b = (a - b) + (b - a)

abbrev pub is_negative : ℤ → Bool
is_negative (pos n) = false
is_negative (negsuc n) = true

-- `i16::MIN`.
abbrev pub is_unknown_rssi : ℤ → Bool
is_unknown_rssi (pos n) = false
is_unknown_rssi (negsuc n) = n == 32767

-- The order in which the replies come.
unfoldable pub ordered : QualityStats → ℕ → QualityStats
ordered q probe_id = elim q.highest_probe_id [
  | none ↦ record q { highest_probe_id = some probe_id }
  | some highest ↦
      if ltb probe_id highest
      then record q { reordered = q.reordered + 1 }
      else record q { highest_probe_id = some probe_id }
]

unfoldable pub delayed : QualityStats → QualityReply → ℕ → ℕ → QualityStats
delayed q reply completion micros =
    if ltb (length q.delays_micros) 512
    then record q {
      jitter_micros = elim q.last_delay_micros [
        | none ↦ q.jitter_micros
        | some previous ↦ q.jitter_micros ++ (abs_diff previous micros ∷ [])
      ];
      last_delay_micros = some micros;
      delays_micros = q.delays_micros ++ (micros ∷ []);
      repair_completion_micros =
          if reply.repair_only
          then q.repair_completion_micros ++ (completion / 1000 ∷ [])
          else q.repair_completion_micros;
    }
    else q

-- What the reply tells of the phone's radio.
unfoldable pub radio : QualityStats → QualityReply → QualityStats
radio q reply = record q {
  signal_level = if is_negative reply.signal_level then q.signal_level else some reply.signal_level;
  rssi = if is_unknown_rssi reply.rssi_dbm then q.rssi else some reply.rssi_dbm;
  frequency = if reply.frequency_mhz == 0 then q.frequency else some reply.frequency_mhz;
}

unfoldable pub timed : QualityStats → QualityReply → ℕ → QualityStats
timed q reply received_nanos =
    let invalid : QualityStats = record q { invalid_timing = q.invalid_timing + 1 } in
    let turnaround = reply.phone_send_nanos - reply.phone_receive_nanos in
    let completion = received_nanos - reply.host_send_nanos in
    if ltb reply.phone_send_nanos reply.phone_receive_nanos
      || ltb received_nanos reply.host_send_nanos
    then invalid
    else if ltb completion turnaround
    then invalid
    else radio (delayed q reply completion ((completion - turnaround) / 1000)) reply

unfoldable pub observe : QualityStats → QualityReply → ℕ → QualityStats
observe q reply received_nanos =
    let fresh : QualityStats = record q { received = reply.probe_id ∷ q.received } in
    if not (contains q.sent reply.probe_id)
    then q
    else if contains q.received reply.probe_id
    then record q { duplicates = q.duplicates + 1 }
    else timed (ordered fresh reply.probe_id) reply received_nanos

unfoldable pub wifi_band : ℕ → Option ℕ
wifi_band frequency =
    if leb 2400 frequency && leb frequency 2500
    then some 2
    else if leb 4900 frequency && leb frequency 5900
    then some 5
    else if leb 5925 frequency && leb frequency 7125
    then some 6
    else none
