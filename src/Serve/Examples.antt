-- ===== src/Serve/Examples.antt =====
-- Tests of a session in which the phone stays silent until the host is stopped.
use holodori_phone_trackpad.Prelude.{ℕ, ◌+◌, ◌≡◌, refl, Bool, true, false, none, List, [], ◌∷◌, ok}
use holodori_phone_trackpad.Protocol.{Float32}
use holodori_phone_trackpad.Ordered.{new}
use holodori_phone_trackpad.Input.{InputSink, Patience, Live, service_deferred, retry}
use holodori_phone_trackpad.Prelude.Actions.{pure, ◌>>=◌}
use holodori_phone_trackpad.Serve.{
  HostLink, Serving, Round, rounds, round, arriving, check_interface, check_start, repeat_hello,
  watch_active, watch_idle, serve_deferred, adjust_timeout, receive_next, note_discard, take_record,
  linked,
}
use holodori_phone_trackpad.Serve.Session.{Start, Ending, opening, serve_gameplay}
use holodori_phone_trackpad.Serve.Watched.{AllWatched, rounds-Watched}
use holodori_phone_trackpad.Serve.Ended.{Over, serve_gameplay-Over}

-- The messages that were sent, by number.
abbrev link : HostLink (List ℕ) ℕ
link = record {
  control = record {
    send_control = λ sent session number window lanes. (2 ∷ sent, ok tt);
    send_control_once = λ sent session number window lanes. (2 ∷ sent, ok tt);
  };
  monitor_interface = λ sent. (sent, ok tt);
  changed = λ sent. (sent, false);
  set_read_timeout = λ timeout sent. (sent, ok tt);
  send_hello = λ lanes sent. (1 ∷ sent, ok tt);
  send_hello_once = λ lanes sent. (1 ∷ sent, ok tt);
  send_pong = λ session number lanes sent. (8 ∷ sent, ok tt);
  send_end = λ session reason sent. (7 ∷ sent, ok tt);
  receive_record = λ sent. (sent, (none, ok none));
  peer_aborted = λ sent. false;
  set_peer_aborted = λ sent. sent;
}

-- The number of keys that are held.
abbrev keys : InputSink ℕ ℕ
keys = record {
  accept = λ held frame. (held + 1, ok tt);
  has_active_input = λ held. false;
  cancel_all = λ held. (0, ok tt);
  service = λ held. (held, ok tt);
  next_deadline = λ held. none;
}

abbrev at_once : Patience
at_once = record { failures = 0; stopped = false; started = 0; ended = 0 }

-- A round at a time.
abbrev at : ℕ → Bool → Round
at now stopping = record {
  stopping = stopping;
  start_checked = now;
  hello_checked = now;
  hello_sent = now;
  active_checked = now;
  idle_checked = now;
  noted = now;
  service = at_once;
  timeout_checked = now;
  times = record {
    arrival = now;
    received = now;
    committed = now;
    ack_started = now;
    ack_ended = now;
  };
  patience = λ n. at_once;
}

abbrev live : Live ℕ ℕ
live = record {
  ordered = new;
  keyboard = 3;
  metrics = record { recorder = none; parser_counters = (0, 0, 0) };
}

abbrev float : Float32 ℕ
float = record { of_int = λ n. 0; div = λ a b. a; mul = λ a b. a; clamp01 = λ a. a; floor = λ a. a }

abbrev start : Start
start = record { idle_from = 0; committed_from = 0; started = 0; hello_sent = 0 }

abbrev ending : Ending
ending = record { stopping = true; still_stopping = true; noted = 0; cancelling = at_once }

abbrev silent : List Round
silent = at 1000000 false ∷ at 3000000 false ∷ at 4000000 true ∷ []

abbrev begun : Serving ℕ ℕ (List ℕ)
begun = opening float keys link [] live 4 start

-- The second round is late enough for the hello to be repeated.
silent_test : (rounds float keys link silent begun).1 ≡ ok true
unfolding rounds round arriving check_interface check_start repeat_hello watch_active watch_idle
    serve_deferred adjust_timeout receive_next note_discard take_record linked pure ◌>>=◌
    service_deferred retry new
silent_test = refl

sent_test : (rounds float keys link silent begun).0.game.link ≡ 1 ∷ []
unfolding rounds round arriving check_interface check_start repeat_hello watch_active watch_idle
    serve_deferred adjust_timeout receive_next note_discard take_record linked pure ◌>>=◌
    service_deferred retry new
sent_test = refl

cancelled : (k : ℕ) → (keys.cancel_all k).1 ≡ ok tt → (keys.cancel_all k).0 ≡ 0
cancelled k h = refl

-- The loop begins at the time 0.
abbrev Begins : ℕ → Type 0
Begins t = t ≡ 0

abbrev NoPings : ℕ → Type 0
NoPings p = ⊥

rounds-Watched_example : AllWatched float keys link Begins Begins NoPings silent begun
rounds-Watched_example =
    rounds-Watched float keys link Begins Begins NoPings silent begun true refl refl
      (λ p none_before. absurd none_before) silent_test

serve_gameplay-Over_example :
    Over keys
      (λ held. held ≡ 0)
      cancelled
      (serve_gameplay float keys link [] live 4 start silent ending)
serve_gameplay-Over_example =
    serve_gameplay-Over keys (λ held. held ≡ 0) cancelled float link [] live 4 start silent ending
