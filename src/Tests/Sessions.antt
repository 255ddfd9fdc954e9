-- ===== src/Tests/Sessions.antt =====
-- The frame-rate tracker, the session, the dashboard and the connection handler.
use counter_cruiser.Prelude.{
  ℕ, ◌+◌, ◌-◌, ◌≤◌, ◌<◌, ◌≡◌, refl, true, false, none, some, List, [], ◌∷◌, length, leb, String, ℤ,
  zero, suc, negsuc, pos, Result, ok, err, value_error, type_error, connection_closed, os_error,
  Exception, All, Exists, ◌↔◌, ◌≢◌, arith, if◌then◌else◌,
}
use counter_cruiser.Client.Fps
use counter_cruiser.Client.Fps.{tick, rate, frames_per}
use counter_cruiser.Client.Fps.Window.{tick_all, tick_all_window}
use counter_cruiser.Transport
use counter_cruiser.Transport.{get_frame}
use counter_cruiser.Transport.Run
use counter_cruiser.Transport.Run.{Attempt, is_caught}
use counter_cruiser.Transport.Reconnect.{
  IsRetried, Raises, EndsReleased, WaitsDisconnected, run_lem,
}
use counter_cruiser.Transport.Buffer.{Live, Step, steps, get_frame_window}
use counter_cruiser.Transport.Numbered.{at}
use counter_cruiser.Dashboard.{DashboardState, AlertHistoryEntry, get_alerts, get_stats}
use counter_cruiser.Dashboard
use counter_cruiser.Dashboard.History.{Write, apply_all, readers_see}
use counter_cruiser.Protocol.{AnyMessage, FrameMessage, frame, ping, make_pong}
use counter_cruiser.Zone.{BoundingBox}
use counter_cruiser.Server.{Env, answer, error_reply, on_exception, handle_one, handle_connection}
use counter_cruiser.Server.Replies.{joined, Answered, every_message-Answered}
use counter_cruiser.Tests.Fixtures.{box}

tick_all_window_example :
    let f = tick 9 (tick_all (1 ∷ 4 ∷ 6 ∷ []) (Fps.init 5)) in
    (f.timestamps ≡ 4 ∷ 6 ∷ 9 ∷ [])
    × ((n span : ℕ) → rate f.timestamps ≡ frames_per n span → (0 < n) × (0 < span) × (span ≤ 5))
tick_all_window_example = tick_all_window 5 9 (1 ∷ 4 ∷ 6 ∷ []) (ground arith)

abbrev encode : String → ℕ → Result String
encode image id = ok image

-- Every second frame is sent, and two are kept.
abbrev session_steps : List (Step String)
session_steps =
    Step.round (some "a") 1
    ∷ Step.round (some "b") 2
    ∷ Step.round none 3
    ∷ Step.round (some "c") 4
    ∷ Step.detection 1 5
    ∷ Step.round (some "d") 6
    ∷ Step.reconnect
    ∷ []

abbrev new_live : Live String
new_live = record { count = 0; session = Transport.init 2 2; past = [] }

get_frame_window_example :
    let l = steps encode session_steps new_live in
    let n = length l.past in
    (l.session.frame_id ≡ n)
    × (length l.session.frame_buffer ≤ 2)
    × ((i : ℕ) → get_frame i l.session ≡ (if leb (1 + (n - 2)) i then at 1 l.past i else none))
get_frame_window_example = get_frame_window encode 2 2 session_steps

abbrev entry : ℤ → AlertHistoryEntry ℕ
entry frame_id = record { time = 0; triggered_zones = "counter" ∷ []; frame_id = frame_id }

abbrev writes : List (Write String ℤ ℕ)
writes =
    Write.alert (entry (pos 1))
    ∷ Write.stats (pos 10) (pos 20) true
    ∷ Write.alert (entry (pos 2))
    ∷ Write.connected false
    ∷ Write.alert (entry (pos 3))
    ∷ []

readers_see_example :
    let s : DashboardState String ℤ ℕ = apply_all (λ f. f) writes (Dashboard.init (pos 0) 2) in
    (get_alerts s ≡ entry (pos 3) ∷ entry (pos 2) ∷ [])
    × (length (get_alerts s) ≤ 2)
    × (get_stats s ≡ record { fps = pos 10; latency_ms = pos 20; server_connected = false })
readers_see_example = readers_see (λ f. f) (pos 0) 2 writes

abbrev frame_of : ℤ → FrameMessage ℕ
frame_of id = record {
  frame_id = id;
  image_data = "data";
  width = pos 640;
  height = pos 480;
  timestamp = 0;
}

-- A raw message is a ping, a frame by its id, or no JSON; the image of frame 0 is one that the model
-- fails on.
data Raw : Type 0 where
  raw_ping raw_garbage : Raw
  raw_frame : ℤ → Raw

abbrev parse : Raw → Result (AnyMessage ℤ ℕ)
parse raw_ping = ok (ping (record { timestamp = 3 }))
parse raw_garbage = err value_error
parse (raw_frame id) = ok (frame (frame_of id))

abbrev find_dogs : ℤ → Result (List (BoundingBox ℤ))
find_dogs (pos zero) = err type_error
find_dogs (pos (suc n)) = ok (box ∷ [])
find_dogs (negsuc n) = ok []

abbrev environment : Env
environment = record {
  Raw = Raw;
  Float = ℤ;
  Time = ℕ;
  Image = ℤ;
  deserialize = parse;
  decode = λ m. ok (m.frame_id, m.frame_id);
  detect = λ image. find_dogs image;
  elapsed_ms = λ m. pos 12;
  show = λ e. "failed";
  now = 8;
}

abbrev raws : List Raw
raws = raw_garbage ∷ raw_ping ∷ raw_frame (pos 0) ∷ raw_frame (pos 4) ∷ []

raws_handled : (handle_connection environment raws []).0 ≡ ok tt
unfolding handle_connection handle_one on_exception answer error_reply make_pong
raws_handled = refl

parse_open : (raw : Raw) → parse raw ≢ err connection_closed
parse_open raw_ping h = cc
parse_open raw_garbage h = cc
parse_open (raw_frame id) h = cc

find_dogs_open : (image : ℤ) → find_dogs image ≢ err connection_closed
find_dogs_open (pos zero) h = cc
find_dogs_open (pos (suc n)) h = cc
find_dogs_open (negsuc n) h = cc

every_message-Answered_example :
    (outs : List (List (AnyMessage ℤ ℕ))) × (handle_connection environment raws []
      ≡ (ok tt, joined environment outs))
    × Answered environment raws outs
every_message-Answered_example =
    every_message-Answered environment parse_open (λ m h. cc) find_dogs_open raws

-- Refused, then made and dropped; then a message that cannot be read.
abbrev attempts : List Attempt
attempts =
    Attempt.refused os_error false false
    ∷ Attempt.dropped connection_closed false false
    ∷ Attempt.dropped value_error false false
    ∷ []

run-attempts : (Run.run (ok tt) true attempts).0 ≡ some (err value_error)
unfolding Run.run
run-attempts = refl

run_lem_example :
    let r = Run.run (ok tt) true attempts in
    ((r.0 ≡ none) ↔ All IsRetried attempts)
    × ((e : Exception) → r.0 ≡ some (err e) → (is_caught e ≡ false) × Exists (Raises e) attempts)
    × (r.0 ≢ none → EndsReleased r.1)
    × WaitsDisconnected false r.1
run_lem_example = run_lem attempts
