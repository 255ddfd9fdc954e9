-- ===== src/Tests/Connected.antt =====
-- One connection of the session, and whole runs of it.
use mathlib.Core.Option
use counter_cruiser.Prelude.{
  ℕ, ◌+◌, ◌*◌, ◌≡◌, ◌≢◌, refl, Bool, true, false, some, none, List, [], ◌∷◌, String, pos, Result,
  ok, err, os_error, connection_closed, value_error, arith,
}
use counter_cruiser.Camera.{Opening, OpenCvCapture, open_capture, read, release}
use counter_cruiser.Camera.Held.{Legal, held_after}
use counter_cruiser.Transport
use counter_cruiser.Transport.{Session, send_round, retain, connect, stop, receive}
use counter_cruiser.Transport.Buffer.{Live, Step, steps}
use counter_cruiser.Transport.Latency.{since, sent_at, notes, receive_lem}
use counter_cruiser.Transport.Numbered.{at}
use counter_cruiser.Transport.Run
use counter_cruiser.Connection.{
  Turn, gathered, Connection, Receiving, Attempt, Life, CameraConfig, begin, goes, take_turn,
  take_turns, run_connection, attempt, run_loop, opened, run,
}
use counter_cruiser.Connection.Wire.{frames_read}
use counter_cruiser.Connection.Sent.{begin-sent}
use counter_cruiser.Connection.Outline.{outlines}
use counter_cruiser.Connection.Refined.{size_asked, started, run-outlines}
use counter_cruiser.Connection.Released.{left_open, run-Released}

abbrev Message : Type 0
Message = String × ℕ

abbrev encode : String → ℕ → Result Message
encode image id = ok (image, id)

-- The client notes the moments at which messages come; a request adds a number.
abbrev records : Receiving String ℕ String ℕ (List ℕ)
records = record {
  body = λ now raw s c. (ok tt, s, now ∷ c);
  only_pending = λ now raw s c. refl;
  handle = λ q c. q ∷ c;
}

abbrev two_sent : List (Turn String ℕ String ℕ)
two_sent =
    Turn.sender_goes (true, some "a") 1
    ∷ Turn.message 2 "late answer"
    ∷ Turn.sender_goes (false, none) 3
    ∷ Turn.sender_goes (true, some "b") 4
    ∷ Turn.sender_goes (true, some "lost turn") 5
    ∷ Turn.sender_awaited (ok tt)
    ∷ Turn.sender_goes (true, some "c") 6
    ∷ Turn.requested 7
    ∷ Turn.sender_goes (true, some "d") 8
    ∷ []

abbrev held : OpenCvCapture
held = record { cap = some (pos 0) }

abbrev session : Session String
session = record (Transport.init 2 2) { frame_id = 10 }

abbrev fresh : Connection String Message (List ℕ)
fresh = begin held [] session []

wire_runs : (take_turns encode records two_sent fresh).wire ≡ ("b", 11) ∷ ("d", 12) ∷ []
unfolding take_turns take_turn goes send_round retain read begin connect Transport.init
wire_runs = refl

begin-sent_example :
    at 1 (take_turns encode records two_sent fresh).wire 2
    ≡ Option.map
        (λ image. (image, 10 + 2))
        (at 1 (frames_read encode records two_sent fresh) (2 * 2))
unfolding Transport.init
begin-sent_example =
    begin-sent encode records (λ image id. (image, id)) (λ image id. refl) held [] session []
      two_sent 2 (ground arith)

abbrev camera_config : CameraConfig
camera_config = record { camera_index = pos 0; frame_width = pos 640; frame_height = pos 480 }

abbrev opens : Opening
opens = record { is_opened = true; width = ok (pos 640); height = ok (pos 360) }

-- Refused, then dropped while a frame is sent, then stopped by a signal.
abbrev attempts : List (Attempt String ℕ String ℕ)
attempts =
    Attempt.refused os_error false false
    ∷ Attempt.made
        (Turn.sender_goes (true, some "a") 1
          ∷ Turn.message 2 "answer"
          ∷ Turn.sender_goes (true, some "b") 2
          ∷ Turn.sender_awaited (err connection_closed)
          ∷ [])
        (ok tt) false false
    ∷ Attempt.made
        (Turn.signal
          ∷ Turn.sender_goes (true, some "unread") 9
          ∷ Turn.sender_awaited (ok tt)
          ∷ Turn.messages_end (ok tt)
          ∷ [])
        (ok tt) false false
    ∷ []

abbrev before : Life String (List ℕ)
before = record {
  camera = record { cap = none };
  device_calls = [];
  session = record {
    running = true;
    pending = [];
    frame_id = 0;
    frame_buffer = [];
    frame_buffer_capacity = 2;
    frame_skip = 2;
  };
  frame_height = pos 480;
  client = [];
  calls = [];
}

abbrev count_changes : Bool → List ℕ → List ℕ
count_changes connected c = c

abbrev whole : Option.Option (Result (Unit {0})) × Life String (List ℕ)
whole = run encode (λ height. records) count_changes camera_config opens attempts before

run_ends : whole.0 ≡ some (ok tt)
unfolding run run_loop attempt run_connection take_turns take_turn goes send_round retain read
    release open_capture begin connect stop
run_ends = refl

run-outlines_example :
    let camera = open_capture opens (pos 0) (pos 640) (pos 480) before.camera in
    Run.run (size_asked camera.0) true (
      outlines encode
        (λ height. records)
        count_changes
        attempts
        (started camera.0 (opened camera before)))
    ≡ (some (ok tt), whole.1.calls)
run-outlines_example =
    run-outlines encode (λ height. records) count_changes camera_config opens attempts before
      (ok tt) refl run_ends

-- The camera is opened, and its width is no number.
abbrev no_width : Opening
no_width = record { is_opened = true; width = err value_error; height = ok (pos 360) }

run-Released_example :
    let size = (open_capture no_width (pos 0) (pos 640) (pos 480) before.camera).0 in
    let r = run encode (λ height. records) count_changes camera_config no_width attempts before in
    Legal false r.1.device_calls
    × (r.0 ≢ none → held_after false r.1.device_calls ≡ left_open size no_width)
run-Released_example =
    run-Released encode (λ height. records) count_changes camera_config no_width attempts before
      refl refl

-- The second frame is under way when `stop` is called.
abbrev under_way : List (Turn String ℕ String ℕ)
under_way =
    Turn.sender_goes (true, some "a") 1
    ∷ Turn.message 2 "answer"
    ∷ Turn.sender_goes (true, some "b") 3
    ∷ []

abbrev stopping : List (Turn String ℕ String ℕ)
stopping =
    Turn.sender_awaited (ok tt)
    ∷ Turn.sender_goes (true, some "unread") 9
    ∷ Turn.sender_awaited (ok tt)
    ∷ Turn.messages_end (ok tt)
    ∷ []

abbrev busy : Connection String Message (List ℕ)
busy = take_turns encode records under_way fresh

abbrev stopped : Connection String Message (List ℕ)
stopped = take_turn encode records Turn.signal busy

stopping_ends :
    let c' = take_turns encode records stopping stopped in
    gathered c'.failed c'.sender c'.receiver ≡ some (ok tt)
unfolding take_turns take_turn goes send_round retain read begin connect stop Transport.init
stopping_ends = refl

abbrev images : String → ℕ → Result String
images image id = ok image

abbrev session_steps : List (Step String)
session_steps =
    Step.round (some "a") 1
    ∷ Step.round (some "b") 2
    ∷ Step.detection 1 5
    ∷ Step.round (some "c") 6
    ∷ []

abbrev new_live : Live String
new_live = record { count = 0; session = Transport.init 2 1; past = [] }

receive_lem_example :
    (receive 3 9 (steps images session_steps new_live).session).0
    ≡ since 9 (sent_at 3 (notes images session_steps new_live []))
receive_lem_example = receive_lem images 2 1 session_steps 3 9
