-- ===== src/Transport/Buffer.antt =====
-- Which frames `get_frame` still has, after any steps of the session.
use counter_cruiser.Prelude.{
  ℕ, suc, ◌+◌, ◌-◌, ◌≤◌, ◌≡◌, refl, Option, none, some, List, [], ◌∷◌, ◌++◌, append-nil, length,
  length-append, length-drop, drop, leb, ◌==◌, ◌%◌, arith, Bool-cases, inl, inr, if◌then◌else◌,
  Result, ok, err,
}
use counter_cruiser.Transport.Defs.{
  put, Session, init, retain, note_sent, send_round, receive, get_frame, connect, stop,
}
use counter_cruiser.Transport.Numbered.{
  numbered, at, put-numbered, length-numbered, get-numbered, slide, at-drop,
}

-- A session with the local variable of its send loop, and the frames retained so far: the frame
-- with id `i` stands at place `i - 1`.
pub record Live (Frame : Type 0) : Type 0 where
  pub count : ℕ
  pub session : Session Frame
  pub past : List Frame

-- A round of the send loop, a detection received, a new connection, or `stop`. An exception of the
-- encoder ends a real run; the steps after it are then an addition that does no harm.
pub data Step (Frame : Type 0) : Type 0 where
  round : Option Frame → ℕ → Step Frame
  detection : ℕ → ℕ → Step Frame
  reconnect : Step Frame
  halt : Step Frame

-- The frame of a round, if it is not skipped.
abbrev pub retained : {Frame : Type 0} → Option Frame → ℕ → ℕ → List Frame
retained none count skip = []
retained (some frame) count skip = if (count + 1) % skip == 0 then frame ∷ [] else []

module _ {Frame Message : Type 0} (encode : Frame → ℕ → Result Message) where
  unfoldable pub step : Step Frame → Live Frame → Live Frame
  step (round frame now) l =
      let (result, count, session) = send_round encode frame now l.count l.session in
      record {
        count = count;
        session = session;
        past = l.past ++ retained frame l.count l.session.frame_skip;
      }
  step (detection frame_id now) l = record l { session = (receive frame_id now l.session).1 }
  step reconnect l = record l { count = 0; session = connect l.session }
  step halt l = record l { session = stop l.session }

  unfoldable pub steps : List (Step Frame) → Live Frame → Live Frame
  steps [] l = l
  steps (x ∷ xs) l = steps xs (step x l)

module _ {Frame Message : Type 0} (encode : Frame → ℕ → Result Message) (capacity : ℕ) where
  -- The buffer holds the last `capacity` retained frames, under their ids.
  record Tracks (past : List Frame) (s : Session Frame) : Type 0 where
    capacity_kept : s.frame_buffer_capacity ≡ capacity
    last_id : s.frame_id ≡ length past
    buffer :
        s.frame_buffer
        ≡ numbered (suc (length past - capacity)) (drop (length past - capacity) past)

  retain-Tracks :
      (frame : Frame) (past : List Frame) (s : Session Frame)
      → Tracks past s
      → Tracks (past ++ frame ∷ []) (retain frame s)
  unfolding retain
  retain-Tracks frame past s t =
      let n = length past in
      let k = n - capacity in
      let w = drop k past ++ frame ∷ [] in
      let added : put (s.frame_id + 1) frame s.frame_buffer ≡ numbered (suc k) w =
        rw (t.buffer, t.last_id)
          (put-numbered (suc k) (n + 1) (drop k past) frame (omega (arith, length-drop k past))) in
      record {
        capacity_kept = t.capacity_kept;
        last_id = omega (arith, t.last_id, length-append past (frame ∷ []));
        buffer = rw (added, t.capacity_kept, length-numbered (suc k) w) (slide capacity past frame);
      }

  note_sent-Tracks :
      (past : List Frame) (s : Session Frame) (message : Result Message) (now : ℕ)
      → Tracks past s
      → Tracks past (note_sent message now s)
  note_sent-Tracks past s (ok m) now t = record {
    capacity_kept = t.capacity_kept;
    last_id = t.last_id;
    buffer = t.buffer;
  }
  note_sent-Tracks past s (err e) now t = t

  round-Tracks :
      (frame : Option Frame) (now count : ℕ) (past : List Frame) (s : Session Frame)
      → Tracks past s
      → Tracks (past ++ retained frame count s.frame_skip) (send_round encode frame now count s).2
  unfolding send_round
  round-Tracks none now count past s t = rw append-nil t
  round-Tracks (some frame) now count past s t =
      elim (Bool-cases ((count + 1) % s.frame_skip == 0)) [
        | inl due ↦ rw due (
            note_sent-Tracks (past ++ frame ∷ []) (retain frame s)
              (encode frame (retain frame s).frame_id) now (retain-Tracks frame past s t))
        | inr skipped ↦ rw (skipped, append-nil) t
      ]

  step-Tracks :
      (x : Step Frame) (l : Live Frame)
      → Tracks l.past l.session
      → Tracks (step encode x l).past (step encode x l).session
  unfolding step receive connect stop
  step-Tracks (round frame now) l t = round-Tracks frame now l.count l.past l.session t
  step-Tracks (detection frame_id now) l t = record {
    capacity_kept = t.capacity_kept;
    last_id = t.last_id;
    buffer = t.buffer;
  }
  step-Tracks reconnect l t = record {
    capacity_kept = t.capacity_kept;
    last_id = t.last_id;
    buffer = t.buffer;
  }
  step-Tracks halt l t = record {
    capacity_kept = t.capacity_kept;
    last_id = t.last_id;
    buffer = t.buffer;
  }

  steps-Tracks :
      (xs : List (Step Frame)) (l : Live Frame)
      → Tracks l.past l.session
      → Tracks (steps encode xs l).past (steps encode xs l).session
  unfolding steps
  steps-Tracks [] l t = t
  steps-Tracks (x ∷ xs) l t = steps-Tracks xs (step encode x l) (step-Tracks x l t)

  -- After any interleaving of the two loops, reconnects and `stop`: the ids count the retained frames,
  -- the buffer holds at most `capacity` frames, and `get_frame` of an id gives the frame retained
  -- under it if the id is one of the last `capacity`, and `None` for every other id.
  pub get_frame_window :
      (skip : ℕ) (xs : List (Step Frame))
      → let l = steps encode xs (record { count = 0; session = init capacity skip; past = [] }) in
        let n = length l.past in
        (l.session.frame_id ≡ n)
        × (length l.session.frame_buffer ≤ capacity)
        × ((i : ℕ)
            → get_frame i l.session ≡ (if leb (1 + (n - capacity)) i then at 1 l.past i else none))
  unfolding get_frame init
  get_frame_window skip xs =
      let start : Live Frame = record { count = 0; session = init capacity skip; past = [] } in
      let l = steps encode xs start in
      let none_yet : 0 - capacity ≡ 0 = omega arith in
      let t : Tracks l.past l.session =
        steps-Tracks xs start
          (record { capacity_kept = refl; last_id = refl; buffer = rw none_yet }) in
      let k = length l.past - capacity in
      let same_start : suc k ≡ 1 + k = omega arith in
      (
        t.last_id,
        rw t.buffer (omega (arith, length-numbered (suc k) (drop k l.past), length-drop k l.past)),
        λ i.
            rw (t.buffer, get-numbered (suc k) i (drop k l.past))
              (rw same_start (at-drop 1 k i l.past (omega arith))),
      )
