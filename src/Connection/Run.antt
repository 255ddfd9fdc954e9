-- ===== src/Connection/Run.antt =====
-- `ClientSession.run` over the whole state: the camera, the session, the client behind the two
-- callbacks. The loop may go on for ever, so a run is given the attempts up to some moment.
use counter_cruiser.Prelude.{
  Bool, true, false, Option, none, some, List, [], ◌∷◌, ◌++◌, ℤ, ℕ, Result, ok, err, Exception,
  if◌then◌else◌,
}
use counter_cruiser.Camera.{OpenCvCapture, DeviceCall, Opening, open_capture, release}
use counter_cruiser.Transport.{Session, stop}
use counter_cruiser.Transport.Run.{
  Call, open_camera, release_camera, wait, connection_change, is_caught,
}
use counter_cruiser.Connection.Defs.{Turn, Connection, Receiving, begin, run_connection}

-- A connection is refused; or made, with the turns of its tasks, and how the `close` at the end of
-- `async with` ends. The flags say that `stop` is called by the end of the attempt, and in the wait after.
pub data Attempt (Frame Now Raw Request : Type 0) : Type 0 where
  refused : Exception → Bool → Bool → Attempt Frame Now Raw Request
  made :
      List (Turn Frame Now Raw Request)
      → Result (Unit {0})
      → Bool
      → Bool
      → Attempt Frame Now Raw Request

-- `calls` are the calls of `run` itself.
pub record Life (Frame Client : Type 0) : Type 0 where
  pub camera : OpenCvCapture
  pub device_calls : List DeviceCall
  pub session : Session Frame
  pub frame_height : ℤ
  pub client : Client
  pub calls : List Call

-- The settings that `run` reads.
pub record CameraConfig : Type 0 where
  pub camera_index : ℤ
  pub frame_width : ℤ
  pub frame_height : ℤ

-- An attempt goes on still, or the loop comes back to its head, or it is over.
pub data Progress : Type 0 where
  open_still again : Progress
  over : Result (Unit {0}) → Progress

-- `async with`: what the `close` raises replaces what the body raised.
abbrev pub left : Result (Unit {0}) → Result (Unit {0}) → Result (Unit {0})
left body (err e) = err e
left body (ok u) = body

module _ {Frame Client : Type 0} where
  abbrev pub signalled : Bool → Life Frame Client → Life Frame Client
  signalled b y = if b then record y { session = stop y.session } else y

  -- The state when an attempt has made a connection and its tasks have run.
  abbrev pub after_turns :
      {Message : Type 0} → Connection Frame Message Client → Life Frame Client → Life Frame Client
  after_turns c y = record y {
    camera = c.camera;
    device_calls = c.device_calls;
    session = c.session;
    client = c.client;
  }

  abbrev pub go_on :
      (Life Frame Client → Option (Result (Unit {0})) × Life Frame Client)
      → Progress × Life Frame Client
      → Option (Result (Unit {0})) × Life Frame Client
  go_on rest (open_still, y) = (none, y)
  go_on rest (again, y) = rest y
  go_on rest (over result, y) = (some result, y)

  -- The `finally` clause.
  abbrev pub finally_release :
      Option (Result (Unit {0})) × Life Frame Client
      → Option (Result (Unit {0})) × Life Frame Client
  finally_release (none, y) = (none, y)
  finally_release (some result, y) = (
    some result,
    record y {
      camera = (release y.camera).0;
      device_calls = y.device_calls ++ (release y.camera).1;
      calls = y.calls ++ release_camera ∷ [];
    },
  )

  -- The state once the camera was asked to open.
  abbrev pub opened :
      Result (ℤ × ℤ) × OpenCvCapture × List DeviceCall → Life Frame Client → Life Frame Client
  opened (size, camera, calls) y = record y {
    camera = camera;
    device_calls = y.device_calls ++ calls;
    calls = y.calls ++ open_camera ∷ [];
  }

module _ {Frame Now Raw Request Message Client : Type 0} (encode : Frame → ℕ → Result Message)
    (receiving_at : ℤ → Receiving Frame Now Raw Request Client)
    (on_connection_change : Bool → Client → Client) where
  abbrev pub tell : Bool → Life Frame Client → Life Frame Client
  tell connected y = record y {
    client = on_connection_change connected y.client;
    calls = y.calls ++ connection_change connected ∷ [];
  }

  abbrev retry : Bool → Life Frame Client → Progress × Life Frame Client
  retry stopped_waiting y =
      if y.session.running
      then (again, signalled stopped_waiting (record y { calls = y.calls ++ wait ∷ [] }))
      else (over (ok tt), y)

  -- The `except` clause.
  abbrev pub recover : Exception → Bool → Bool → Life Frame Client → Progress × Life Frame Client
  recover e stopped stopped_waiting y =
      if is_caught e
      then retry stopped_waiting (signalled stopped (tell false y))
      else (over (err e), y)

  abbrev pub left_with :
      Option (Result (Unit {0}))
      → Result (Unit {0})
      → Bool
      → Bool
      → Life Frame Client
      → Progress × Life Frame Client
  left_with none closing stopped stopped_waiting y = (open_still, y)
  left_with (some body) closing stopped stopped_waiting y = elim (left body closing) [
    | ok u ↦ (again, signalled stopped y)
    | err e ↦ recover e stopped stopped_waiting y
  ]

  -- The connection of an attempt that is made.
  abbrev pub connected :
      List (Turn Frame Now Raw Request)
      → Life Frame Client
      → Option (Result (Unit {0})) × Connection Frame Message Client
  connected ts y =
      let y' = tell true y in
      run_connection encode (receiving_at y'.frame_height) ts
        (begin y'.camera y'.device_calls y'.session y'.client)

  -- The body of the loop.
  unfoldable pub attempt :
      Attempt Frame Now Raw Request → Life Frame Client → Progress × Life Frame Client
  attempt (refused e stopped stopped_waiting) y = recover e stopped stopped_waiting y
  attempt (made ts closing stopped stopped_waiting) y =
      let (ended, c) = connected ts y in
      left_with ended closing stopped stopped_waiting (after_turns c (tell true y))

  -- `while self._running`; a loop that has not ended has no result yet.
  unfoldable pub run_loop :
      List (Attempt Frame Now Raw Request)
      → Life Frame Client
      → Option (Result (Unit {0})) × Life Frame Client
  unfolding attempt
  run_loop [] y = (if y.session.running then none else some (ok tt), y)
  run_loop (a ∷ xs) y =
      let more = go_on (run_loop xs) (attempt a y) in
      if y.session.running then more else (some (ok tt), y)

  abbrev pub with_size :
      Result (ℤ × ℤ)
      → List (Attempt Frame Now Raw Request)
      → Life Frame Client
      → Option (Result (Unit {0})) × Life Frame Client
  with_size (err e) attempts y = (some (err e), y)
  with_size (ok (width, height)) attempts y =
      finally_release (run_loop attempts (record y { frame_height = height }))

  -- The opening of the camera stands before the `try`.
  unfoldable pub run :
      CameraConfig
      → Opening
      → List (Attempt Frame Now Raw Request)
      → Life Frame Client
      → Option (Result (Unit {0})) × Life Frame Client
  unfolding run_loop
  run config answer attempts y =
      let camera =
        open_capture answer config.camera_index config.frame_width config.frame_height y.camera in
      with_size camera.0 attempts (opened camera y)
