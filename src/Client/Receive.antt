-- ===== src/Client/Receive.antt =====
-- `ClientSession._receive_loop` with the callback `on_result` of `main`, which reads the session's retained
-- frames. Pydantic's JSON is the parameter `deserialize`.
use counter_cruiser.Prelude.{
  ℕ, Option, none, List, [], ◌∷◌, String, ℤ, pos, negsuc, Result, ok, err, Floats,
}
use counter_cruiser.Protocol.{AnyMessage, DetectionMessage, frame, detection, error, ping, pong}
use counter_cruiser.Transport
use counter_cruiser.Transport.{Session, receive}
use counter_cruiser.ZoneStore.{Toml}
use counter_cruiser.Client.OnResult.{Moment, Client, on_result}

-- The readings of the clocks during one round: when a detection is received, and in `on_result`.
pub record Readings (Time : Type 0) : Type 0 where
  pub received_at : ℕ
  pub tick_at : ℕ
  pub alert_at : ℕ
  pub utc : Time

-- `get_frame` and the pending entry of any id of a message: the session's own ids are positive.
abbrev pub frame_at : {Frame : Type 0} → ℤ → Session Frame → Option Frame
frame_at (pos i) s = Transport.get_frame i s
frame_at (negsuc i) s = none

abbrev pub take_pending : {Frame : Type 0} → ℤ → ℕ → Session Frame → ℕ × Session Frame
take_pending (pos i) now s = receive i now s
take_pending (negsuc i) now s = (0, s)

-- What `on_result` sees of the session and of the clocks.
abbrev pub moment_of : {Frame Time : Type 0} → Readings Time → ℤ → Session Frame → Moment Frame Time
moment_of now frame_height s = record {
  tick_at = now.tick_at;
  alert_at = now.alert_at;
  utc = now.utc;
  frame_height = frame_height;
  get_frame = λ id. frame_at id s;
}

module _ (T : Toml) (F : Floats) (point_polygon_test : List (ℤ × ℤ) → F.Float × F.Float → ℤ)
    (Frame Time W : Type 0) (copy : Frame → Frame) (min_size_ratio : F.Float) (Stamp : Type 0)
    (deserialize : String → Result (AnyMessage F.Float Stamp)) (frame_height : ℤ) where
  open F use {Float, seconds}

  pub record Running : Type 0 where
    pub session : Session Frame
    pub client : Client T F point_polygon_test Frame Time W copy min_size_ratio

  unfoldable pub on_detection :
      Readings Time → DetectionMessage Float Stamp → Running → Result (Unit {0}) × Running
  on_detection now msg r =
      let (latency, session) = take_pending msg.frame_id now.received_at r.session in
      let (ended, client) =
        on_result T F point_polygon_test Frame Time W copy min_size_ratio
          (moment_of now frame_height session)
          (record { frame_id = msg.frame_id; boxes = msg.boxes }) (seconds latency) r.client in
      (ended, record { session = session; client = client })

  -- An error message is logged, and any other is ignored.
  abbrev pub on_message :
      Readings Time → Result (AnyMessage Float Stamp) → Running → Result (Unit {0}) × Running
  on_message now (err e) r = (err e, r)
  on_message now (ok (detection msg)) r = on_detection now msg r
  on_message now (ok (error msg)) r = (ok tt, r)
  on_message now (ok (frame msg)) r = (ok tt, r)
  on_message now (ok (ping msg)) r = (ok tt, r)
  on_message now (ok (pong msg)) r = (ok tt, r)

  -- One round of the loop.
  unfoldable pub receive_round : Readings Time → String → Running → Result (Unit {0}) × Running
  receive_round now raw r = on_message now (deserialize raw) r

  abbrev pub go_on :
      (Running → Result (Unit {0}) × Running)
      → Result (Unit {0}) × Running
      → Result (Unit {0}) × Running
  go_on rest (ok u, r) = rest r
  go_on rest (err e, r) = (err e, r)

  -- The loop over the messages of a connection, until one raises.
  unfoldable pub receive_loop :
      List (Readings Time × String) → Running → Result (Unit {0}) × Running
  unfolding receive_round
  receive_loop [] r = (ok tt, r)
  receive_loop ((now, raw) ∷ messages) r = go_on (receive_loop messages) (receive_round now raw r)
