-- ===== src/Main/Kept.antt =====
-- What holds at every moment of the client, from the start of the session on.
use counter_cruiser.Prelude.{List, String, ℤ, Result, ok, err, Floats, All}
use counter_cruiser.Protocol.{AnyMessage, frame, detection, error, ping, pong}
use counter_cruiser.ZoneStore.{Toml}
use counter_cruiser.ZoneStore.Invariant.{WellFormed}
use counter_cruiser.ZoneStore.Requests.{perform-WellFormed}
use counter_cruiser.Dashboard.{DeterrentStatus, set_server_connected}
use counter_cruiser.Deterrent.{DeterrentHandler}
use counter_cruiser.Alerts.{AlertContext}
use counter_cruiser.Alerts.Manager.{Handler}
use counter_cruiser.Transport.{Session}
use counter_cruiser.Connection.Invariant.{Keeps}
use counter_cruiser.Client.{
  Readings, Running, take_pending, on_detection, on_message, receive_round, moment_of,
}
use counter_cruiser.Client.Handlers.{World}
use counter_cruiser.Client.Kept.{KeepsWorld, Stable, on_result-Stable}
use counter_cruiser.Client.Pin.{PinSettled}
use counter_cruiser.Main.Callbacks.{ClientOf, on_connection_change, callbacks}
use counter_cruiser.Main.Defs.{alert_history_capacity}

module _ (T : Toml) (F : Floats) (point_polygon_test : List (ℤ × ℤ) → F.Float × F.Float → ℤ)
    (Frame Time Image Text : Type 0) (copy : Frame → Frame) (Stamp : Type 0)
    (deserialize : String → Result (AnyMessage F.Float Stamp)) where
  open F use {Float}

  abbrev pub W : Type 0
  W = World Time Image Text

  -- The state of the client with well-formed zones and a settled pin.
  abbrev pub Healthy :
      {m : Float}
      → List (Handler (AlertContext Frame Float) W)
      → DeterrentStatus
      → DeterrentHandler
      → ClientOf T F point_polygon_test Frame Time Image Text copy m
      → Type 0
  Healthy {m} hs status h c =
      Stable T F point_polygon_test Frame Time W copy m (λ s. WellFormed s.zones) (PinSettled h) hs
        status alert_history_capacity c

  module _ (m : Float) (hs : List (Handler (AlertContext Frame Float) W)) (status : DeterrentStatus)
      (h : DeterrentHandler) (keep : All (KeepsWorld (PinSettled h)) hs) where
    abbrev C : Type 0
    C = ClientOf T F point_polygon_test Frame Time Image Text copy m

    on_message-Healthy :
        (height : ℤ) (now : Readings Time) (msg : Result (AnyMessage Float Stamp))
        (s : Session Frame) (c : C)
        → Healthy hs status h c
        → let start : Running T F point_polygon_test Frame Time W copy m Stamp deserialize height =
            record { session = s; client = c } in
          Healthy hs status h
            (on_message T F point_polygon_test Frame Time W copy m Stamp deserialize height now msg
              start).1.client
    unfolding on_detection
    on_message-Healthy height now (err e) s c kept = kept
    on_message-Healthy height now (ok (detection msg)) s c kept =
        let (latency, s') = take_pending msg.frame_id now.received_at s in
        on_result-Stable T F point_polygon_test Frame Time W copy m (λ s. WellFormed s.zones)
          (PinSettled h) hs status alert_history_capacity keep (moment_of now height s')
          (record { frame_id = msg.frame_id; boxes = msg.boxes }) (F.seconds latency) c kept
    on_message-Healthy height now (ok (error msg)) s c kept = kept
    on_message-Healthy height now (ok (frame msg)) s c kept = kept
    on_message-Healthy height now (ok (ping msg)) s c kept = kept
    on_message-Healthy height now (ok (pong msg)) s c kept = kept

    pub callbacks-Healthy :
        Keeps
          (Healthy hs status h)
          (callbacks T F point_polygon_test Frame Time Image Text copy Stamp deserialize m)
          (on_connection_change T F point_polygon_test Frame Time Image Text copy)
    unfolding callbacks receive_round set_server_connected
    callbacks-Healthy = record {
      keeps_body =
          λ height now raw s c kept. on_message-Healthy height now (deserialize raw) s c kept;
      keeps_handle = λ height q c kept. record {
        stored = perform-WellFormed T q.0 q.1 c.store kept.stored;
        ready = kept.ready;
        shown = kept.shown;
        bound = kept.bound;
        bounded = kept.bounded;
      };
      keeps_change = λ connected c kept. record {
        stored = kept.stored;
        ready = kept.ready;
        shown = kept.shown;
        bound = kept.bound;
        bounded = kept.bounded;
      };
    }
