-- ===== src/Main/Callbacks.antt =====
-- The closures that `main` gives to the session. The web server's thread appears as the requests that
-- change the zones; its reads are in Status, Stats and Stream.
use counter_cruiser.Prelude.{
  ℕ, ◌≡◌, refl, Bool, List, String, ℤ, pos, negsuc, Result, ok, err, Floats,
}
use counter_cruiser.Protocol.{AnyMessage, frame, detection, error, ping, pong}
use counter_cruiser.ZoneStore.{Toml, Disk}
use counter_cruiser.ZoneStore.Requests.{Request, perform}
use counter_cruiser.Dashboard.{set_server_connected}
use counter_cruiser.Transport.{Session, receive}
use counter_cruiser.Connection.{Receiving}
use counter_cruiser.Client.{
  Client, Readings, Running, take_pending, on_detection, on_message, receive_round,
}
use counter_cruiser.Client.Handlers.{World}

module _ (T : Toml) (F : Floats) (point_polygon_test : List (ℤ × ℤ) → F.Float × F.Float → ℤ)
    (Frame Time Image Text : Type 0) (copy : Frame → Frame) where
  open F use {Float, of_int}
  open T use {Text as ConfigText}

  abbrev pub ClientOf : Float → Type 0
  ClientOf min_size_ratio =
      Client T F point_polygon_test Frame Time (World Time Image Text) copy min_size_ratio

  module _ {m : Float} where
    -- A request of the web server that changes the zones, and how its write goes.
    abbrev pub handle : Disk × Request → ClientOf m → ClientOf m
    handle (disk, q) c = record c { store = (perform T disk q c.store).1 }

    -- `dashboard_state.set_server_connected`
    abbrev pub on_connection_change : Bool → ClientOf m → ClientOf m
    on_connection_change connected c = record c {
      dashboard = set_server_connected connected c.dashboard;
    }

  module _ (Stamp : Type 0) (deserialize : String → Result (AnyMessage Float Stamp)) (m : Float)
      (frame_height : ℤ) where
    abbrev Round : Type 0
    Round =
        Running T F point_polygon_test Frame Time (World Time Image Text) copy m Stamp deserialize
          frame_height

    -- The receive loop's body with the closure `on_result`.
    abbrev pub body :
        Readings Time
        → String
        → Session Frame
        → ClientOf m
        → Result (Unit {0}) × Session Frame × ClientOf m
    body now raw s c =
        let start : Round = record { session = s; client = c } in
        let (ended, r) =
          receive_round T F point_polygon_test Frame Time (World Time Image Text) copy m Stamp
            deserialize frame_height now raw start in
        (ended, r.session, r.client)

    take_pending-only :
        (id : ℤ) (now : ℕ) (s : Session Frame)
        → let s' = (take_pending id now s).1 in s' ≡ record s { pending = s'.pending }
    unfolding receive
    take_pending-only (pos i) now s = refl
    take_pending-only (negsuc i) now s = refl

    on_message-only :
        (now : Readings Time) (msg : Result (AnyMessage Float Stamp)) (s : Session Frame)
        (c : ClientOf m)
        → let start : Round = record { session = s; client = c } in
          let s' =
            (on_message T F point_polygon_test Frame Time
              (World Time Image Text)
              copy
              m
              Stamp
              deserialize
              frame_height
              now
              msg
              start).1.session in
          s' ≡ record s { pending = s'.pending }
    unfolding on_detection
    on_message-only now (err e) s c = refl
    on_message-only now (ok (detection msg)) s c = take_pending-only msg.frame_id now.received_at s
    on_message-only now (ok (error msg)) s c = refl
    on_message-only now (ok (frame msg)) s c = refl
    on_message-only now (ok (ping msg)) s c = refl
    on_message-only now (ok (pong msg)) s c = refl

    pub body-only :
        (now : Readings Time) (raw : String) (s : Session Frame) (c : ClientOf m)
        → let s' = (body now raw s c).1 in s' ≡ record s { pending = s'.pending }
    unfolding receive_round
    body-only now raw s c = on_message-only now (deserialize raw) s c

    -- The callbacks of the session, once the camera has told its height.
    unfoldable pub callbacks : Receiving Frame (Readings Time) String (Disk × Request) (ClientOf m)
    callbacks = record { body = body; only_pending = body-only; handle = handle }
