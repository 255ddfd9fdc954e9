-- ===== src/Client/Interplay.antt =====
-- The alert that an answer raises carries the frame it is about.
use counter_cruiser.Prelude.{
  true, ℕ, ◌+◌, ◌-◌, ◌≡◌, refl, ap, ◌∙◌, none, List, [], length, leb, String, ℤ, pos, Result, ok,
  Floats, if◌then◌else◌,
}
use counter_cruiser.Zone.{Zone}
use counter_cruiser.Geometry.{FrameAnalysis, analyze_detections}
use counter_cruiser.Debounce
use counter_cruiser.Debounce.{is_consecutive_elevated}
use counter_cruiser.Alerts.Manager.{maybe_alert}
use counter_cruiser.Client.Alarm.{on_result_lem}
use counter_cruiser.Protocol.{AnyMessage, DetectionMessage, detection}
use counter_cruiser.Transport
use counter_cruiser.Transport.{Session, send_round, receive, connect, stop}
use counter_cruiser.Transport.Buffer.{Live, steps, get_frame_window}
use counter_cruiser.Transport.Numbered.{at}
use counter_cruiser.ZoneStore.{Toml, list_zones}
use counter_cruiser.Client.OnResult.{Client}
use counter_cruiser.Client.Receive.{
  Readings, Running, frame_at, take_pending, moment_of, on_detection, on_message, receive_round,
}
use counter_cruiser.Client.Merged.{
  Event, System, all_happen, of_events, all_happen-Agrees, frame_at-receive,
}

module _ (T : Toml) (F : Floats) (point_polygon_test : List (ℤ × ℤ) → F.Float × F.Float → ℤ)
    (Frame Time W : Type 0) (copy : Frame → Frame) (min_size_ratio : F.Float) (Stamp : Type 0)
    (deserialize : String → Result (AnyMessage F.Float Stamp)) (frame_height : ℤ) (Message : Type 0)
    (encode : Frame → ℕ → Result Message) where
  abbrev pub Home : Type 0
  Home =
      System T F point_polygon_test Frame Time W copy min_size_ratio Stamp deserialize frame_height
        Message encode

  abbrev pub home_after : List (Event Frame Time) → Home → Home
  home_after =
      all_happen T F point_polygon_test Frame Time W copy min_size_ratio Stamp deserialize
        frame_height Message encode

  -- A client with a new session.
  abbrev pub start : ℕ → ℕ → Client T F point_polygon_test Frame Time W copy min_size_ratio → Home
  start capacity skip client = record {
    count = 0;
    running = record { session = Transport.init capacity skip; client = client };
  }

  -- The frames that the send loop has kept since then, in order.
  abbrev pub captured : ℕ → ℕ → List (Event Frame Time) → List Frame
  captured capacity skip xs =
      (steps encode
        (of_events T F point_polygon_test Frame Time W copy min_size_ratio Stamp deserialize
          frame_height Message encode xs)
        (record { count = 0; session = Transport.init capacity skip; past = [] })).past

  frame_after :
      (capacity skip : ℕ) (client : Client T F point_polygon_test Frame Time W copy min_size_ratio)
      (xs : List (Event Frame Time)) (now id : ℕ) (frame_id : ℤ)
      → frame_id ≡ pos id
      → let s = (home_after xs (start capacity skip client)).running.session in
        let past = captured capacity skip xs in
        frame_at frame_id (take_pending frame_id now s).1
        ≡ (if leb (1 + (length past - capacity)) id then at 1 past id else none)
  frame_after capacity skip client xs now id frame_id named =
      let live : Live Frame = record {
        count = 0;
        session = Transport.init capacity skip;
        past = [];
      } in
      let y = home_after xs (start capacity skip client) in
      frame_at-receive T F point_polygon_test Frame Time W copy min_size_ratio Stamp deserialize
        frame_height Message encode frame_id frame_id now y.running.session
      ∙ ap (λ i. frame_at i y.running.session) named
      ∙ ap (Transport.get_frame id)
          (all_happen-Agrees T F point_polygon_test Frame Time W copy min_size_ratio Stamp
            deserialize frame_height Message encode xs (start capacity skip client) live
            (refl, refl)).1
      ∙ (get_frame_window encode capacity skip (
            of_events T F point_polygon_test Frame Time W copy min_size_ratio Stamp deserialize
              frame_height Message encode xs)).2
          id

  on_detection-alerts :
      (now : Readings Time) (msg : DetectionMessage F.Float Stamp)
      (r : Running T F point_polygon_test Frame Time W copy min_size_ratio Stamp deserialize
        frame_height)
      (zones : List Zone) (version : ℕ) (analysis : FrameAnalysis)
      → list_zones T r.client.store ≡ ok (zones, version)
      → analyze_detections F point_polygon_test msg.boxes zones frame_height min_size_ratio
        ≡ ok analysis
      → is_consecutive_elevated
          (pos 2)
          (Debounce.add msg.frame_id analysis.elevated r.client.history)
        ≡ true
      → let c =
          (on_detection T F point_polygon_test Frame Time W copy min_size_ratio Stamp deserialize
            frame_height now msg r).1.client in
        (c.manager, c.world)
        ≡ maybe_alert
            (λ x. x.triggered_zones)
            now.alert_at
            (record {
              frame = frame_at msg.frame_id (take_pending msg.frame_id now.received_at r.session).1;
              detections = msg.boxes;
              zones = zones;
              triggered_zones = analysis.triggered_zones;
              frame_id = msg.frame_id;
            })
            r.client.manager
            r.client.world
  unfolding on_detection
  on_detection-alerts now msg r zones version analysis listed analyzed loud =
      let (latency, session) = take_pending msg.frame_id now.received_at r.session in
      ((on_result_lem T F point_polygon_test Frame Time W copy min_size_ratio
          (moment_of now frame_height session)
          (record { frame_id = msg.frame_id; boxes = msg.boxes }) (F.seconds latency) r.client zones
          version analysis listed analyzed).5
        loud).0

  -- A client with a new session, after any interleaving of its send loop, messages, reconnects and
  -- `stop`, receives a detection for a frame id, whose zones and analysis can be had and with which the
  -- debounce test holds. Then what the receive loop does to the alert manager and to the handlers' world is
  -- `maybe_alert` of the frame's boxes and zones with the frame that was captured under this id, if the id is
  -- one of the last `capacity`, and with no frame otherwise.
  pub alert_shows_its_frame :
      (capacity skip : ℕ) (client : Client T F point_polygon_test Frame Time W copy min_size_ratio)
      (xs : List (Event Frame Time)) (now : Readings Time) (raw : String) (id : ℕ)
      (msg : DetectionMessage F.Float Stamp) (zones : List Zone) (version : ℕ)
      (analysis : FrameAnalysis)
      → deserialize raw ≡ ok (detection msg)
      → msg.frame_id ≡ pos id
      → list_zones T (home_after xs (start capacity skip client)).running.client.store
        ≡ ok (zones, version)
      → analyze_detections F point_polygon_test msg.boxes zones frame_height min_size_ratio
        ≡ ok analysis
      → is_consecutive_elevated (pos 2) (
          Debounce.add msg.frame_id analysis.elevated
            (home_after xs (start capacity skip client)).running.client.history)
        ≡ true
      → let r = (home_after xs (start capacity skip client)).running in
        let c =
          (receive_round T F point_polygon_test Frame Time W copy min_size_ratio Stamp deserialize
            frame_height now raw r).1.client in
        let past = captured capacity skip xs in
        (c.manager, c.world)
        ≡ maybe_alert
            (λ x. x.triggered_zones)
            now.alert_at
            (record {
              frame = if leb (1 + (length past - capacity)) id then at 1 past id else none;
              detections = msg.boxes;
              zones = zones;
              triggered_zones = analysis.triggered_zones;
              frame_id = msg.frame_id;
            })
            r.client.manager
            r.client.world
  unfolding receive_round
  alert_shows_its_frame capacity skip client xs now raw id msg zones version analysis read named
        listed analyzed loud =
      let r = (home_after xs (start capacity skip client)).running in
      ap
        (λ m.
          let c =
            (on_message T F point_polygon_test Frame Time W copy min_size_ratio Stamp deserialize
              frame_height now m r).1.client in
          (c.manager, c.world))
        read
      ∙ on_detection-alerts now msg r zones version analysis listed analyzed loud
      ∙ ap
          (λ f.
            maybe_alert (λ x. x.triggered_zones) now.alert_at
              (record {
                frame = f;
                detections = msg.boxes;
                zones = zones;
                triggered_zones = analysis.triggered_zones;
                frame_id = msg.frame_id;
              })
              r.client.manager r.client.world)
          (frame_after capacity skip client xs now.received_at id msg.frame_id named)
