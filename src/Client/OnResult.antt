-- ===== src/Client/OnResult.antt =====
-- `on_result`: the closure of `main` over the zone store, the debounce history, the dashboard, the
-- frame-rate tracker and the alert manager. The handlers act on a world `W`. Logging is left out.
use counter_cruiser.Prelude.{
  ℕ, true, Option, none, some, List, ℤ, pos, Result, ok, err, Floats, if◌then◌else◌,
}
use counter_cruiser.Zone.{Zone, BoundingBox}
use counter_cruiser.Debounce
use counter_cruiser.Debounce.{DetectionHistory, is_consecutive_elevated}
use counter_cruiser.Geometry.{FrameAnalysis, analyze_detections}
use counter_cruiser.Alerts.{AlertContext}
use counter_cruiser.Alerts.Manager.{AlertManager, maybe_alert}
use counter_cruiser.ZoneStore.{Toml, Store, list_zones}
use counter_cruiser.Dashboard.{
  DashboardState, update_frame, update_detection, update_stats, record_alert,
}
use counter_cruiser.Client.Fps.{FpsTracker, tick, rate, rate_value}

-- A `DetectionMessage`, as far as the client reads it.
pub record Detection (Float : Type 0) : Type 0 where
  pub frame_id : ℤ
  pub boxes : List (BoundingBox Float)

-- What the environment supplies during one call: the readings of the clocks, and the session's
-- frame height and retained frames.
pub record Moment (Frame Time : Type 0) : Type 0 where
  pub tick_at : ℕ
  pub alert_at : ℕ
  pub utc : Time
  pub frame_height : ℤ
  pub get_frame : ℤ → Option Frame

module _ (T : Toml) (F : Floats) (point_polygon_test : List (ℤ × ℤ) → F.Float × F.Float → ℤ)
    (Frame Time W : Type 0) (copy : Frame → Frame) (min_size_ratio : F.Float) where
  open F use {Float, of_int, mul}

  pub record Client : Type 0 where
    pub store : Store T.Text
    pub history : DetectionHistory
    pub dashboard : DashboardState Frame Float Time
    pub fps : FpsTracker
    pub manager : AlertManager (AlertContext Frame Float) W
    pub world : W

  abbrev pub show_frame :
      Option Frame → DashboardState Frame Float Time → DashboardState Frame Float Time
  show_frame none d = d
  show_frame (some frame) d = update_frame copy frame d

  abbrev pub context :
      Moment Frame Time → Detection Float → List Zone → FrameAnalysis → AlertContext Frame Float
  context now msg zones analysis = record {
    frame = now.get_frame msg.frame_id;
    detections = msg.boxes;
    zones = zones;
    triggered_zones = analysis.triggered_zones;
    frame_id = msg.frame_id;
  }

  -- The `if actionable:` block.
  unfoldable pub alert : Moment Frame Time → AlertContext Frame Float → Client → Client
  alert now ctx c =
      let (manager, world) =
        maybe_alert (λ x. x.triggered_zones) now.alert_at ctx c.manager c.world in
      record c {
        manager = manager;
        world = world;
        dashboard =
            record_alert
              (record {
                time = now.utc;
                triggered_zones = ctx.triggered_zones;
                frame_id = ctx.frame_id;
              })
              c.dashboard;
      }

  -- From the result of the analysis on.
  unfoldable pub after_analysis :
      Moment Frame Time → Detection Float → Float → List Zone → FrameAnalysis → Client → Client
  unfolding alert
  after_analysis now msg latency zones analysis c =
      let history = Debounce.add msg.frame_id analysis.elevated c.history in
      let actionable = is_consecutive_elevated (pos 2) history in
      let fps = tick now.tick_at c.fps in
      let shown = show_frame (now.get_frame msg.frame_id) c.dashboard in
      let detected = update_detection msg.boxes analysis.triggered_zones actionable shown in
      let dashboard =
        update_stats (rate_value F (rate fps.timestamps)) (mul latency (of_int (pos 1000))) true
          detected in
      let c' = record c { history = history; fps = fps; dashboard = dashboard } in
      if actionable then alert now (context now msg zones analysis) c' else c'

  abbrev with_analysis :
      Moment Frame Time
      → Detection Float
      → Float
      → List Zone
      → Result FrameAnalysis
      → Client
      → Result (Unit {0}) × Client
  with_analysis now msg latency zones (err e) c = (err e, c)
  with_analysis now msg latency zones (ok analysis) c =
      (ok tt, after_analysis now msg latency zones analysis c)

  abbrev with_zones :
      Moment Frame Time
      → Detection Float
      → Float
      → Result (List Zone × ℕ)
      → Client
      → Result (Unit {0}) × Client
  with_zones now msg latency (err e) c = (err e, c)
  with_zones now msg latency (ok (zones, version)) c =
      with_analysis now msg latency zones
        (analyze_detections F point_polygon_test msg.boxes zones now.frame_height min_size_ratio) c

  unfoldable pub on_result :
      Moment Frame Time → Detection Float → Float → Client → Result (Unit {0}) × Client
  unfolding after_analysis
  on_result now msg latency c = with_zones now msg latency (list_zones T c.store) c
