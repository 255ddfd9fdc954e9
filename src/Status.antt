-- ===== src/Status.antt =====
-- counter_cruiser/client/web/routes_dashboard.py: the JSON of the status and of the alert history.
-- `isoformat` is a parameter.
pub mod Reads
use counter_cruiser.Prelude.{Bool, List, map, String, str_le, sorted_by, ℤ, if◌then◌else◌}
use counter_cruiser.Dashboard.{
  DashboardState, AlertHistoryEntry, get_detection, get_stats, get_alerts,
}

pub record StatusAnswer (Float : Type 0) : Type 0 where
  pub detection_state : String
  pub triggered_zones : List String
  pub fps : Float
  pub latency_ms : Float
  pub server_connected : Bool

pub record AlertAnswer : Type 0 where
  pub time : String
  pub triggered_zones : List String
  pub frame_id : ℤ

module _ {Frame Float Time : Type 0} where
  unfoldable pub status : DashboardState Frame Float Time → StatusAnswer Float
  status state =
      let detection = get_detection state in
      let stats = get_stats state in
      record {
        detection_state = if detection.elevated then "elevated" else "floor";
        triggered_zones = sorted_by str_le detection.triggered_zones;
        fps = stats.fps;
        latency_ms = stats.latency_ms;
        server_connected = stats.server_connected;
      }

-- One entry of the answer.
abbrev pub alert_answer : {Time : Type 0} → (Time → String) → AlertHistoryEntry Time → AlertAnswer
alert_answer isoformat entry = record {
  time = isoformat entry.time;
  triggered_zones = sorted_by str_le entry.triggered_zones;
  frame_id = entry.frame_id;
}

unfoldable pub alerts :
    {Frame Float Time : Type 0}
    → (Time → String)
    → DashboardState Frame Float Time
    → List AlertAnswer
alerts isoformat state = map (alert_answer isoformat) (get_alerts state)
