-- ===== src/Dashboard/Defs.antt =====
-- `DashboardState`. Every method runs under the one lock, so each is one step. Frames, floats and
-- times are parameters; `copy` copies a frame. A set of zone ids is a list.
use counter_cruiser.Prelude.{ℕ, Bool, false, Option, none, some, List, [], ◌∷◌, String, take, ℤ}
use counter_cruiser.Zone.{BoundingBox}

pub record DetectionSnapshot (Float : Type 0) : Type 0 where
  pub detections : List (BoundingBox Float)
  pub triggered_zones : List String
  pub elevated : Bool

pub record StatsSnapshot (Float : Type 0) : Type 0 where
  pub fps : Float
  pub latency_ms : Float
  pub server_connected : Bool

pub record DeterrentStatus : Type 0 where
  pub configured : Bool
  pub operational : Bool

pub record AlertHistoryEntry (Time : Type 0) : Type 0 where
  pub time : Time
  pub triggered_zones : List String
  pub frame_id : ℤ

-- `capacity` is the `maxlen` of the deque `_alerts`.
pub record DashboardState (Frame Float Time : Type 0) : Type 0 where
  pub frame : Option Frame
  pub detection : DetectionSnapshot Float
  pub stats : StatsSnapshot Float
  pub alerts : List (AlertHistoryEntry Time)
  pub capacity : ℕ
  pub deterrent_status : DeterrentStatus

-- `0.0` of the initial snapshots is the argument `zero_float`.
unfoldable pub init : {Frame Float Time : Type 0} → Float → ℕ → DashboardState Frame Float Time
init zero_float alert_history_capacity = record {
  frame = none;
  detection = record { detections = []; triggered_zones = []; elevated = false };
  stats = record { fps = zero_float; latency_ms = zero_float; server_connected = false };
  alerts = [];
  capacity = alert_history_capacity;
  deterrent_status = record { configured = false; operational = false };
}

-- `deque(maxlen=n).appendleft(x)` drops from the other end what is over `n`.
abbrev pub append_left {ℓ} : {A : Type ℓ} → ℕ → A → List A → List A
append_left maxlen x xs = take maxlen (x ∷ xs)

module _ {Frame Float Time : Type 0} where
  unfoldable pub update_frame :
      (Frame → Frame) → Frame → DashboardState Frame Float Time → DashboardState Frame Float Time
  update_frame copy frame s = record s { frame = some (copy frame) }

  unfoldable pub get_frame : (Frame → Frame) → DashboardState Frame Float Time → Option Frame
  get_frame copy s = elim s.frame [ none ↦ none | some frame ↦ some (copy frame) ]

  unfoldable pub update_detection :
      List (BoundingBox Float)
      → List String
      → Bool
      → DashboardState Frame Float Time
      → DashboardState Frame Float Time
  update_detection detections triggered_zones elevated s = record s {
    detection = record {
      detections = detections;
      triggered_zones = triggered_zones;
      elevated = elevated;
    };
  }

  abbrev pub get_detection : DashboardState Frame Float Time → DetectionSnapshot Float
  get_detection s = s.detection

  unfoldable pub update_stats :
      Float → Float → Bool → DashboardState Frame Float Time → DashboardState Frame Float Time
  update_stats fps latency_ms server_connected s = record s {
    stats = record { fps = fps; latency_ms = latency_ms; server_connected = server_connected };
  }

  abbrev pub get_stats : DashboardState Frame Float Time → StatsSnapshot Float
  get_stats s = s.stats

  unfoldable pub set_server_connected :
      Bool → DashboardState Frame Float Time → DashboardState Frame Float Time
  set_server_connected connected s = record s {
    stats = record {
      fps = s.stats.fps;
      latency_ms = s.stats.latency_ms;
      server_connected = connected;
    };
  }

  unfoldable pub record_alert :
      AlertHistoryEntry Time → DashboardState Frame Float Time → DashboardState Frame Float Time
  record_alert entry s = record s { alerts = append_left s.capacity entry s.alerts }

  abbrev pub get_alerts : DashboardState Frame Float Time → List (AlertHistoryEntry Time)
  get_alerts s = s.alerts

  unfoldable pub set_deterrent_status :
      Bool → Bool → DashboardState Frame Float Time → DashboardState Frame Float Time
  set_deterrent_status configured operational s = record s {
    deterrent_status = record { configured = configured; operational = operational };
  }

  abbrev pub get_deterrent_status : DashboardState Frame Float Time → DeterrentStatus
  get_deterrent_status s = s.deterrent_status
