-- ===== src/Settings/Defs.antt =====
-- The models, their validators and their construction. A validator runs on a value that is given, not
-- on a default; a model's own validator runs on its fields together.
use counter_cruiser.Prelude.{
  Bool, true, false, ◌&&◌, not, Option, none, some, List, [], ◌∷◌, String, ℤ, pos, leb_ℤ, Floats,
  if◌then◌else◌, Result, ok, err, validation_error, ◌>>=◌,
}
use counter_cruiser.Zone.{Zone, make_zone}
use counter_cruiser.Settings.Fields.{
  Provider, ZoneFields, DeterrentFields, SnapshotFields, LogFields, NotificationFields, AlertFields,
  ClientFields, ServerFields, merge_client, merge_server,
}

pub record DeterrentConfig (Float : Type 0) : Type 0 where
  pub enabled : Bool
  pub pin : Option ℤ
  pub burst_duration_seconds : Float
  pub stats_db_path : String

pub record SnapshotConfig : Type 0 where
  pub enabled : Bool
  pub dir : String
  pub max_count : ℤ
  pub include_boxes : Bool
  pub include_zones : Bool

pub record LogConfig : Type 0 where
  pub enabled : Bool
  pub file : String

pub record NotificationConfig : Type 0 where
  pub enabled : Bool
  pub provider : Option Provider
  pub ntfy_topic : Option String
  pub pushover_user_key : Option String
  pub pushover_api_token : Option String

pub record AlertConfig (Float : Type 0) : Type 0 where
  pub cooldown_seconds : Float
  pub deterrent : DeterrentConfig Float
  pub snapshot : SnapshotConfig
  pub log : LogConfig
  pub notification : NotificationConfig

pub record ClientSettings (Float : Type 0) : Type 0 where
  pub server_host : String
  pub server_port : ℤ
  pub camera_index : ℤ
  pub frame_width : ℤ
  pub frame_height : ℤ
  pub jpeg_quality : ℤ
  pub frame_skip : ℤ
  pub min_size_ratio : Float
  pub zones : List Zone
  pub alerts : AlertConfig Float
  pub web_host : String
  pub web_port : ℤ
  pub web_stream_fps : Float

pub record ServerSettings (Float : Type 0) : Type 0 where
  pub host : String
  pub port : ℤ
  pub model_name : String
  pub device : String
  pub confidence_threshold : Float

-- The value given, or the default.
abbrev pub filled {ℓ} : {A : Type ℓ} → A → Option A → A
filled default none = default
filled default (some v) = v

-- A validator that raises unless its test holds, on a value that is given.
abbrev pub checked : {A : Type 0} → (A → Bool) → A → Option A → Result A
checked test default none = ok default
checked test default (some v) = if test v then ok v else err validation_error

-- A required field.
abbrev pub required {ℓ} : {A : Type ℓ} → Option A → Result A
required none = err validation_error
required (some v) = ok v

unfoldable pub zone_of_fields : ZoneFields → Result Zone
unfolding make_zone
zone_of_fields f = do
  id ← required f.id
  name ← required f.name
  polygon ← required f.polygon
  make_zone id name (filled true f.enabled) polygon

unfoldable pub zones_of_fields : List ZoneFields → Result (List Zone)
unfolding zone_of_fields
zones_of_fields [] = ok []
zones_of_fields (f ∷ fs) = do z ← zone_of_fields f; zs ← zones_of_fields fs; ok (z ∷ zs)

abbrev pub given_zones : Option (List ZoneFields) → Result (List Zone)
given_zones none = ok []
given_zones (some fs) = zones_of_fields fs

abbrev pub valid_jpeg_quality : ℤ → Bool
valid_jpeg_quality v = leb_ℤ (pos 1) v && leb_ℤ v (pos 100)

abbrev pub valid_frame_skip : ℤ → Bool
valid_frame_skip v = leb_ℤ (pos 1) v

abbrev pub positive_max_count : ℤ → Bool
positive_max_count v = leb_ℤ (pos 1) v

-- `enabled and pin is None`
abbrev pub pin_missing : Bool → Option ℤ → Bool
pin_missing enabled none = enabled
pin_missing enabled (some pin) = false

abbrev pub log_config : LogFields → LogConfig
log_config f = record { enabled = filled false f.enabled; file = filled "./alerts.log" f.file }

abbrev pub notification_config : NotificationFields → NotificationConfig
notification_config f = record {
  enabled = filled false f.enabled;
  provider = filled none f.provider;
  ntfy_topic = filled none f.ntfy_topic;
  pushover_user_key = filled none f.pushover_user_key;
  pushover_api_token = filled none f.pushover_api_token;
}

unfoldable pub snapshot_config : SnapshotFields → Result SnapshotConfig
snapshot_config f = do
  max_count ← checked positive_max_count (pos 200) f.max_count
  ok (record {
    enabled = filled false f.enabled;
    dir = filled "./snapshots" f.dir;
    max_count = max_count;
    include_boxes = filled true f.include_boxes;
    include_zones = filled true f.include_zones;
  })

module _ (F : Floats) where
  open F use {Float, of_int, div_int, le}

  abbrev pub positive : Float → Bool
  positive v = not (le v (of_int (pos 0)))

  abbrev pub non_negative : Float → Bool
  non_negative v = not (F.lt v (of_int (pos 0)))

  abbrev pub in_unit : Float → Bool
  in_unit v = le (of_int (pos 0)) v && le v (of_int (pos 1))

  abbrev pub pin_required_when_enabled : DeterrentConfig Float → Result (DeterrentConfig Float)
  pin_required_when_enabled c = if pin_missing c.enabled c.pin then err validation_error else ok c

  unfoldable pub deterrent_config : DeterrentFields Float → Result (DeterrentConfig Float)
  deterrent_config f = do
    burst ← checked positive (div_int (pos 3) (pos 2)) f.burst_duration_seconds
    pin_required_when_enabled (record {
      enabled = filled false f.enabled;
      pin = filled none f.pin;
      burst_duration_seconds = burst;
      stats_db_path = filled "./deterrent_stats.db" f.stats_db_path;
    })

  unfoldable pub alert_config : AlertFields Float → Result (AlertConfig Float)
  unfolding deterrent_config snapshot_config
  alert_config f = do
    cooldown ← checked non_negative (of_int (pos 5)) f.cooldown_seconds
    deterrent ← deterrent_config f.deterrent
    snapshot ← snapshot_config f.snapshot
    ok (record {
      cooldown_seconds = cooldown;
      deterrent = deterrent;
      snapshot = snapshot;
      log = log_config f.log;
      notification = notification_config f.notification;
    })

  unfoldable pub validate_client : ClientFields Float → Result (ClientSettings Float)
  unfolding alert_config zones_of_fields
  validate_client f = do
    jpeg_quality ← checked valid_jpeg_quality (pos 85) f.jpeg_quality
    frame_skip ← checked valid_frame_skip (pos 3) f.frame_skip
    min_size_ratio ← checked in_unit (div_int (pos 1) (pos 4)) f.min_size_ratio
    zones ← given_zones f.zones
    alerts ← alert_config f.alerts
    web_stream_fps ← checked positive (of_int (pos 5)) f.web_stream_fps
    ok (record {
      server_host = filled "localhost" f.server_host;
      server_port = filled (pos 8765) f.server_port;
      camera_index = filled (pos 0) f.camera_index;
      frame_width = filled (pos 640) f.frame_width;
      frame_height = filled (pos 480) f.frame_height;
      jpeg_quality = jpeg_quality;
      frame_skip = frame_skip;
      min_size_ratio = min_size_ratio;
      zones = zones;
      alerts = alerts;
      web_host = filled "0.0.0.0" f.web_host;
      web_port = filled (pos 8080) f.web_port;
      web_stream_fps = web_stream_fps;
    })

  -- `ClientSettings(**init)` in the environment `env`.
  unfoldable pub client_settings :
      ClientFields Float → ClientFields Float → Result (ClientSettings Float)
  unfolding validate_client
  client_settings env init = validate_client (merge_client env init)

  unfoldable pub validate_server : ServerFields Float → Result (ServerSettings Float)
  validate_server f = do
    confidence_threshold ← checked in_unit (div_int (pos 1) (pos 2)) f.confidence_threshold
    ok (record {
      host = filled "0.0.0.0" f.host;
      port = filled (pos 8765) f.port;
      model_name = filled "yolov8n.pt" f.model_name;
      device = filled "auto" f.device;
      confidence_threshold = confidence_threshold;
    })

  unfoldable pub server_settings :
      ServerFields Float → ServerFields Float → Result (ServerSettings Float)
  unfolding validate_server
  server_settings env init = validate_server (merge_server env init)
