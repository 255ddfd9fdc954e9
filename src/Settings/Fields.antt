-- ===== src/Settings/Fields.antt =====
-- What a source gives of each model, and the union of two sources: the environment's fields go before
-- those of the file, at every depth, and a list is taken whole.
use counter_cruiser.Prelude.{Bool, Option, none, some, List, String, ℤ}

pub record ZoneFields : Type 0 where
  pub id : Option String
  pub name : Option String
  pub enabled : Option Bool
  pub polygon : Option (List (ℤ × ℤ))

-- `pin` may be given as `None`.
pub record DeterrentFields (Float : Type 0) : Type 0 where
  pub enabled : Option Bool
  pub pin : Option (Option ℤ)
  pub burst_duration_seconds : Option Float
  pub stats_db_path : Option String

pub record SnapshotFields : Type 0 where
  pub enabled : Option Bool
  pub dir : Option String
  pub max_count : Option ℤ
  pub include_boxes : Option Bool
  pub include_zones : Option Bool

pub record LogFields : Type 0 where
  pub enabled : Option Bool
  pub file : Option String

-- `Literal['ntfy', 'pushover']`
pub data Provider : Type 0 where
  ntfy pushover : Provider

pub record NotificationFields : Type 0 where
  pub enabled : Option Bool
  pub provider : Option (Option Provider)
  pub ntfy_topic : Option (Option String)
  pub pushover_user_key : Option (Option String)
  pub pushover_api_token : Option (Option String)

pub record AlertFields (Float : Type 0) : Type 0 where
  pub cooldown_seconds : Option Float
  pub deterrent : DeterrentFields Float
  pub snapshot : SnapshotFields
  pub log : LogFields
  pub notification : NotificationFields

pub record ClientFields (Float : Type 0) : Type 0 where
  pub server_host : Option String
  pub server_port : Option ℤ
  pub camera_index : Option ℤ
  pub frame_width : Option ℤ
  pub frame_height : Option ℤ
  pub jpeg_quality : Option ℤ
  pub frame_skip : Option ℤ
  pub min_size_ratio : Option Float
  pub zones : Option (List ZoneFields)
  pub alerts : AlertFields Float
  pub web_host : Option String
  pub web_port : Option ℤ
  pub web_stream_fps : Option Float

pub record ServerFields (Float : Type 0) : Type 0 where
  pub host : Option String
  pub port : Option ℤ
  pub model_name : Option String
  pub device : Option String
  pub confidence_threshold : Option Float

abbrev pub first {ℓ} : {A : Type ℓ} → Option A → Option A → Option A
first none init = init
first (some env) init = some env

abbrev pub merge_snapshot : SnapshotFields → SnapshotFields → SnapshotFields
merge_snapshot env init = record {
  enabled = first env.enabled init.enabled;
  dir = first env.dir init.dir;
  max_count = first env.max_count init.max_count;
  include_boxes = first env.include_boxes init.include_boxes;
  include_zones = first env.include_zones init.include_zones;
}

abbrev pub merge_log : LogFields → LogFields → LogFields
merge_log env init = record {
  enabled = first env.enabled init.enabled;
  file = first env.file init.file;
}

abbrev pub merge_notification : NotificationFields → NotificationFields → NotificationFields
merge_notification env init = record {
  enabled = first env.enabled init.enabled;
  provider = first env.provider init.provider;
  ntfy_topic = first env.ntfy_topic init.ntfy_topic;
  pushover_user_key = first env.pushover_user_key init.pushover_user_key;
  pushover_api_token = first env.pushover_api_token init.pushover_api_token;
}

module _ {Float : Type 0} where
  abbrev pub merge_deterrent : DeterrentFields Float → DeterrentFields Float → DeterrentFields Float
  merge_deterrent env init = record {
    enabled = first env.enabled init.enabled;
    pin = first env.pin init.pin;
    burst_duration_seconds = first env.burst_duration_seconds init.burst_duration_seconds;
    stats_db_path = first env.stats_db_path init.stats_db_path;
  }

  abbrev pub merge_alerts : AlertFields Float → AlertFields Float → AlertFields Float
  merge_alerts env init = record {
    cooldown_seconds = first env.cooldown_seconds init.cooldown_seconds;
    deterrent = merge_deterrent env.deterrent init.deterrent;
    snapshot = merge_snapshot env.snapshot init.snapshot;
    log = merge_log env.log init.log;
    notification = merge_notification env.notification init.notification;
  }

  abbrev pub merge_client : ClientFields Float → ClientFields Float → ClientFields Float
  merge_client env init = record {
    server_host = first env.server_host init.server_host;
    server_port = first env.server_port init.server_port;
    camera_index = first env.camera_index init.camera_index;
    frame_width = first env.frame_width init.frame_width;
    frame_height = first env.frame_height init.frame_height;
    jpeg_quality = first env.jpeg_quality init.jpeg_quality;
    frame_skip = first env.frame_skip init.frame_skip;
    min_size_ratio = first env.min_size_ratio init.min_size_ratio;
    zones = first env.zones init.zones;
    alerts = merge_alerts env.alerts init.alerts;
    web_host = first env.web_host init.web_host;
    web_port = first env.web_port init.web_port;
    web_stream_fps = first env.web_stream_fps init.web_stream_fps;
  }

  abbrev pub merge_server : ServerFields Float → ServerFields Float → ServerFields Float
  merge_server env init = record {
    host = first env.host init.host;
    port = first env.port init.port;
    model_name = first env.model_name init.model_name;
    device = first env.device init.device;
    confidence_threshold = first env.confidence_threshold init.confidence_threshold;
  }
