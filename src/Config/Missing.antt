-- ===== src/Config/Missing.antt =====
-- A configuration without its file.
use counter_cruiser.Prelude.{◌≡◌, Option, none, String, ok, Floats}
use counter_cruiser.Settings.{
  ClientFields, ServerFields, ClientSettings, ServerSettings, merge_client, merge_server,
}
use counter_cruiser.Settings.Steps.{Decides, Given}
use counter_cruiser.Settings.Accepted.{
  AcceptsClient, InUnit, client_settings_iff, server_settings_iff,
}
use counter_cruiser.Config.{
  Loading, resolve_path, fields_in, load_toml, load_client_config, load_server_config,
  default_client, default_server,
}

module _ (F : Floats) where
  open F use {Float}

  -- No field is given.
  abbrev pub no_client : ClientFields Float
  no_client = record {
    server_host = none;
    server_port = none;
    camera_index = none;
    frame_width = none;
    frame_height = none;
    jpeg_quality = none;
    frame_skip = none;
    min_size_ratio = none;
    zones = none;
    alerts = record {
      cooldown_seconds = none;
      deterrent = record {
        enabled = none;
        pin = none;
        burst_duration_seconds = none;
        stats_db_path = none;
      };
      snapshot = record {
        enabled = none;
        dir = none;
        max_count = none;
        include_boxes = none;
        include_zones = none;
      };
      log = record { enabled = none; file = none };
      notification = record {
        enabled = none;
        provider = none;
        ntfy_topic = none;
        pushover_user_key = none;
        pushover_api_token = none;
      };
    };
    web_host = none;
    web_port = none;
    web_stream_fps = none;
  }

  abbrev pub no_server : ServerFields Float
  no_server = record {
    host = none;
    port = none;
    model_name = none;
    device = none;
    confidence_threshold = none;
  }

  module _ {Text : Type 0} (L : Loading Text Float)
      (client_empty : L.client_fields L.empty ≡ ok no_client)
      (server_empty : L.server_fields L.empty ≡ ok no_server) where
    -- If an empty table gives no fields: where the resolved file of the client or of the server does
    -- not exist, loading succeeds exactly if the values of the environment alone are accepted, and else
    -- raises `ValidationError`; and with no values in the environment both succeed.
    pub missing_file_lem :
        (files : String → Option Text) (path env : Option String) (client : ClientFields Float)
        (server : ServerFields Float)
        → files (resolve_path path env default_client) ≡ none
        → files (resolve_path path env default_server) ≡ none
        → Decides
            (load_client_config F L files path env client)
            (AcceptsClient F (merge_client client no_client))
          × Decides
              (load_server_config F L files path env server)
              (Given (InUnit F) (merge_server server no_server).confidence_threshold)
          × ((s : ClientSettings Float) × (load_client_config F L files path env no_client ≡ ok s))
          × ((s : ServerSettings Float) × (load_server_config F L files path env no_server ≡ ok s))
    unfolding load_client_config load_server_config fields_in load_toml
    missing_file_lem files path env client server no_client_file no_server_file =
        let of_client = λ (c : ClientFields Float). client_settings_iff F c no_client in
        let of_server = λ (s : ServerFields Float). server_settings_iff F s no_server in
        rw (no_client_file, no_server_file, client_empty, server_empty)
          (
            of_client client,
            of_server server,
            (of_client no_client).complete (tt, tt, tt, tt, (tt, (tt, λ e n. cc), tt), tt),
            (of_server no_server).complete tt,
          )
