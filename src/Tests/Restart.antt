-- ===== src/Tests/Restart.antt =====
-- Settings, and a restart after an edit.
use mathlib.Core.Option
use counter_cruiser.Prelude.{
  ◌≡◌, refl, ap, Bool, true, false, Option, none, some, List, [], map, String, ℤ, pos, Result, ok,
  err, validation_error, sym, ◌∙◌, ok_injective,
}
use counter_cruiser.Zone.{Zone, zone_eq}
use counter_cruiser.Settings.{
  ClientFields, ServerFields, ClientSettings, client_settings, server_settings, merge_client,
  deterrent_config, snapshot_config, validate_client, alert_config,
}
use counter_cruiser.Settings.Steps.{Decides, Given}
use counter_cruiser.Settings.Accepted.{
  AcceptsClient, InUnit, client_settings_iff, server_settings_iff,
}
use counter_cruiser.Settings.Bounds.{Literals, InBounds, client_settings-InBounds}
use counter_cruiser.ZoneStore.{edit_zone, replaced}
use counter_cruiser.ZoneStore.Requests.{Request, edit, perform}
use counter_cruiser.Config.{
  Loading, fields_in, load_toml, load_client_config, resolve_client_config_path,
}
use counter_cruiser.Config.Missing.{no_client}
use counter_cruiser.Config.Fields.{fields_of_zone, KeepsFields}
use counter_cruiser.Config.Reload.{files_with, load-perform}
use counter_cruiser.Tests.Fixtures.{floats, toml, store, store-WellFormed}

abbrev pub nothing : ClientFields ℤ
nothing = no_client floats

-- The environment's quality goes before that of the file.
abbrev env_quality : ClientFields ℤ
env_quality = record nothing { jpeg_quality = some (pos 60) }

abbrev file_quality : ClientFields ℤ
file_quality = record nothing { jpeg_quality = some (pos 101); frame_skip = some (pos 2) }

abbrev quality_of : Result (ClientSettings ℤ) → Option ℤ
quality_of (ok s) = some s.jpeg_quality
quality_of (err e) = none

quality_runs :
    (quality_of (client_settings floats env_quality file_quality) ≡ some (pos 60))
    × (client_settings floats nothing file_quality ≡ err validation_error)
unfolding client_settings validate_client alert_config deterrent_config snapshot_config
quality_runs = (refl, refl)

client_settings_iff_example :
    Decides
      (client_settings floats env_quality file_quality)
      (AcceptsClient floats (merge_client env_quality file_quality))
client_settings_iff_example = client_settings_iff floats env_quality file_quality

literals : Literals floats
literals = record {
  quarter = refl;
  one_and_a_half = refl;
  five_positive = refl;
  five_non_negative = refl;
}

abbrev pub defaults : ClientSettings ℤ
defaults = record {
  server_host = "localhost";
  server_port = pos 8765;
  camera_index = pos 0;
  frame_width = pos 640;
  frame_height = pos 480;
  jpeg_quality = pos 85;
  frame_skip = pos 3;
  min_size_ratio = pos 1;
  zones = [];
  alerts = record {
    cooldown_seconds = pos 5;
    deterrent = record {
      enabled = false;
      pin = none;
      burst_duration_seconds = pos 3;
      stats_db_path = "./deterrent_stats.db";
    };
    snapshot = record {
      enabled = false;
      dir = "./snapshots";
      max_count = pos 200;
      include_boxes = true;
      include_zones = true;
    };
    log = record { enabled = false; file = "./alerts.log" };
    notification = record {
      enabled = false;
      provider = none;
      ntfy_topic = none;
      pushover_user_key = none;
      pushover_api_token = none;
    };
  };
  web_host = "0.0.0.0";
  web_port = pos 8080;
  web_stream_fps = pos 5;
}

defaults_built : client_settings floats nothing nothing ≡ ok defaults
unfolding client_settings validate_client alert_config deterrent_config snapshot_config
defaults_built = refl

client_settings-InBounds_example : InBounds floats defaults
client_settings-InBounds_example =
    client_settings-InBounds floats nothing nothing defaults literals defaults_built

abbrev threshold : ServerFields ℤ
threshold = record {
  host = none;
  port = none;
  model_name = none;
  device = none;
  confidence_threshold = some (pos 2);
}

server_settings_iff_example :
    Decides (server_settings floats threshold threshold) (Given (InUnit floats) (some (pos 2)))
server_settings_iff_example = server_settings_iff floats threshold threshold

abbrev wrapper_table : Bool × List Zone → Option (Bool × List Zone)
wrapper_table (true, zones) = some (false, zones)
wrapper_table (false, zones) = none

-- The wrapper table is not a field of the settings.
abbrev zone_fields : Bool × List Zone → Result (ClientFields ℤ)
zone_fields (true, zones) = err validation_error
zone_fields (false, zones) = ok (record nothing { zones = some (map fields_of_zone zones) })

abbrev pub loading : Loading (Bool × List Zone) ℤ
loading = record {
  Raw = Bool × List Zone;
  empty = (false, []);
  parse = λ text. ok text;
  wrapper = wrapper_table;
  client_fields = zone_fields;
  server_fields = λ raw. ok threshold;
}

abbrev with_zones_of : List Zone → Result (ClientFields ℤ) → Result (ClientFields ℤ)
with_zones_of zones (err e) = err e
with_zones_of zones (ok f) = ok (record f { zones = some (map fields_of_zone zones) })

keeps_plain : (d : Bool × List Zone) → d.0 ≡ false → wrapper_table d ≡ none
keeps_plain (true, zs) h = cc
keeps_plain (false, zs) h = refl

keeps_wrapper :
    (d : Bool × List Zone)
    → d.0 ≡ true
    → (table : Bool × List Zone) × (wrapper_table d ≡ some table)
keeps_wrapper (true, zs) h = ((false, zs), refl)
keeps_wrapper (false, zs) h = cc

plain_kept :
    (raw : Bool × List Zone) (zones : List Zone)
    → wrapper_table raw ≡ none
    → wrapper_table (raw.0, zones) ≡ none
plain_kept (true, zs) zones h = cc
plain_kept (false, zs) zones h = refl

abbrev with_zones : List Zone → Bool × List Zone → Bool × List Zone
with_zones zones raw = (raw.0, zones)

wrapper_kept :
    (raw table : Bool × List Zone) (zones : List Zone)
    → wrapper_table raw ≡ some table
    → wrapper_table (true, zones) ≡ some (with_zones zones table)
wrapper_kept (true, zs) table zones h = ap (Option.map (with_zones zones)) h
wrapper_kept (false, zs) table zones h = cc

fields_kept :
    (table : Bool × List Zone) (f : ClientFields ℤ) (zones : List Zone)
    → zone_fields table ≡ ok f
    → zone_fields (table.0, zones) ≡ ok (record f { zones = some (map fields_of_zone zones) })
fields_kept (true, zs) f zones h = cc
fields_kept (false, zs) f zones h = ap (with_zones_of zones) h

loading-KeepsFields : KeepsFields toml floats loading
loading-KeepsFields = record {
  at_top = with_zones;
  in_wrapper = λ zones raw. (true, zones);
  writes_top = λ text d raw zones h g bare.
      ap (λ b. ok (b, zones)) (sym bare ∙ ap (λ t. t.0) (sym (ok_injective h) ∙ ok_injective g));
  writes_wrapped = λ text d raw zones h g has. refl;
  plain = λ text d raw h g bare.
      keeps_plain raw (ap (λ t. t.0) (sym (ok_injective g) ∙ ok_injective h) ∙ bare);
  with_wrapper = λ text d raw h g has.
      keeps_wrapper raw (ap (λ t. t.0) (sym (ok_injective g) ∙ ok_injective h) ∙ has);
  wrapper-at_top = plain_kept;
  wrapper-in_wrapper = wrapper_kept;
  fields-at_top = λ table f zones h v. fields_kept table f zones h;
}

abbrev rename : Request
rename = edit "counter" (some 5) (some "Sink") none none

rename_done : (perform toml (replaced 6) rename store).0 ≡ ok tt
unfolding perform edit_zone zone_eq
rename_done = refl

env_wins : resolve_client_config_path none (some "/etc/cat.toml") ≡ "/etc/cat.toml"
unfolding resolve_client_config_path
env_wins = refl

abbrev path : Option String
path = some "/etc/cat.toml"

loaded_before :
    load_client_config floats loading
      (files_with "/etc/cat.toml" store (λ p. none))
      none
      path
      nothing
    ≡ ok (record defaults { zones = store.zones })
unfolding load_client_config fields_in load_toml client_settings validate_client alert_config
    deterrent_config snapshot_config
loaded_before = refl

load-perform_example :
    let s' = (perform toml (replaced 6) rename store).1 in
    load_client_config floats loading
      (files_with (resolve_client_config_path none path) s' (λ p. none))
      none
      path
      nothing
    ≡ ok (record defaults { zones = s'.zones })
unfolding resolve_client_config_path
load-perform_example =
    load-perform toml floats loading loading-KeepsFields (replaced 6) rename store (λ p. none) none
      path nothing store-WellFormed refl loaded_before rename_done
