-- ===== src/Tests/Household.antt =====
-- One client with its settings, its files and the attempts of its session, for the tests of the whole.
use counter_cruiser.Prelude.{
  ℕ, true, false, some, none, List, [], ◌∷◌, String, str_eq, ℤ, pos, Result, ok, err, os_error,
  value_error, if◌then◌else◌,
}
use counter_cruiser.Annotation.{Annotated}
use counter_cruiser.Alerts.{AlertContext}
use counter_cruiser.Alerts.Manager
use counter_cruiser.Alerts.Manager.{AlertManager}
use counter_cruiser.Protocol.{AnyMessage, DetectionMessage, detection}
use counter_cruiser.Settings.{ClientFields, ClientSettings}
use counter_cruiser.Snapshot.{Sidecar}
use counter_cruiser.ZoneStore.{replaced, Disk}
use counter_cruiser.ZoneStore.Requests
use counter_cruiser.ZoneStore.Requests.{Request}
use counter_cruiser.Connection.{Turn, Attempt}
use counter_cruiser.Client.{Readings}
use counter_cruiser.Client.Handlers.{World, handlers_of, with_deterrent, deterrent_handler}
use counter_cruiser.Main.{Given}
use counter_cruiser.Tests.Fixtures.{toml, box, store}
use counter_cruiser.Tests.Streams.{setup, start}
use counter_cruiser.Tests.Restart.{nothing, defaults}

abbrev pub dog : DetectionMessage ℤ ℕ
dog = record { frame_id = pos 1; boxes = box ∷ []; processing_time_ms = pos 3; timestamp = 0 }

abbrev pub parse : String → Result (AnyMessage ℤ ℕ)
parse raw = if str_eq raw "dog" then ok (detection dog) else err value_error

abbrev pub encode : ℤ → ℤ → ℕ → Result (ℤ × ℕ)
encode quality image id = ok (image, id)

abbrev pub readings : ℕ → Readings String
readings n = record { received_at = n; tick_at = n; alert_at = n; utc = "3" }

-- The server is away at first. Then one frame in three is sent, two answers come, a zone is renamed, and
-- the signal ends the client.
abbrev pub attempts : List (Attempt ℤ (Readings String) String (Disk × Request))
attempts =
    Attempt.refused os_error false false
    ∷ Attempt.made
        (Turn.sender_goes (true, some (pos 1)) 1
          ∷ Turn.sender_goes (true, some (pos 2)) 2
          ∷ Turn.sender_goes (true, some (pos 3)) 3
          ∷ Turn.sender_awaited (ok tt)
          ∷ Turn.message (readings 4) "dog"
          ∷ Turn.requested (replaced 6, Requests.edit "counter" (some 5) (some "Sink") none none)
          ∷ Turn.message (readings 5) "dog"
          ∷ Turn.signal
          ∷ Turn.sender_goes (true, none) 6
          ∷ Turn.sender_awaited (ok tt)
          ∷ Turn.messages_end (ok tt)
          ∷ [])
        (ok tt) false false
    ∷ []

-- The deterrent and the snapshots are enabled.
abbrev pub env_fields : ClientFields ℤ
env_fields = record nothing {
  zones = none;
  alerts = record nothing.alerts {
    deterrent = record {
      enabled = some true;
      pin = some (some (pos 17));
      burst_duration_seconds = none;
      stats_db_path = none;
    };
    snapshot = record {
      enabled = some true;
      dir = none;
      max_count = none;
      include_boxes = none;
      include_zones = none;
    };
  };
}

abbrev pub config : ClientSettings ℤ
config = record defaults {
  zones = store.zones;
  alerts = record defaults.alerts {
    deterrent = record {
      enabled = true;
      pin = some (pos 17);
      burst_duration_seconds = pos 3;
      stats_db_path = "./deterrent_stats.db";
    };
    snapshot = record {
      enabled = true;
      dir = "./snapshots";
      max_count = pos 200;
      include_boxes = true;
      include_zones = true;
    };
  };
}

abbrev pub given : Given toml.Text ℤ ℤ String
given = record {
  env_path = some "/etc/cat.toml";
  env_fields = env_fields;
  files = λ path. some (record { content = (false, store.zones); mtime = 5 });
  schema_answer = ok tt;
  opening = record { is_opened = true; width = ok (pos 640); height = ok (pos 480) };
  attempts = attempts;
}

abbrev pub Whole : Type 0
Whole = World String (Annotated ℤ) (Sidecar String)

abbrev pub made : AlertManager (AlertContext ℤ ℤ) Whole × Whole
made = (
  Manager.init (handlers_of setup config.alerts) 10 (some deterrent_handler),
  with_deterrent setup true start,
)
