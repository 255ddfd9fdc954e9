-- ===== src/Tests/Streams.antt =====
-- The live stream, and the handlers of an alert together.
use counter_cruiser.Prelude.{
  ℕ, zero, suc, ◌≡◌, ap, refl, true, false, none, some, [], ◌∷◌, String, ℤ, pos, ok, Option,
}
use counter_cruiser.Alerts.{AlertContext}
use counter_cruiser.Alerts.Manager
use counter_cruiser.Alerts.Manager.{AlertManager, Outcome, within_cooldown, maybe_alert}
use counter_cruiser.Alerts.Log.{appended}
use counter_cruiser.Alerts.Notifications.{request_exception, ntfy_request, notification_trigger}
use counter_cruiser.Annotation.{Annotated}
use counter_cruiser.Client.Handlers.{
  World, Answers, Setup, build_alert_manager, handlers_of, with_deterrent, deterrent_handler,
}
use counter_cruiser.Client.Reached.{after_alert, maybe_alert_reaches}
use counter_cruiser.Dashboard
use counter_cruiser.Dashboard.{DashboardState, update_frame}
use counter_cruiser.Deterrent.{Ended}
use counter_cruiser.Settings.{AlertConfig, ntfy}
use counter_cruiser.Snapshot.{Sidecar}
use counter_cruiser.Stream.{Round, generate_mjpeg_stream}
use counter_cruiser.Stream.Pacing.{Streamed, generate_mjpeg_stream_lem}
use counter_cruiser.Tests.Fixtures.{toml, store, no_file}
use counter_cruiser.Tests.Records.{media, at_most_two, all_work, alert, directory}

abbrev dashboard : DashboardState ℤ ℤ ℤ
dashboard = Dashboard.init (pos 0) 3

-- The camera's first frame comes in round 2, and the config file is gone from round 3 on.
abbrev rounds : ℕ → Round ℤ ℤ ℤ toml.Text
rounds zero = record { state = dashboard; store = store; drawn_at = "a"; work = 1; late = 0 }
rounds (suc zero) = record { state = dashboard; store = store; drawn_at = "b"; work = 9; late = 2 }
rounds (suc (suc zero)) = record {
  state = update_frame (λ frame. frame) (pos 5) dashboard;
  store = store;
  drawn_at = "c";
  work = 3;
  late = 0;
}
rounds (suc (suc (suc n))) = record {
  state = update_frame (λ frame. frame) (pos 5) dashboard;
  store = no_file;
  drawn_at = "d";
  work = 1;
  late = 0;
}

abbrev jpeg : Annotated ℤ → Option String
jpeg image = some "jpeg"

generate_mjpeg_stream_lem_example :
    Streamed toml
      (λ frame. frame)
      (λ b. b.class_name)
      jpeg
      (pos 40)
      4
      rounds
      5
      0
      100
      (generate_mjpeg_stream toml (λ frame. frame) (λ b. b.class_name) jpeg (pos 40) 4 rounds 5 100)
generate_mjpeg_stream_lem_example =
    generate_mjpeg_stream_lem toml (λ frame. frame) (λ b. b.class_name) jpeg (pos 40) 4 rounds 5 100

abbrev pub setup : Setup ℤ ℤ String (Annotated ℤ) (Sidecar String)
setup = record {
  media = media;
  dumps = λ r. r.timestamp;
  ticks = λ seconds. 10;
  importable = true;
  setmode_ends = Ended.returned;
  setup_ends = Ended.returned;
  mkdir = ok tt;
}

-- Everything is enabled but the log.
abbrev config : AlertConfig ℤ
config = record {
  cooldown_seconds = pos 10;
  deterrent = record {
    enabled = true;
    pin = some (pos 17);
    burst_duration_seconds = pos 1;
    stats_db_path = "stats.db";
  };
  snapshot = at_most_two;
  log = record { enabled = false; file = "alerts.log" };
  notification = record {
    enabled = true;
    provider = some ntfy;
    ntfy_topic = some "cats";
    pushover_user_key = none;
    pushover_api_token = none;
  };
}

-- The pin cannot be driven high, and the network is down.
abbrev answers : Answers String (Annotated ℤ) (Sidecar String)
answers = record {
  drawn = "3";
  now = "3";
  files = all_work;
  log_file = appended;
  post = request_exception;
  output_high = Outcome.raised;
  sleep_burst = Outcome.returned;
  output_low = Outcome.returned;
  insert_row = ok tt;
  row_time = "3";
}

abbrev pub start : World String (Annotated ℤ) (Sidecar String)
start = record {
  answers = answers;
  deterrent = record { has_gpio = false; enabled = false };
  events = [];
  database = some [];
  directory = directory;
  log = "";
  requests = [];
}

abbrev manager : AlertManager (AlertContext ℤ ℤ) (World String (Annotated ℤ) (Sidecar String))
manager = Manager.init (handlers_of setup config) 10 (some deterrent_handler)

maybe_alert_reaches_example :
    (maybe_alert (λ x. x.triggered_zones) 4 alert manager start).1
    ≡ after_alert setup config alert start
unfolding build_alert_manager within_cooldown Manager.init
maybe_alert_reaches_example =
    maybe_alert_reaches setup config alert start (with_deterrent setup true start) start manager []
      4 refl refl

one_request :
    (maybe_alert (λ x. x.triggered_zones) 4 alert manager start).1.requests
    ≡ ntfy_request "https://ntfy.sh/cats" "Dog detected in zone(s): counter" ∷ []
unfolding build_alert_manager within_cooldown Manager.init notification_trigger
one_request =
    ap (λ w. w.requests)
      (maybe_alert_reaches setup config alert start (with_deterrent setup true start) start manager
        [] 4 refl refl)
