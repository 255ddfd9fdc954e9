-- ===== src/Main/Defs.antt =====
-- `main` over one world: what it builds from the settings, the session that it runs, and the clean-up.
use counter_cruiser.Prelude.{
  ℕ, Bool, false, Option, none, some, List, [], String, ℤ, pos, negsuc, Result, ok, err, Floats,
  if◌then◌else◌,
}
use mathlib.Core.Option
use counter_cruiser.Protocol.{AnyMessage}
use counter_cruiser.Settings.{ClientFields, ClientSettings}
use counter_cruiser.Config.{Loading, load_client_config, resolve_client_config_path}
use counter_cruiser.ZoneStore.{Toml, ConfigFile, Disk}
use counter_cruiser.ZoneStore.Requests.{Request}
use counter_cruiser.Debounce
use counter_cruiser.Dashboard
use counter_cruiser.Dashboard.{DashboardState, set_deterrent_status}
use counter_cruiser.Deterrent.{is_operational}
use counter_cruiser.Stats.{Database, init_schema}
use counter_cruiser.Alerts.{AlertContext}
use counter_cruiser.Alerts.Manager.{AlertManager, cleanup}
use counter_cruiser.Camera.{Opening, unopened}
use counter_cruiser.Transport
use counter_cruiser.Connection.{Attempt, Life, run}
use counter_cruiser.Client.{Readings}
use counter_cruiser.Client.Fps
use counter_cruiser.Client.Handlers.{World, Setup, build_alert_manager, with_deterrent}
use counter_cruiser.Main.Callbacks.{ClientOf, on_connection_change, callbacks}

-- The defaults of `DetectionHistory`, `DashboardState` and `ClientSession`, and `_FPS_WINDOW_SECONDS`.
abbrev pub max_size : ℕ
max_size = 20

abbrev pub alert_history_capacity : ℕ
alert_history_capacity = 50

abbrev pub frame_buffer_capacity : ℕ
frame_buffer_capacity = 30

abbrev pub fps_window_seconds : ℤ
fps_window_seconds = pos 5

-- A number of the settings that the validator keeps at 0 or more.
abbrev pub natural : ℤ → ℕ
natural (pos n) = n
natural (negsuc n) = 0

-- What the environment supplies: the variable for the path and the fields of the other variables, the
-- files, the answers of SQLite and of the camera, and the attempts of the session up to some moment.
pub record Given (ConfigText Float Frame Time : Type 0) : Type 0 where
  pub env_path : Option String
  pub env_fields : ClientFields Float
  pub files : String → Option (ConfigFile ConfigText)
  pub schema_answer : Result (Unit {0})
  pub opening : Opening
  pub attempts : List (Attempt Frame (Readings Time) String (Disk × Request))

module _ (T : Toml) (F : Floats) (point_polygon_test : List (ℤ × ℤ) → F.Float × F.Float → ℤ)
    (Frame Time Image Text : Type 0) (copy : Frame → Frame) (Stamp : Type 0)
    (deserialize : String → Result (AnyMessage F.Float Stamp)) (Message : Type 0)
    (encode : ℤ → Frame → ℕ → Result Message) (L : Loading T.Text F.Float)
    (S : Setup Frame F.Float Time Image Text) where
  open F use {Float, of_int}
  open T use {Text as ConfigText}

  abbrev pub Manager : Type 0
  Manager = AlertManager (AlertContext Frame Float) (World Time Image Text)

  abbrev pub settings : Given ConfigText Float Frame Time → Result (ClientSettings Float)
  settings g =
      load_client_config F L (λ path. Option.map (λ file. file.content) (g.files path)) none
        g.env_path g.env_fields

  -- The handlers once the schema of the database was asked for. The handler of the deterrent is made
  -- before that of the snapshots, whose directory may fail to be made.
  abbrev pub with_database :
      ClientSettings Float
      → World Time Image Text
      → Result (Unit {0}) × Database
      → Result (Manager × World Time Image Text) × World Time Image Text
  with_database config w (err e, database) = (err e, record w { database = database })
  with_database config w (ok u, database) =
      let w' = record w { database = database } in
      (build_alert_manager S config.alerts w', with_deterrent S config.alerts.deterrent.enabled w')

  -- The manager with its handlers, or the exception; and the world.
  unfoldable pub built :
      Given ConfigText Float Frame Time
      → ClientSettings Float
      → World Time Image Text
      → Result (Manager × World Time Image Text) × World Time Image Text
  built g config w = with_database config w (init_schema g.schema_answer w.database)

  -- `deterrent_handler.is_operational if deterrent_handler else False`
  abbrev pub operational : ClientSettings Float → World Time Image Text → Bool
  operational config w =
      if config.alerts.deterrent.enabled then is_operational w.deterrent else false

  -- The state over which `on_result` closes.
  unfoldable pub client_of :
      Given ConfigText Float Frame Time
      → (config : ClientSettings Float) → Manager × World Time Image Text
      → ClientOf T F point_polygon_test Frame Time Image Text copy config.min_size_ratio
  client_of g config (manager, world) = record {
    store = record {
      zones = config.zones;
      file = g.files (resolve_client_config_path none g.env_path);
      temp_files = 0;
    };
    history = Debounce.init max_size;
    dashboard =
        set_deterrent_status config.alerts.deterrent.enabled (operational config world)
          (Dashboard.init (of_int (pos 0)) alert_history_capacity);
    fps = Fps.init (S.ticks (of_int fps_window_seconds));
    manager = manager;
    world = world;
  }

  -- The session before it runs.
  unfoldable pub life_of :
      (config : ClientSettings Float)
      → ClientOf T F point_polygon_test Frame Time Image Text copy config.min_size_ratio
      → Life Frame
          (ClientOf T F point_polygon_test Frame Time Image Text copy config.min_size_ratio)
  life_of config client = record {
    camera = unopened;
    device_calls = [];
    session = Transport.init frame_buffer_capacity (natural config.frame_skip);
    frame_height = config.frame_height;
    client = client;
    calls = [];
  }

  -- `asyncio.run(session.run())`
  unfoldable pub session_run :
      Given ConfigText Float Frame Time
      → (config : ClientSettings Float) → Manager × World Time Image Text
      → Option (Result (Unit {0}))
        × Life Frame
            (ClientOf T F point_polygon_test Frame Time Image Text copy config.min_size_ratio)
  session_run g config made =
      run (encode config.jpeg_quality)
        (callbacks T F point_polygon_test Frame Time Image Text copy Stamp deserialize
          config.min_size_ratio)
        (on_connection_change T F point_polygon_test Frame Time Image Text copy)
        (record {
          camera_index = config.camera_index;
          frame_width = config.frame_width;
          frame_height = config.frame_height;
        })
        g.opening g.attempts (life_of config (client_of g config made))

  -- The `finally` clause, once the session has ended.
  abbrev pub cleaned_up :
      {m : Float}
      → Option (Result (Unit {0}))
      → ClientOf T F point_polygon_test Frame Time Image Text copy m
      → Option (Result (Unit {0})) × World Time Image Text
  cleaned_up none c = (none, c.world)
  cleaned_up (some result) c = (some result, cleanup c.manager c.world)

  abbrev pub with_handlers :
      Given ConfigText Float Frame Time
      → ClientSettings Float
      → Result (Manager × World Time Image Text) × World Time Image Text
      → Option (Result (Unit {0})) × World Time Image Text
  with_handlers g config (err e, w) = (some (err e), w)
  with_handlers g config (ok made, w) =
      let (ended, life) = session_run g config made in cleaned_up ended life.client

  abbrev pub with_settings :
      Given ConfigText Float Frame Time
      → World Time Image Text
      → Result (ClientSettings Float)
      → Option (Result (Unit {0})) × World Time Image Text
  with_settings g w (err e) = (some (err e), w)
  with_settings g w (ok config) = with_handlers g config (built g config w)

  -- None while the session goes on.
  unfoldable pub main :
      Given ConfigText Float Frame Time
      → World Time Image Text
      → Option (Result (Unit {0})) × World Time Image Text
  unfolding built session_run
  main g w = with_settings g w (settings g)
