-- ===== src/Tests/Whole.antt =====
-- The whole client, from its settings to its clean-up.
use counter_cruiser.Prelude.{
  ℕ, Option, Result, ◌≡◌, ◌≤◌, refl, true, some, none, false, [], ◌∷◌, String, ℤ, pos, ok, err,
  os_error, length,
}
use counter_cruiser.Annotation.{Annotated}
use counter_cruiser.Alerts.Manager
use counter_cruiser.Alerts.Manager.{AlertManager}
use counter_cruiser.Dashboard.{get_alerts, get_deterrent_status}
use counter_cruiser.Deterrent.{Event, construct}
use counter_cruiser.Settings.{
  client_settings, validate_client, alert_config, deterrent_config, snapshot_config,
}
use counter_cruiser.Config.{load_client_config, fields_in, load_toml}
use counter_cruiser.Snapshot.{Sidecar}
use counter_cruiser.Stats.{init_schema}
use counter_cruiser.ZoneStore.Invariant.{WellFormed}
use counter_cruiser.Client.Handlers.{Setup, build_alert_manager}
use counter_cruiser.Deterrent.Settled.{Settled}
use counter_cruiser.Client.Pin.{works}
use counter_cruiser.Main.{
  Given, alert_history_capacity, settings, built, session_run, main, life_of, client_of,
}
use counter_cruiser.Main.Started.{session_run_lem}
use counter_cruiser.Main.CleanUp.{CleanedUp, main_lem, main_unbuilt}
use counter_cruiser.Tests.Fixtures.{floats, in_square, toml, store-WellFormed}
use counter_cruiser.Tests.Streams.{setup, start}
use counter_cruiser.Tests.Restart.{loading}
use counter_cruiser.Connection
use counter_cruiser.Connection.{Turn, Attempt, run_connection, begin}
use counter_cruiser.Camera.{open_capture, read}
use counter_cruiser.Transport
use counter_cruiser.Transport.{send_round, stop}
use counter_cruiser.Deterrent
use counter_cruiser.Tests.Household.{Whole, parse, encode, config, given, made}

loaded :
    settings toml floats in_square ℤ String
      (Annotated ℤ)
      (Sidecar String)
      (λ f. f)
      ℕ
      parse
      (ℤ × ℕ)
      encode
      loading
      setup
      given
    ≡ ok config
unfolding load_client_config fields_in load_toml client_settings validate_client alert_config
    deterrent_config snapshot_config
loaded = refl

handlers_made :
    built toml floats in_square ℤ String
      (Annotated ℤ)
      (Sidecar String)
      (λ f. f)
      ℕ
      parse
      (ℤ × ℕ)
      encode
      loading
      setup
      given
      config
      start
    ≡ (ok made, made.1)
unfolding built init_schema build_alert_manager Manager.init construct
handlers_made = refl

session_run_lem_example :
    let c =
      (session_run toml floats in_square ℤ String
        (Annotated ℤ)
        (Sidecar String)
        (λ f. f)
        ℕ
        parse
        (ℤ × ℕ)
        encode
        loading
        setup
        given
        config
        made).1.client in
    (get_deterrent_status c.dashboard
      ≡ record { configured = true; operational = works setup config.alerts })
    × (length (get_alerts c.dashboard) ≤ alert_history_capacity)
    × WellFormed c.store.zones
    × Settled c.world.events
session_run_lem_example =
    session_run_lem toml floats in_square ℤ String (Annotated ℤ) (Sidecar String) (λ f. f) ℕ parse
      (ℤ × ℕ) encode loading setup given config start made made.1 handlers_made store-WellFormed
      refl

main_lem_example :
    let run =
      session_run toml floats in_square ℤ String
        (Annotated ℤ)
        (Sidecar String)
        (λ f. f)
        ℕ
        parse
        (ℤ × ℕ)
        encode
        loading
        setup
        given
        config
        made in
    CleanedUp toml floats in_square ℤ String
      (Annotated ℤ)
      (Sidecar String)
      (λ f. f)
      ℕ
      parse
      (ℤ × ℕ)
      encode
      loading
      setup
      given
      config
      start
      run.0
      run.1.client.world
      (main toml floats in_square ℤ String
        (Annotated ℤ)
        (Sidecar String)
        (λ f. f)
        ℕ
        parse
        (ℤ × ℕ)
        encode
        loading
        setup
        given
        start)
main_lem_example =
    main_lem toml floats in_square ℤ String (Annotated ℤ) (Sidecar String) (λ f. f) ℕ parse (ℤ × ℕ)
      encode loading setup given config start made made.1 loaded handlers_made store-WellFormed refl

-- The server is away at first; then one frame is sent, and the signal ends the client.
abbrev quiet : Given toml.Text ℤ ℤ String
quiet = record given {
  attempts =
      Attempt.refused os_error false false
      ∷ Attempt.made
          (Turn.sender_goes (true, some (pos 1)) 1
            ∷ Turn.sender_goes (true, some (pos 2)) 2
            ∷ Turn.sender_goes (true, some (pos 3)) 3
            ∷ Turn.sender_awaited (ok tt)
            ∷ Turn.signal
            ∷ Turn.sender_goes (true, none) 6
            ∷ Turn.sender_awaited (ok tt)
            ∷ Turn.messages_end (ok tt)
            ∷ [])
          (ok tt) false false
      ∷ [];
}

abbrev quiet_run : Option (Result (Unit {0})) × Whole
quiet_run =
    main toml floats in_square ℤ String (Annotated ℤ) (Sidecar String) (λ f. f) ℕ parse (ℤ × ℕ)
      encode loading setup quiet start

-- The pin was claimed, never raised, and released.
quiet_ends :
    (quiet_run.0 ≡ some (ok tt))
    × (quiet_run.1.events ≡ Event.setmode ∷ Event.setup_low ∷ Event.release ∷ [])
unfolding main load_client_config client_settings init_schema build_alert_manager Connection.run
    open_capture life_of Transport.init run_connection begin send_round read stop Manager.cleanup
    client_of Deterrent.cleanup
quiet_ends = (refl, refl)

-- The directory of the snapshots cannot be made.
abbrev no_directory : Setup ℤ ℤ String (Annotated ℤ) (Sidecar String)
no_directory = record setup { mkdir = err os_error }

main_unbuilt_example :
    let after =
      main toml floats in_square ℤ String
        (Annotated ℤ)
        (Sidecar String)
        (λ f. f)
        ℕ
        parse
        (ℤ × ℕ)
        encode
        loading
        no_directory
        given
        start in
    (after.0 ≡ some (err os_error))
    × (after.1.events ≡ Event.setmode ∷ Event.setup_low ∷ [])
    × (after.1.deterrent.has_gpio ≡ true)
main_unbuilt_example =
    main_unbuilt toml floats in_square ℤ String (Annotated ℤ) (Sidecar String) (λ f. f) ℕ parse
      (ℤ × ℕ) encode loading no_directory given config start os_error loaded refl refl refl refl
