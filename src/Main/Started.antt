-- ===== src/Main/Started.antt =====
-- What `main` has built when the session starts, and what holds from then on.
use counter_cruiser.Prelude.{
  ℕ, ◌≡◌, refl, ap, ◌∙◌, false, List, length, ◌≤◌, String, ℤ, Result, ok, err, Floats, arith,
  if◌then◌else◌,
}
use counter_cruiser.Protocol.{AnyMessage}
use counter_cruiser.Settings.{ClientSettings}
use counter_cruiser.Config.{Loading}
use counter_cruiser.ZoneStore.{Toml}
use counter_cruiser.ZoneStore.Invariant.{WellFormed}
use counter_cruiser.Dashboard
use counter_cruiser.Dashboard.{
  DeterrentStatus, get_alerts, get_deterrent_status, set_deterrent_status,
}
use counter_cruiser.Deterrent.{is_operational}
use counter_cruiser.Stats.{Database, init_schema}
use counter_cruiser.Alerts.{AlertContext}
use counter_cruiser.Alerts.Manager.{AlertManager, all_handlers}
use counter_cruiser.Connection.Invariant.{run-keeps}
use counter_cruiser.Client.Handlers.{World, Setup, with_deterrent}
use counter_cruiser.Deterrent.Settled.{Settled}
use counter_cruiser.Client.Pin.{
  client_handlers, client_handlers-keeps, build_alert_manager-handlers, with_deterrent-Settled,
  works, with_deterrent-works,
}
use counter_cruiser.Main.Callbacks.{on_connection_change, callbacks}
use counter_cruiser.Main.Defs.{
  Given, alert_history_capacity, with_database, built, operational, client_of, life_of, session_run,
}
use counter_cruiser.Main.Kept.{Healthy, callbacks-Healthy}

module _ (T : Toml) (F : Floats) (point_polygon_test : List (ℤ × ℤ) → F.Float × F.Float → ℤ)
    (Frame Time Image Text : Type 0) (copy : Frame → Frame) (Stamp : Type 0)
    (deserialize : String → Result (AnyMessage F.Float Stamp)) (Message : Type 0)
    (encode : ℤ → Frame → ℕ → Result Message) (L : Loading T.Text F.Float)
    (S : Setup Frame F.Float Time Image Text) (g : Given T.Text F.Float Frame Time)
    (config : ClientSettings F.Float) (w : World Time Image Text) where
  open F use {Float}

  abbrev Built : Type 0
  Built = AlertManager (AlertContext Frame Float) (World Time Image Text) × World Time Image Text

  pub with_database-made :
      (r : Result (Unit {0}) × Database) (m : Built) (w' : World Time Image Text)
      → with_database T F point_polygon_test Frame Time Image Text copy Stamp deserialize Message
          encode L S config w r
        ≡ (ok m, w')
      → (all_handlers m.0 ≡ client_handlers S config.alerts)
        × (m.1 ≡ with_deterrent S config.alerts.deterrent.enabled (record w { database = r.1 }))
  with_database-made (err e, db) m w' h = cc
  with_database-made (ok u, db) m w' h =
      let w1 = record w { database = db } in
      build_alert_manager-handlers S config.alerts w1 m.0 m.1 (ap (λ r. r.0) h)

  -- What the dashboard shows of the deterrent.
  abbrev pub status_of : World Time Image Text → DeterrentStatus
  status_of w' = record {
    configured = config.alerts.deterrent.enabled;
    operational =
        operational T F point_polygon_test Frame Time Image Text copy Stamp deserialize Message
          encode L S config w';
  }

  pub session_run-Healthy :
      (made : Built) (w' : World Time Image Text)
      → built T F point_polygon_test Frame Time Image Text copy Stamp deserialize Message encode L S
          g config w
        ≡ (ok made, w')
      → WellFormed config.zones
      → Settled w.events
      → Healthy T F point_polygon_test Frame Time Image Text copy Stamp deserialize
          (client_handlers S config.alerts)
          (status_of made.1)
          made.1.deterrent
          (session_run T F point_polygon_test Frame Time Image Text copy Stamp deserialize Message
            encode L S g config made).1.client
  unfolding built session_run client_of life_of Dashboard.init set_deterrent_status
  session_run-Healthy made w' h zones down =
      let database = (init_schema g.schema_answer w.database).1 in
      let (same, world) = with_database-made (init_schema g.schema_answer w.database) made w' h in
      let down' : Settled made.1.events =
        rw world (with_deterrent-Settled S config.alerts (record w { database = database }) down) in
      run-keeps (encode config.jpeg_quality)
        (callbacks T F point_polygon_test Frame Time Image Text copy Stamp deserialize
          config.min_size_ratio)
        (on_connection_change T F point_polygon_test Frame Time Image Text copy)
        (Healthy T F point_polygon_test Frame Time Image Text copy Stamp deserialize
          (client_handlers S config.alerts) (status_of made.1) made.1.deterrent)
        (callbacks-Healthy T F point_polygon_test Frame Time Image Text copy Stamp deserialize
          config.min_size_ratio (client_handlers S config.alerts) (status_of made.1)
          made.1.deterrent (client_handlers-keeps S config.alerts made.1.deterrent))
        _ g.opening g.attempts _
        (record {
          stored = zones;
          ready = (same, (refl, down'));
          shown = refl;
          bound = refl;
          bounded = omega arith;
        })

  -- From the start of the session on, whatever its attempts, messages and requests: the page of the
  -- deterrent tells whether the settings enable it, and that it is operational exactly if they do, the
  -- library can be imported and the setup of the pin returned; at most 50 alerts are kept; the zones
  -- have distinct ids and polygons of at least three points, if those of the settings do; and between calls
  -- the pin is known to be low exactly if the last call that drove it low returned, or if there was none, if that held
  -- before `main`.
  pub session_run_lem :
      (made : Built) (w' : World Time Image Text)
      → built T F point_polygon_test Frame Time Image Text copy Stamp deserialize Message encode L S
          g config w
        ≡ (ok made, w')
      → WellFormed config.zones
      → Settled w.events
      → let c =
          (session_run T F point_polygon_test Frame Time Image Text copy Stamp deserialize Message
            encode L S g config made).1.client in
        (get_deterrent_status c.dashboard ≡ record {
          configured = config.alerts.deterrent.enabled;
          operational = works S config.alerts;
        })
        × (length (get_alerts c.dashboard) ≤ alert_history_capacity)
        × WellFormed c.store.zones
        × (Settled c.world.events)
  unfolding built
  session_run_lem made w' h zones down =
      let healthy = session_run-Healthy made w' h zones down in
      let (same, world) = with_database-made (init_schema g.schema_answer w.database) made w' h in
      let w1 = record w { database = (init_schema g.schema_answer w.database).1 } in
      let operational_now =
        ap (λ v. if config.alerts.deterrent.enabled then is_operational v.deterrent else false)
          world
        ∙ with_deterrent-works S config.alerts w1 in
      let status_now : status_of made.1 ≡ record {
        configured = config.alerts.deterrent.enabled;
        operational = works S config.alerts;
      } =
        ap (λ b. record { configured = config.alerts.deterrent.enabled; operational = b })
          operational_now in
      (healthy.shown ∙ status_now, healthy.bounded, healthy.stored, healthy.ready.1.1)
