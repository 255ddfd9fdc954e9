-- ===== src/Main/CleanUp.antt =====
-- How `main` ends.
use counter_cruiser.Prelude.{
  ℕ, ◌≡◌, ◌≢◌, ◌++◌, refl, ap, ◌∙◌, Bool, true, false, Option, none, some, List, [], ◌∷◌, String, ℤ,
  Result, ok, err, Exception, Floats, if◌then◌else◌,
}
use counter_cruiser.Protocol.{AnyMessage}
use counter_cruiser.Settings.{ClientSettings}
use counter_cruiser.Config.{Loading}
use counter_cruiser.ZoneStore.{Toml}
use counter_cruiser.ZoneStore.Invariant.{WellFormed}
use counter_cruiser.Deterrent.{Event, construct}
use counter_cruiser.Stats.{init_schema}
use counter_cruiser.Alerts.{AlertContext}
use counter_cruiser.Alerts.Manager.{AlertManager, all_handlers, cleanup}
use counter_cruiser.Connection.{Life}
use counter_cruiser.Client.Handlers.{World, Setup, build_alert_manager, with_deterrent}
use counter_cruiser.Deterrent.Settled.{Settled, append-Settled}
use counter_cruiser.Client.Pin.{
  client_handlers, works, with_deterrent-has_gpio, with_deterrent-set_up, cleanup_all-released,
}
use counter_cruiser.Main.Callbacks.{ClientOf}
use counter_cruiser.Main.Defs.{Given, built, session_run, settings, cleaned_up, main}
use counter_cruiser.Main.Started.{session_run-Healthy, with_database-made}

module _ (T : Toml) (F : Floats) (point_polygon_test : List (ℤ × ℤ) → F.Float × F.Float → ℤ)
    (Frame Time Image Text : Type 0) (copy : Frame → Frame) (Stamp : Type 0)
    (deserialize : String → Result (AnyMessage F.Float Stamp)) (Message : Type 0)
    (encode : ℤ → Frame → ℕ → Result Message) (L : Loading T.Text F.Float)
    (S : Setup Frame F.Float Time Image Text) (g : Given T.Text F.Float Frame Time)
    (config : ClientSettings F.Float) (w : World Time Image Text) where
  open F use {Float}

  abbrev Built : Type 0
  Built = AlertManager (AlertContext Frame Float) (World Time Image Text) × World Time Image Text

  abbrev ran :
      Built
      → Option (Result (Unit {0}))
        × Life Frame
            (ClientOf T F point_polygon_test Frame Time Image Text copy config.min_size_ratio)
  ran made =
      session_run T F point_polygon_test Frame Time Image Text copy Stamp deserialize Message encode
        L S g config made

  abbrev after_main : Option (Result (Unit {0})) × World Time Image Text
  after_main =
      main T F point_polygon_test Frame Time Image Text copy Stamp deserialize Message encode L S g
        w

  abbrev at_build : Result Built × World Time Image Text
  at_build =
      built T F point_polygon_test Frame Time Image Text copy Stamp deserialize Message encode L S g
        config w

  pub main-err :
      (e : Exception)
      → settings T F point_polygon_test Frame Time Image Text copy Stamp deserialize Message encode
          L S g
        ≡ err e
      → after_main ≡ (some (err e), w)
  unfolding main
  main-err e h = rw h

  main-ok :
      (made : Built) (w' : World Time Image Text)
      → settings T F point_polygon_test Frame Time Image Text copy Stamp deserialize Message encode
          L S g
        ≡ ok config
      → at_build ≡ (ok made, w')
      → after_main
        ≡ cleaned_up T F point_polygon_test Frame Time Image Text copy Stamp deserialize Message
            encode L S
            (ran made).0
            (ran made).1.client
  unfolding main
  main-ok made w' h b = rw h (rw b)

  made-has_gpio :
      (made : Built) (w' : World Time Image Text)
      → at_build ≡ (ok made, w')
      → (if config.alerts.deterrent.enabled then made.1.deterrent.has_gpio else false)
        ≡ works S config.alerts
  unfolding built
  made-has_gpio made w' b =
      let database = (init_schema g.schema_answer w.database).1 in
      let (same, world) =
        with_database-made T F point_polygon_test Frame Time Image Text copy Stamp deserialize
          Message encode L S g config w (init_schema g.schema_answer w.database) made w' b in
      ap (λ v. if config.alerts.deterrent.enabled then v.deterrent.has_gpio else false) world
      ∙ with_deterrent-has_gpio S config.alerts (record w { database = database })

  -- How a session that ended as `o` in the world `before` is followed.
  abbrev pub CleanedUp :
      Option (Result (Unit {0}))
      → World Time Image Text
      → Option (Result (Unit {0})) × World Time Image Text
      → Type 0
  CleanedUp o before r =
      (r.0 ≡ o)
      × (o ≡ none → r.1 ≡ before)
      × (o ≢ none
          → (r.1.events
              ≡ before.events ++ (if works S config.alerts then Event.release ∷ [] else []))
            × (config.alerts.deterrent.enabled ≡ true → r.1.deterrent.has_gpio ≡ false)
            × (Settled r.1.events))

  release-Settled :
      (b : Bool) (events : List Event)
      → Settled events
      → Settled (events ++ (if b then Event.release ∷ [] else []))
  release-Settled true events h = append-Settled events (Event.release ∷ []) (λ x. refl) h
  release-Settled false events h = append-Settled events [] (λ x. refl) h

  cleaned_up-CleanedUp :
      (o : Option (Result (Unit {0})))
      (c : ClientOf T F point_polygon_test Frame Time Image Text copy config.min_size_ratio)
      → all_handlers c.manager ≡ client_handlers S config.alerts
      → (if config.alerts.deterrent.enabled then c.world.deterrent.has_gpio else false)
        ≡ works S config.alerts
      → Settled c.world.events
      → CleanedUp o c.world (
          cleaned_up T F point_polygon_test Frame Time Image Text copy Stamp deserialize Message
            encode L S o c)
  unfolding cleanup
  cleaned_up-CleanedUp none c same up down = (refl, λ e. refl, λ e. absurd (e refl))
  cleaned_up-CleanedUp (some r) c same up down = (
    refl,
    λ e. cc,
    λ e.
        let (released, gone) = cleanup_all-released S config.alerts c.world up in
        rw (same, released)
          (refl, gone, release-Settled (works S config.alerts) c.world.events down),
  )

  -- Once the handlers are built, `main` ends exactly when the session does, and with its result or its
  -- exception. Until then no handler is cleaned up. When it ends, the only call of the pin since the
  -- session is its release, which is made exactly if the pin was set up: the clean-up does not drive it low.
  -- The handler has given up the library, and the pin is known to be low exactly if the last call that drove it low
  -- returned, or if there was none. The zones of the settings are taken to be well formed, and the pin to be so
  -- before.
  pub main_lem :
      (made : Built) (w' : World Time Image Text)
      → settings T F point_polygon_test Frame Time Image Text copy Stamp deserialize Message encode
          L S g
        ≡ ok config
      → at_build ≡ (ok made, w')
      → WellFormed config.zones
      → Settled w.events
      → CleanedUp (ran made).0 (ran made).1.client.world after_main
  main_lem made w' h b zones down =
      let c = (ran made).1.client in
      let healthy =
        session_run-Healthy T F point_polygon_test Frame Time Image Text copy Stamp deserialize
          Message encode L S g config w made w' b zones down in
      let up =
        ap (λ d. if config.alerts.deterrent.enabled then d.has_gpio else false) healthy.ready.1.0
        ∙ made-has_gpio made w' b in
      rw (main-ok made w' h b)
        (cleaned_up-CleanedUp (ran made).0 c healthy.ready.0 up healthy.ready.1.1)

  unbuilt :
      (e : Exception) (w' : World Time Image Text)
      → settings T F point_polygon_test Frame Time Image Text copy Stamp deserialize Message encode
          L S g
        ≡ ok config
      → at_build ≡ (err e, w')
      → after_main ≡ (some (err e), w')
  unfolding main
  unbuilt e w' h b = rw h (rw b)

  -- The directory of the snapshots cannot be made: `main` raises what that raised, before its `try`. A pin
  -- that was set up for the deterrent is then not released.
  pub main_unbuilt :
      (e : Exception)
      → settings T F point_polygon_test Frame Time Image Text copy Stamp deserialize Message encode
          L S g
        ≡ ok config
      → g.schema_answer ≡ ok tt
      → config.alerts.snapshot.enabled ≡ true
      → S.mkdir ≡ err e
      → works S config.alerts ≡ true
      → (after_main.0 ≡ some (err e))
        × (after_main.1.events ≡ w.events ++ Event.setmode ∷ Event.setup_low ∷ [])
        × (after_main.1.deterrent.has_gpio ≡ true)
  unfolding built init_schema build_alert_manager construct
  main_unbuilt e h schema on fails up =
      let w' =
        with_deterrent S config.alerts.deterrent.enabled
          (record w { database = (init_schema g.schema_answer w.database).1 }) in
      let b : at_build ≡ (err e, w') = rw (schema, on, fails) in
      let (events, has) =
        with_deterrent-set_up S config.alerts
          (record w { database = (init_schema g.schema_answer w.database).1 }) up in
      rw (unbuilt e w' h b) (refl, events, has)
