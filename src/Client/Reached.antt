-- ===== src/Client/Reached.antt =====
-- What one alert does to the world.
use counter_cruiser.Prelude.{
  ℕ, ◌≡◌, refl, ap, sym, ◌∙◌, Bool, true, false, none, some, List, [], ◌∷◌, ◌++◌, String, ok,
  >>=-ok, ok_injective, if◌then◌else◌,
}
use counter_cruiser.Alerts.{AlertContext}
use counter_cruiser.Alerts.Manager
use counter_cruiser.Alerts.Manager.{
  AlertManager, Handler, Outcome, returned, raised, after_attempt, trigger_all, all_handlers,
  within_cooldown, maybe_alert,
}
use counter_cruiser.Alerts.Log.{log_trigger}
use counter_cruiser.Alerts.Notifications.{notification_trigger}
use counter_cruiser.Settings.{AlertConfig}
use counter_cruiser.Snapshot
use counter_cruiser.Client.Handlers.{
  World, Setup, recorded, burst_of, deterrent_handler, notification_handler, snapshot_handler,
  log_handler, handlers_of, build_alert_manager,
}

module _ {C W : Type 0} (context : C) where
  after_attempt-second : (r : Outcome × W) → after_attempt r ≡ r.1
  after_attempt-second (returned, w) = refl
  after_attempt-second (raised, w) = refl

  trigger_all-append :
      (hs gs : List (Handler C W)) (w : W)
      → trigger_all (hs ++ gs) context w ≡ trigger_all gs context (trigger_all hs context w)
  unfolding trigger_all
  trigger_all-append [] gs w = refl
  trigger_all-append (h ∷ hs) gs w = trigger_all-append hs gs (after_attempt (h.trigger context w))

  all_handlers_if :
      (b : Bool) (h : Handler C W) (m : AlertManager C W)
      → all_handlers (record m { deterrent = if b then some h else none })
        ≡ (if b then h ∷ [] else []) ++ m.handlers
  unfolding all_handlers
  all_handlers_if true h m = refl
  all_handlers_if false h m = refl

module _ {Frame Float Time Image Text : Type 0} (S : Setup Frame Float Time Image Text) where
  -- Each enabled handler acts once, on its own part of the world.
  abbrev pub after_alert :
      AlertConfig Float → AlertContext Frame Float → World Time Image Text → World Time Image Text
  after_alert alerts context w =
      let a = w.answers in
      let burst = (burst_of w).1 in
      record {
        answers = a;
        deterrent = w.deterrent;
        events = if alerts.deterrent.enabled then w.events ++ burst else w.events;
        database =
            if alerts.deterrent.enabled
            then recorded a.insert_row a.row_time burst w.database
            else w.database;
        directory =
            if alerts.snapshot.enabled
            then (Snapshot.trigger S.media alerts.snapshot a.files a.drawn a.now context
                w.directory).1
            else w.directory;
        log =
            if alerts.log.enabled
            then (log_trigger S.dumps a.now a.log_file context w.log).1
            else w.log;
        requests =
            if alerts.notification.enabled
            then (notification_trigger alerts.notification a.post context w.requests).1
            else w.requests;
      }

  module _ (alerts : AlertConfig Float) (context : AlertContext Frame Float) where
    deterrent_step :
        (b : Bool) (w : World Time Image Text)
        → trigger_all (if b then deterrent_handler ∷ [] else []) context w ≡ record w {
          events = if b then w.events ++ (burst_of w).1 else w.events;
          database =
              if b
              then recorded w.answers.insert_row w.answers.row_time (burst_of w).1 w.database
              else w.database;
        }
    unfolding trigger_all
    deterrent_step true w = after_attempt-second context (deterrent_handler.trigger context w)
    deterrent_step false w = refl

    snapshot_step :
        (b : Bool) (w : World Time Image Text)
        → trigger_all (if b then snapshot_handler S alerts.snapshot ∷ [] else []) context w
          ≡ record w {
            directory =
                if b
                then (Snapshot.trigger S.media alerts.snapshot w.answers.files w.answers.drawn
                    w.answers.now context w.directory).1
                else w.directory;
          }
    unfolding trigger_all
    snapshot_step true w =
        after_attempt-second context ((snapshot_handler S alerts.snapshot).trigger context w)
    snapshot_step false w = refl

    log_step :
        (b : Bool) (w : World Time Image Text)
        → trigger_all (if b then log_handler S ∷ [] else []) context w ≡ record w {
          log =
              if b
              then (log_trigger S.dumps w.answers.now w.answers.log_file context w.log).1
              else w.log;
        }
    unfolding trigger_all
    log_step true w = after_attempt-second context ((log_handler S).trigger context w)
    log_step false w = refl

    notification_step :
        (b : Bool) (w : World Time Image Text)
        → trigger_all (if b then notification_handler alerts.notification ∷ [] else []) context w
          ≡ record w {
            requests =
                if b
                then (notification_trigger alerts.notification w.answers.post context w.requests).1
                else w.requests;
          }
    unfolding trigger_all
    notification_step true w =
        after_attempt-second context ((notification_handler alerts.notification).trigger context w)
    notification_step false w = refl

    dispatched :
        (w : World Time Image Text)
        → trigger_all
            ((if alerts.deterrent.enabled then deterrent_handler ∷ [] else [])
              ++ handlers_of S alerts)
            context
            w
          ≡ after_alert alerts context w
    dispatched w =
        trigger_all-append context (if alerts.deterrent.enabled then deterrent_handler ∷ [] else [])
          (handlers_of S alerts) w
        ∙ ap (trigger_all (handlers_of S alerts) context)
            (deterrent_step alerts.deterrent.enabled w)
        ∙ trigger_all-append context
            (if alerts.snapshot.enabled then snapshot_handler S alerts.snapshot ∷ [] else []) _ _
        ∙ ap (trigger_all _ context) (snapshot_step alerts.snapshot.enabled _)
        ∙ trigger_all-append context (if alerts.log.enabled then log_handler S ∷ [] else []) _ _
        ∙ ap (trigger_all _ context) (log_step alerts.log.enabled _)
        ∙ notification_step alerts.notification.enabled _

    -- A manager that was built for the settings, after any alerts: an alert that is not within the
    -- cooldown makes each handler that is enabled act once, on its own part of the world and nothing
    -- else, and no other handler, whatever the outcomes.
    pub maybe_alert_reaches :
        (start built w : World Time Image Text)
        (manager : AlertManager (AlertContext Frame Float) (World Time Image Text))
        (last_alert : List (String × ℕ)) (now : ℕ)
        → build_alert_manager S alerts start ≡ ok (manager, built)
        → let m = record manager { last_alert = last_alert } in
          within_cooldown m context.triggered_zones now ≡ false
          → (maybe_alert (λ x. x.triggered_zones) now context m w).1 ≡ after_alert alerts context w
    unfolding maybe_alert build_alert_manager Manager.init
    maybe_alert_reaches start built w manager last_alert now built_ok free =
        let m = record manager { last_alert = last_alert } in
        let (u, made, same) =
          >>=-ok (if alerts.snapshot.enabled then S.mkdir else ok tt) _ _ built_ok in
        let fields = ap (λ r. r.0) (ok_injective same) in
        let listed : all_handlers m
            ≡ (if alerts.deterrent.enabled then deterrent_handler ∷ [] else [])
              ++ handlers_of S alerts =
          ap (λ x. all_handlers (record x { last_alert = last_alert })) (sym fields)
          ∙ all_handlers_if context alerts.deterrent.enabled deterrent_handler
              (record (Manager.init (handlers_of S alerts) (S.ticks alerts.cooldown_seconds) none) {
                last_alert = last_alert;
              }) in
        rw (free, listed) (dispatched w)
