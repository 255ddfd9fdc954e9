-- ===== src/Client/Handlers.antt =====
-- `_build_alert_manager`, and the handlers as they act on one world: the directory of snapshots, the log
-- file, the requests sent, the calls of the pin, and the database of the deterrent.
use counter_cruiser.Prelude.{
  ℕ, Bool, none, some, List, [], ◌∷◌, ◌++◌, String, Result, ok, err, ◌>>=◌, if◌then◌else◌,
}
use counter_cruiser.Alerts.{AlertContext}
use counter_cruiser.Alerts.Manager
use counter_cruiser.Alerts.Manager.{AlertManager, Handler, Outcome}
use counter_cruiser.Alerts.Log.{LogRecord, Appended, log_trigger}
use counter_cruiser.Alerts.Notifications.{Request, Posted, notification_trigger}
use counter_cruiser.Deterrent
use counter_cruiser.Deterrent.{DeterrentHandler, Ended, Event, record_attempt, construct}
use counter_cruiser.Settings.{SnapshotConfig, NotificationConfig, AlertConfig}
use counter_cruiser.Snapshot
use counter_cruiser.Snapshot.{Directory, Media}
use counter_cruiser.Stats.{Database, record_event}

-- What the environment answers during one alert. No call of the deterrent is interrupted: an interrupt
-- ends the program.
pub record Answers (Time Image Text : Type 0) : Type 0 where
  pub drawn : Time
  pub now : Time
  pub files : Snapshot.Calls Image Text
  pub log_file : Appended
  pub post : Posted
  pub output_high : Outcome
  pub sleep_burst : Outcome
  pub output_low : Outcome
  pub insert_row : Result (Unit {0})
  pub row_time : String

pub record World (Time Image Text : Type 0) : Type 0 where
  pub answers : Answers Time Image Text
  pub deterrent : DeterrentHandler
  pub events : List Event
  pub database : Database
  pub directory : Directory Image Text
  pub log : String
  pub requests : List Request

abbrev pub ended_of : Outcome → Ended
ended_of Outcome.returned = Ended.returned
ended_of Outcome.raised = Ended.raised

abbrev pub outcome_of : Ended → Outcome
outcome_of Ended.returned = Outcome.returned
outcome_of Ended.raised = Outcome.raised
outcome_of Ended.interrupted = Outcome.raised

abbrev pub outcome_of_result : Result (Unit {0}) → Outcome
outcome_of_result (ok u) = Outcome.returned
outcome_of_result (err e) = Outcome.raised

-- What the events write to the database.
abbrev pub recorded : Result (Unit {0}) → String → List Event → Database → Database
recorded answer now [] db = db
recorded answer now (Event.record_attempt succeeded ∷ events) db =
    recorded answer now events (record_event answer now succeeded db).1
recorded answer now (_ ∷ events) db = recorded answer now events db

-- What stays the same while the client runs: the formats and the encodings, a log record as text, the
-- ticks of a time, and what the environment answers when the handlers are made.
pub record Setup (Frame Float Time Image Text : Type 0) : Type 0 where
  pub media : Media Frame Float Time Image Text
  pub dumps : LogRecord Time → String
  pub ticks : Float → ℕ
  pub importable : Bool
  pub setmode_ends : Ended
  pub setup_ends : Ended
  pub mkdir : Result (Unit {0})

-- The trigger of the deterrent's handler: how it ends, and its calls.
abbrev pub burst_of : {Time Image Text : Type 0} → World Time Image Text → Ended × List Event
burst_of w =
    let a = w.answers in
    Deterrent.trigger
      (record {
        output_high = ended_of a.output_high;
        sleep_burst = ended_of a.sleep_burst;
        output_low = ended_of a.output_low;
        record_outcome = ended_of (outcome_of_result a.insert_row);
      })
      w.deterrent

module _ {Frame Float Time Image Text : Type 0} where
  abbrev pub deterrent_handler : Handler (AlertContext Frame Float) (World Time Image Text)
  deterrent_handler = record {
    trigger = λ context w. (
      outcome_of (burst_of w).0,
      record w {
        events = w.events ++ (burst_of w).1;
        database = recorded w.answers.insert_row w.answers.row_time (burst_of w).1 w.database;
      },
    );
    cleanup = λ w. (
      Outcome.returned,
      record w {
        deterrent = (Deterrent.cleanup w.deterrent).0;
        events = w.events ++ (Deterrent.cleanup w.deterrent).1;
      },
    );
  }

  abbrev pub notification_handler :
      NotificationConfig → Handler (AlertContext Frame Float) (World Time Image Text)
  notification_handler config = record {
    trigger = λ context w.
        let r = notification_trigger config w.answers.post context w.requests in
        (outcome_of_result r.0, record w { requests = r.1 });
    cleanup = λ w. (Outcome.returned, w);
  }

  module _ (S : Setup Frame Float Time Image Text) where
    open S use {media, dumps, ticks, importable, setmode_ends, setup_ends, mkdir}

    abbrev pub snapshot_handler :
        SnapshotConfig → Handler (AlertContext Frame Float) (World Time Image Text)
    snapshot_handler config = record {
      trigger = λ context w.
          let a = w.answers in
          let r = Snapshot.trigger media config a.files a.drawn a.now context w.directory in
          (outcome_of_result r.0, record w { directory = r.1 });
      cleanup = λ w. (Outcome.returned, w);
    }

    abbrev pub log_handler : Handler (AlertContext Frame Float) (World Time Image Text)
    log_handler = record {
      trigger = λ context w.
          let r = log_trigger dumps w.answers.now w.answers.log_file context w.log in
          (outcome_of_result r.0, record w { log = r.1 });
      cleanup = λ w. (Outcome.returned, w);
    }

    abbrev pub handlers_of :
        AlertConfig Float → List (Handler (AlertContext Frame Float) (World Time Image Text))
    handlers_of alerts =
        (if alerts.snapshot.enabled then snapshot_handler alerts.snapshot ∷ [] else [])
        ++ ((if alerts.log.enabled then log_handler ∷ [] else [])
            ++ (if alerts.notification.enabled
                then notification_handler alerts.notification ∷ []
                else []))

    -- The constructor of the deterrent's handler sets up its pin.
    abbrev pub with_deterrent : Bool → World Time Image Text → World Time Image Text
    with_deterrent enabled w =
        if enabled
        then (let (h, events) = construct enabled importable setmode_ends setup_ends in
            record w { deterrent = h; events = w.events ++ events })
        else w

    -- The manager, and the world after the constructors; the handler of the deterrent is in the world.
    unfoldable pub build_alert_manager :
        AlertConfig Float
        → World Time Image Text
        → Result (
            AlertManager (AlertContext Frame Float) (World Time Image Text) × World Time Image Text)
    unfolding Manager.init construct
    build_alert_manager alerts w = (if alerts.snapshot.enabled then mkdir else ok tt) >>= λ u. ok (
      Manager.init (handlers_of alerts) (ticks alerts.cooldown_seconds)
          (if alerts.deterrent.enabled then some deterrent_handler else none),
      with_deterrent alerts.deterrent.enabled w,
    )
