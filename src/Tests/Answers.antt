-- ===== src/Tests/Answers.antt =====
-- Answers of the server at the client.
use counter_cruiser.Prelude.{
  ℕ, ◌≡◌, refl, true, false, some, List, [], ◌∷◌, String, ℤ, pos, ok, ◌+ℤ◌, ◌-ℤ◌, Bool,
  if◌then◌else◌,
}
use counter_cruiser.Zone.{Zone, BoundingBox}
use counter_cruiser.Debounce
use counter_cruiser.Debounce.{DetectionHistory, is_consecutive_elevated}
use counter_cruiser.Geometry.{
  FrameAnalysis, box_test_points, check_zones, size_ratio, analyze_dog_position, analyze_detections,
}
use counter_cruiser.Alerts.{AlertContext}
use counter_cruiser.Alerts.Manager.{Outcome, Handler, maybe_alert, all_handlers, trigger_all}
use counter_cruiser.ZoneStore.{Store, list_zones}
use counter_cruiser.Dashboard
use counter_cruiser.Dashboard.{append_left}
use counter_cruiser.Client.{Detection, Moment, Client, on_result}
use counter_cruiser.Client.Fps
use counter_cruiser.Client.Alarm.{on_result_lem, floor_frame_alerts}
use counter_cruiser.Status.{status, alerts}
use counter_cruiser.Status.Reads.{pages_after_result}
use counter_cruiser.Tests.Fixtures.{floats, in_square, toml, counter, table, box, seen, store}

abbrev moment : Moment String ℕ
moment = record {
  tick_at = 20;
  alert_at = 20;
  utc = 0;
  frame_height = pos 480;
  get_frame = λ id. some "image";
}

-- The boxes of frame 3, or none on the floor.
abbrev message : List (BoundingBox ℤ) → Detection ℤ
message boxes = record { frame_id = pos 3; boxes = boxes }

abbrev Recorder : Type 0
Recorder = Handler (AlertContext String ℤ) (List ℤ)

-- It records the frames for which it is called.
abbrev recorder : Recorder
recorder = record {
  trigger = λ context log. (Outcome.returned, context.frame_id ∷ log);
  cleanup = λ log. (Outcome.returned, log);
}

-- Two elevated frames are in the window, and the alert of the last one was a tick ago.
abbrev pub client :
    Store (Bool × List Zone) → Client toml floats in_square String ℕ (List ℤ) (λ f. f) (pos 50)
client s = record {
  store = s;
  history = record { records = seen (pos 1) true ∷ seen (pos 2) true ∷ []; max_size = 20 };
  dashboard = Dashboard.init (pos 0) 10;
  fps = Fps.init 30;
  manager = record {
    deterrent = some recorder;
    handlers = [];
    cooldown_seconds = 10;
    last_alert = ("counter", 19) ∷ [];
  };
  world = [];
}

abbrev floor : FrameAnalysis
floor = record { elevated = false; triggered_zones = [] }

abbrev on_counter : FrameAnalysis
on_counter = record { elevated = true; triggered_zones = "counter" ∷ [] }

zones_listed : list_zones toml store ≡ ok (counter ∷ table ∷ [], 5)
unfolding list_zones
zones_listed = refl

floor_analyzed :
    analyze_detections floats in_square [] (counter ∷ table ∷ []) (pos 480) (pos 50) ≡ ok floor
unfolding analyze_detections
floor_analyzed = refl

counter_analyzed :
    analyze_detections floats in_square (box ∷ []) (counter ∷ table ∷ []) (pos 480) (pos 50)
    ≡ ok on_counter
unfolding analyze_detections analyze_dog_position size_ratio box_test_points check_zones ◌-ℤ◌ ◌+ℤ◌
counter_analyzed = refl

still_actionable :
    is_consecutive_elevated (pos 2) (Debounce.add (pos 3) false (client store).history) ≡ true
unfolding is_consecutive_elevated Debounce.add ◌-ℤ◌
still_actionable = refl

-- The deterrent fires for a frame without any box, one tick after an alert of a cooldown of ten.
floor_frame_alerts_example :
    (on_result toml floats in_square String ℕ
      (List ℤ)
      (λ f. f)
      (pos 50)
      moment
      (message [])
      (pos 1)
      (client store)).1.world
    ≡ pos 3 ∷ []
unfolding trigger_all all_handlers
floor_frame_alerts_example =
    floor_frame_alerts toml floats in_square String ℕ (List ℤ) (λ f. f) (pos 50) moment (message [])
      (pos 1) (client store) (counter ∷ table ∷ []) 5 floor zones_listed floor_analyzed refl
      still_actionable

on_result_lem_example :
    let run =
      on_result toml floats in_square String ℕ
        (List ℤ)
        (λ f. f)
        (pos 50)
        moment
        (message (box ∷ []))
        (pos 1)
        (client store) in
    let history = Debounce.add (pos 3) true (client store).history in
    (run.0 ≡ ok tt)
    × (run.1.history ≡ history)
    × (run.1.store ≡ store)
    × (run.1.dashboard.detection ≡ record {
      detections = box ∷ [];
      triggered_zones = "counter" ∷ [];
      elevated = is_consecutive_elevated (pos 2) history;
    })
    × (is_consecutive_elevated (pos 2) history ≡ false
        → (run.1.world ≡ [])
          × (run.1.manager ≡ (client store).manager)
          × (run.1.dashboard.alerts ≡ (client store).dashboard.alerts))
    × (is_consecutive_elevated (pos 2) history ≡ true
        → ((run.1.manager, run.1.world)
            ≡ maybe_alert
                (λ x. x.triggered_zones)
                20
                (record {
                  frame = some "image";
                  detections = box ∷ [];
                  zones = counter ∷ table ∷ [];
                  triggered_zones = "counter" ∷ [];
                  frame_id = pos 3;
                })
                (client store).manager
                [])
          × (run.1.dashboard.alerts
              ≡ append_left
                  (client store).dashboard.capacity
                  (record { time = 0; triggered_zones = "counter" ∷ []; frame_id = pos 3 })
                  (client store).dashboard.alerts))
on_result_lem_example =
    on_result_lem toml floats in_square String ℕ (List ℤ) (λ f. f) (pos 50) moment
      (message (box ∷ [])) (pos 1) (client store) (counter ∷ table ∷ []) 5 on_counter zones_listed
      counter_analyzed

pages_after_result_example :
    let actionable =
      is_consecutive_elevated (pos 2) (Debounce.add (pos 3) true (client store).history) in
    let after =
      (on_result toml floats in_square String ℕ
        (List ℤ)
        (λ f. f)
        (pos 50)
        moment
        (message (box ∷ []))
        (pos 1)
        (client store)).1.dashboard in
    ((status after).detection_state ≡ (if actionable then "elevated" else "floor"))
    × ((status after).triggered_zones ≡ "counter" ∷ [])
    × (alerts (λ time. "noon") after ≡ (
        if actionable
        then record { time = "noon"; triggered_zones = "counter" ∷ []; frame_id = pos 3 } ∷ []
        else []))
unfolding alerts Dashboard.init
pages_after_result_example =
    pages_after_result toml floats in_square String ℕ (List ℤ) (λ f. f) (pos 50) moment
      (message (box ∷ [])) (pos 1) (client store) (counter ∷ table ∷ []) 5 on_counter
      (λ time. "noon") zones_listed counter_analyzed
