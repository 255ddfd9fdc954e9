-- ===== src/Tests/Interplay.antt =====
-- The session and the callback together.
use counter_cruiser.Prelude.{
  ℕ, ◌+◌, ◌-◌, ◌≡◌, refl, true, none, some, List, [], ◌∷◌, String, str_eq, ℤ, pos, Result, ok, err,
  ◌-ℤ◌, value_error, leb, length, if◌then◌else◌,
}
use counter_cruiser.Geometry.{
  FrameAnalysis, analyze_detections, analyze_dog_position, check_zones, box_test_points,
}
use counter_cruiser.Debounce
use counter_cruiser.Debounce.{is_consecutive_elevated}
use counter_cruiser.ZoneStore.{list_zones}
use counter_cruiser.Alerts.Manager.{maybe_alert}
use counter_cruiser.Protocol.{AnyMessage, DetectionMessage, detection}
use counter_cruiser.Transport.Numbered.{at}
use counter_cruiser.Client.{Readings, receive_round, on_detection, on_result}
use counter_cruiser.Client.Merged.{Event, System, all_happen}
use counter_cruiser.Client.Interplay.{start, captured, alert_shows_its_frame}
use counter_cruiser.Tests.Fixtures.{floats, in_square, toml, box, counter, table, store}
use counter_cruiser.Tests.Answers.{client}

abbrev readings : Readings ℕ
readings = record { received_at = 30; tick_at = 30; alert_at = 30; utc = 0 }

abbrev dog : DetectionMessage ℤ ℕ
dog = record { frame_id = pos 1; boxes = box ∷ []; processing_time_ms = pos 3; timestamp = 0 }

-- The answer for the third frame.
abbrev again : DetectionMessage ℤ ℕ
again = record dog { frame_id = pos 3 }

abbrev parse : String → Result (AnyMessage ℤ ℕ)
parse raw =
    if str_eq raw "dog"
    then ok (detection dog)
    else if str_eq raw "again"
    then ok (detection again)
    else err value_error

abbrev encode : String → ℕ → Result String
encode image id = ok image

-- Three frames are sent, two are kept, and an answer comes in between.
abbrev events : List (Event String ℕ)
events =
    Event.sends (some "a") 1
    ∷ Event.sends (some "b") 2
    ∷ Event.receives readings "dog"
    ∷ Event.sends none 3
    ∷ Event.sends (some "c") 4
    ∷ []

abbrev on_counter : FrameAnalysis
on_counter = record { elevated = true; triggered_zones = "counter" ∷ [] }

abbrev Home : Type 0
Home =
    System toml floats in_square String ℕ (List ℤ) (λ f. f) (pos 50) ℕ parse (pos 480) String encode

abbrev first : Home
first =
    start toml floats in_square String ℕ (List ℤ) (λ f. f) (pos 50) ℕ parse (pos 480) String encode
      2 1 (client store)

abbrev then_on : Home
then_on =
    all_happen toml floats in_square String ℕ (List ℤ) (λ f. f) (pos 50) ℕ parse (pos 480) String
      encode events first

then_on_listed : list_zones toml then_on.running.client.store ≡ ok (counter ∷ table ∷ [], 5)
unfolding all_happen list_zones receive_round on_detection on_result is_consecutive_elevated
    Debounce.add analyze_detections analyze_dog_position ◌-ℤ◌ check_zones box_test_points
then_on_listed = refl

again_analyzed :
    analyze_detections floats in_square (box ∷ []) (counter ∷ table ∷ []) (pos 480) (pos 50)
    ≡ ok on_counter
unfolding analyze_detections analyze_dog_position ◌-ℤ◌ check_zones box_test_points
again_analyzed = refl

again_loud :
    is_consecutive_elevated (pos 2) (Debounce.add (pos 3) true then_on.running.client.history)
    ≡ true
unfolding all_happen list_zones receive_round on_detection on_result is_consecutive_elevated
    Debounce.add analyze_detections analyze_dog_position ◌-ℤ◌ check_zones box_test_points
again_loud = refl

alert_shows_its_frame_example :
    let r = then_on.running in
    let c =
      (receive_round toml floats in_square String ℕ
        (List ℤ)
        (λ f. f)
        (pos 50)
        ℕ
        parse
        (pos 480)
        readings
        "again"
        r).1.client in
    let past =
      captured toml floats in_square String ℕ
        (List ℤ)
        (λ f. f)
        (pos 50)
        ℕ
        parse
        (pos 480)
        String
        encode
        2
        1
        events in
    (c.manager, c.world)
    ≡ maybe_alert
        (λ x. x.triggered_zones)
        30
        (record {
          frame = if leb (1 + (length past - 2)) 3 then at 1 past 3 else none;
          detections = box ∷ [];
          zones = counter ∷ table ∷ [];
          triggered_zones = "counter" ∷ [];
          frame_id = pos 3;
        })
        r.client.manager
        r.client.world
alert_shows_its_frame_example =
    alert_shows_its_frame toml floats in_square String ℕ (List ℤ) (λ f. f) (pos 50) ℕ parse
      (pos 480) String encode 2 1 (client store) events readings "again" 3 again
      (counter ∷ table ∷ []) 5 on_counter refl refl then_on_listed again_analyzed again_loud
