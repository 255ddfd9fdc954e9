-- ===== src/Tests/Records.antt =====
-- Snapshots, statistics.
use counter_cruiser.Prelude.{
  ◌≡◌, ◌≢◌, ◌⊎◌, arith, refl, true, false, none, some, List, [], ◌∷◌, String, ℤ, pos, ◌-ℤ◌, ◌≤ℤ◌,
  length, ok, err, os_error, str_le,
}
use counter_cruiser.Alerts.{AlertContext}
use counter_cruiser.Annotation.{Annotated}
use counter_cruiser.Dashboard
use counter_cruiser.Dashboard.{DashboardState}
use counter_cruiser.Settings.{SnapshotConfig}
use counter_cruiser.Snapshot.{
  Directory, Calls, Media, Sidecar, trigger, sorted_images, delete_images, enforce_max_count,
  written, refused, stored,
}
use counter_cruiser.Snapshot.Retention.{
  Deleted, AllUnlinked, excess, with_snapshot, trigger_retains,
}
use counter_cruiser.Snapshot.Failures.{Kept, trigger_unsaved}
use counter_cruiser.Stats.{deterrent_stats, init_schema, failure_limit}
use counter_cruiser.Stats.Reads.{
  Recording, record_all, committed, NewestFailures, deterrent_stats_lem,
}
use counter_cruiser.Tests.Fixtures.{box, counter}

-- A frame is a number, a time a text, an image what was drawn, and a sidecar's text its fields.
abbrev pub media : Media ℤ ℤ String (Annotated ℤ) (Sidecar String)
media = record {
  copy = λ frame. frame;
  label = λ b. b.class_name;
  drawn_at = λ time. time;
  stem = λ time frame_id. time;
  encode = λ image. image;
  dumps = λ fields. fields;
  with_suffix = λ name. name;
}

abbrev pub at_most_two : SnapshotConfig
at_most_two = record {
  enabled = true;
  dir = "./snapshots";
  max_count = pos 2;
  include_boxes = true;
  include_zones = true;
}

abbrev pub all_work : Calls (Annotated ℤ) (Sidecar String)
all_work = record {
  imwrite = written;
  write_text = stored;
  unlink_image = λ name. ok tt;
  unlink_sidecar = λ name. ok tt;
}

abbrev disk_full : Calls (Annotated ℤ) (Sidecar String)
disk_full = record all_work { imwrite = refused none }

abbrev pub alert : AlertContext ℤ ℤ
alert = record {
  frame = some (pos 7);
  detections = box ∷ [];
  zones = counter ∷ [];
  triggered_zones = "counter" ∷ [];
  frame_id = pos 12;
}

abbrev old_image : Annotated ℤ
old_image = record { base = pos 1; shapes = [] }

abbrev pub directory : Directory (Annotated ℤ) (Sidecar String)
directory = record { images = ("2.jpg", old_image) ∷ ("1.jpg", old_image) ∷ []; sidecars = [] }

newest_stay :
    sorted_images (trigger media at_most_two all_work "3" "3" alert directory).1
    ≡ "2.jpg" ∷ "3.jpg" ∷ []
unfolding trigger enforce_max_count delete_images str_le ◌-ℤ◌
newest_stay = refl

trigger_retains_example :
    let r = trigger media at_most_two all_work "3" "3" alert directory in
    let d' = with_snapshot media at_most_two "3" "3" alert (pos 7) directory in
    Deleted all_work (excess (pos 2) d') (sorted_images d') r
    × (AllUnlinked all_work → pos (length (sorted_images r.1)) ≤ℤ pos 2)
trigger_retains_example =
    trigger_retains media at_most_two all_work "3" "3" alert (pos 7) directory (omega arith) refl
      refl refl (refl, (refl, tt))

trigger_unsaved_example :
    (alert.frame ≡ none
      → trigger media at_most_two disk_full "3" "3" alert directory ≡ (ok tt, directory))
    × ((disk_full.imwrite ≢ written) ⊎ (disk_full.write_text ≢ stored)
        → Kept media directory (trigger media at_most_two disk_full "3" "3" alert directory))
trigger_unsaved_example = trigger_unsaved media at_most_two disk_full "3" "3" alert directory

abbrev attempts : List Recording
attempts =
    record { answer = ok tt; now = "2026-01-01"; succeeded = true }
    ∷ record { answer = err os_error; now = "2026-02-01"; succeeded = true }
    ∷ record { answer = ok tt; now = "2026-03-01"; succeeded = false }
    ∷ []

abbrev dashboard : DashboardState ℤ ℤ ℤ
dashboard = Dashboard.init (pos 0) 3

deterrent_stats_lem_example :
    let db = record_all attempts (init_schema (ok tt) none).1 in
    (failures : List String) × (deterrent_stats (ok tt) (ok tt) (λ days. "2026-02-15") dashboard db
      ≡ ok (record {
        configured = false;
        operational = false;
        events = ("2026-03-01", false) ∷ [];
        recent_failures = failures;
      }))
    × NewestFailures failure_limit (committed attempts) failures
unfolding str_le Dashboard.init
deterrent_stats_lem_example =
    deterrent_stats_lem attempts (λ days. "2026-02-15") dashboard ((refl, tt), (tt, tt))
