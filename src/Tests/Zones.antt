-- ===== src/Tests/Zones.antt =====
-- Requests to the zone store.
use counter_cruiser.Prelude.{
  ◌≡◌, refl, true, none, some, List, [], ◌∷◌, Exception, ok, err, os_error, version_conflict,
  value_error, arith,
}
use counter_cruiser.Zone.{Zone, zone_eq}
use counter_cruiser.ZoneStore.{
  Disk, no_temp, write_fails, replaced, check_version, create_zone, edit_zone, load_document,
}
use counter_cruiser.ZoneStore.Invariant.{WellFormed}
use counter_cruiser.ZoneStore.Requests.{
  Request, create, edit, delete, perform, perform_all, perform_all-WellFormed,
}
use counter_cruiser.ZoneStore.File.{
  ReadsBack, InSync, perform_persists, second_writer_conflicts, create_zone_unsaved,
}
use counter_cruiser.Tests.Fixtures.{
  toml, read_zones, triangle, counter, table, store, store-WellFormed,
}

abbrev shelf : Zone
shelf = record { id = "shelf"; name = "Shelf"; enabled = true; polygon = triangle }

abbrev add_shelf : Request
add_shelf = create shelf (omega arith) (some 5)

abbrev rename : Request
rename = edit "counter" (some 5) (some "Sink") none none

-- The second request is stale, the third is not; its write fails.
abbrev requests : List (Disk × Request)
requests =
    (replaced 6, add_shelf)
    ∷ (replaced 7, rename)
    ∷ (write_fails true, delete "table" (some 6))
    ∷ []

perform_all-WellFormed_example : WellFormed (perform_all toml requests store).zones
perform_all-WellFormed_example = perform_all-WellFormed toml requests store store-WellFormed

toml-ReadsBack : ReadsBack toml read_zones
toml-ReadsBack = record { top = λ zones d valid h. refl; wrapped = λ zones d valid h. refl }

perform_persists_example :
    ((perform toml (replaced 6) rename store).0 ≡ ok tt
      → InSync toml read_zones (perform toml (replaced 6) rename store).1)
    × ((e : Exception)
        → (perform toml (replaced 6) rename store).0 ≡ err e
        → (perform toml (replaced 6) rename store).1.file ≡ store.file)
perform_persists_example =
    perform_persists toml read_zones toml-ReadsBack (replaced 6) rename store store-WellFormed

rename_succeeds : (perform toml (replaced 6) rename store).0 ≡ ok tt
unfolding perform edit_zone zone_eq
rename_succeeds = refl

second_writer_conflicts_example :
    let s' = (perform toml (replaced 6) rename store).1 in
    perform toml (replaced 7) add_shelf s' ≡ (err version_conflict, s')
second_writer_conflicts_example =
    second_writer_conflicts toml 6 5 (replaced 7) rename add_shelf store refl (ground arith)
      rename_succeeds

shelf_checked : check_version toml (some 5) store ≡ ok tt
unfolding check_version
shelf_checked = refl

-- The disk is full at first.
shelf_raises : (create_zone toml no_temp shelf (some 5) store).0 ≡ err os_error
unfolding create_zone check_version load_document
shelf_raises = refl

create_zone_unsaved_example :
    let s' = (create_zone toml no_temp shelf (some 5) store).1 in
    (s'.zones ≡ counter ∷ table ∷ shelf ∷ [])
    × (s'.file ≡ store.file)
    × (create_zone toml (replaced 6) shelf (some 5) s' ≡ (err value_error, s'))
create_zone_unsaved_example =
    create_zone_unsaved toml no_temp (replaced 6) store shelf (some 5) os_error shelf_checked refl
      shelf_raises
