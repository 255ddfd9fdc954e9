-- ===== src/Tests/Routing.antt =====
-- Requests to the zone endpoints.
use counter_cruiser.Prelude.{
  ℕ, ℤ, pos, All, ◌≡◌, refl, true, false, none, some, [], ◌∷◌, ok, err, version_conflict,
  other_error, List,
}
use counter_cruiser.Zone.{Zone, IsValid, zone_eq}
use counter_cruiser.ZoneStore.{
  Disk, replaced, check_version, create_zone, edit_zone, delete_zone, list_zones,
}
use counter_cruiser.ZoneStore.Lists.{has_id}
use counter_cruiser.ZoneStore.Requests.{Request, perform, perform_all}
use counter_cruiser.ZoneStore.File.{ReadsBack, InSync}
use counter_cruiser.Routes.{
  ZoneBody, next_zone, refused, zone_of_body, create_zone_route, edit_zone_route,
}
use counter_cruiser.Routes.Answers.{create_zone_route_lem, edit_zone_route_lem}
use counter_cruiser.Dashboard
use counter_cruiser.Dashboard.{DashboardState}
use counter_cruiser.WebApp.{
  Verb, Endpoint, Call, App, create_app, register_dashboard_routes, register_live_feed_routes,
  register_zone_routes, register_deterrent_stats_routes, verbs_of, handle,
}
use counter_cruiser.WebApp.Safe.{Requested, handle_lem}
use counter_cruiser.Tests.Fixtures.{
  toml, read_zones, triangle, counter, table, store, store-WellFormed,
}

abbrev shelf : Zone
shelf = record { id = "shelf"; name = "Shelf"; enabled = true; polygon = triangle }

abbrev shelf_body : ZoneBody
shelf_body = record {
  id = some "shelf";
  name = some "Shelf";
  enabled = none;
  polygon = some triangle;
  version = some (some 5);
}

abbrev rename_body : ZoneBody
rename_body = record {
  id = none;
  name = some "Sink";
  enabled = none;
  polygon = none;
  version = some (some 5);
}

reads_back : ReadsBack toml read_zones
reads_back = record { top = λ zones d valid h. refl; wrapped = λ zones d valid h. refl }

shelf_given : zone_of_body shelf_body ≡ ok shelf
unfolding zone_of_body
shelf_given = refl

create_zone_route_lem_example :
    let (answer, s') = create_zone_route toml (replaced 6) shelf_body store in
    (check_version toml (some 5) store ≡ err version_conflict
      → (answer ≡ refused 409) × (s' ≡ store))
    × (check_version toml (some 5) store ≡ ok tt
        → false ≡ true
        → (answer ≡ refused 400) × (s' ≡ store))
    × ((create_zone toml (replaced 6) shelf (some 5) store).0 ≡ ok tt
        → (answer ≡ ok (record { status = 201; zone = some shelf }))
          × IsValid shelf
          × (s'.zones ≡ counter ∷ table ∷ shelf ∷ [])
          × InSync toml read_zones s')
create_zone_route_lem_example =
    create_zone_route_lem toml read_zones reads_back (replaced 6) shelf_body shelf (some 5) store
      store-WellFormed shelf_given refl

rename_accepted :
    (edit_zone toml (replaced 6) "counter" (some 5) (some "Sink") none none store).0 ≡ ok tt
unfolding edit_zone zone_eq
rename_accepted = refl

-- Another thread deletes the zone before it is looked up.
abbrev deletes : List (Disk × Request)
deletes = (replaced 7, Request.delete "counter" (some 6)) ∷ []

edit_zone_route_lem_example :
    let edited = (edit_zone toml (replaced 6) "counter" (some 5) (some "Sink") none none store).1 in
    let (answer, s') = edit_zone_route toml (replaced 6) "counter" rename_body deletes store in
    InSync toml read_zones edited
    × (s' ≡ perform_all toml deletes edited)
    × (has_id "counter" s'.zones ≡ true
        → (z : Zone) × (answer ≡ ok (record { status = 200; zone = some z }))
          × (next_zone "counter" s'.zones ≡ ok z)
          × (z.id ≡ "counter"))
    × (has_id "counter" s'.zones ≡ false → answer ≡ err other_error)
    × (deletes ≡ [] → has_id "counter" s'.zones ≡ true)
edit_zone_route_lem_example =
    edit_zone_route_lem toml read_zones reads_back (replaced 6) "counter" rename_body (some 5) store
      deletes store-WellFormed refl rename_accepted

lookup_raises :
    (edit_zone_route toml (replaced 6) "counter" rename_body deletes store).0 ≡ err other_error
unfolding edit_zone_route edit_zone zone_eq perform_all perform delete_zone list_zones
lookup_raises = refl

abbrev dashboard : DashboardState ℤ ℤ ℕ
dashboard = Dashboard.init (pos 0) 3

abbrev app : App ℤ ℤ ℕ toml.Text
app = record { state = dashboard; zone_store = store; stats_store = none }

app_routes : verbs_of Endpoint.delete_zone create_app ≡ Verb.delete ∷ []
unfolding create_app register_dashboard_routes register_live_feed_routes register_zone_routes
    register_deterrent_stats_routes
app_routes = refl

handle_lem_example :
    let app' =
      (handle toml (λ time. "now") (λ days. "then") (Call.create (replaced 6) shelf_body) app).1 in
    (All (λ v. v ≡ Verb.get) (verbs_of Endpoint.create_zone create_app) → app' ≡ app)
    × (app'.state ≡ dashboard)
    × (app'.stats_store ≡ none)
    × Requested toml [] store app'.zone_store
handle_lem_example =
    handle_lem toml (λ time. "now") (λ days. "then") (Call.create (replaced 6) shelf_body) app
