-- ===== src/WebApp/Defs.antt =====
-- `create_app` as the table of its routes, and the handlers behind them. Flask finds the route of a request
-- and its arguments; templates are named only; the stream's parts are in Stream.
use counter_cruiser.Prelude.{
  ℕ, Bool, true, false, Option, List, [], ◌∷◌, ◌++◌, String, Result, ok, err, if◌then◌else◌,
}
use counter_cruiser.Zone.{Zone}
use counter_cruiser.ZoneStore.{Toml, Disk, Store, list_zones}
use counter_cruiser.ZoneStore.Requests.{Request}
use counter_cruiser.Dashboard.{DashboardState}
use counter_cruiser.Status
use counter_cruiser.Status.{StatusAnswer, AlertAnswer}
use counter_cruiser.Stats
use counter_cruiser.Stats.{Database, StatsAnswer}
use counter_cruiser.Routes.{
  ZoneBody, Response, create_zone_route, edit_zone_route, delete_zone_route,
}

pub data Verb : Type 0 where
  get post put delete : Verb

-- The view functions.
pub data Endpoint : Type 0 where
  dashboard status alerts live_feed get_zones create_zone edit_zone delete_zone : Endpoint
  calibrate deterrent_stats training_progress : Endpoint

pub record Rule : Type 0 where
  pub verb : Verb
  pub path : String
  pub endpoint : Endpoint

unfoldable pub register_dashboard_routes : List Rule → List Rule
register_dashboard_routes app =
    app
    ++ record { verb = get; path = "/"; endpoint = dashboard }
      ∷ record { verb = get; path = "/api/status"; endpoint = status }
      ∷ record { verb = get; path = "/api/alerts"; endpoint = alerts }
      ∷ []

unfoldable pub register_live_feed_routes : List Rule → List Rule
register_live_feed_routes app =
    app ++ record { verb = get; path = "/video_feed"; endpoint = live_feed } ∷ []

unfoldable pub register_zone_routes : List Rule → List Rule
register_zone_routes app =
    app
    ++ record { verb = get; path = "/api/zones"; endpoint = get_zones }
      ∷ record { verb = post; path = "/api/zones"; endpoint = create_zone }
      ∷ record { verb = put; path = "/api/zones/<zone_id>"; endpoint = edit_zone }
      ∷ record { verb = delete; path = "/api/zones/<zone_id>"; endpoint = delete_zone }
      ∷ record { verb = get; path = "/calibrate"; endpoint = calibrate }
      ∷ []

unfoldable pub register_deterrent_stats_routes : List Rule → List Rule
register_deterrent_stats_routes app =
    app
    ++ record { verb = get; path = "/api/deterrent-stats"; endpoint = deterrent_stats }
      ∷ record { verb = get; path = "/training-progress"; endpoint = training_progress }
      ∷ []

-- `_register_all_routes` on a new `Flask`.
unfoldable pub create_app : List Rule
unfolding register_dashboard_routes register_live_feed_routes register_zone_routes
    register_deterrent_stats_routes
create_app =
    register_deterrent_stats_routes
      (register_zone_routes (register_live_feed_routes (register_dashboard_routes [])))

abbrev pub same_endpoint : Endpoint → Endpoint → Bool
same_endpoint dashboard dashboard = true
same_endpoint status status = true
same_endpoint alerts alerts = true
same_endpoint live_feed live_feed = true
same_endpoint get_zones get_zones = true
same_endpoint create_zone create_zone = true
same_endpoint edit_zone edit_zone = true
same_endpoint delete_zone delete_zone = true
same_endpoint calibrate calibrate = true
same_endpoint deterrent_stats deterrent_stats = true
same_endpoint training_progress training_progress = true
same_endpoint _ _ = false

-- The verbs under which a view function can be called.
abbrev pub verbs_of : Endpoint → List Rule → List Verb
verbs_of e [] = []
verbs_of e (r ∷ rs) =
    let more = verbs_of e rs in if same_endpoint r.endpoint e then r.verb ∷ more else more

-- A call of a view function: with its arguments, with how a write of the file or a reading of the
-- database goes, and with the requests of other threads that the store handles while it has no lock.
pub data Call : Type 0 where
  read_dashboard read_calibrate read_training_progress : Call
  read_status read_alerts read_zones watch : Call
  read_statistics : Result (Unit {0}) → Result (Unit {0}) → Call
  create : Disk → ZoneBody → Call
  edit : Disk → String → ZoneBody → List (Disk × Request) → Call
  remove : Disk → String → Option ℕ → Call

-- What a call answers.
pub data Answer (Float : Type 0) : Type 0 where
  template : String → Answer Float
  status_answer : StatusAnswer Float → Answer Float
  alerts_answer : List AlertAnswer → Answer Float
  zones_answer : List Zone → ℕ → Answer Float
  statistics_answer : StatsAnswer → Answer Float
  zone_answer : Response → Answer Float
  multipart_stream : Answer Float

-- What the application was given: the shared state, the zone store, the database of the statistics.
pub record App (Frame Float Time Text : Type 0) : Type 0 where
  pub state : DashboardState Frame Float Time
  pub zone_store : Store Text
  pub stats_store : Database

module _ {ℓ κ} {A : Type ℓ} {B : Type κ} where
  abbrev pub answered : (A → B) → Result A → Result B
  answered f (ok a) = ok (f a)
  answered f (err e) = err e

-- The view function that a call runs.
abbrev pub endpoint_of : Call → Endpoint
endpoint_of read_dashboard = dashboard
endpoint_of read_calibrate = calibrate
endpoint_of read_training_progress = training_progress
endpoint_of read_status = status
endpoint_of read_alerts = alerts
endpoint_of read_zones = get_zones
endpoint_of watch = live_feed
endpoint_of (read_statistics a b) = deterrent_stats
endpoint_of (create disk body) = create_zone
endpoint_of (edit disk zone_id body others) = edit_zone
endpoint_of (remove disk zone_id version) = delete_zone

-- The requests of other threads within a call.
abbrev pub others_of : Call → List (Disk × Request)
others_of (edit disk zone_id body others) = others
others_of _ = []

module _ (T : Toml) {Frame Float Time : Type 0} (isoformat : Time → String)
    (days_ago : ℕ → String) where
  open T use {Text}

  abbrev pub changed :
      Result Response × Store Text
      → App Frame Float Time Text
      → Result (Answer Float) × App Frame Float Time Text
  changed (response, store) app = (answered zone_answer response, record app { zone_store = store })

  unfoldable pub handle :
      Call → App Frame Float Time Text → Result (Answer Float) × App Frame Float Time Text
  handle read_dashboard app = (ok (template "dashboard.html"), app)
  handle read_calibrate app = (ok (template "calibration.html"), app)
  handle read_training_progress app = (ok (template "training_progress.html"), app)
  handle read_status app = (ok (status_answer (Status.status app.state)), app)
  handle read_alerts app = (ok (alerts_answer (Status.alerts isoformat app.state)), app)
  handle read_zones app = (answered (λ r. zones_answer r.0 r.1) (list_zones T app.zone_store), app)
  handle watch app = (ok multipart_stream, app)
  handle (read_statistics events failures) app = (
    answered statistics_answer
        (Stats.deterrent_stats events failures days_ago app.state app.stats_store),
    app,
  )
  handle (create disk body) app = changed (create_zone_route T disk body app.zone_store) app
  handle (edit disk zone_id body others) app =
      changed (edit_zone_route T disk zone_id body others app.zone_store) app
  handle (remove disk zone_id version) app =
      changed (delete_zone_route T disk zone_id version app.zone_store) app
