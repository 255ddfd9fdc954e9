-- ===== src/WebApp/Safe.antt =====
-- Which calls of the web application change what.
use counter_cruiser.Prelude.{
  ℕ, ◌≡◌, ◌≤◌, refl, ap, ◌⊎◌, inl, inr, ◌++◌, Option, none, some, List, [], ◌∷◌, length, All,
  String, arith, Result, ok, err,
}
use counter_cruiser.Zone.{Zone, IsValid}
use counter_cruiser.ZoneStore.{Toml, Disk, Store, create_zone, edit_zone, delete_zone}
use counter_cruiser.ZoneStore.Requests.{Request, perform, perform_all}
use counter_cruiser.Routes.{
  ZoneBody, zone_of_body, created, create_from, create_zone_route, edited, edit_from,
  edit_zone_route, deleted, delete_zone_route,
}
use counter_cruiser.Routes.Accepted.{zone_of_body-IsValid}
use counter_cruiser.WebApp.Defs.{
  get, post, put, delete, create_app, register_dashboard_routes, register_live_feed_routes,
  register_zone_routes, register_deterrent_stats_routes, verbs_of, Call, read_dashboard,
  read_calibrate, read_training_progress, read_status, read_alerts, read_zones, watch,
  read_statistics, create, edit, remove, App, endpoint_of, others_of, handle,
}

module _ (T : Toml) where
  open T use {Text}

  created-store : (zone : Zone) (r : Result (Unit {0}) × Store Text) → (created T zone r).1 ≡ r.1
  created-store zone (ok u, s) = refl
  created-store zone (err e, s) = refl

  deleted-store : (r : Result (Unit {0}) × Store Text) → (deleted T r).1 ≡ r.1
  deleted-store (ok u, s) = refl
  deleted-store (err e, s) = refl

  -- At most one request of the store leads from one state of it to the other, or one request and then those
  -- of other threads.
  abbrev pub Requested : List (Disk × Request) → Store Text → Store Text → Type 0
  Requested others s s' =
      (rs : List (Disk × Request)) × (more : List (Disk × Request)) × (length rs ≤ 1)
      × ((more ≡ []) ⊎ (more ≡ others))
      × (s' ≡ perform_all T (rs ++ more) s)

  create_from-Requested :
      (disk : Disk) (zone : Result Zone) (version : Option (Option ℕ)) (s : Store Text)
      → ((z : Zone) → zone ≡ ok z → IsValid z)
      → Requested [] s (create_from T disk zone version s).1
  unfolding perform_all perform
  create_from-Requested disk (err e) version s valid = ([], [], omega arith, inl refl, refl)
  create_from-Requested disk (ok z) none s valid = ([], [], omega arith, inl refl, refl)
  create_from-Requested disk (ok z) (some v) s valid = (
    (disk, Request.create z (valid z refl) v) ∷ [],
    [],
    omega arith,
    inl refl,
    created-store z (create_zone T disk z v s),
  )

  edited-Requested :
      (q : Disk × Request) (zone_id : String) (others : List (Disk × Request)) (s : Store Text)
      (r : Result (Unit {0}) × Store Text)
      → r.1 ≡ perform_all T (q ∷ []) s
      → Requested others s (edited T zone_id others r).1
  unfolding perform_all
  edited-Requested q zone_id others s (ok u, s') h =
      (q ∷ [], others, omega arith, inr refl, ap (perform_all T others) h)
  edited-Requested q zone_id others s (err e, s') h = (q ∷ [], [], omega arith, inl refl, h)

  edit_from-Requested :
      (disk : Disk) (zone_id : String) (body : ZoneBody) (others : List (Disk × Request))
      (version : Option (Option ℕ)) (s : Store Text)
      → Requested others s (edit_from T disk zone_id body others version s).1
  unfolding perform_all perform
  edit_from-Requested disk zone_id body others none s = ([], [], omega arith, inl refl, refl)
  edit_from-Requested disk zone_id body others (some v) s =
      edited-Requested (disk, Request.edit zone_id v body.name body.polygon body.enabled) zone_id
        others s (edit_zone T disk zone_id v body.name body.polygon body.enabled s) refl

module _ (T : Toml) {Frame Float Time : Type 0} (isoformat : Time → String)
    (days_ago : ℕ → String) where
  open T use {Text}

  -- A call that is routed under `GET` alone changes nothing. Any call leaves the dashboard's state and the
  -- statistics as they are, and changes the zone store by one of the store's requests, on the zones that its
  -- validator accepts, or not at all; requests of other threads within the call come after it.
  pub handle_lem :
      (call : Call) (app : App Frame Float Time Text)
      → let app' = (handle T isoformat days_ago call app).1 in
        (All (λ v. v ≡ get) (verbs_of (endpoint_of call) create_app) → app' ≡ app)
        × (app'.state ≡ app.state)
        × (app'.stats_store ≡ app.stats_store)
        × Requested T (others_of call) app.zone_store app'.zone_store
  unfolding handle create_app register_dashboard_routes register_live_feed_routes
      register_zone_routes register_deterrent_stats_routes perform_all perform create_zone_route
      edit_zone_route delete_zone_route
  handle_lem read_dashboard app = (λ h. refl, refl, refl, ([], [], omega arith, inl refl, refl))
  handle_lem read_calibrate app = (λ h. refl, refl, refl, ([], [], omega arith, inl refl, refl))
  handle_lem read_training_progress app =
      (λ h. refl, refl, refl, ([], [], omega arith, inl refl, refl))
  handle_lem read_status app = (λ h. refl, refl, refl, ([], [], omega arith, inl refl, refl))
  handle_lem read_alerts app = (λ h. refl, refl, refl, ([], [], omega arith, inl refl, refl))
  handle_lem read_zones app = (λ h. refl, refl, refl, ([], [], omega arith, inl refl, refl))
  handle_lem watch app = (λ h. refl, refl, refl, ([], [], omega arith, inl refl, refl))
  handle_lem (read_statistics events failures) app =
      (λ h. refl, refl, refl, ([], [], omega arith, inl refl, refl))
  handle_lem (create disk body) app = (
    λ h. (let e : post ≡ get = h.0 in cc),
    refl,
    refl,
    create_from-Requested T disk (zone_of_body body) body.version app.zone_store
        (zone_of_body-IsValid body),
  )
  handle_lem (edit disk zone_id body others) app = (
    λ h. (let e : put ≡ get = h.0 in cc),
    refl,
    refl,
    edit_from-Requested T disk zone_id body others body.version app.zone_store,
  )
  handle_lem (remove disk zone_id version) app = (
    λ h. (let e : delete ≡ get = h.0 in cc),
    refl,
    refl,
    (
      (disk, Request.delete zone_id version) ∷ [],
      [],
      omega arith,
      inl refl,
      deleted-store T (delete_zone T disk zone_id version app.zone_store),
    ),
  )
