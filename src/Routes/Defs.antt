-- ===== src/Routes/Defs.antt =====
-- The endpoints, each a function of the store that answers or raises.
use counter_cruiser.Prelude.{
  ℕ, Bool, true, Option, none, some, List, [], ◌∷◌, String, str_eq, ℤ, if◌then◌else◌, Exception,
  Result, ok, err, key_error, other_error, ◌>>=◌,
}
use counter_cruiser.Zone.{Zone, make_zone}
use counter_cruiser.ZoneStore.{
  Toml, Disk, Store, Method, or_old, list_zones, create_zone, edit_zone, delete_zone,
}
use counter_cruiser.ZoneStore.Requests.{Request, perform_all}

-- A version that is no natural number is `some none`.
pub record ZoneBody : Type 0 where
  pub id : Option String
  pub name : Option String
  pub enabled : Option Bool
  pub polygon : Option (List (ℤ × ℤ))
  pub version : Option (Option ℕ)

pub record Response : Type 0 where
  pub status : ℕ
  pub zone : Option Zone

abbrev pub refused : ℕ → Result Response
refused status = ok (record { status = status; zone = none })

-- `body[key]`
abbrev pub key {ℓ} : {A : Type ℓ} → Option A → Result A
key none = err key_error
key (some x) = ok x

unfoldable pub zone_of_body : ZoneBody → Result Zone
unfolding make_zone
zone_of_body body = do
  id ← key body.id
  name ← key body.name
  polygon ← key body.polygon
  make_zone id name (or_old body.enabled true) polygon

-- The `except` clauses; what they do not name goes on to the caller.
abbrev pub create_error : Exception → Result Response
create_error Exception.version_conflict = refused 409
create_error Exception.validation_error = refused 400
create_error Exception.value_error = refused 400
create_error Exception.key_error = refused 400
create_error Exception.type_error = refused 400
create_error e = err e

abbrev pub edit_error : Exception → Result Response
edit_error Exception.version_conflict = refused 409
edit_error Exception.zone_not_found = refused 404
edit_error Exception.validation_error = refused 400
edit_error Exception.value_error = refused 400
edit_error Exception.key_error = refused 400
edit_error Exception.type_error = refused 400
edit_error e = err e

abbrev pub delete_error : Exception → Result Response
delete_error Exception.version_conflict = refused 409
delete_error Exception.zone_not_found = refused 404
delete_error e = err e

-- `next(z for z in zones if z.id == zone_id)`, which raises `StopIteration` if there is none.
abbrev pub next_zone : String → List Zone → Result Zone
next_zone zone_id [] = err other_error
next_zone zone_id (z ∷ zs) = if str_eq z.id zone_id then ok z else next_zone zone_id zs

abbrev pub updated : Result Zone → Result Response
updated (ok z) = ok (record { status = 200; zone = some z })
updated (err e) = err e

abbrev pub shown : String → Result (List Zone × ℕ) → Result Response
shown zone_id (ok (zones, version)) = updated (next_zone zone_id zones)
shown zone_id (err e) = err e

module _ (T : Toml) where
  open T use {Text}

  abbrev pub created : Zone → Result (Unit {0}) × Store Text → Result Response × Store Text
  created zone (ok u, s) = (ok (record { status = 201; zone = some zone }), s)
  created zone (err e, s) = (create_error e, s)

  abbrev pub create_from : Disk → Result Zone → Option (Option ℕ) → Method T Response
  create_from disk (err e) version s = (create_error e, s)
  create_from disk (ok zone) none s = (create_error key_error, s)
  create_from disk (ok zone) (some version) s = created zone (create_zone T disk zone version s)

  unfoldable pub create_zone_route : Disk → ZoneBody → Method T Response
  unfolding zone_of_body
  create_zone_route disk body = create_from disk (zone_of_body body) body.version

  -- The store's lock is free between `edit_zone` and `list_zones`: other threads may have their requests
  -- handled there.
  abbrev pub edited :
      String → List (Disk × Request) → Result (Unit {0}) × Store Text → Result Response × Store Text
  edited zone_id others (ok u, s) =
      let s' = perform_all T others s in (shown zone_id (list_zones T s'), s')
  edited zone_id others (err e, s) = (edit_error e, s)

  abbrev pub edit_from :
      Disk → String → ZoneBody → List (Disk × Request) → Option (Option ℕ) → Method T Response
  edit_from disk zone_id body others none s = (edit_error key_error, s)
  edit_from disk zone_id body others (some version) s =
      edited zone_id others (edit_zone T disk zone_id version body.name body.polygon body.enabled s)

  unfoldable pub edit_zone_route :
      Disk → String → ZoneBody → List (Disk × Request) → Method T Response
  edit_zone_route disk zone_id body others = edit_from disk zone_id body others body.version

  abbrev pub deleted : Result (Unit {0}) × Store Text → Result Response × Store Text
  deleted (ok u, s) = (ok (record { status = 200; zone = none }), s)
  deleted (err e, s) = (delete_error e, s)

  unfoldable pub delete_zone_route : Disk → String → Option ℕ → Method T Response
  delete_zone_route disk zone_id version s = deleted (delete_zone T disk zone_id version s)
