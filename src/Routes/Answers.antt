-- ===== src/Routes/Answers.antt =====
-- What an answer of the zone endpoints says of the store.
use counter_cruiser.Prelude.{
  ℕ, ◌≡◌, refl, true, false, Option, none, some, List, [], ◌∷◌, ◌++◌, String, Result, ok, err,
  value_error, version_conflict, other_error, ap, ◌∙◌,
}
use counter_cruiser.Zone.{Zone, IsValid}
use counter_cruiser.ZoneStore.{
  Toml, Disk, Store, check_version, create_zone, edit_zone, delete_zone, write_toml, load_document,
}
use counter_cruiser.ZoneStore.Lists.{has_id, without_id}
use counter_cruiser.ZoneStore.Outcomes.{create_zone_lem, delete_zone_lem}
use counter_cruiser.ZoneStore.Invariant.{WellFormed}
use counter_cruiser.ZoneStore.Requests.{Request, perform, perform_all, create, edit, delete}
use counter_cruiser.ZoneStore.File.{ReadsBack, InSync, perform_persists}
use counter_cruiser.Routes.Defs.{
  ZoneBody, next_zone, zone_of_body, create_zone_route, edit_zone_route, delete_zone_route, refused,
  updated,
}
use counter_cruiser.Routes.Accepted.{
  zone_of_body-IsValid, edit_zone-found, shown-there, next_zone-cases, next_zone-has_id,
  zones-create_zone, zones-delete_zone,
}

module _ (T : Toml) where
  open T use {Text}

  -- From well-formed zones, an edit that the store accepts, with any requests of other threads handled before
  -- the lookup: the file holds the edited zones when the edit is done, and the store is then changed by those
  -- requests alone. The answer has status 200 and the first zone of the id that is there by then; if no zone of
  -- the id is left, the lookup raises `StopIteration`. Without other requests there is one.
  pub edit_zone_route_lem :
      (read_zones : Text → Result (List Zone))
      → ReadsBack T read_zones
      → (disk : Disk) (zone_id : String) (body : ZoneBody) (version : Option ℕ) (s : Store Text)
        (others : List (Disk × Request))
      → WellFormed s.zones
      → body.version ≡ some version
      → (edit_zone T disk zone_id version body.name body.polygon body.enabled s).0 ≡ ok tt
      → let edited = (edit_zone T disk zone_id version body.name body.polygon body.enabled s).1 in
        let (answer, s') = edit_zone_route T disk zone_id body others s in
        InSync T read_zones edited
        × (s' ≡ perform_all T others edited)
        × (has_id zone_id s'.zones ≡ true
            → (z : Zone) × (answer ≡ ok (record { status = 200; zone = some z }))
              × (next_zone zone_id s'.zones ≡ ok z)
              × (z.id ≡ zone_id))
        × (has_id zone_id s'.zones ≡ false → answer ≡ err other_error)
        × (others ≡ [] → has_id zone_id s'.zones ≡ true)
  unfolding edit_zone_route perform perform_all
  edit_zone_route_lem read_zones law disk zone_id body version s others w given done =
      let store' = (edit_zone T disk zone_id version body.name body.polygon body.enabled s).1 in
      let sync : InSync T read_zones store' =
        (perform_persists T read_zones law disk
            (edit zone_id version body.name body.polygon body.enabled) s w).0
          done in
      let (z, found, same) =
        edit_zone-found T disk zone_id version body.name body.polygon body.enabled s done in
      let last = perform_all T others store' in
      let answers = shown-there T others zone_id store' sync.0 sync.1 in
      let (there, gone) = next_zone-cases zone_id last.zones in
      let alone : (others ≡ [] → has_id zone_id last.zones ≡ true) = λ h.
        ap (λ rs. has_id zone_id (perform_all T rs store').zones) h
        ∙ next_zone-has_id zone_id store'.zones z found in
      rw (given, done)
        (
          sync,
          refl,
          λ has.
              let (z', is_z', same') = there has in (z', answers ∙ ap updated is_z', is_z', same'),
          λ missing. answers ∙ ap updated (gone missing),
          alone,
        )

  -- From well-formed zones: `create_zone` of a body that gives a zone and a version: a stale version is answered with status
  -- 409 and an id that is there with 400, both with nothing changed; where the store accepts, the
  -- answer is 201 with the zone, which is valid and now the last, and the file holds the zones.
  pub create_zone_route_lem :
      (read_zones : Text → Result (List Zone))
      → ReadsBack T read_zones
      → (disk : Disk) (body : ZoneBody) (zone : Zone) (version : Option ℕ) (s : Store Text)
      → WellFormed s.zones
      → zone_of_body body ≡ ok zone
      → body.version ≡ some version
      → let (answer, s') = create_zone_route T disk body s in
        (check_version T version s ≡ err version_conflict → (answer ≡ refused 409) × (s' ≡ s))
        × (check_version T version s ≡ ok tt
            → has_id zone.id s.zones ≡ true
            → (answer ≡ refused 400) × (s' ≡ s))
        × ((create_zone T disk zone version s).0 ≡ ok tt
            → (answer ≡ ok (record { status = 201; zone = some zone }))
              × IsValid zone
              × (s'.zones ≡ s.zones ++ zone ∷ [])
              × InSync T read_zones s')
  unfolding create_zone_route perform
  create_zone_route_lem read_zones law disk body zone version s w given versioned =
      let (stale, current) = create_zone_lem T disk s version zone in
      let valid = zone_of_body-IsValid body zone given in
      rw (given, versioned)
        (
          λ old. let same = stale version_conflict old in rw same (refl, refl),
          λ good has. let same = rw has at (current good) in rw same (refl, refl),
          λ done.
              let sync =
                (perform_persists T read_zones law disk (create zone valid version) s w).0 done in
              let kept = zones-create_zone T disk zone version s done in
              rw done (refl, valid, kept, sync),
        )

  -- A file that tomlkit cannot parse (a `ValueError`) makes `create_zone` answer 400, but the zone is
  -- among the zones in memory afterwards.
  pub create_zone_unparsed :
      (disk : Disk) (body : ZoneBody) (zone : Zone) (version : Option ℕ) (s : Store Text)
      → zone_of_body body ≡ ok zone
      → body.version ≡ some version
      → check_version T version s ≡ ok tt
      → has_id zone.id s.zones ≡ false
      → load_document T s.file ≡ err value_error
      → create_zone_route T disk body s ≡ (refused 400, record s { zones = s.zones ++ zone ∷ [] })
  unfolding create_zone_route write_toml
  create_zone_unparsed disk body zone version s given versioned good new bad =
      let does = rw new at ((create_zone_lem T disk s version zone).1 good) in
      rw (given, versioned, does, bad)

  -- From well-formed zones: `delete_zone` answers a stale version with status 409 and an unknown id with 404, both with
  -- nothing changed; where the store accepts, the answer is 200, the first zone of the id is gone, and
  -- the file holds the zones.
  pub delete_zone_route_lem :
      (read_zones : Text → Result (List Zone))
      → ReadsBack T read_zones
      → (disk : Disk) (zone_id : String) (version : Option ℕ) (s : Store Text) → WellFormed s.zones
      → let (answer, s') = delete_zone_route T disk zone_id version s in
        (check_version T version s ≡ err version_conflict → (answer ≡ refused 409) × (s' ≡ s))
        × (check_version T version s ≡ ok tt
            → has_id zone_id s.zones ≡ false
            → (answer ≡ refused 404) × (s' ≡ s))
        × ((delete_zone T disk zone_id version s).0 ≡ ok tt
            → (answer ≡ ok (record { status = 200; zone = none }))
              × (s'.zones ≡ without_id zone_id s.zones)
              × InSync T read_zones s')
  unfolding delete_zone_route perform
  delete_zone_route_lem read_zones law disk zone_id version s w =
      let (stale, current) = delete_zone_lem T disk s version zone_id in
      (
        λ old. let same = stale version_conflict old in rw same (refl, refl),
        λ good missing. let same = rw missing at (current good) in rw same (refl, refl),
        λ done.
            let sync =
              (perform_persists T read_zones law disk (delete zone_id version) s w).0 done in
            let kept = zones-delete_zone T disk zone_id version s done in
            rw done (refl, kept, sync),
      )
