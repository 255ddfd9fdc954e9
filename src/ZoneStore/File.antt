-- ===== src/ZoneStore/File.antt =====
-- What the file holds beside the zones in memory, and the versions of requests.
use counter_cruiser.Prelude.{
  ℕ, ◌≡◌, ◌≢◌, refl, ap, ◌∙◌, inl, inr, ◌⊎◌, true, false, Option, none, some, List, [], ◌∷◌, ◌++◌,
  All, arith, Bool-cases, Result-cases, Exception, Result, ok, err, os_error, version_conflict,
  value_error, eq_refl,
}
use counter_cruiser.Zone.{Zone, IsValid}
use counter_cruiser.ZoneStore.Invariant.{WellFormed}
use counter_cruiser.ZoneStore.Defs.{
  Toml, ConfigFile, Store, Disk, no_temp, write_fails, replaced, check_version, current_version,
  load_document, with_zones, write_toml, create_zone, list_zones,
}
use counter_cruiser.ZoneStore.Lists.{has_id}
use counter_cruiser.ZoneStore.Outcomes.{
  check_version_iff, create_zone_lem, delete_zone_lem, edit_zone_lem,
}
use counter_cruiser.ZoneStore.Requests.{
  Request, create, edit, delete, perform, perform-cases, zones-write_toml,
}

module _ (T : Toml) where
  open T use {Text, Doc, dumps, has_wrapper, set_wrapped, set_top}

  -- A reader of the file finds the zones that were set, if each is a valid one: in the wrapper table of a document that has
  -- one, at the top of any other.
  pub record ReadsBack (read_zones : Text → Result (List Zone)) : Type 0 where
    pub top :
        (zones : List Zone) (d : Doc)
        → All IsValid zones
        → has_wrapper d ≡ false
        → read_zones (dumps (set_top zones d)) ≡ ok zones
    pub wrapped :
        (zones : List Zone) (d : Doc)
        → All IsValid zones
        → has_wrapper d ≡ true
        → read_zones (dumps (set_wrapped zones d)) ≡ ok zones

  -- The file is there and holds the zones in memory.
  abbrev pub InSync : (Text → Result (List Zone)) → Store Text → Type 0
  InSync read_zones s =
      (f : ConfigFile Text) × (s.file ≡ some f) × (read_zones f.content ≡ ok s.zones)

  -- The store after the file was replaced.
  abbrev pub saved : Store Text → Doc → ℕ → Store Text
  saved s doc t = record s {
    file = some (record { content = dumps (with_zones T s.zones doc); mtime = t });
  }

  Saved : Disk → Store Text → Type 0
  Saved disk s =
      (t : ℕ) × (doc : Doc) × (write_toml T disk s ≡ (ok tt, saved s doc t))
      × (disk ≡ replaced t)
      × (load_document T s.file ≡ ok doc)

  Failed : Disk → Store Text → Type 0
  Failed disk s =
      (e : Exception) × ((write_toml T disk s).0 ≡ err e) × ((write_toml T disk s).1.file ≡ s.file)

  write_loaded :
      (disk : Disk) (s : Store Text) (doc : Doc)
      → load_document T s.file ≡ ok doc
      → Saved disk s ⊎ Failed disk s
  unfolding write_toml Saved Failed
  write_loaded no_temp s doc h = inr (os_error, rw h, rw h)
  write_loaded (write_fails true) s doc h = inr (os_error, rw h, rw h)
  write_loaded (write_fails false) s doc h = inr (os_error, rw h, rw h)
  write_loaded (replaced t) s doc h = inl (t, doc, rw h, refl, h)

  -- A write that succeeds has replaced the file; one that fails has left it.
  write_toml-cases : (disk : Disk) (s : Store Text) → Saved disk s ⊎ Failed disk s
  unfolding write_toml Saved Failed
  write_toml-cases disk s = elim (Result-cases (load_document T s.file)) [
    | inr (e, bad) ↦ inr (e, rw bad, rw bad)
    | inl (doc, good) ↦ write_loaded disk s doc good
  ]

  -- A write that succeeds has written the document that it loaded, with the zones in memory.
  pub write_toml-saved :
      (disk : Disk) (s : Store Text)
      → (write_toml T disk s).0 ≡ ok tt
      → (t : ℕ) × (doc : Doc) × (load_document T s.file ≡ ok doc)
        × (write_toml T disk s ≡ (ok tt, saved s doc t))
  unfolding Saved Failed
  write_toml-saved disk s h = elim (write_toml-cases disk s) [
    | inr (e, failed, same) ↦ absurd (ground arith)
    | inl (t, doc, done, _, from) ↦ (t, doc, from, done)
  ]

  -- A write leaves a file that was there.
  pub write_toml-file :
      (disk : Disk) (s : Store Text) (f : ConfigFile Text)
      → s.file ≡ some f
      → (f' : ConfigFile Text) × ((write_toml T disk s).1.file ≡ some f')
  unfolding Saved Failed
  write_toml-file disk s f there = elim (write_toml-cases disk s) [
    | inl (t, doc, done, _, _) ↦ (_, ap (λ r. r.1.file) done)
    | inr (e, failed, same) ↦ (f, same ∙ there)
  ]

  with_zones-read :
      (read_zones : Text → Result (List Zone))
      → ReadsBack read_zones
      → (zones : List Zone) (doc : Doc) → All IsValid zones
      → read_zones (dumps (with_zones T zones doc)) ≡ ok zones
  unfolding with_zones
  with_zones-read read_zones law zones doc valid = elim (Bool-cases (has_wrapper doc)) [
    | inl yes_wrapped ↦ rw yes_wrapped (law.wrapped zones doc valid yes_wrapped)
    | inr plain ↦ rw plain (law.top zones doc valid plain)
  ]

  -- From zones with distinct ids and valid polygons: after a request that succeeds the file holds the zones in memory, whether or not it has the
  -- wrapper table; after one that raises the file is what it was.
  pub perform_persists :
      (read_zones : Text → Result (List Zone))
      → ReadsBack read_zones
      → (disk : Disk) (r : Request) (s : Store Text) → WellFormed s.zones
      → ((perform T disk r s).0 ≡ ok tt → InSync read_zones (perform T disk r s).1)
        × ((e : Exception) → (perform T disk r s).0 ≡ err e → (perform T disk r s).1.file ≡ s.file)
  unfolding Saved Failed
  perform_persists read_zones law disk r s w = elim (perform-cases T disk r s) [
    | inl (e, refused) ↦ rw refused (λ h. cc, λ e' h. refl)
    | inr p ↦ rw p.does (elim (write_toml-cases disk (record s { zones = p.zones })) [
      | inl (t, doc, done, _, _) ↦
          rw done (
            λ h. (_, refl, with_zones-read read_zones law p.zones doc (p.keeps w).valid),
            λ e h. cc,
          )
      | inr (e, failed, same) ↦ (λ h. cc, λ e' h. same)
    ])
  ]

  abbrev pub version_of : Request → Option ℕ
  version_of (create z valid version) = version
  version_of (edit zone_id version name polygon enabled) = version
  version_of (delete zone_id version) = version

  -- A version check that raises makes the whole request raise that, with nothing changed.
  perform_refused :
      (disk : Disk) (r : Request) (s : Store Text) (e : Exception)
      → check_version T (version_of r) s ≡ err e
      → perform T disk r s ≡ (err e, s)
  unfolding perform
  perform_refused disk (create z valid version) s e h = (create_zone_lem T disk s version z).0 e h
  perform_refused disk (edit zone_id version name polygon enabled) s e h =
      (edit_zone_lem T disk s version zone_id name polygon enabled).0 e h
  perform_refused disk (delete zone_id version) s e h =
      (delete_zone_lem T disk s version zone_id).0 e h

  has_id-last : (zone : Zone) (zones : List Zone) → has_id zone.id (zones ++ zone ∷ []) ≡ true
  has_id-last zone [] = rw (eq_refl zone.id)
  has_id-last zone (z ∷ zs) = ground (arith, has_id-last zone zs)

  check_stale :
      (v : ℕ) (s : Store Text) (f : ConfigFile Text)
      → s.file ≡ some f
      → v ≢ f.mtime
      → check_version T (some v) s ≡ err version_conflict
  unfolding check_version
  check_stale v s f h ne = ground arith

  -- Once a request has succeeded and given the file the modification time `t`, a request that
  -- carries another version raises `VersionConflictError` and changes nothing.
  pub second_writer_conflicts :
      (t v : ℕ) (disk : Disk) (r r' : Request) (s : Store Text)
      → version_of r' ≡ some v
      → v ≢ t
      → (perform T (replaced t) r s).0 ≡ ok tt
      → let s' = (perform T (replaced t) r s).1 in perform T disk r' s' ≡ (err version_conflict, s')
  unfolding Saved Failed
  second_writer_conflicts t v disk r r' s same ne done = elim (perform-cases T (replaced t) r s) [
    | inl (e, refused) ↦ absurd (ground (arith, refused))
    | inr p ↦ elim (write_toml-cases (replaced t) (record s { zones = p.zones })) [
      | inl (u, doc, wrote, time, _) ↦
          let result = p.does ∙ wrote in
          perform_refused disk r' _ version_conflict
            (rw same (rw result (check_stale v _ _ refl (ground arith))))
      | inr (e, failed, kept) ↦ absurd (ground (arith, p.does))
    ]
  ]

  -- Without a config file `list_zones` and every request raise `OSError`, and nothing changes.
  pub no_config_file :
      (disk : Disk) (r : Request) (s : Store Text)
      → s.file ≡ none
      → (list_zones T s ≡ err os_error) × (perform T disk r s ≡ (err os_error, s))
  unfolding list_zones
  no_config_file disk r s h = (
    ground arith,
    perform_refused disk r s os_error ((check_version_iff T (version_of r) s).1.1 h),
  )

  check_version-file :
      (version : Option ℕ) (s s' : Store Text)
      → s'.file ≡ s.file
      → check_version T version s' ≡ check_version T version s
  unfolding check_version current_version
  check_version-file version s s' h = rw h refl

  -- A `create_zone` of a new zone whose version check passes and which raises, wherever in the write: the file
  -- is what it was and the zone is among the zones in memory, so that the same request, made again with any
  -- disk, raises `ValueError`.
  pub create_zone_unsaved :
      (disk disk' : Disk) (s : Store Text) (zone : Zone) (version : Option ℕ) (e : Exception)
      → check_version T version s ≡ ok tt
      → has_id zone.id s.zones ≡ false
      → (create_zone T disk zone version s).0 ≡ err e
      → let s' = (create_zone T disk zone version s).1 in
        (s'.zones ≡ s.zones ++ zone ∷ [])
        × (s'.file ≡ s.file)
        × (create_zone T disk' zone version s' ≡ (err value_error, s'))
  unfolding Saved Failed
  create_zone_unsaved disk disk' s zone version e current new raises =
      let t : Store Text = record s { zones = s.zones ++ zone ∷ [] } in
      let does : create_zone T disk zone version s ≡ write_toml T disk t =
        rw new at ((create_zone_lem T disk s version zone).1 current) in
      let s' = (create_zone T disk zone version s).1 in
      let zones : s'.zones ≡ s.zones ++ zone ∷ [] =
        ap (λ r. r.1.zones) does ∙ zones-write_toml T disk t in
      let file : s'.file ≡ s.file = elim (write_toml-cases disk t) [
        | inl (_, doc, done, _, _) ↦
            absurd (ground (arith, ap (λ r. r.0) does ∙ ap (λ r. r.0) done))
        | inr (x, failed, same) ↦ ap (λ r. r.1.file) does ∙ same
      ] in
      let again =
        (create_zone_lem T disk' s' version zone).1
          (check_version-file version s s' file ∙ current) in
      let has : has_id zone.id s'.zones ≡ true =
        ap (has_id zone.id) zones ∙ has_id-last zone s.zones in
      (zones, file, rw has at again)
