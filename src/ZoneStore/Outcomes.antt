-- ===== src/ZoneStore/Outcomes.antt =====
-- What each method does on every branch, up to the write of the file.
use counter_cruiser.Prelude.{
  ℕ, ◌+◌, ◌≡◌, ◌↔◌, inl, inr, Bool, true, false, Option, none, some, List, [], ◌∷◌, ◌++◌, length,
  ltb, String, arith, Bool-cases, Option-cases, if◌then◌else◌, Exception, ok, err, zone_not_found,
  value_error, os_error, validation_error, ℤ,
}
use counter_cruiser.Zone.{Zone}
use counter_cruiser.ZoneStore.Defs.{
  Toml, ConfigFile, Store, Disk, or_old, same_version, find, check_version, write_toml, create_zone,
  edit_zone, delete_zone,
}
use counter_cruiser.ZoneStore.Lists.{
  replace_id, without_id, has_id, find-cases, index-found, remove-found,
}

same_version_sound :
    (version : Option ℕ) (current : ℕ)
    → same_version version current ≡ true
    → version ≡ some current
same_version_sound none current h = cc
same_version_sound (some v) current h = ground arith

module _ (T : Toml) where
  open T use {Text}

  -- The version check passes exactly if there is a file and the version is its modification time.
  -- Without a file it raises `OSError`, and with another version `VersionConflictError`.
  pub check_version_iff :
      (version : Option ℕ) (s : Store Text)
      → ((check_version T version s ≡ ok tt)
          ↔ ((f : ConfigFile Text) × (s.file ≡ some f) × (version ≡ some f.mtime)))
        × ((check_version T version s ≡ err os_error) ↔ (s.file ≡ none))
  unfolding check_version
  check_version_iff version s = elim (Option-cases s.file) [
    | inl missing ↦ ((λ h. ground arith, λ h. ground arith), (λ h. missing, λ h. ground arith))
    | inr (f, there) ↦ (
      (λ h. (f, there, same_version_sound version f.mtime (ground arith)), λ h. ground arith),
      (λ h. ground arith, λ h. ground arith),
    )
  ]

  module _ (disk : Disk) (s : Store Text) (version : Option ℕ) where
    -- `create_zone` raises what the version check raises, then `ValueError` for an id that is there,
    -- both with nothing changed; else it appends the zone and writes the file.
    pub create_zone_lem :
        (zone : Zone)
        → ((e : Exception)
            → check_version T version s ≡ err e
            → create_zone T disk zone version s ≡ (err e, s))
          × (check_version T version s ≡ ok tt
              → create_zone T disk zone version s ≡ (
                  if has_id zone.id s.zones
                  then (err value_error, s)
                  else write_toml T disk (record s { zones = s.zones ++ zone ∷ [] })))
    unfolding create_zone
    create_zone_lem zone = (λ e h. rw h, λ h. rw h (ground arith))

    -- `delete_zone` raises what the version check raises, then `ZoneNotFoundError`, both with
    -- nothing changed; else it leaves out the first zone of the id and writes the file.
    pub delete_zone_lem :
        (zone_id : String)
        → ((e : Exception)
            → check_version T version s ≡ err e
            → delete_zone T disk zone_id version s ≡ (err e, s))
          × (check_version T version s ≡ ok tt
              → delete_zone T disk zone_id version s ≡ (
                  if has_id zone_id s.zones
                  then write_toml T disk (record s { zones = without_id zone_id s.zones })
                  else (err zone_not_found, s)))
    unfolding delete_zone
    delete_zone_lem zone_id = (
      λ e h. rw h,
      λ h. elim (find-cases zone_id s.zones) [
        | inl (has, (z, found)) ↦ rw (h, found, remove-found zone_id s.zones z found, has)
        | inr (has, missing) ↦ rw (h, missing, has)
      ],
    )

    -- `edit_zone` raises what the version check raises, then `ZoneNotFoundError`, then
    -- `ValidationError` for a polygon of fewer than three points, all with nothing changed; else it
    -- replaces the first zone of the id, field by field as given, and writes the file.
    pub edit_zone_lem :
        (zone_id : String) (name : Option String) (polygon : Option (List (ℤ × ℤ)))
        (enabled : Option Bool)
        → ((e : Exception)
            → check_version T version s ≡ err e
            → edit_zone T disk zone_id version name polygon enabled s ≡ (err e, s))
          × (check_version T version s ≡ ok tt
              → has_id zone_id s.zones ≡ false
              → edit_zone T disk zone_id version name polygon enabled s ≡ (err zone_not_found, s))
          × ((z : Zone)
              → check_version T version s ≡ ok tt
              → find zone_id s.zones ≡ ok z
              → let points = or_old polygon z.polygon in
                edit_zone T disk zone_id version name polygon enabled s ≡ (
                  if ltb (length points) 3
                  then (err validation_error, s)
                  else write_toml T disk (record s {
                    zones =
                        replace_id zone_id
                          (record {
                            id = z.id;
                            name = or_old name z.name;
                            enabled = or_old enabled z.enabled;
                            polygon = points;
                          })
                          s.zones;
                  })))
    unfolding edit_zone
    edit_zone_lem zone_id name polygon enabled = (
      λ e h. rw h,
      λ h has. elim (find-cases zone_id s.zones) [
        | inl (has', (z, found)) ↦ ground arith
        | inr (has', missing) ↦ rw (h, missing)
      ],
      λ z h found.
          let points = or_old polygon z.polygon in
          let new : Zone = record {
            id = z.id;
            name = or_old name z.name;
            enabled = or_old enabled z.enabled;
            polygon = points;
          } in
          let (j, at, same) = index-found zone_id 0 s.zones z new found in
          let plain : 0 + j ≡ j = omega arith in
          elim (Bool-cases (ltb (length points) 3)) [
            | inl few ↦ rw (h, found, few)
            | inr enough ↦ rw (h, found, enough, at, plain, same)
          ],
    )
