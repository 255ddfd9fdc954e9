-- ===== src/ZoneStore/Requests.antt =====
-- Requests to the store, one after another, and the invariant of the zones in memory.
use counter_cruiser.Prelude.{
  ℕ, ◌≡◌, ◌∙◌, inl, inr, ◌⊎◌, Bool, true, false, Option, List, [], ◌∷◌, ◌++◌, All-append, String,
  ltb, length, ℤ, arith, Bool-cases, Result-cases, Exception, Result, err, value_error,
  zone_not_found, validation_error,
}
use counter_cruiser.Zone.{Zone, IsValid}
use counter_cruiser.ZoneStore.Defs.{
  Toml, Store, Disk, no_temp, write_fails, replaced, or_old, check_version, write_toml, create_zone,
  edit_zone, delete_zone,
}
use counter_cruiser.ZoneStore.Lists.{replace_id, without_id, has_id, find-id, find-cases}
use counter_cruiser.ZoneStore.Outcomes.{create_zone_lem, delete_zone_lem, edit_zone_lem}
use counter_cruiser.ZoneStore.Invariant.{
  WellFormed, append-UniqueIds, replace-UniqueIds, replace-IsValid, without-UniqueIds,
  without-IsValid,
}

-- The three mutating methods; the zone of a `create` has passed its validator.
pub data Request : Type 0 where
  create : (z : Zone) → IsValid z → Option ℕ → Request
  edit : String → Option ℕ → Option String → Option (List (ℤ × ℤ)) → Option Bool → Request
  delete : String → Option ℕ → Request

module _ (T : Toml) where
  open T use {Text, load, dumps, has_wrapper, set_wrapped, set_top}

  unfoldable pub perform : Disk → Request → Store Text → Result (Unit {0}) × Store Text
  perform disk (create z valid version) = create_zone T disk z version
  perform disk (edit zone_id version name polygon enabled) =
      edit_zone T disk zone_id version name polygon enabled
  perform disk (delete zone_id version) = delete_zone T disk zone_id version

  unfoldable pub perform_all : List (Disk × Request) → Store Text → Store Text
  perform_all [] s = s
  perform_all ((disk, r) ∷ rs) s = perform_all rs (perform disk r s).1

  -- A step either changes nothing and raises, or writes well-formed zones: what it does to them is
  -- decided before the write.
  pub record Planned (disk : Disk) (r : Request) (s : Store Text) : Type 0 where
    pub zones : List Zone
    pub keeps : WellFormed s.zones → WellFormed zones
    pub does : perform disk r s ≡ write_toml T disk (record s { zones = zones })

  abbrev pub Refused : Disk → Request → Store Text → Type 0
  Refused disk r s = (e : Exception) × (perform disk r s ≡ (err e, s))

  pub perform-cases :
      (disk : Disk) (r : Request) (s : Store Text) → Refused disk r s ⊎ Planned disk r s
  unfolding perform
  perform-cases disk (create z valid version) s =
      let (stale, current) = create_zone_lem T disk s version z in
      elim (Result-cases (check_version T version s)) [
        | inr (e, bad) ↦ inl (e, stale e bad)
        | inl (u, good) ↦ elim (Bool-cases (has_id z.id s.zones)) [
          | inl has ↦ inl (value_error, current good ∙ (rw has))
          | inr new ↦ inr (record {
            zones = s.zones ++ z ∷ [];
            keeps = λ w. record {
              valid = All-append IsValid s.zones (z ∷ []) w.valid (valid, tt);
              unique = append-UniqueIds s.zones z new w.unique;
            };
            does = current good ∙ (rw new);
          })
        ]
      ]
  perform-cases disk (delete zone_id version) s =
      let (stale, current) = delete_zone_lem T disk s version zone_id in
      elim (Result-cases (check_version T version s)) [
        | inr (e, bad) ↦ inl (e, stale e bad)
        | inl (u, good) ↦ elim (Bool-cases (has_id zone_id s.zones)) [
          | inl has ↦ inr (record {
            zones = without_id zone_id s.zones;
            keeps = λ w. record {
              valid = without-IsValid zone_id s.zones w.valid;
              unique = without-UniqueIds zone_id s.zones w.unique;
            };
            does = current good ∙ (rw has);
          })
          | inr missing ↦ inl (zone_not_found, current good ∙ (rw missing))
        ]
      ]
  perform-cases disk (edit zone_id version name polygon enabled) s =
      let (stale, missing, current) = edit_zone_lem T disk s version zone_id name polygon enabled in
      elim (Result-cases (check_version T version s)) [
        | inr (e, bad) ↦ inl (e, stale e bad)
        | inl (u, good) ↦ elim (find-cases zone_id s.zones) [
          | inr (has, absent) ↦ inl (zone_not_found, missing good has)
          | inl (has, (z, found)) ↦ elim (Bool-cases (ltb (length (or_old polygon z.polygon)) 3)) [
            | inl few ↦ inl (validation_error, current z good found ∙ (rw few))
            | inr enough ↦ inr (record {
              zones =
                  replace_id zone_id
                    (record {
                      id = z.id;
                      name = or_old name z.name;
                      enabled = or_old enabled z.enabled;
                      polygon = or_old polygon z.polygon;
                    })
                    s.zones;
              keeps = λ w. record {
                valid = replace-IsValid zone_id _ s.zones (ground arith) w.valid;
                unique =
                    replace-UniqueIds zone_id _ s.zones (find-id zone_id s.zones z found) w.unique;
              };
              does = current z good found ∙ (rw enough);
            })
          ]
        ]
      ]

  pub zones-write_toml : (disk : Disk) (s : Store Text) → (write_toml T disk s).1.zones ≡ s.zones
  unfolding write_toml
  zones-write_toml no_temp s = ground arith
  zones-write_toml (write_fails true) s = ground arith
  zones-write_toml (write_fails false) s = ground arith
  zones-write_toml (replaced mtime) s = ground arith

  pub perform-WellFormed :
      (disk : Disk) (r : Request) (s : Store Text)
      → WellFormed s.zones
      → WellFormed (perform disk r s).1.zones
  perform-WellFormed disk r s w = elim (perform-cases disk r s) [
    | inl (e, refused) ↦ rw refused w
    | inr p ↦ rw (p.does, zones-write_toml disk (record s { zones = p.zones })) (p.keeps w)
  ]

  -- Over any requests, with any failures of the disk, the zones in memory keep distinct ids and
  -- polygons of at least three points.
  pub perform_all-WellFormed :
      (rs : List (Disk × Request)) (s : Store Text)
      → WellFormed s.zones
      → WellFormed (perform_all rs s).zones
  unfolding perform_all
  perform_all-WellFormed [] s w = w
  perform_all-WellFormed ((disk, r) ∷ rs) s w =
      perform_all-WellFormed rs (perform disk r s).1 (perform-WellFormed disk r s w)
