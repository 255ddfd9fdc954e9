-- ===== src/Routes/Accepted.antt =====
-- What a request that the store accepts has done, and bodies that give a zone.
use counter_cruiser.Prelude.{
  ℕ, ◌≡◌, ap, ◌∙◌, inl, inr, true, Option, none, some, List, [], ◌∷◌, ◌++◌, String, eq_iff, ℤ, Bool,
  ltb, length, arith, Bool-cases, Result-cases, ok, err, other_error, refl, false, str_eq,
}
use counter_cruiser.Zone.{Zone, IsValid, make_zone-IsValid}
use counter_cruiser.ZoneStore.{
  Toml, Disk, Store, or_old, check_version, list_zones, create_zone, edit_zone, delete_zone,
  write_toml, ConfigFile,
}
use counter_cruiser.ZoneStore.Lists.{has_id, replace_id, without_id, find-id, find-cases}
use counter_cruiser.ZoneStore.Outcomes.{create_zone_lem, edit_zone_lem, delete_zone_lem}
use counter_cruiser.ZoneStore.Requests.{
  Request, perform, perform_all, perform-cases, zones-write_toml,
}
use counter_cruiser.ZoneStore.File.{write_toml-file}
use counter_cruiser.Routes.Defs.{ZoneBody, next_zone, shown, updated, zone_of_body}

next_zone-replace :
    (zone_id : String) (new : Zone) (zones : List Zone)
    → new.id ≡ zone_id
    → has_id zone_id zones ≡ true
    → next_zone zone_id (replace_id zone_id new zones) ≡ ok new
next_zone-replace zone_id new [] same has = cc
next_zone-replace zone_id new (z ∷ zs) same has =
    ground (arith, eq_iff new.id zone_id, next_zone-replace zone_id new zs same)

-- The lookup finds a zone of the id, or raises if there is none.
pub next_zone-cases :
    (zone_id : String) (zones : List Zone)
    → (has_id zone_id zones ≡ true
        → (z : Zone) × (next_zone zone_id zones ≡ ok z) × (z.id ≡ zone_id))
      × (has_id zone_id zones ≡ false → next_zone zone_id zones ≡ err other_error)
next_zone-cases zone_id [] = (λ h. cc, λ h. refl)
next_zone-cases zone_id (z ∷ zs) =
    let (found, missing) = next_zone-cases zone_id zs in
    elim (Bool-cases (str_eq z.id zone_id)) [
      | inl same ↦ rw same (λ h. (z, refl, (eq_iff z.id zone_id).0 same), λ h. cc)
      | inr other ↦ rw other (found, missing)
    ]

pub next_zone-has_id :
    (zone_id : String) (zones : List Zone) (z : Zone)
    → next_zone zone_id zones ≡ ok z
    → has_id zone_id zones ≡ true
next_zone-has_id zone_id zones z h = elim (Bool-cases (has_id zone_id zones)) [
  | inl has ↦ has
  | inr missing ↦ absurd (ground (arith, (next_zone-cases zone_id zones).1 missing))
]

from_keys-IsValid :
    (id name : Option String) (enabled : Option Bool) (polygon : Option (List (ℤ × ℤ)))
    (version : Option (Option ℕ)) (zone : Zone)
    → zone_of_body
        (record { id = id; name = name; enabled = enabled; polygon = polygon; version = version })
      ≡ ok zone
    → IsValid zone
unfolding zone_of_body
from_keys-IsValid none name enabled polygon version zone h = cc
from_keys-IsValid (some i) none enabled polygon version zone h = cc
from_keys-IsValid (some i) (some n) enabled none version zone h = cc
from_keys-IsValid (some i) (some n) enabled (some p) version zone h =
    make_zone-IsValid i n (or_old enabled true) p zone h

pub zone_of_body-IsValid :
    (body : ZoneBody) (zone : Zone) → zone_of_body body ≡ ok zone → IsValid zone
zone_of_body-IsValid body zone h =
    from_keys-IsValid body.id body.name body.enabled body.polygon body.version zone h

module _ (T : Toml) where
  open T use {Text}

  -- An edit that the store accepts has put a zone in the place of the first one of its id.
  pub edit_zone-found :
      (disk : Disk) (zone_id : String) (version : Option ℕ) (name : Option String)
      (polygon : Option (List (ℤ × ℤ))) (enabled : Option Bool) (s : Store Text)
      → (edit_zone T disk zone_id version name polygon enabled s).0 ≡ ok tt
      → (z : Zone) × (next_zone zone_id
            (edit_zone T disk zone_id version name polygon enabled s).1.zones
          ≡ ok z)
        × (z.id ≡ zone_id)
  edit_zone-found disk zone_id version name polygon enabled s done =
      let (stale, missing, current) = edit_zone_lem T disk s version zone_id name polygon enabled in
      elim (Result-cases (check_version T version s)) [
        | inr (e, bad) ↦ absurd (ground (arith, stale e bad))
        | inl (u, good) ↦ elim (find-cases zone_id s.zones) [
          | inr (has, absent) ↦ absurd (ground (arith, missing good has))
          | inl (has, (z, found)) ↦ elim (Bool-cases (ltb (length (or_old polygon z.polygon)) 3)) [
            | inl few ↦ absurd (ground (arith, current z good found))
            | inr enough ↦
                let new : Zone = record {
                  id = z.id;
                  name = or_old name z.name;
                  enabled = or_old enabled z.enabled;
                  polygon = or_old polygon z.polygon;
                } in
                let same = find-id zone_id s.zones z found in
                let does : edit_zone T disk zone_id version name polygon enabled s
                    ≡ write_toml T disk (record s { zones = replace_id zone_id new s.zones }) =
                  current z good found ∙ (rw enough) in
                let zones : (edit_zone T disk zone_id version name polygon enabled s).1.zones
                    ≡ replace_id zone_id new s.zones =
                  ap (λ r. r.1.zones) does ∙ zones-write_toml T disk _ in
                (new, rw zones (next_zone-replace zone_id new s.zones same has), same)
          ]
        ]
      ]

  -- No request takes the file away.
  perform-file :
      (disk : Disk) (r : Request) (s : Store Text) (f : ConfigFile Text)
      → s.file ≡ some f
      → (f' : ConfigFile Text) × ((perform T disk r s).1.file ≡ some f')
  perform-file disk r s f there = elim (perform-cases T disk r s) [
    | inl (e, refused) ↦ (f, ap (λ x. x.1.file) refused ∙ there)
    | inr p ↦
        let (f', kept) = write_toml-file T disk (record s { zones = p.zones }) f there in
        (f', ap (λ x. x.1.file) p.does ∙ kept)
  ]

  perform_all-file :
      (rs : List (Disk × Request)) (s : Store Text) (f : ConfigFile Text)
      → s.file ≡ some f
      → (f' : ConfigFile Text) × ((perform_all T rs s).file ≡ some f')
  unfolding perform_all
  perform_all-file [] s f there = (f, there)
  perform_all-file ((disk, r) ∷ rs) s f there =
      let (f', still) = perform-file disk r s f there in
      perform_all-file rs (perform T disk r s).1 f' still

  -- While the file is there, the answer after an edit is what the lookup gives.
  pub shown-there :
      (rs : List (Disk × Request)) (zone_id : String) (s : Store Text) (f : ConfigFile Text)
      → s.file ≡ some f
      → shown zone_id (list_zones T (perform_all T rs s))
        ≡ updated (next_zone zone_id (perform_all T rs s).zones)
  unfolding list_zones
  shown-there rs zone_id s f there = let (f', still) = perform_all-file rs s f there in rw still

  pub zones-create_zone :
      (disk : Disk) (zone : Zone) (version : Option ℕ) (s : Store Text)
      → (create_zone T disk zone version s).0 ≡ ok tt
      → (create_zone T disk zone version s).1.zones ≡ s.zones ++ zone ∷ []
  zones-create_zone disk zone version s done =
      let (stale, current) = create_zone_lem T disk s version zone in
      elim (Result-cases (check_version T version s)) [
        | inr (e, bad) ↦ absurd (ground (arith, stale e bad))
        | inl (u, good) ↦ elim (Bool-cases (has_id zone.id s.zones)) [
          | inl has ↦ absurd (ground (arith, current good))
          | inr new ↦ ap (λ r. r.1.zones) (rw new at (current good)) ∙ zones-write_toml T disk _
        ]
      ]

  pub zones-delete_zone :
      (disk : Disk) (zone_id : String) (version : Option ℕ) (s : Store Text)
      → (delete_zone T disk zone_id version s).0 ≡ ok tt
      → (delete_zone T disk zone_id version s).1.zones ≡ without_id zone_id s.zones
  zones-delete_zone disk zone_id version s done =
      let (stale, current) = delete_zone_lem T disk s version zone_id in
      elim (Result-cases (check_version T version s)) [
        | inr (e, bad) ↦ absurd (ground (arith, stale e bad))
        | inl (u, good) ↦ elim (Bool-cases (has_id zone_id s.zones)) [
          | inr missing ↦ absurd (ground (arith, current good))
          | inl has ↦ ap (λ r. r.1.zones) (rw has at (current good)) ∙ zones-write_toml T disk _
        ]
      ]
