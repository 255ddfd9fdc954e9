-- ===== src/ZoneStore/Lists.antt =====
-- `find` with `index` or `remove`, against one pass over the list by the id.
use counter_cruiser.Prelude.{
  ℕ, suc, ◌+◌, ◌≡◌, refl, ◌⊎◌, inl, inr, Bool, true, false, List, [], ◌∷◌, any, String, str_eq,
  eq_iff, ap, sym, ◌∙◌, if◌then◌else◌, ok, err, zone_not_found, arith, Bool-cases,
}
use counter_cruiser.Zone.{Zone, zone_eq, zone_eq_refl, zone_eq→id}
use counter_cruiser.ZoneStore.Defs.{index_from, set_at, remove, find}

-- The first zone of the id replaced, the others in place.
abbrev pub replace_id : String → Zone → List Zone → List Zone
replace_id zone_id new [] = []
replace_id zone_id new (z ∷ zs) =
    if str_eq z.id zone_id then new ∷ zs else z ∷ replace_id zone_id new zs

-- The first zone of the id left out.
abbrev pub without_id : String → List Zone → List Zone
without_id zone_id [] = []
without_id zone_id (z ∷ zs) = if str_eq z.id zone_id then zs else z ∷ without_id zone_id zs

abbrev pub has_id : String → List Zone → Bool
has_id zone_id zones = any (λ z. str_eq z.id zone_id) zones

pub find-id :
    (zone_id : String) (zones : List Zone) (z : Zone) → find zone_id zones ≡ ok z → z.id ≡ zone_id
unfolding find
find-id zone_id [] z h = cc
find-id zone_id (y ∷ ys) z h = ground (arith, find-id zone_id ys z, eq_iff y.id zone_id)

pub find-cases :
    (zone_id : String) (zones : List Zone)
    → ((has_id zone_id zones ≡ true) × ((z : Zone) × (find zone_id zones ≡ ok z)))
      ⊎ ((has_id zone_id zones ≡ false) × (find zone_id zones ≡ err zone_not_found))
unfolding find
find-cases zone_id [] = inr (refl, refl)
find-cases zone_id (z ∷ zs) = elim (Bool-cases (str_eq z.id zone_id)) [
  | inl e ↦ inl (rw e, (z, rw e))
  | inr e ↦ rw e (find-cases zone_id zs)
]

module _ (zone_id : String) where
  find-nil : (z : Zone) → find zone_id [] ≡ ok z → ⊥
  unfolding find
  find-nil z h = cc

  find-tail :
      (y : Zone) (ys : List Zone) (z : Zone)
      → find zone_id (y ∷ ys) ≡ ok z
      → str_eq y.id zone_id ≡ false
      → find zone_id ys ≡ ok z
  unfolding find
  find-tail y ys z h e = ground arith

  -- The zone found is the first that is equal to itself.
  found_first :
      (y : Zone) (ys : List Zone) (z : Zone)
      → find zone_id (y ∷ ys) ≡ ok z
      → zone_eq y z ≡ str_eq y.id zone_id
  unfolding find
  found_first y ys z h = elim (Bool-cases (str_eq y.id zone_id)) [
    | inl e ↦
        let same : y ≡ z = ground arith in ap (λ w. zone_eq y w) (sym same) ∙ zone_eq_refl y ∙ sym e
    | inr e ↦
        let named : z.id ≡ zone_id = find-id zone_id (y ∷ ys) z h in
        ground (arith, zone_eq→id y z, eq_iff y.id zone_id)
  ]

  pub index-found :
      (i : ℕ) (zones : List Zone) (z new : Zone)
      → find zone_id zones ≡ ok z
      → (j : ℕ) × (index_from i z zones ≡ ok (i + j))
        × (set_at zones j new ≡ replace_id zone_id new zones)
  index-found i [] z new h = absurd (find-nil z h)
  index-found i (y ∷ ys) z new h = elim (Bool-cases (str_eq y.id zone_id)) [
    | inl e ↦ (0, rw (found_first y ys z h, e) (ap ok (omega arith)), rw e)
    | inr e ↦
        let (j, found, same) = index-found (suc i) ys z new (find-tail y ys z h e) in
        (suc j, rw (found_first y ys z h, e, found) (ap ok (omega arith)), rw (e, same))
  ]

  pub remove-found :
      (zones : List Zone) (z : Zone)
      → find zone_id zones ≡ ok z
      → remove z zones ≡ ok (without_id zone_id zones)
  remove-found [] z h = absurd (find-nil z h)
  remove-found (y ∷ ys) z h = elim (Bool-cases (str_eq y.id zone_id)) [
    | inl e ↦ rw (found_first y ys z h, e)
    | inr e ↦ rw (found_first y ys z h, e, remove-found ys z (find-tail y ys z h e))
  ]
