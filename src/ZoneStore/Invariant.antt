-- ===== src/ZoneStore/Invariant.antt =====
-- The zones in memory keep distinct ids and polygons of three points or more.
use counter_cruiser.Prelude.{
  ◌≡◌, refl, true, false, List, [], ◌∷◌, ◌++◌, All, String, str_eq, eq_iff, arith, if◌then◌else◌,
}
use counter_cruiser.Zone.{Zone, IsValid}
use counter_cruiser.ZoneStore.Lists.{replace_id, without_id, has_id}

abbrev pub UniqueIds : List Zone → Type 0
UniqueIds [] = Unit
UniqueIds (z ∷ zs) = (has_id z.id zs ≡ false) × UniqueIds zs

pub record WellFormed (zones : List Zone) : Type 0 where
  pub valid : All IsValid zones
  pub unique : UniqueIds zones

has_id-append :
    (k : String) (zs : List Zone) (z : Zone)
    → has_id k (zs ++ z ∷ []) ≡ (if has_id k zs then true else str_eq z.id k)
has_id-append k [] z = ground arith
has_id-append k (y ∷ ys) z = ground (arith, has_id-append k ys z)

pub append-UniqueIds :
    (zs : List Zone) (z : Zone) → has_id z.id zs ≡ false → UniqueIds zs → UniqueIds (zs ++ z ∷ [])
append-UniqueIds [] z h u = (refl, tt)
append-UniqueIds (y ∷ ys) z h u =
    ground
      (arith, append-UniqueIds ys z, has_id-append y.id ys z, eq_iff y.id z.id, eq_iff z.id y.id)

has_id-replace :
    (k zone_id : String) (new : Zone) (zs : List Zone)
    → new.id ≡ zone_id
    → has_id k (replace_id zone_id new zs) ≡ has_id k zs
has_id-replace k zone_id new [] h = refl
has_id-replace k zone_id new (z ∷ zs) h =
    ground (arith, has_id-replace k zone_id new zs h, eq_iff z.id zone_id)

pub replace-UniqueIds :
    (zone_id : String) (new : Zone) (zs : List Zone)
    → new.id ≡ zone_id
    → UniqueIds zs
    → UniqueIds (replace_id zone_id new zs)
replace-UniqueIds zone_id new [] h u = tt
replace-UniqueIds zone_id new (z ∷ zs) h u = ground (
  arith,
  replace-UniqueIds zone_id new zs h u.1,
  has_id-replace z.id zone_id new zs h,
  eq_iff z.id zone_id,
)

pub replace-IsValid :
    (zone_id : String) (new : Zone) (zs : List Zone)
    → IsValid new
    → All IsValid zs
    → All IsValid (replace_id zone_id new zs)
replace-IsValid zone_id new [] h v = tt
replace-IsValid zone_id new (z ∷ zs) h v = ground (arith, replace-IsValid zone_id new zs h v.1)

has_id-without :
    (k zone_id : String) (zs : List Zone)
    → has_id k zs ≡ false
    → has_id k (without_id zone_id zs) ≡ false
has_id-without k zone_id [] h = refl
has_id-without k zone_id (z ∷ zs) h = ground (arith, has_id-without k zone_id zs)

pub without-UniqueIds :
    (zone_id : String) (zs : List Zone) → UniqueIds zs → UniqueIds (without_id zone_id zs)
without-UniqueIds zone_id [] u = tt
without-UniqueIds zone_id (z ∷ zs) u =
    ground (arith, without-UniqueIds zone_id zs u.1, has_id-without z.id zone_id zs)

pub without-IsValid :
    (zone_id : String) (zs : List Zone) → All IsValid zs → All IsValid (without_id zone_id zs)
without-IsValid zone_id [] v = tt
without-IsValid zone_id (z ∷ zs) v = ground (arith, without-IsValid zone_id zs v.1)
