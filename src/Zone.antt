-- ===== src/Zone.antt =====
-- `Zone` of counter_cruiser/config/models.py, and `BoundingBox` of counter_cruiser/shared/protocol.py.
use counter_cruiser.Prelude.{
  ◌≤◌, ◌≡◌, refl, inl, inr, Bool-cases, eq_refl, Bool, true, false, ◌&&◌, List, [], ◌∷◌, length,
  ltb, String, str_eq, eq_iff, ℤ, eq_ℤ, Result, ok, err, validation_error, if◌then◌else◌, arith,
}

pub record Zone : Type 0 where
  pub id : String
  pub name : String
  pub enabled : Bool
  pub polygon : List (ℤ × ℤ)

-- `Zone(id=…, name=…, enabled=…, polygon=…)`: the validator `at_least_three_points`.
unfoldable pub make_zone : String → String → Bool → List (ℤ × ℤ) → Result Zone
make_zone id name enabled polygon =
    if ltb (length polygon) 3
    then err validation_error
    else ok (record { id = id; name = name; enabled = enabled; polygon = polygon })

abbrev pub IsValid : Zone → Type 0
IsValid z = 3 ≤ length z.polygon

pub make_zone-IsValid :
    (id name : String) (enabled : Bool) (polygon : List (ℤ × ℤ)) (zone : Zone)
    → make_zone id name enabled polygon ≡ ok zone
    → IsValid zone
unfolding make_zone
make_zone-IsValid id name enabled polygon zone h = elim (Bool-cases (ltb (length polygon) 3)) [
  | inl few ↦ absurd (ground arith)
  | inr enough ↦ ground arith
]

-- The model's `==`: all fields are equal.
abbrev pub bool_eq : Bool → Bool → Bool
bool_eq true b = b
bool_eq false true = false
bool_eq false false = true

abbrev pub points_eq : List (ℤ × ℤ) → List (ℤ × ℤ) → Bool
points_eq [] [] = true
points_eq [] (q ∷ qs) = false
points_eq (p ∷ ps) [] = false
points_eq (p ∷ ps) (q ∷ qs) = (eq_ℤ p.0 q.0 && eq_ℤ p.1 q.1) && points_eq ps qs

unfoldable pub zone_eq : Zone → Zone → Bool
zone_eq a b =
    str_eq a.id b.id
    && (str_eq a.name b.name && (bool_eq a.enabled b.enabled && points_eq a.polygon b.polygon))

points_eq_refl : (ps : List (ℤ × ℤ)) → points_eq ps ps ≡ true
points_eq_refl [] = refl
points_eq_refl (p ∷ ps) = ground (arith, points_eq_refl ps)

pub zone_eq_refl : (z : Zone) → zone_eq z z ≡ true
unfolding zone_eq
zone_eq_refl z = ground (arith, points_eq_refl z.polygon, eq_refl z.id, eq_refl z.name)

pub zone_eq→id : (a b : Zone) → zone_eq a b ≡ true → a.id ≡ b.id
unfolding zone_eq
zone_eq→id a b h = ground (arith, eq_iff a.id b.id)

pub record BoundingBox (Float : Type 0) : Type 0 where
  pub x1 : ℤ
  pub y1 : ℤ
  pub x2 : ℤ
  pub y2 : ℤ
  pub confidence : Float
  pub class_id : ℤ
  pub class_name : String
