-- ===== src/Geometry/Laws.antt =====
-- What the analysis of a frame means, stated without its loops.
use counter_cruiser.Prelude.{
  ◌≡◌, ◌≢◌, ◌↔◌, refl, Bool, true, false, List, [], ◌∷◌, any, Exists, any→Exists, Exists→any,
  length, ltb, String, contains, contains-update, ℤ, pos, ◌≤ℤ◌, ◌-ℤ◌, leb_ℤ, ok, Floats, arith,
  eq_iff, Bool-cases, ◌||◌, ◌&&◌, inl, inr,
}
use counter_cruiser.Zone.{Zone, BoundingBox}
use counter_cruiser.Geometry.Defs.{
  FrameAnalysis, box_test_points, touches, check_zones, analyze_dog_position, collect, analyze_from,
  analyze_detections,
}

module _ (F : Floats) (point_polygon_test : List (ℤ × ℤ) → F.Float × F.Float → ℤ) where
  open F use {Float, div_int, lt}

  -- A corner or the centre of the box lies in or on the polygon of the enabled zone.
  abbrev pub Triggers : BoundingBox Float → Zone → Type 0
  Triggers box z =
      (z.enabled ≡ true)
      × Exists (λ pt. pos 0 ≤ℤ point_polygon_test z.polygon pt) (box_test_points F box)

  touches_iff :
      (box : BoundingBox Float) (z : Zone)
      → (touches F point_polygon_test box z ≡ true)
        ↔ Exists (λ pt. pos 0 ≤ℤ point_polygon_test z.polygon pt) (box_test_points F box)
  touches_iff box z =
      let decides = λ (pt : Float × Float).
        let sign = point_polygon_test z.polygon pt in
        let both : (leb_ℤ (pos 0) sign ≡ true → pos 0 ≤ℤ sign)
            × (pos 0 ≤ℤ sign → leb_ℤ (pos 0) sign ≡ true) =
          ground arith in
        both in
      (
        any→Exists _ _ decides (box_test_points F box),
        Exists→any _ _ decides (box_test_points F box),
      )

  check_zones_sound :
      (k : String) (box : BoundingBox Float) (zones : List Zone)
      → contains k (check_zones F point_polygon_test box zones) ≡ true
      → Exists (λ z. (z.id ≡ k) × Triggers box z) zones
  unfolding check_zones
  check_zones_sound k box [] h = cc
  check_zones_sound k box (z ∷ zones) h = elim (Bool-cases (touches F point_polygon_test box z)) [
    | inl hit ↦
        ground (arith, eq_iff z.id k, check_zones_sound k box zones, (touches_iff box z).0 hit)
    | inr miss ↦ ground (arith, check_zones_sound k box zones)
  ]

  check_zones_complete :
      (k : String) (box : BoundingBox Float) (zones : List Zone)
      → Exists (λ z. (z.id ≡ k) × Triggers box z) zones
      → contains k (check_zones F point_polygon_test box zones) ≡ true
  unfolding check_zones
  check_zones_complete k box [] h = absurd h
  check_zones_complete k box (z ∷ zones) (inl (same, (on, hit))) =
      ground (arith, eq_iff z.id k, (touches_iff box z).1 hit)
  check_zones_complete k box (z ∷ zones) (inr h) =
      ground (arith, check_zones_complete k box zones h)

  -- A zone id is reported exactly if some enabled zone of that id has a test point of the box in or
  -- on its polygon.
  pub check_zones_iff :
      (k : String) (box : BoundingBox Float) (zones : List Zone)
      → (contains k (check_zones F point_polygon_test box zones) ≡ true)
        ↔ Exists (λ z. (z.id ≡ k) × Triggers box z) zones
  check_zones_iff k box zones = (check_zones_sound k box zones, check_zones_complete k box zones)

module _ (F : Floats) (point_polygon_test : List (ℤ × ℤ) → F.Float × F.Float → ℤ)
    (zones : List Zone) (frame_height : ℤ) (min_size_ratio : F.Float) where
  open F use {Float, div_int, lt}

  -- The box is taller than the ratio demands, and touches an enabled zone.
  abbrev pub IsElevated : BoundingBox Float → Type 0
  IsElevated box =
      (lt min_size_ratio (div_int (box.y2 -ℤ box.y1) frame_height) ≡ true)
      × Exists (Triggers F point_polygon_test box) zones

  abbrev position : BoundingBox Float → Bool × List String
  position box =
      let triggered = check_zones F point_polygon_test box zones in
      (
        lt min_size_ratio (div_int (box.y2 -ℤ box.y1) frame_height) && ltb 0 (length triggered),
        triggered,
      )

  position_lem :
      (box : BoundingBox Float)
      → frame_height ≢ pos 0
      → analyze_dog_position F point_polygon_test box zones frame_height min_size_ratio
        ≡ ok (position box)
  unfolding analyze_dog_position
  position_lem box h = ground arith

  analyze : FrameAnalysis → List (BoundingBox Float) → FrameAnalysis
  analyze acc [] = acc
  analyze acc (box ∷ boxes) = analyze (collect acc (position box)) boxes

  analyze_from_lem :
      (acc : FrameAnalysis) (boxes : List (BoundingBox Float))
      → frame_height ≢ pos 0
      → analyze_from F point_polygon_test acc boxes zones frame_height min_size_ratio
        ≡ ok (analyze acc boxes)
  unfolding analyze_from analyze
  analyze_from_lem acc [] h = refl
  analyze_from_lem acc (box ∷ boxes) h =
      rw (position_lem box h) (analyze_from_lem (collect acc (position box)) boxes h)

  elevated-analyze :
      (acc : FrameAnalysis) (boxes : List (BoundingBox Float))
      → (analyze acc boxes).elevated ≡ (acc.elevated || any (λ b. (position b).0) boxes)
  unfolding analyze
  elevated-analyze acc [] = ground arith
  elevated-analyze acc (box ∷ boxes) =
      ground (arith, elevated-analyze (collect acc (position box)) boxes)

  triggered-analyze :
      (k : String) (acc : FrameAnalysis) (boxes : List (BoundingBox Float))
      → contains k (analyze acc boxes).triggered_zones ≡ (
          contains k acc.triggered_zones
          || any (λ b. (position b).0 && contains k (position b).1) boxes)
  unfolding analyze
  triggered-analyze k acc [] = ground arith
  triggered-analyze k acc (box ∷ boxes) = ground (
    arith,
    triggered-analyze k (collect acc (position box)) boxes,
    contains-update k acc.triggered_zones (position box).1,
  )

  nonempty_sound :
      (box : BoundingBox Float) (zs : List Zone)
      → ltb 0 (length (check_zones F point_polygon_test box zs)) ≡ true
      → Exists (Triggers F point_polygon_test box) zs
  unfolding check_zones
  nonempty_sound box [] h = cc
  nonempty_sound box (z ∷ zs) h = elim (Bool-cases (touches F point_polygon_test box z)) [
    | inl hit ↦
        ground (arith, nonempty_sound box zs, (touches_iff F point_polygon_test box z).0 hit)
    | inr miss ↦ ground (arith, nonempty_sound box zs)
  ]

  nonempty_complete :
      (box : BoundingBox Float) (zs : List Zone)
      → Exists (Triggers F point_polygon_test box) zs
      → ltb 0 (length (check_zones F point_polygon_test box zs)) ≡ true
  unfolding check_zones
  nonempty_complete box [] h = absurd h
  nonempty_complete box (z ∷ zs) (inl (on, hit)) =
      ground (arith, (touches_iff F point_polygon_test box z).1 hit)
  nonempty_complete box (z ∷ zs) (inr h) = ground (arith, nonempty_complete box zs h)

  position_iff :
      (box : BoundingBox Float)
      → ((position box).0 ≡ true → IsElevated box) × (IsElevated box → (position box).0 ≡ true)
  position_iff box = (
    λ h. ground (arith, nonempty_sound box zones),
    λ h. ground (arith, nonempty_complete box zones h.1),
  )

  elevates_iff :
      (k : String) (box : BoundingBox Float)
      → (((position box).0 && contains k (position box).1) ≡ true
          → IsElevated box × Exists (λ z. (z.id ≡ k) × Triggers F point_polygon_test box z) zones)
        × (IsElevated box × Exists (λ z. (z.id ≡ k) × Triggers F point_polygon_test box z) zones
            → ((position box).0 && contains k (position box).1) ≡ true)
  elevates_iff k box = (
    λ h. (
      (position_iff box).0 (ground arith),
      (check_zones_iff F point_polygon_test k box zones).0 (ground arith),
    ),
    λ h. rw ((position_iff box).1 h.0) ((check_zones_iff F point_polygon_test k box zones).1 h.1),
  )

  -- With a frame height other than 0 the analysis does not raise. The frame is elevated exactly if
  -- some box is, and the triggered zones are exactly those that some elevated box touches.
  pub analyze_detections_lem :
      (boxes : List (BoundingBox Float))
      → frame_height ≢ pos 0
      → (a : FrameAnalysis) × (analyze_detections F point_polygon_test boxes zones frame_height
            min_size_ratio
          ≡ ok a)
        × ((a.elevated ≡ true) ↔ Exists IsElevated boxes)
        × ((k : String)
            → (contains k a.triggered_zones ≡ true)
              ↔ Exists
                  (λ b.
                    IsElevated b
                    × Exists (λ z. (z.id ≡ k) × Triggers F point_polygon_test b z) zones)
                  boxes)
  unfolding analyze_detections
  analyze_detections_lem boxes h =
      let start : FrameAnalysis = record { elevated = false; triggered_zones = [] } in
      (
        analyze start boxes,
        analyze_from_lem start boxes h,
        rw (elevated-analyze start boxes)
            (any→Exists _ _ position_iff boxes, Exists→any _ _ position_iff boxes),
        λ k.
            rw (triggered-analyze k start boxes)
              (any→Exists _ _ (elevates_iff k) boxes, Exists→any _ _ (elevates_iff k) boxes),
      )
