-- ===== src/Geometry/Floor.antt =====
-- Frames without a height, and frames on the floor.
use counter_cruiser.Prelude.{
  ◌≡◌, refl, false, List, [], ◌∷◌, ℤ, pos, ok, err, zero_division_error, Floats, arith,
  Result-cases, inl, inr,
}
use counter_cruiser.Zone.{Zone, BoundingBox}
use counter_cruiser.Geometry.Defs.{
  FrameAnalysis, analyze_dog_position, collect, analyze_from, analyze_detections,
}

module _ (F : Floats) (point_polygon_test : List (ℤ × ℤ) → F.Float × F.Float → ℤ)
    (zones : List Zone) (frame_height : ℤ) (min_size_ratio : F.Float) where
  open F use {Float, div_int, lt}

  -- With a frame height of 0 the analysis raises `ZeroDivisionError` as soon as there is a box.
  pub analyze_detections_zero :
      (boxes : List (BoundingBox Float))
      → frame_height ≡ pos 0
      → analyze_detections F point_polygon_test boxes zones frame_height min_size_ratio
        ≡ elim boxes [
          | [] ↦ ok (record { elevated = false; triggered_zones = [] })
          | _ ∷ _ ↦ err zero_division_error
        ]
  unfolding analyze_detections analyze_dog_position
  analyze_detections_zero [] h = refl
  analyze_detections_zero (box ∷ boxes) h = ground arith

  floor_from :
      (acc : FrameAnalysis) (boxes : List (BoundingBox Float)) (a : FrameAnalysis)
      → (acc.elevated ≡ false → acc.triggered_zones ≡ [])
      → analyze_from F point_polygon_test acc boxes zones frame_height min_size_ratio ≡ ok a
      → a.elevated ≡ false
      → a.triggered_zones ≡ []
  unfolding analyze_from
  floor_from acc [] a inv h e = ground arith
  floor_from acc (box ∷ boxes) a inv h e =
      elim (Result-cases
        (analyze_dog_position F point_polygon_test box zones frame_height min_size_ratio)) [
          | inl (v, q) ↦ floor_from (collect acc v) boxes a (λ f. ground arith) (rw q at h) e
          | inr (x, q) ↦ ground arith
        ]

  -- A frame that is not elevated triggers no zone.
  pub floor_triggers_nothing :
      (boxes : List (BoundingBox Float)) {a : FrameAnalysis}
      → analyze_detections F point_polygon_test boxes zones frame_height min_size_ratio ≡ ok a
      → a.elevated ≡ false
      → a.triggered_zones ≡ []
  unfolding analyze_detections
  floor_triggers_nothing boxes {a} h e = floor_from _ boxes a (λ f. refl) h e
