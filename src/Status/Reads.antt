-- ===== src/Status/Reads.antt =====
-- What the pages show after an answer of the server.
use counter_cruiser.Prelude.{
  ℕ, zero, suc, ◌≡◌, refl, ap, ◌∙◌, List, [], ◌∷◌, map, String, str_le, sorted_by, take, ℤ, pos, ok,
  Floats, if◌then◌else◌, Bool-cases, inl, inr,
}
use counter_cruiser.Zone.{Zone}
use counter_cruiser.Debounce
use counter_cruiser.Debounce.{is_consecutive_elevated}
use counter_cruiser.Geometry.{FrameAnalysis, analyze_detections}
use counter_cruiser.ZoneStore.{Toml, list_zones}
use counter_cruiser.Client.{Detection, Moment, Client, on_result}
use counter_cruiser.Client.Alarm.{on_result_lem}
use counter_cruiser.Status.{alert_answer, status, alerts}

map-take : {A B : Type 0} (f : A → B) (n : ℕ) (xs : List A) → map f (take n xs) ≡ take n (map f xs)
map-take f zero xs = refl
map-take f (suc n) [] = refl
map-take f (suc n) (x ∷ xs) = ap (◌∷◌ (f x)) (map-take f n xs)

module _ (T : Toml) (F : Floats) (point_polygon_test : List (ℤ × ℤ) → F.Float × F.Float → ℤ)
    (Frame Time W : Type 0) (copy : Frame → Frame) (min_size_ratio : F.Float)
    (now : Moment Frame Time) (msg : Detection F.Float) (latency : F.Float)
    (c : Client T F point_polygon_test Frame Time W copy min_size_ratio) where
  -- After an answer whose zones and analysis can be had, the status page says `elevated` exactly if the
  -- debounce test holds with that frame, and lists the frame's zones in order; and the alert page then
  -- has the frame in front of the alerts before, up to the capacity, and else shows the same alerts.
  pub pages_after_result :
      (zones : List Zone) (version : ℕ) (analysis : FrameAnalysis) (isoformat : Time → String)
      → list_zones T c.store ≡ ok (zones, version)
      → analyze_detections F point_polygon_test msg.boxes zones now.frame_height min_size_ratio
        ≡ ok analysis
      → let actionable =
          is_consecutive_elevated (pos 2) (Debounce.add msg.frame_id analysis.elevated c.history) in
        let after =
          (on_result T F point_polygon_test Frame Time W copy min_size_ratio now msg latency
            c).1.dashboard in
        ((status after).detection_state ≡ (if actionable then "elevated" else "floor"))
        × ((status after).triggered_zones ≡ sorted_by str_le analysis.triggered_zones)
        × (alerts isoformat after ≡ (
            if actionable
            then take c.dashboard.capacity (
                record {
                  time = isoformat now.utc;
                  triggered_zones = sorted_by str_le analysis.triggered_zones;
                  frame_id = msg.frame_id;
                }
                ∷ alerts isoformat c.dashboard)
            else alerts isoformat c.dashboard))
  unfolding status alerts
  pages_after_result zones version analysis isoformat listed analyzed =
      let actionable =
        is_consecutive_elevated (pos 2) (Debounce.add msg.frame_id analysis.elevated c.history) in
      let l =
        on_result_lem T F point_polygon_test Frame Time W copy min_size_ratio now msg latency c
          zones version analysis listed analyzed in
      (
        ap (λ d. if d.elevated then "elevated" else "floor") l.3,
        ap (λ d. sorted_by str_le d.triggered_zones) l.3,
        elim (Bool-cases actionable) [
          | inl e ↦
              rw e (
                ap (map (alert_answer isoformat)) (l.5 e).1 ∙ map-take (alert_answer isoformat) _ _)
          | inr e ↦ rw e (ap (map (alert_answer isoformat)) (l.4 e).2)
        ],
      )
