-- ===== src/Dashboard/History.antt =====
-- The writers of the state, interleaved in any order, and what the readers then see.
use counter_cruiser.Prelude.{
  ℕ, ◌≤◌, ◌≡◌, refl, sym, ap, ◌∙◌, Bool, List, [], ◌∷◌, String, length, take, length-take-le,
  take-take_cons, take-nil,
}
use counter_cruiser.Zone.{BoundingBox}
use counter_cruiser.Dashboard.Defs.{
  StatsSnapshot, AlertHistoryEntry, DashboardState, init, update_frame, update_detection,
  update_stats, get_stats, set_server_connected, record_alert, get_alerts, set_deterrent_status,
}

-- The calls of the two threads that write.
pub data Write (Frame Float Time : Type 0) : Type 0 where
  frame : Frame → Write Frame Float Time
  detection : List (BoundingBox Float) → List String → Bool → Write Frame Float Time
  stats : Float → Float → Bool → Write Frame Float Time
  connected : Bool → Write Frame Float Time
  alert : AlertHistoryEntry Time → Write Frame Float Time
  deterrent : Bool → Bool → Write Frame Float Time

module _ {Frame Float Time : Type 0} where
  pub apply :
      (Frame → Frame)
      → Write Frame Float Time
      → DashboardState Frame Float Time
      → DashboardState Frame Float Time
  apply copy (Write.frame f) = update_frame copy f
  apply copy (Write.detection boxes zones elevated) = update_detection boxes zones elevated
  apply copy (Write.stats fps latency c) = update_stats fps latency c
  apply copy (Write.connected c) = set_server_connected c
  apply copy (Write.alert entry) = record_alert entry
  apply copy (Write.deterrent configured operational) = set_deterrent_status configured operational

  pub apply_all :
      (Frame → Frame)
      → List (Write Frame Float Time)
      → DashboardState Frame Float Time
      → DashboardState Frame Float Time
  apply_all copy [] s = s
  apply_all copy (w ∷ ws) s = apply_all copy ws (apply copy w s)

  -- What was written last, or the start value: for each of the parts of the state.
  abbrev pub alerts_in :
      List (Write Frame Float Time) → List (AlertHistoryEntry Time) → List (AlertHistoryEntry Time)
  alerts_in [] newest_first = newest_first
  alerts_in (Write.alert entry ∷ ws) newest_first = alerts_in ws (entry ∷ newest_first)
  alerts_in (Write.frame f ∷ ws) newest_first = alerts_in ws newest_first
  alerts_in (Write.detection b z e ∷ ws) newest_first = alerts_in ws newest_first
  alerts_in (Write.stats f l c ∷ ws) newest_first = alerts_in ws newest_first
  alerts_in (Write.connected c ∷ ws) newest_first = alerts_in ws newest_first
  alerts_in (Write.deterrent c o ∷ ws) newest_first = alerts_in ws newest_first

  -- The connection flag follows both kinds of write; the rates follow `stats` alone.
  abbrev pub stats_in : List (Write Frame Float Time) → StatsSnapshot Float → StatsSnapshot Float
  stats_in [] last = last
  stats_in (Write.stats f l c ∷ ws) last =
      stats_in ws (record { fps = f; latency_ms = l; server_connected = c })
  stats_in (Write.connected c ∷ ws) last = stats_in ws (record last { server_connected = c })
  stats_in (Write.alert entry ∷ ws) last = stats_in ws last
  stats_in (Write.frame f ∷ ws) last = stats_in ws last
  stats_in (Write.detection b z e ∷ ws) last = stats_in ws last
  stats_in (Write.deterrent c o ∷ ws) last = stats_in ws last

  stats-apply_all :
      (copy : Frame → Frame) (ws : List (Write Frame Float Time))
      (s : DashboardState Frame Float Time)
      → get_stats (apply_all copy ws s) ≡ stats_in ws s.stats
  unfolding apply_all apply update_frame update_detection update_stats set_server_connected
      record_alert set_deterrent_status
  stats-apply_all copy [] s = refl
  stats-apply_all copy (Write.alert entry ∷ ws) s = stats-apply_all copy ws _
  stats-apply_all copy (w ∷ ws) s = stats-apply_all copy ws _

  alerts-apply_all :
      (copy : Frame → Frame) (ws : List (Write Frame Float Time))
      (s : DashboardState Frame Float Time) (past : List (AlertHistoryEntry Time))
      → s.alerts ≡ take s.capacity past
      → get_alerts (apply_all copy ws s) ≡ take s.capacity (alerts_in ws past)
  unfolding apply_all apply update_frame update_detection update_stats set_server_connected
      record_alert set_deterrent_status
  alerts-apply_all copy [] s past h = h
  alerts-apply_all copy (Write.alert entry ∷ ws) s past h =
      alerts-apply_all copy ws (record_alert entry s) (entry ∷ past)
        (ap (λ l. take s.capacity (entry ∷ l)) h ∙ take-take_cons s.capacity entry past)
  alerts-apply_all copy (w ∷ ws) s past h = alerts-apply_all copy ws (apply copy w s) past h

  -- After any writes in any order, from a new state: the alert history is the newest alerts, newest
  -- first, at most `capacity` of them; and the stats are those last written, their connection flag
  -- following `set_server_connected` as well, which keeps the rates.
  pub readers_see :
      (copy : Frame → Frame) (zero_float : Float) (capacity : ℕ)
      (ws : List (Write Frame Float Time))
      → let s : DashboardState Frame Float Time = apply_all copy ws (init zero_float capacity) in
        (get_alerts s ≡ take capacity (alerts_in ws []))
        × (length (get_alerts s) ≤ capacity)
        × (get_stats s
            ≡ stats_in ws (
                get_stats (init {Frame = Frame} {Float = Float} {Time = Time} zero_float capacity)))
  unfolding init
  readers_see copy zero_float capacity ws =
      let alerts =
        alerts-apply_all copy ws (init zero_float capacity) [] (sym (take-nil capacity)) in
      (
        alerts,
        rw alerts (length-take-le capacity (alerts_in ws [])),
        stats-apply_all copy ws (init zero_float capacity),
      )
