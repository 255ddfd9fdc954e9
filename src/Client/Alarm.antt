-- ===== src/Client/Alarm.antt =====
-- When an answer of the server raises an alarm.
use counter_cruiser.Prelude.{
  ℕ, ◌≡◌, refl, ap, ◌∙◌, true, false, Option, none, some, List, [], ℤ, pos, Result, ok, err,
  os_error, Floats, Bool-cases, inl, inr,
}
use counter_cruiser.Zone.{Zone}
use counter_cruiser.Debounce
use counter_cruiser.Debounce.{DetectionHistory, is_consecutive_elevated}
use counter_cruiser.Geometry.{FrameAnalysis, analyze_detections}
use counter_cruiser.Geometry.Floor.{floor_triggers_nothing}
use counter_cruiser.Alerts.{AlertContext}
use counter_cruiser.Alerts.Manager.{all_handlers, within_cooldown, trigger_all, maybe_alert}
use counter_cruiser.ZoneStore.{Toml, list_zones}
use counter_cruiser.Dashboard.{
  DashboardState, append_left, update_frame, update_detection, update_stats, record_alert,
}
use counter_cruiser.Client.OnResult.{
  Detection, Moment, Client, show_frame, context, after_analysis, on_result,
}

module _ (T : Toml) (F : Floats) (point_polygon_test : List (ℤ × ℤ) → F.Float × F.Float → ℤ)
    (Frame Time W : Type 0) (copy : Frame → Frame) (min_size_ratio : F.Float)
    (now : Moment Frame Time) (msg : Detection F.Float) (latency : F.Float)
    (c : Client T F point_polygon_test Frame Time W copy min_size_ratio) where
  open F use {of_int, mul}

  abbrev run : Result (Unit {0}) × Client T F point_polygon_test Frame Time W copy min_size_ratio
  run = on_result T F point_polygon_test Frame Time W copy min_size_ratio now msg latency c

  -- Without a config file every answer raises `OSError`, and nothing of it is used.
  pub on_result_no_file : c.store.file ≡ none → run ≡ (err os_error, c)
  unfolding on_result list_zones
  on_result_no_file h = rw h

  shown :
      (o : Option Frame) (d : DashboardState Frame F.Float Time)
      → let d' = show_frame T F point_polygon_test Frame Time W copy min_size_ratio o d in
        (d'.alerts ≡ d.alerts) × (d'.capacity ≡ d.capacity)
  unfolding update_frame
  shown none d = (refl, refl)
  shown (some frame) d = (refl, refl)

  module _ (zones : List Zone) (version : ℕ) (analysis : FrameAnalysis)
      (listed : list_zones T c.store ≡ ok (zones, version))
      (analyzed : analyze_detections F point_polygon_test msg.boxes zones now.frame_height
          min_size_ratio
        ≡ ok analysis) where
    abbrev history : DetectionHistory
    history = Debounce.add msg.frame_id analysis.elevated c.history

    abbrev ctx : AlertContext Frame F.Float
    ctx = context T F point_polygon_test Frame Time W copy min_size_ratio now msg zones analysis

    abbrev after : Client T F point_polygon_test Frame Time W copy min_size_ratio
    after =
        after_analysis T F point_polygon_test Frame Time W copy min_size_ratio now msg latency zones
          analysis c

    returns : run ≡ (ok tt, after)
    unfolding on_result
    returns = rw (listed, analyzed)

    -- An answer whose zones and analysis can be had is processed without an exception. The window
    -- takes the frame, the zones and their file stay, the dashboard shows the boxes and zones of the
    -- frame and the debounced state. If that is not elevated, no handler is called and no alert is
    -- added to the history; if it is, `maybe_alert` decides on the handlers, and the history gets
    -- the alert whether or not the cooldown held the handlers back.
    pub on_result_lem :
        (run.0 ≡ ok tt)
        × (run.1.history ≡ history)
        × (run.1.store ≡ c.store)
        × (run.1.dashboard.detection ≡ record {
          detections = msg.boxes;
          triggered_zones = analysis.triggered_zones;
          elevated = is_consecutive_elevated (pos 2) history;
        })
        × (is_consecutive_elevated (pos 2) history ≡ false
            → (run.1.world ≡ c.world)
              × (run.1.manager ≡ c.manager)
              × (run.1.dashboard.alerts ≡ c.dashboard.alerts))
        × (is_consecutive_elevated (pos 2) history ≡ true
            → ((run.1.manager, run.1.world)
                ≡ maybe_alert (λ x. x.triggered_zones) now.alert_at ctx c.manager c.world)
              × (run.1.dashboard.alerts
                  ≡ append_left c.dashboard.capacity
                      (record {
                        time = now.utc;
                        triggered_zones = analysis.triggered_zones;
                        frame_id = msg.frame_id;
                      })
                      c.dashboard.alerts))
    unfolding after_analysis update_frame update_detection update_stats record_alert
    on_result_lem =
        let actionable = is_consecutive_elevated (pos 2) history in
        let (same_alerts, same_capacity) = shown (now.get_frame msg.frame_id) c.dashboard in
        rw returns (
          refl,
          elim (Bool-cases actionable) [ inl e ↦ rw e | inr e ↦ rw e ],
          elim (Bool-cases actionable) [ inl e ↦ rw e | inr e ↦ rw e ],
          elim (Bool-cases actionable) [ inl e ↦ rw e | inr e ↦ rw e ],
          λ quiet. rw quiet (refl, refl, same_alerts),
          λ loud. rw loud (refl, rw (same_alerts, same_capacity)),
        )

    -- A frame that is not elevated itself, while the window still holds a close pair of elevated
    -- ones, calls every handler, whatever the cooldown and the alerts before: it triggers no zone, and
    -- an alert without zones is never within the cooldown.
    pub floor_frame_alerts :
        analysis.elevated ≡ false
        → is_consecutive_elevated (pos 2) history ≡ true
        → run.1.world ≡ trigger_all (all_handlers c.manager) ctx c.world
    unfolding maybe_alert
    floor_frame_alerts floor still =
        let none_triggered : analysis.triggered_zones ≡ [] =
          floor_triggers_nothing F point_polygon_test zones now.frame_height min_size_ratio
            msg.boxes analyzed floor in
        let dispatched = on_result_lem.5 still in
        let free : within_cooldown c.manager analysis.triggered_zones now.alert_at ≡ false =
          rw none_triggered in
        ap (λ r. r.1) dispatched.0 ∙ (rw free)
