-- ===== src/Client/Kept.antt =====
-- What `on_result` leaves as it is, and what it adds.
use counter_cruiser.Prelude.{
  ℕ, ◌≡◌, refl, subst, sym, ◌∙◌, Bool, true, false, Bool-cases, inl, inr, Option, none, some, List,
  [], ◌∷◌, All, length, length-take-le, ◌≤◌, arith, ℤ, Result-cases, Floats, if◌then◌else◌, String,
}
use counter_cruiser.Zone.{Zone}
use counter_cruiser.Geometry.{FrameAnalysis, analyze_detections}
use counter_cruiser.Alerts.{AlertContext}
use counter_cruiser.Alerts.Manager.{
  AlertManager, Handler, Outcome, after_attempt, maybe_alert, trigger_all, all_handlers,
  within_cooldown,
}
use counter_cruiser.ZoneStore.{Toml, Store, list_zones}
use counter_cruiser.Dashboard.{
  DashboardState, DeterrentStatus, update_frame, update_detection, update_stats, record_alert,
}
use counter_cruiser.Client.OnResult.{
  Detection, Moment, Client, show_frame, alert, after_analysis, on_result,
}

after_attempt-keeps : {W : Type 0} (Q : W → Type 0) (r : Outcome × W) → Q r.1 → Q (after_attempt r)
after_attempt-keeps Q (Outcome.returned, w) h = h
after_attempt-keeps Q (Outcome.raised, w) h = h

module _ {C W : Type 0} (Q : W → Type 0) where
  -- The handler keeps `Q`.
  abbrev pub KeepsWorld : Handler C W → Type 0
  KeepsWorld h = (context : C) (w : W) → Q w → Q (h.trigger context w).1

  pub trigger_all-keeps :
      (hs : List (Handler C W)) (context : C) (w : W)
      → All KeepsWorld hs
      → Q w
      → Q (trigger_all hs context w)
  unfolding trigger_all
  trigger_all-keeps [] context w ks h = h
  trigger_all-keeps (x ∷ xs) context w ks h =
      trigger_all-keeps xs context (after_attempt (x.trigger context w)) ks.1
        (after_attempt-keeps Q (x.trigger context w) (ks.0 context w h))

  -- What stays of a manager and its world through an alert.
  abbrev pub Ready : List (Handler C W) → AlertManager C W → W → Type 0
  Ready hs m w = (all_handlers m ≡ hs) × Q w

  maybe_alert-keeps :
      (triggered_zones : C → List String) (hs : List (Handler C W)) (now : ℕ) (context : C)
      (m : AlertManager C W) (w : W)
      → All KeepsWorld hs
      → Ready hs m w
      → let r = maybe_alert triggered_zones now context m w in Ready hs r.0 r.1
  unfolding maybe_alert all_handlers
  maybe_alert-keeps triggered_zones hs now context m w ks (same, q) =
      elim (Bool-cases (within_cooldown m (triggered_zones context) now)) [
        | inl held ↦ rw held (same, q)
        | inr free ↦
            let triggered =
              trigger_all-keeps (all_handlers m) context w (subst (All KeepsWorld) (sym same) ks)
                q in
            rw free (same, triggered)
      ]

module _ (T : Toml) (F : Floats) (point_polygon_test : List (ℤ × ℤ) → F.Float × F.Float → ℤ)
    (Frame Time W : Type 0) (copy : Frame → Frame) (min_size_ratio : F.Float) where
  open F use {Float}

  abbrev C : Type 0
  C = Client T F point_polygon_test Frame Time W copy min_size_ratio

  -- What holds while the client runs: the handlers are `hs` and the world is as `Q` says, the dashboard
  -- shows the status `status` of the deterrent and at most `capacity` alerts, and the store is as `Z` says.
  pub record Stable (Z : Store T.Text → Type 0) (Q : W → Type 0)
      (hs : List (Handler (AlertContext Frame Float) W)) (status : DeterrentStatus) (capacity : ℕ)
      (c : C) : Type 0 where
    pub stored : Z c.store
    pub ready : Ready Q hs c.manager c.world
    pub shown : c.dashboard.deterrent_status ≡ status
    pub bound : c.dashboard.capacity ≡ capacity
    pub bounded : length c.dashboard.alerts ≤ capacity

  -- The dashboard's fields that only an alert or `main` changes.
  abbrev SameAlerts : DashboardState Frame Float Time → DashboardState Frame Float Time → Type 0
  SameAlerts d d' =
      (d'.deterrent_status ≡ d.deterrent_status)
      × (d'.capacity ≡ d.capacity)
      × (d'.alerts ≡ d.alerts)

  show_frame-SameAlerts :
      (frame : Option Frame) (d : DashboardState Frame Float Time)
      → SameAlerts d (show_frame T F point_polygon_test Frame Time W copy min_size_ratio frame d)
  unfolding update_frame
  show_frame-SameAlerts none d = (refl, refl, refl)
  show_frame-SameAlerts (some f) d = (refl, refl, refl)

  module _ (Z : Store T.Text → Type 0) (Q : W → Type 0)
      (hs : List (Handler (AlertContext Frame Float) W)) (status : DeterrentStatus) (capacity : ℕ)
      (keep : All (KeepsWorld Q) hs) where
    alert-Stable :
        (now : Moment Frame Time) (ctx : AlertContext Frame Float) (c : C)
        → Stable Z Q hs status capacity c
        → Stable Z Q hs status capacity
            (alert T F point_polygon_test Frame Time W copy min_size_ratio now ctx c)
    unfolding alert record_alert
    alert-Stable now ctx c h = record {
      stored = h.stored;
      ready =
          maybe_alert-keeps Q (λ x. x.triggered_zones) hs now.alert_at ctx c.manager c.world keep
            h.ready;
      shown = h.shown;
      bound = h.bound;
      bounded = rw h.bound (
          omega (
            arith,
            length-take-le capacity (
                record {
                  time = now.utc;
                  triggered_zones = ctx.triggered_zones;
                  frame_id = ctx.frame_id;
                }
                ∷ c.dashboard.alerts),
          ));
    }

    if_alert-Stable :
        (b : Bool) (now : Moment Frame Time) (ctx : AlertContext Frame Float) (c : C)
        → Stable Z Q hs status capacity c
        → Stable Z Q hs status capacity (
            if b
            then alert T F point_polygon_test Frame Time W copy min_size_ratio now ctx c
            else c)
    if_alert-Stable true now ctx c h = alert-Stable now ctx c h
    if_alert-Stable false now ctx c h = h

    after_analysis-Stable :
        (now : Moment Frame Time) (msg : Detection Float) (latency : Float) (zones : List Zone)
        (analysis : FrameAnalysis) (c : C)
        → Stable Z Q hs status capacity c
        → Stable Z Q hs status capacity (
            after_analysis T F point_polygon_test Frame Time W copy min_size_ratio now msg latency
              zones analysis c)
    unfolding after_analysis update_detection update_stats
    after_analysis-Stable now msg latency zones analysis c h =
        let (same_status, same_capacity, same_alerts) =
          show_frame-SameAlerts (now.get_frame msg.frame_id) c.dashboard in
        if_alert-Stable _ now _ _ (record {
          stored = h.stored;
          ready = h.ready;
          shown = same_status ∙ h.shown;
          bound = same_capacity ∙ h.bound;
          bounded = rw same_alerts h.bounded;
        })

    -- `on_result` keeps it, whatever the message.
    pub on_result-Stable :
        (now : Moment Frame Time) (msg : Detection Float) (latency : Float) (c : C)
        → Stable Z Q hs status capacity c
        → Stable Z Q hs status capacity
            (on_result T F point_polygon_test Frame Time W copy min_size_ratio now msg latency c).1
    unfolding on_result
    on_result-Stable now msg latency c h = elim (Result-cases (list_zones T c.store)) [
      | inr (e, bad) ↦ rw bad h
      | inl ((zones, version), good) ↦
          elim (Result-cases (
            analyze_detections F point_polygon_test msg.boxes zones now.frame_height
              min_size_ratio)) [
                | inr (e, failed) ↦ rw (good, failed) h
                | inl (analysis, found) ↦
                    rw (good, found) (after_analysis-Stable now msg latency zones analysis c h)
              ]
    ]
