-- ===== src/Tests/Alerting.antt =====
-- The alert manager and the deterrent.
use counter_cruiser.Prelude.{ℕ, ◌≡◌, refl, true, false, none, some, List, [], ◌∷◌, String, arith}
use counter_cruiser.Alerts.Manager.{
  returned, raised, init, AlertManager, maybe_alert, within_cooldown, cleanup,
}
use counter_cruiser.Alerts.Manager.Dispatch.{logging_manager, dispatch_order}
use counter_cruiser.Alerts.Manager.Spacing.{Event, recorder, run, IsSpaced, cooldown_spacing}
use counter_cruiser.Deterrent.{Level, Ended, Calls, DeterrentHandler, trigger}
use counter_cruiser.Deterrent.Burst.{driven, last_level, recorded, trigger_lem}

-- The second comes within the cooldown of the first; the third names a new zone; the last, none.
abbrev events : List Event
events = (1, "counter" ∷ []) ∷ (4, "counter" ∷ []) ∷ (5, "counter" ∷ "table" ∷ []) ∷ (6, []) ∷ []

events_dispatched :
    (run events (init (recorder raised ∷ []) 10 none) []).1
    ≡ (6, []) ∷ (5, "counter" ∷ "table" ∷ []) ∷ (1, "counter" ∷ []) ∷ []
unfolding run init maybe_alert
events_dispatched = refl

cooldown_spacing_example : IsSpaced 10 (run events (init (recorder raised ∷ []) 10 none) []).1
cooldown_spacing_example = cooldown_spacing raised 10 events (ground arith)

abbrev manager : AlertManager ℕ (List String)
manager =
    logging_manager (some ("deterrent", raised)) (("log", returned) ∷ ("mail", raised) ∷ []) 10
      (("counter", 3) ∷ [])

dispatch_order_example :
    (within_cooldown manager ("table" ∷ []) 7 ≡ false
      → maybe_alert (λ c. "table" ∷ []) 7 1 manager [] ≡ (
        record manager { last_alert = ("counter", 3) ∷ ("table", 7) ∷ [] },
        "deterrent" ∷ "log" ∷ "mail" ∷ [],
      ))
    × (within_cooldown manager ("table" ∷ []) 7 ≡ true
        → maybe_alert (λ c. "table" ∷ []) 7 1 manager [] ≡ (manager, []))
    × (cleanup manager [] ≡ "deterrent" ∷ "log" ∷ "mail" ∷ [])
dispatch_order_example =
    dispatch_order (λ c. "table" ∷ []) (some ("deterrent", raised))
      (("log", returned) ∷ ("mail", raised) ∷ []) 10 7 (("counter", 3) ∷ []) 1 []

abbrev calls : Calls
calls = record {
  output_high = Ended.returned;
  sleep_burst = Ended.interrupted;
  output_low = Ended.raised;
  record_outcome = Ended.returned;
}

abbrev handler : DeterrentHandler
handler = record { has_gpio = true; enabled = true }

trigger_lem_example :
    (true ≡ false → trigger calls handler ≡ (Ended.returned, []))
    × (true ≡ true
        → (driven (trigger calls handler).1
            ≡ (Level.high, Ended.returned) ∷ (Level.low, Ended.raised) ∷ [])
          × (last_level Level.low (trigger calls handler).1 ≡ Level.high)
          × (recorded (trigger calls handler).1 ≡ true ∷ [])
          × ((trigger calls handler).0 ≡ Ended.interrupted))
trigger_lem_example = trigger_lem calls handler
