-- ===== src/Client/Pin.antt =====
-- The handlers of the client and the pin of the deterrent.
use counter_cruiser.Prelude.{
  ◌≡◌, refl, sym, ap, ◌∙◌, Bool, true, false, ◌&&◌, none, some, List, [], ◌∷◌, ◌++◌, All,
  All-append, append-nil, ℕ, ◌>>=◌, ok_injective, Result, ok, err, arith, if◌then◌else◌,
}
use counter_cruiser.Alerts.{AlertContext}
use counter_cruiser.Alerts.Manager
use counter_cruiser.Alerts.Manager.{
  AlertManager, Handler, Outcome, after_attempt, all_handlers, cleanup_all, cleanup,
}
use counter_cruiser.Deterrent
use counter_cruiser.Deterrent.{
  DeterrentHandler, Event, Level, low, high, Ended, output, record_attempt, Calls, construct,
  trigger, ended_well, is_operational,
}
use counter_cruiser.Deterrent.Burst.{last_level, last_low, left_by}
use counter_cruiser.Deterrent.Settled.{Settled, append-Settled, trigger-settles}
use counter_cruiser.Settings.{AlertConfig}
use counter_cruiser.Client.Handlers.{
  World, Setup, ended_of, outcome_of_result, burst_of, deterrent_handler, notification_handler,
  snapshot_handler, log_handler, handlers_of, with_deterrent, build_alert_manager,
}
use counter_cruiser.Client.Kept.{KeepsWorld}

All-if : {A : Type 0} (P : A → Type 0) (b : Bool) (x : A) → P x → All P (if b then x ∷ [] else [])
All-if P true x h = (h, tt)
All-if P false x h = tt

-- A handler without resources: its `cleanup` does nothing.
abbrev Idle : {C W : Type 0} → Handler C W → Type 0
Idle h = (w : _) → h.cleanup w ≡ (Outcome.returned, w)

cleanup_all-Idle :
    {C W : Type 0} (hs : List (Handler C W)) (w : W) → All Idle hs → cleanup_all hs w ≡ w
unfolding cleanup_all
cleanup_all-Idle [] w h = refl
cleanup_all-Idle (x ∷ xs) w h =
    ap (λ r. cleanup_all xs (after_attempt r)) (h.0 w) ∙ cleanup_all-Idle xs w h.1

module _ {Time Image Text : Type 0} (h : DeterrentHandler) where
  -- The handler of the deterrent is `h`, and the pin is settled.
  abbrev pub PinSettled : World Time Image Text → Type 0
  PinSettled w = (w.deterrent ≡ h) × Settled w.events

  module _ {Frame Float : Type 0} where
    deterrent_handler-keeps :
        KeepsWorld PinSettled (deterrent_handler {Frame = Frame} {Float = Float})
    deterrent_handler-keeps context w (same, down) = (
      same,
      append-Settled w.events (burst_of w).1
          (trigger-settles
            (record {
              output_high = ended_of w.answers.output_high;
              sleep_burst = ended_of w.answers.sleep_burst;
              output_low = ended_of w.answers.output_low;
              record_outcome = ended_of (outcome_of_result w.answers.insert_row);
            })
            w.deterrent)
          down,
    )

sequence_ok : {A : Type 0} (r : Result (Unit {0})) (a b : A) → (r >>= λ u. ok a) ≡ ok b → a ≡ b
sequence_ok (err e) a b h = cc
sequence_ok (ok u) a b h = ok_injective h

init-handlers :
    {C W : Type 0} (b : Bool) (d : Handler C W) (hs : List (Handler C W)) (cooldown : ℕ)
    → all_handlers (Manager.init hs cooldown (if b then some d else none))
      ≡ (if b then d ∷ [] else []) ++ hs
unfolding all_handlers Manager.init
init-handlers true d hs cooldown = refl
init-handlers false d hs cooldown = refl

cleanup_first :
    {C W : Type 0} (b : Bool) (d : Handler C W) (hs : List (Handler C W)) (w : W)
    → All Idle hs
    → cleanup_all ((if b then d ∷ [] else []) ++ hs) w
      ≡ (if b then after_attempt (d.cleanup w) else w)
unfolding cleanup_all
cleanup_first true d hs w h = cleanup_all-Idle hs (after_attempt (d.cleanup w)) h
cleanup_first false d hs w h = cleanup_all-Idle hs w h

module _ {Frame Float Time Image Text : Type 0} (S : Setup Frame Float Time Image Text)
    (alerts : AlertConfig Float) where
  abbrev H : Type 0
  H = Handler (AlertContext Frame Float) (World Time Image Text)

  handlers_of-All :
      (P : H → Type 0)
      → P (snapshot_handler S alerts.snapshot)
      → P (log_handler S)
      → P (notification_handler alerts.notification)
      → All P (handlers_of S alerts)
  handlers_of-All P snapshots logs notifications =
      let with_snapshots : List H =
        if alerts.snapshot.enabled then snapshot_handler S alerts.snapshot ∷ [] else [] in
      let with_log : List H = if alerts.log.enabled then log_handler S ∷ [] else [] in
      let with_notifications : List H =
        if alerts.notification.enabled then notification_handler alerts.notification ∷ [] else [] in
      All-append P with_snapshots (with_log ++ with_notifications)
        (All-if P alerts.snapshot.enabled (snapshot_handler S alerts.snapshot) snapshots)
        (All-append P with_log with_notifications (All-if P alerts.log.enabled (log_handler S) logs)
          (All-if P alerts.notification.enabled (notification_handler alerts.notification)
            notifications))

  -- All handlers of the client, in their order.
  abbrev pub client_handlers : List H
  client_handlers =
      (if alerts.deterrent.enabled then deterrent_handler ∷ [] else []) ++ handlers_of S alerts

  pub build_alert_manager-handlers :
      (w : World Time Image Text)
      (m : AlertManager (AlertContext Frame Float) (World Time Image Text))
      (w' : World Time Image Text)
      → build_alert_manager S alerts w ≡ ok (m, w')
      → (all_handlers m ≡ client_handlers) × (w' ≡ with_deterrent S alerts.deterrent.enabled w)
  unfolding build_alert_manager
  build_alert_manager-handlers w m w' h =
      let Pair : Type 0 =
        AlertManager (AlertContext Frame Float) (World Time Image Text) × World Time Image Text in
      let pair : Pair = (
        Manager.init (handlers_of S alerts) (S.ticks alerts.cooldown_seconds)
            (if alerts.deterrent.enabled then some deterrent_handler else none),
        with_deterrent S alerts.deterrent.enabled w,
      ) in
      let given : Pair = (m, w') in
      let same : pair ≡ given =
        sequence_ok (if alerts.snapshot.enabled then S.mkdir else ok tt) pair given h in
      (
        ap (λ r. all_handlers r.0) (sym same)
            ∙ init-handlers alerts.deterrent.enabled deterrent_handler (handlers_of S alerts)
                (S.ticks alerts.cooldown_seconds),
        ap (λ r. r.1) (sym same),
      )

  pub client_handlers-keeps :
      (h : DeterrentHandler) → All (KeepsWorld (PinSettled h)) client_handlers
  client_handlers-keeps h =
      let P : H → Type 0 = KeepsWorld (PinSettled h) in
      All-append P (if alerts.deterrent.enabled then deterrent_handler ∷ [] else [])
        (handlers_of S alerts)
        (All-if P alerts.deterrent.enabled deterrent_handler (deterrent_handler-keeps h))
        (handlers_of-All P (λ context w q. q) (λ context w q. q) (λ context w q. q))

  -- The clean-up of all handlers is that of the deterrent's.
  pub cleanup_all-client_handlers :
      (w : World Time Image Text)
      → cleanup_all client_handlers w ≡ (
          if alerts.deterrent.enabled
          then record w {
            deterrent = (Deterrent.cleanup w.deterrent).0;
            events = w.events ++ (Deterrent.cleanup w.deterrent).1;
          }
          else w)
  cleanup_all-client_handlers w =
      cleanup_first alerts.deterrent.enabled deterrent_handler (handlers_of S alerts) w
        (handlers_of-All Idle (λ v. refl) (λ v. refl) (λ v. refl))

  -- The constructors leave the pin settled.
  pub with_deterrent-Settled :
      (w : World Time Image Text)
      → Settled w.events
      → Settled (with_deterrent S alerts.deterrent.enabled w).events
  unfolding construct
  with_deterrent-Settled w h =
      let after =
        λ (events : List Event)
            (step : (x : Ended) → last_level (left_by x) events ≡ left_by (last_low x events)).
          append-Settled w.events events step h in
      ground (
        arith,
        h,
        after [] (λ x. refl),
        after (Event.setmode ∷ []) (λ x. refl),
        after (Event.setmode ∷ Event.setup_low ∷ []) (λ x. refl),
      )

  -- The handler works exactly if the settings enable it, the library can be imported and both setup calls
  -- return.
  abbrev pub works : Bool
  works =
      alerts.deterrent.enabled
      && (S.importable && (ended_well S.setmode_ends && ended_well S.setup_ends))

  pub with_deterrent-works :
      (w : World Time Image Text)
      → let w' = with_deterrent S alerts.deterrent.enabled w in
        (if alerts.deterrent.enabled then is_operational w'.deterrent else false) ≡ works
  unfolding construct
  with_deterrent-works w = ground arith

  pub with_deterrent-has_gpio :
      (w : World Time Image Text)
      → let w' = with_deterrent S alerts.deterrent.enabled w in
        (if alerts.deterrent.enabled then w'.deterrent.has_gpio else false) ≡ works
  unfolding construct
  with_deterrent-has_gpio w = ground arith

  pub with_deterrent-set_up :
      (w : World Time Image Text)
      → works ≡ true
      → let w' = with_deterrent S alerts.deterrent.enabled w in
        (w'.events ≡ w.events ++ Event.setmode ∷ Event.setup_low ∷ [])
        × (w'.deterrent.has_gpio ≡ true)
  unfolding construct
  with_deterrent-set_up w h = ground (arith, h)

  -- After the clean-up of all handlers the pin was released, if it was set up.
  pub cleanup_all-released :
      (w : World Time Image Text)
      → (if alerts.deterrent.enabled then w.deterrent.has_gpio else false) ≡ works
      → let w' = cleanup_all client_handlers w in
        (w'.events ≡ w.events ++ (if works then Event.release ∷ [] else []))
        × (alerts.deterrent.enabled ≡ true → w'.deterrent.has_gpio ≡ false)
  unfolding Deterrent.cleanup
  cleanup_all-released w h =
      rw (cleanup_all-client_handlers w) (ground (arith, h, append-nil w.events))
