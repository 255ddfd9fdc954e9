-- ===== src/Alerts/Manager/Dispatch.antt =====
-- What one call of `maybe_alert` does.
use counter_cruiser.Prelude.{
  ℕ, ◌+◌, ◌<◌, ◌≡◌, ◌≢◌, ◌↔◌, refl, sym, ap, ◌∙◌, Bool, true, false, Option, none, some, List, [],
  ◌∷◌, ◌++◌, map, append_assoc, append-nil, all, All, String, lookup, arith,
}
use counter_cruiser.Alerts.Manager.Defs.{
  Outcome, returned, raised, Handler, AlertManager, in_cooldown, stamp, all_handlers,
  within_cooldown, after_attempt, trigger_all, cleanup_all, cleanup, maybe_alert,
}

-- The zone had an alert less than a cooldown before `now`.
abbrev pub IsCoolingDown : ℕ → List (String × ℕ) → ℕ → String → Type 0
IsCoolingDown cooldown last_alert now z =
    (last : ℕ) × (lookup z last_alert ≡ some last) × (now < last + cooldown)

in_cooldown_iff :
    (cooldown now : ℕ) (o : Option ℕ)
    → (in_cooldown cooldown now o ≡ true) ↔ ((last : ℕ) × (o ≡ some last) × (now < last + cooldown))
in_cooldown_iff cooldown now none = (λ h. cc, λ h. ground arith)
in_cooldown_iff cooldown now (some last) = (λ h. (last, refl, ground arith), λ h. ground arith)

all_iff {ℓ} :
    {A : Type ℓ} (test : A → Bool) (P : A → Type 0)
    → ((a : A) → (test a ≡ true) ↔ P a)
    → (xs : List A) → (all test xs ≡ true) ↔ All P xs
all_iff test P h [] = (λ e. tt, λ e. refl)
all_iff test P h (x ∷ xs) = (
  λ e. ((h x).0 (ground arith), (all_iff test P h xs).0 (ground arith)),
  λ a. rw ((h x).1 a.0) ((all_iff test P h xs).1 a.1),
)

module _ {C W : Type 0} where
  -- An alert is within the cooldown exactly if it names a zone and each zone it names had an alert
  -- less than a cooldown ago.
  pub within_cooldown_iff :
      (m : AlertManager C W) (zones : List String) (now : ℕ)
      → (within_cooldown m zones now ≡ true)
        ↔ ((zones ≢ []) × All (IsCoolingDown m.cooldown_seconds m.last_alert now) zones)
  unfolding within_cooldown
  within_cooldown_iff m [] now = (λ h. cc, λ h. absurd (h.0 refl))
  within_cooldown_iff m (z ∷ zones) now =
      let each =
        all_iff _ (IsCoolingDown m.cooldown_seconds m.last_alert now)
          (λ k. in_cooldown_iff m.cooldown_seconds now (lookup k m.last_alert)) (z ∷ zones) in
      (λ h. (λ e. cc, each.0 h), λ h. each.1 h.1)

-- A handler that writes its tag to the log of calls and then ends as it is told to.
abbrev pub logging : {C : Type 0} → String × Outcome → Handler C (List String)
logging (tag, outcome) = record {
  trigger = λ context log. (outcome, log ++ tag ∷ []);
  cleanup = λ log. (outcome, log ++ tag ∷ []);
}

abbrev pub tags : List (String × Outcome) → List String
tags = map (λ h. h.0)

abbrev pub first_of_all : Option (String × Outcome) → List String
first_of_all none = []
first_of_all (some d) = d.0 ∷ []

abbrev pub deterrent_of :
    {C : Type 0} → Option (String × Outcome) → Option (Handler C (List String))
deterrent_of none = none
deterrent_of (some d) = some (logging d)

abbrev pub logging_manager :
    {C : Type 0}
    → Option (String × Outcome)
    → List (String × Outcome)
    → ℕ
    → List (String × ℕ)
    → AlertManager C (List String)
logging_manager deterrent hs cooldown last_alert = record {
  deterrent = deterrent_of deterrent;
  handlers = map logging hs;
  cooldown_seconds = cooldown;
  last_alert = last_alert;
}

after_logging : (o : Outcome) (w : List String) → after_attempt (o, w) ≡ w
after_logging returned w = refl
after_logging raised w = refl

cleanup_all-logging :
    (C : Type 0) (hs : List (String × Outcome)) (log : List String)
    → cleanup_all (map (logging {C = C}) hs) log ≡ log ++ tags hs
unfolding cleanup_all
cleanup_all-logging C [] log = sym (append-nil log)
cleanup_all-logging C (h ∷ hs) log =
    ap (cleanup_all (map (logging {C = C}) hs)) (after_logging h.1 (log ++ h.0 ∷ []))
    ∙ cleanup_all-logging C hs (log ++ h.0 ∷ [])
    ∙ append_assoc log (h.0 ∷ []) (tags hs)

module _ {C : Type 0} where
  trigger_all-logging :
      (hs : List (String × Outcome)) (context : C) (log : List String)
      → trigger_all (map logging hs) context log ≡ log ++ tags hs
  unfolding trigger_all
  trigger_all-logging [] context log = sym (append-nil log)
  trigger_all-logging (h ∷ hs) context log =
      ap (trigger_all (map logging hs) context) (after_logging h.1 (log ++ h.0 ∷ []))
      ∙ trigger_all-logging hs context (log ++ h.0 ∷ [])
      ∙ append_assoc log (h.0 ∷ []) (tags hs)

  all_handlers-logging :
      (deterrent : Option (String × Outcome)) (hs : List (String × Outcome)) (cooldown : ℕ)
      (last_alert : List (String × ℕ))
      → (calls : List (String × Outcome)) × (all_handlers {C = C}
            (logging_manager deterrent hs cooldown last_alert)
          ≡ map logging calls)
        × (tags calls ≡ first_of_all deterrent ++ tags hs)
  unfolding all_handlers
  all_handlers-logging none hs cooldown last_alert = (hs, refl, refl)
  all_handlers-logging (some d) hs cooldown last_alert = (d ∷ hs, refl, refl)

  module _ (triggered_zones : C → List String) where
    -- Whatever each handler's call ends with, an alert outside the cooldown calls every handler
    -- once, the deterrent first and the others in their order, and stamps its zones; one within the
    -- cooldown calls none and changes nothing. `cleanup` calls every handler once in the same order.
    pub dispatch_order :
        (deterrent : Option (String × Outcome)) (hs : List (String × Outcome)) (cooldown now : ℕ)
        (last_alert : List (String × ℕ)) (context : C) (log : List String)
        → let m = logging_manager {C = C} deterrent hs cooldown last_alert in
          let zones = triggered_zones context in
          (within_cooldown m zones now ≡ false
            → maybe_alert triggered_zones now context m log ≡ (
              record m { last_alert = stamp zones now last_alert },
              log ++ (first_of_all deterrent ++ tags hs),
            ))
          × (within_cooldown m zones now ≡ true
              → maybe_alert triggered_zones now context m log ≡ (m, log))
          × (cleanup m log ≡ log ++ (first_of_all deterrent ++ tags hs))
    unfolding maybe_alert cleanup
    dispatch_order deterrent hs cooldown now last_alert context log =
        let (calls, same, order) = all_handlers-logging deterrent hs cooldown last_alert in
        (
          λ out. rw (out, same, trigger_all-logging calls context log, order),
          λ within. rw within,
          rw (same, cleanup_all-logging C calls log, order),
        )
