-- ===== src/Alerts/Manager/Defs.antt =====
-- `AlertManager`. `time.monotonic()` is the argument `now`, a number of ticks from the clock's start;
-- the cooldown is in the same ticks. A missing entry of `_last_alert` stands for minus infinity, so
-- its zone is never within the cooldown. `now - last < cooldown` is written with `last` on the right.
use counter_cruiser.Prelude.{
  ℕ, ◌+◌, Bool, false, Option, none, some, List, [], ◌∷◌, ◌++◌, all, String, lookup, insert, ltb,
  if◌then◌else◌,
}

-- How a call ended: `raised` is an exception below `Exception`.
pub data Outcome : Type 0 where
  returned raised : Outcome

pub record Handler (C W : Type 0) : Type 0 where
  pub trigger : C → W → Outcome × W
  pub cleanup : W → Outcome × W

pub record AlertManager (C W : Type 0) : Type 0 where
  pub deterrent : Option (Handler C W)
  pub handlers : List (Handler C W)
  pub cooldown_seconds : ℕ
  pub last_alert : List (String × ℕ)

abbrev pub in_cooldown : ℕ → ℕ → Option ℕ → Bool
in_cooldown cooldown now none = false
in_cooldown cooldown now (some last) = ltb now (last + cooldown)

-- `for zone_id in zones: self._last_alert[zone_id] = now`
abbrev pub stamp : List String → ℕ → List (String × ℕ) → List (String × ℕ)
stamp [] now last_alert = last_alert
stamp (zone_id ∷ zones) now last_alert = stamp zones now (insert zone_id now last_alert)

-- The loop over the handlers: `except Exception` logs, and the loop goes on.
abbrev pub after_attempt : {W : Type 0} → Outcome × W → W
after_attempt (returned, w) = w
after_attempt (raised, w) = w

module _ {C W : Type 0} where
  unfoldable pub init : List (Handler C W) → ℕ → Option (Handler C W) → AlertManager C W
  init handlers cooldown_seconds deterrent = record {
    deterrent = deterrent;
    handlers = handlers;
    cooldown_seconds = cooldown_seconds;
    last_alert = [];
  }

  unfoldable pub all_handlers : AlertManager C W → List (Handler C W)
  all_handlers m = elim m.deterrent [ none ↦ [] | some d ↦ d ∷ [] ] ++ m.handlers

  unfoldable pub within_cooldown : AlertManager C W → List String → ℕ → Bool
  within_cooldown m [] now = false
  within_cooldown m (z ∷ zones) now =
      all (λ zone_id. in_cooldown m.cooldown_seconds now (lookup zone_id m.last_alert)) (z ∷ zones)

  unfoldable pub trigger_all : List (Handler C W) → C → W → W
  trigger_all [] context w = w
  trigger_all (h ∷ hs) context w = trigger_all hs context (after_attempt (h.trigger context w))

  unfoldable pub cleanup_all : List (Handler C W) → W → W
  cleanup_all [] w = w
  cleanup_all (h ∷ hs) w = cleanup_all hs (after_attempt (h.cleanup w))

  unfoldable pub cleanup : AlertManager C W → W → W
  unfolding cleanup_all all_handlers
  cleanup m = cleanup_all (all_handlers m)

  -- `triggered_zones` reads that field of a context.
  module _ (triggered_zones : C → List String) where
    unfoldable pub maybe_alert : ℕ → C → AlertManager C W → W → AlertManager C W × W
    unfolding within_cooldown trigger_all all_handlers
    maybe_alert now context m w =
        if within_cooldown m (triggered_zones context) now then (m, w) else (
          record m { last_alert = stamp (triggered_zones context) now m.last_alert },
          trigger_all (all_handlers m) context w,
        )
