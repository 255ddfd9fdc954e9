-- ===== src/Settings/Accepted.antt =====
-- Which fields a construction of the settings accepts.
use counter_cruiser.Prelude.{
  ◌≡◌, ◌≢◌, ◌↔◌, refl, inl, inr, Bool, true, false, not, Option, none, some, ℤ, pos, ◌≤ℤ◌, leb_ℤ,
  Floats, arith, Bool-cases,
}
use counter_cruiser.Settings.Fields.{
  DeterrentFields, SnapshotFields, AlertFields, ClientFields, ServerFields, merge_client,
  merge_server,
}
use counter_cruiser.Settings.Defs.{
  DeterrentConfig, filled, valid_jpeg_quality, valid_frame_skip, positive_max_count, pin_missing,
  snapshot_config, positive, non_negative, in_unit, pin_required_when_enabled, deterrent_config,
  alert_config, validate_client, client_settings, validate_server, server_settings,
}
use counter_cruiser.Settings.Steps.{
  Decides, Given, AcceptsZones, ok-Decides, Decides-iff, >>=-Decides, checked-Decides,
  given_zones-Decides,
}

valid_jpeg_quality_iff : (q : ℤ) → (valid_jpeg_quality q ≡ true) ↔ ((pos 1 ≤ℤ q) × (q ≤ℤ pos 100))
valid_jpeg_quality_iff q = (λ h. ground arith, λ h. ground arith)

at_least_one_iff : (n : ℤ) → (leb_ℤ (pos 1) n ≡ true) ↔ (pos 1 ≤ℤ n)
at_least_one_iff n = (λ h. ground arith, λ h. ground arith)

pub not_iff : (b : Bool) → (not b ≡ true) ↔ (b ≡ false)
not_iff true = (λ h. cc, λ h. cc)
not_iff false = (λ h. refl, λ h. refl)

pub pin_iff :
    (enabled : Bool) (pin : Option ℤ)
    → (pin_missing enabled pin ≡ false) ↔ (enabled ≡ true → pin ≢ none)
pin_iff true none = (λ h e. cc, λ h. absurd (h refl refl))
pin_iff false none = (λ h e. cc, λ h. refl)
pin_iff enabled (some p) = (λ h e. λ s. cc, λ h. refl)

snapshot_config-Decides :
    (f : SnapshotFields) → Decides (snapshot_config f) (Given (λ n. pos 1 ≤ℤ n) f.max_count)
unfolding snapshot_config
snapshot_config-Decides f =
    Decides-iff
      (>>=-Decides _ _ _ _ (checked-Decides positive_max_count _ _ f.max_count at_least_one_iff)
        (λ n. ok-Decides _))
      (λ s. s.0) (λ h. (h, tt))

module _ (F : Floats) where
  open F use {Float, of_int, le, lt}

  abbrev pub IsPositive : Float → Type 0
  IsPositive v = le v (of_int (pos 0)) ≡ false

  abbrev pub InUnit : Float → Type 0
  InUnit v = (le (of_int (pos 0)) v ≡ true) × (le v (of_int (pos 1)) ≡ true)

  abbrev pub AcceptsDeterrent : DeterrentFields Float → Type 0
  AcceptsDeterrent f =
      Given IsPositive f.burst_duration_seconds
      × (filled false f.enabled ≡ true → filled none f.pin ≢ none)

  abbrev pub AcceptsAlerts : AlertFields Float → Type 0
  AcceptsAlerts f =
      Given (λ v. lt v (of_int (pos 0)) ≡ false) f.cooldown_seconds
      × AcceptsDeterrent f.deterrent
      × Given (λ n. pos 1 ≤ℤ n) f.snapshot.max_count

  abbrev pub AcceptsClient : ClientFields Float → Type 0
  AcceptsClient f =
      Given (λ q. (pos 1 ≤ℤ q) × (q ≤ℤ pos 100)) f.jpeg_quality
      × Given (λ n. pos 1 ≤ℤ n) f.frame_skip
      × Given InUnit f.min_size_ratio
      × Given AcceptsZones f.zones
      × AcceptsAlerts f.alerts
      × Given IsPositive f.web_stream_fps

  in_unit_iff : (v : Float) → (in_unit F v ≡ true) ↔ InUnit v
  in_unit_iff v = (λ h. (ground arith, ground arith), λ h. ground arith)

  positive_iff : (v : Float) → (positive F v ≡ true) ↔ IsPositive v
  positive_iff v = not_iff _

  pin_required-Decides :
      (c : DeterrentConfig Float)
      → Decides (pin_required_when_enabled F c) (c.enabled ≡ true → c.pin ≢ none)
  pin_required-Decides c = elim (Bool-cases (pin_missing c.enabled c.pin)) [
    | inl missing ↦ rw missing (record {
      sound = λ a s. cc;
      complete = λ h. let there = (pin_iff c.enabled c.pin).1 h in absurd (ground arith);
      raises = λ e s. ground arith;
    })
    | inr there ↦
        rw there (Decides-iff (ok-Decides c) (λ u. (pin_iff c.enabled c.pin).0 there) (λ h. tt))
  ]

  deterrent_config-Decides :
      (f : DeterrentFields Float) → Decides (deterrent_config F f) (AcceptsDeterrent f)
  unfolding deterrent_config
  deterrent_config-Decides f =
      >>=-Decides _ _ _ _ (checked-Decides _ _ _ f.burst_duration_seconds positive_iff)
        (λ burst. pin_required-Decides _)

  alert_config-Decides : (f : AlertFields Float) → Decides (alert_config F f) (AcceptsAlerts f)
  unfolding alert_config
  alert_config-Decides f =
      Decides-iff
        (>>=-Decides _ _ _ _
          (checked-Decides (non_negative F) _ _ f.cooldown_seconds (λ v. not_iff _))
          (λ cooldown. >>=-Decides _ _ _ _ (deterrent_config-Decides f.deterrent) (λ deterrent.
            >>=-Decides _ _ _ _ (snapshot_config-Decides f.snapshot) (λ s. ok-Decides _))))
        (λ s. let (a, (b, (c, _))) = s in (a, b, c)) (λ h. (h.0, (h.1, (h.2, tt))))

  validate_client-Decides :
      (f : ClientFields Float) → Decides (validate_client F f) (AcceptsClient f)
  unfolding validate_client
  validate_client-Decides f =
      Decides-iff
        (>>=-Decides _ _ _ _ (checked-Decides _ _ _ f.jpeg_quality valid_jpeg_quality_iff)
          (λ quality.
            >>=-Decides _ _ _ _ (checked-Decides valid_frame_skip _ _ f.frame_skip at_least_one_iff)
              (λ skip.
                >>=-Decides _ _ _ _ (checked-Decides _ _ _ f.min_size_ratio in_unit_iff) (λ ratio.
                  >>=-Decides _ _ _ _ (given_zones-Decides f.zones) (λ zones.
                    >>=-Decides _ _ _ _ (alert_config-Decides f.alerts) (λ alerts.
                      >>=-Decides _ _ _ _ (checked-Decides _ _ _ f.web_stream_fps positive_iff)
                        (λ fps. ok-Decides _)))))))
        (λ s. let (a, (b, (c, (d, (e, (g, _)))))) = s in (a, b, c, d, e, g))
        (λ h. (h.0, (h.1, (h.2, (h.3, (h.4, (h.5, tt)))))))

  -- The settings of the client are built exactly if, of the fields that the environment or else the file
  -- gives: the quality is from 1 to 100, the frame skip is 1 or more, the size ratio is from 0 to 1,
  -- each zone has an id, a name and three points or more, the cooldown is not negative, the burst is
  -- positive, an enabled deterrent has a pin, the snapshot count is 1 or more, and the stream's rate is
  -- positive. Otherwise `ValidationError` is raised.
  pub client_settings_iff :
      (env init : ClientFields Float)
      → Decides (client_settings F env init) (AcceptsClient (merge_client env init))
  unfolding client_settings
  client_settings_iff env init = validate_client-Decides (merge_client env init)

  -- The settings of the server are built exactly if the threshold that is given, by the environment or
  -- else the file, is from 0 to 1; otherwise `ValidationError` is raised.
  pub server_settings_iff :
      (env init : ServerFields Float)
      → Decides
          (server_settings F env init)
          (Given InUnit (merge_server env init).confidence_threshold)
  unfolding server_settings validate_server
  server_settings_iff env init =
      Decides-iff
        (>>=-Decides _ _ _ _
          (checked-Decides _ _ _ (merge_server env init).confidence_threshold in_unit_iff)
          (λ threshold. ok-Decides _))
        (λ s. s.0) (λ h. (h, tt))
