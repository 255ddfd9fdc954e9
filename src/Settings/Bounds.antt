-- ===== src/Settings/Bounds.antt =====
-- What holds of every settings that are built, whatever the sources give.
use counter_cruiser.Prelude.{
  ◌≡◌, ◌≢◌, refl, inl, inr, Bool, true, false, Option, none, some, List, [], ◌∷◌, All, subst, pos,
  ◌≤ℤ◌, Floats, arith, ok, >>=-ok, ok_injective, Bool-cases,
}
use counter_cruiser.Zone.{Zone, IsValid, make_zone-IsValid}
use counter_cruiser.Settings.Fields.{
  ZoneFields, DeterrentFields, SnapshotFields, AlertFields, ClientFields, merge_client,
}
use counter_cruiser.Settings.Defs.{
  DeterrentConfig, SnapshotConfig, AlertConfig, ClientSettings, filled, checked, required,
  zone_of_fields, zones_of_fields, given_zones, valid_jpeg_quality, valid_frame_skip,
  positive_max_count, pin_missing, snapshot_config, positive, non_negative, in_unit,
  pin_required_when_enabled, deterrent_config, alert_config, client_settings,
}
use counter_cruiser.Settings.Accepted.{pin_iff, not_iff}
use counter_cruiser.Settings.Built.{validate_client-Built}

-- A default that passes the validator makes every value pass it.
checked_holds :
    {A : Type 0} (test : A → Bool) (default : A) (o : Option A) {a : A}
    → test default ≡ true
    → checked test default o ≡ ok a
    → test a ≡ true
checked_holds test default none d h = ground arith
checked_holds test default (some v) d h = ground arith

zone_of_fields-IsValid : (f : ZoneFields) (z : Zone) → zone_of_fields f ≡ ok z → IsValid z
unfolding zone_of_fields
zone_of_fields-IsValid f z h =
    let (id, i, h1) = >>=-ok (required f.id) _ z h in
    let (name, n, h2) = >>=-ok (required f.name) _ z h1 in
    let (polygon, p, h3) = >>=-ok (required f.polygon) _ z h2 in
    make_zone-IsValid id name (filled true f.enabled) polygon z h3

zones_of_fields-IsValid :
    (fs : List ZoneFields) (zs : List Zone) → zones_of_fields fs ≡ ok zs → All IsValid zs
unfolding zones_of_fields
zones_of_fields-IsValid [] [] h = tt
zones_of_fields-IsValid [] (z ∷ zs) h = cc
zones_of_fields-IsValid (f ∷ fs) zs h =
    let (z, a, h1) = >>=-ok (zone_of_fields f) _ zs h in
    let (zs', b, h2) = >>=-ok (zones_of_fields fs) _ zs h1 in
    subst (All IsValid) (ok_injective h2)
      (zone_of_fields-IsValid f z a, zones_of_fields-IsValid fs zs' b)

given_zones-IsValid :
    (o : Option (List ZoneFields)) (zs : List Zone) → given_zones o ≡ ok zs → All IsValid zs
given_zones-IsValid none [] h = tt
given_zones-IsValid none (z ∷ zs) h = cc
given_zones-IsValid (some fs) zs h = zones_of_fields-IsValid fs zs h

module _ (F : Floats) where
  open F use {Float, of_int, div_int, le, lt}

  -- The literals of the defaults pass the validators of their fields.
  pub record Literals : Type 0 where
    pub quarter : in_unit F (div_int (pos 1) (pos 4)) ≡ true
    pub one_and_a_half : positive F (div_int (pos 3) (pos 2)) ≡ true
    pub five_positive : positive F (of_int (pos 5)) ≡ true
    pub five_non_negative : non_negative F (of_int (pos 5)) ≡ true

  pub record AlertsInBounds (a : AlertConfig Float) : Type 0 where
    pub cooldown : lt a.cooldown_seconds (of_int (pos 0)) ≡ false
    pub burst : le a.deterrent.burst_duration_seconds (of_int (pos 0)) ≡ false
    pub pin : a.deterrent.enabled ≡ true → a.deterrent.pin ≢ none
    pub max_count : pos 1 ≤ℤ a.snapshot.max_count

  pub record InBounds (s : ClientSettings Float) : Type 0 where
    pub jpeg_quality : (pos 1 ≤ℤ s.jpeg_quality) × (s.jpeg_quality ≤ℤ pos 100)
    pub frame_skip : pos 1 ≤ℤ s.frame_skip
    pub min_size_ratio :
        (le (of_int (pos 0)) s.min_size_ratio ≡ true)
        × (le s.min_size_ratio (of_int (pos 1)) ≡ true)
    pub zones : All IsValid s.zones
    pub alerts : AlertsInBounds s.alerts
    pub web_stream_fps : le s.web_stream_fps (of_int (pos 0)) ≡ false

  pin_there :
      (c d : DeterrentConfig Float)
      → pin_required_when_enabled F c ≡ ok d
      → (c ≡ d) × (d.enabled ≡ true → d.pin ≢ none)
  pin_there c d h = elim (Bool-cases (pin_missing c.enabled c.pin)) [
    | inl missing ↦ absurd (ground arith)
    | inr there ↦
        let same : c ≡ d = ok_injective (rw there at h) in
        let has : c.enabled ≡ true → c.pin ≢ none = (pin_iff c.enabled c.pin).0 there in
        (same, subst (λ x. x.enabled ≡ true → x.pin ≢ none) same has)
  ]

  deterrent_bounds :
      (f : DeterrentFields Float) (d : DeterrentConfig Float)
      → Literals
      → deterrent_config F f ≡ ok d
      → (le d.burst_duration_seconds (of_int (pos 0)) ≡ false) × (d.enabled ≡ true → d.pin ≢ none)
  unfolding deterrent_config
  deterrent_bounds f d l h =
      let (burst, b, h1) =
        >>=-ok (checked (positive F) (div_int (pos 3) (pos 2)) f.burst_duration_seconds) _ d h in
      let positive_burst =
        checked_holds (positive F) _ f.burst_duration_seconds l.one_and_a_half b in
      let (same, pin) =
        pin_there
          (record {
            enabled = filled false f.enabled;
            pin = filled none f.pin;
            burst_duration_seconds = burst;
            stats_db_path = filled "./deterrent_stats.db" f.stats_db_path;
          })
          d h1 in
      (
        subst (λ x. le x.burst_duration_seconds (of_int (pos 0)) ≡ false) same
            ((not_iff _).0 positive_burst),
        pin,
      )

  snapshot_bounds :
      (f : SnapshotFields) (n : SnapshotConfig) → snapshot_config f ≡ ok n → pos 1 ≤ℤ n.max_count
  unfolding snapshot_config
  snapshot_bounds f n h =
      let (count, c, h1) = >>=-ok (checked positive_max_count (pos 200) f.max_count) _ n h in
      let holds = checked_holds positive_max_count (pos 200) f.max_count refl c in
      let at_least : pos 1 ≤ℤ count = ground arith in
      subst (λ x. pos 1 ≤ℤ x.max_count) (ok_injective h1) at_least

  alert_config-InBounds :
      (f : AlertFields Float) (a : AlertConfig Float)
      → Literals
      → alert_config F f ≡ ok a
      → AlertsInBounds a
  unfolding alert_config
  alert_config-InBounds f a l h =
      let (cooldown, c, h1) =
        >>=-ok (checked (non_negative F) (of_int (pos 5)) f.cooldown_seconds) _ a h in
      let (deterrent, d, h2) = >>=-ok (deterrent_config F f.deterrent) _ a h1 in
      let (snapshot, n, h3) = >>=-ok (snapshot_config f.snapshot) _ a h2 in
      let not_negative =
        checked_holds (non_negative F) _ f.cooldown_seconds l.five_non_negative c in
      let (burst, pin) = deterrent_bounds f.deterrent deterrent l d in
      subst AlertsInBounds (ok_injective h3) (record {
        cooldown = (not_iff _).0 not_negative;
        burst = burst;
        pin = pin;
        max_count = snapshot_bounds f.snapshot snapshot n;
      })

  -- Settings that are built are in bounds: of the quality, the frame skip, the size ratio, the cooldown,
  -- the burst, the snapshot count and the stream's rate, with three points or more in each zone and a
  -- pin if the deterrent is enabled.
  pub client_settings-InBounds :
      (env init : ClientFields Float) (s : ClientSettings Float)
      → Literals
      → client_settings F env init ≡ ok s
      → InBounds s
  unfolding client_settings
  client_settings-InBounds env init s l h =
      let f = merge_client env init in
      let b = validate_client-Built F f s h in
      let quality = checked_holds valid_jpeg_quality (pos 85) f.jpeg_quality refl b.jpeg_quality in
      let skip = checked_holds valid_frame_skip (pos 3) f.frame_skip refl b.frame_skip in
      let ratio = checked_holds (in_unit F) _ f.min_size_ratio l.quarter b.min_size_ratio in
      let fps = checked_holds (positive F) _ f.web_stream_fps l.five_positive b.web_stream_fps in
      record {
        jpeg_quality = ground arith;
        frame_skip = ground arith;
        min_size_ratio = ground arith;
        zones = given_zones-IsValid f.zones s.zones b.zones;
        alerts = alert_config-InBounds f.alerts s.alerts l b.alerts;
        web_stream_fps = ground arith;
      }
