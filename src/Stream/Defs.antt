-- ===== src/Stream/Defs.antt =====
-- `generate_mjpeg_stream`, round by round. Without `max_frames` the generator goes on until it is closed,
-- and its first n rounds are those of a run with `max_frames` n. Bytes are texts.
use counter_cruiser.Prelude.{
  ℕ, zero, suc, ◌+◌, ◌-◌, true, Option, none, some, List, [], ◌∷◌, keep_if, String, append, Result,
  ok, err, value_error, ◌>>=◌, if◌then◌else◌, ltb,
}
use counter_cruiser.Zone.{Zone, BoundingBox}
use counter_cruiser.Annotation.{Annotated, annotate_frame}
use counter_cruiser.Dashboard
use counter_cruiser.Dashboard.{DashboardState, get_detection}
use counter_cruiser.ZoneStore.{Toml, Store, list_zones}

-- What one round meets: the shared state when it reads it, the time that is drawn, the ticks from its
-- start to its second reading of the clock, the consumer's time included, and how much longer than asked
-- the sleep takes.
pub record Round (Frame Float Time Text : Type 0) : Type 0 where
  pub state : DashboardState Frame Float Time
  pub store : Store Text
  pub drawn_at : String
  pub work : ℕ
  pub late : ℕ

-- A part, and the reading of the clock at the start of its round.
pub record Emitted : Type 0 where
  pub start : ℕ
  pub part : String

unfoldable pub multipart_part : String → String
multipart_part jpeg =
    append "--frame" (append "\r\nContent-Type: image/jpeg\r\n\r\n" (append jpeg "\r\n"))

-- `max(interval - elapsed, 0)`: how long a round sleeps.
abbrev pub remaining : ℕ → ℕ → ℕ
remaining interval elapsed = if ltb elapsed interval then interval - elapsed else 0

-- `cv2.imencode` gives none where it returns false.
module _ {Frame : Type 0} (imencode : Annotated Frame → Option String) where
  unfoldable pub encode_jpeg : Annotated Frame → Result String
  encode_jpeg image = elim (imencode image) [ none ↦ err value_error | some jpeg ↦ ok jpeg ]

  -- `placeholder` is the grey frame with its text.
  abbrev pub placeholder_jpeg : Frame → Result String
  placeholder_jpeg placeholder = encode_jpeg (record { base = placeholder; shapes = [] })

-- `interval` is 1 / `web_stream_fps`.
module _ (T : Toml) {Frame Float Time : Type 0} (copy : Frame → Frame)
    (label : BoundingBox Float → String) (imencode : Annotated Frame → Option String)
    (placeholder : Frame) (interval : ℕ) where
  open T use {Text}

  abbrev pub annotated : Round Frame Float Time Text → Frame → List Zone → Annotated Frame
  annotated r frame zones =
      let detection = get_detection r.state in
      annotate_frame label copy r.drawn_at
        (record { include_boxes = true; include_zones = true; elevated = detection.elevated }) frame
        detection.detections (keep_if (λ z. z.enabled) zones) detection.triggered_zones

  abbrev pub jpeg_of : Round Frame Float Time Text → Option Frame → Result String
  jpeg_of r none = placeholder_jpeg imencode placeholder
  jpeg_of r (some frame) =
      list_zones T r.store >>= λ listed. encode_jpeg imencode (annotated r frame listed.0)

  -- The round up to its `yield`.
  unfoldable pub next_part : Round Frame Float Time Text → Result String
  unfolding Dashboard.get_frame list_zones encode_jpeg annotate_frame multipart_part
  next_part r = jpeg_of r (Dashboard.get_frame copy r.state) >>= λ jpeg. ok (multipart_part jpeg)

  module _ (rounds : ℕ → Round Frame Float Time Text) where
    -- The start of the round after round i, which started at the time given.
    abbrev pub next_start : ℕ → ℕ → ℕ
    next_start i start = let r = rounds i in start + r.work + (remaining interval r.work + r.late)

    -- The rounds from round i on, with the parts left to emit, and how the generator ends.
    unfoldable pub stream_from : ℕ → ℕ → ℕ → List Emitted × Result (Unit {0})
    unfolding next_part
    stream_from zero i start = ([], ok tt)
    stream_from (suc left) i start = elim (next_part (rounds i)) [
      | err e ↦ ([], err e)
      | ok part ↦
          let rest = stream_from left (suc i) (next_start i start) in
          (record { start = start; part = part } ∷ rest.0, rest.1)
    ]

    unfoldable pub generate_mjpeg_stream : ℕ → ℕ → List Emitted × Result (Unit {0})
    unfolding stream_from
    generate_mjpeg_stream max_frames start = stream_from max_frames 0 start
