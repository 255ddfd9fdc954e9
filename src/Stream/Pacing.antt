-- ===== src/Stream/Pacing.antt =====
-- How many parts a stream emits, and when.
use counter_cruiser.Prelude.{
  ℕ, zero, suc, ◌+◌, ◌≡◌, ◌≤◌, ◌<◌, refl, ap, ◌∙◌, ◌⊎◌, inl, inr, Option, List, [], ◌∷◌, length,
  String, arith, Exception, Result, ok, err, Result-cases,
}
use counter_cruiser.Zone.{BoundingBox}
use counter_cruiser.Annotation.{Annotated}
use counter_cruiser.ZoneStore.{Toml}
use counter_cruiser.Stream.Defs.{
  Round, Emitted, next_part, next_start, remaining, stream_from, generate_mjpeg_stream,
}

-- Each round starts an interval or more after the one before.
abbrev pub Paced : ℕ → List Emitted → Type 0
Paced interval [] = Unit
Paced interval (a ∷ []) = Unit
Paced interval (a ∷ b ∷ l) = (a.start + interval ≤ b.start) × Paced interval (b ∷ l)

remaining_lem : (interval work : ℕ) → interval ≤ work + remaining interval work
remaining_lem interval work = ground arith

module _ (T : Toml) {Frame Float Time : Type 0} (copy : Frame → Frame)
    (label : BoundingBox Float → String) (imencode : Annotated Frame → Option String)
    (placeholder : Frame) (interval : ℕ) (rounds : ℕ → Round Frame Float Time T.Text) where
  abbrev part_of : ℕ → Result String
  part_of i = next_part T copy label imencode placeholder interval (rounds i)

  -- The parts are those of the rounds from round i on.
  abbrev pub PartsFrom : ℕ → List Emitted → Type 0
  PartsFrom i [] = Unit
  PartsFrom i (a ∷ l) = (part_of i ≡ ok a.part) × PartsFrom (suc i) l

  abbrev pub StartsAt : ℕ → List Emitted → Type 0
  StartsAt start [] = Unit
  StartsAt start (a ∷ l) = a.start ≡ start

  pub record Streamed (max_frames i start : ℕ) (r : List Emitted × Result (Unit {0})) : Type 0 where
    pub parts : PartsFrom i r.0
    pub starts : StartsAt start r.0
    pub paced : Paced interval r.0
    pub ends :
        ((length r.0 ≡ max_frames) × (r.1 ≡ ok tt))
        ⊎ ((e : Exception) × (length r.0 < max_frames)
            × (part_of (i + length r.0) ≡ err e)
            × (r.1 ≡ err e))

  Paced-cons :
      (i start : ℕ) (part : String) (l : List Emitted)
      → StartsAt (next_start T copy label imencode placeholder interval rounds i start) l
      → Paced interval l
      → Paced interval (record { start = start; part = part } ∷ l)
  Paced-cons i start part [] s p = tt
  Paced-cons i start part (b ∷ l) s p = (omega (arith, remaining_lem interval (rounds i).work), p)

  stream_from-Streamed :
      (left i start : ℕ)
      → Streamed left i start
          (stream_from T copy label imencode placeholder interval rounds left i start)
  unfolding stream_from
  stream_from-Streamed zero i start = record {
    parts = tt;
    starts = tt;
    paced = tt;
    ends = inl (refl, refl);
  }
  stream_from-Streamed (suc left) i start = elim (Result-cases (part_of i)) [
    | inr (e, fails) ↦
        rw (stream_from, fails)
          (record {
            parts = tt;
            starts = tt;
            paced = tt;
            ends = inr (e, omega arith, ap part_of (omega arith) ∙ fails, refl);
          })
    | inl (part, works) ↦
        let next = next_start T copy label imencode placeholder interval rounds i start in
        let rest = stream_from-Streamed left (suc i) next in
        rw (stream_from, works)
          (record {
            parts = (works, rest.parts);
            starts = refl;
            paced = Paced-cons i start part _ rest.starts rest.paced;
            ends = elim rest.ends [
              | inl (all, done) ↦ inl (ap suc all, done)
              | inr (e, few, fails, raised) ↦
                  inr (e, omega (arith, few), ap part_of (omega arith) ∙ fails, raised)
            ];
          })
  ]

  -- A stream of at most `max_frames` parts ends: after exactly that many parts, or with the exception of
  -- the first round that raises. Its parts are those of the rounds in order, and each round starts at
  -- least an interval after the one before, however long the rounds and the sleeps take.
  pub generate_mjpeg_stream_lem :
      (max_frames start : ℕ)
      → Streamed max_frames 0 start
          (generate_mjpeg_stream T copy label imencode placeholder interval rounds max_frames start)
  unfolding generate_mjpeg_stream
  generate_mjpeg_stream_lem max_frames start = stream_from-Streamed max_frames 0 start
