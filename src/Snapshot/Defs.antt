-- ===== src/Snapshot/Defs.antt =====
-- `SnapshotHandler`. The directory is its images, `*.jpg`, and its sidecars, `*.json`, by file name.
use counter_cruiser.Prelude.{
  except_os_error, ℕ, true, not, Option, none, some, List, [], ◌∷◌, map, keep_if, take, length,
  String, append, str_eq, str_le, insert, sorted_by, ℤ, pos, pos_part, ◌-ℤ◌, Result, ok, err,
  Exception,
}
use counter_cruiser.Zone.{BoundingBox}
use counter_cruiser.Alerts.{AlertContext}
use counter_cruiser.Annotation.{Annotated, annotate_frame}
use counter_cruiser.Settings.{SnapshotConfig}

-- The fields of the sidecar.
pub record Sidecar (Time : Type 0) : Type 0 where
  pub timestamp : Time
  pub triggered_zones : List String
  pub detection_count : ℕ
  pub frame_id : ℤ

-- An image and a text as they are in a file.
pub record Directory (Image Text : Type 0) : Type 0 where
  pub images : List (String × Image)
  pub sidecars : List (String × Text)

-- How `cv2.imwrite` ends: it returns true, or it returns false or raises, and may leave a file of the
-- name.
pub data Imwrite (Image : Type 0) : Type 0 where
  written : Imwrite Image
  refused : Option Image → Imwrite Image
  failed : Exception → Option Image → Imwrite Image

-- How `write_text` ends: it returns, or it raises, and may leave a file of the name.
pub data WriteText (Text : Type 0) : Type 0 where
  stored : WriteText Text
  unstored : Exception → Option Text → WriteText Text

-- What the calls on the file system end with.
pub record Calls (Image Text : Type 0) : Type 0 where
  pub imwrite : Imwrite Image
  pub write_text : WriteText Text
  pub unlink_image : String → Result (Unit {0})
  pub unlink_sidecar : String → Result (Unit {0})

abbrev pub left_behind :
    {Content : Type 0} → String → Option Content → List (String × Content) → List (String × Content)
left_behind name none files = files
left_behind name (some content) files = insert name content files

abbrev pub remove : {Content : Type 0} → String → List (String × Content) → List (String × Content)
remove name files = keep_if (λ f. not (str_eq name f.0)) files

-- The `try` with its handler.
abbrev pub caught : {D : Type 0} → Result (Unit {0}) × D → Result (Unit {0}) × D
caught (r, d) = (except_os_error r, d)

module _ {Image Text : Type 0} where
  -- The paths of the images, `sorted(Path(dir).glob('*.jpg'))`: one directory, so by name.
  abbrev pub sorted_images : Directory Image Text → List String
  sorted_images d = sorted_by str_le (map (λ f. f.0) d.images)

  -- `with_suffix` is `path.with_suffix('.json')` on a name.
  unfoldable pub delete_images :
      (String → String)
      → Calls Image Text
      → List String
      → Directory Image Text
      → Result (Unit {0}) × Directory Image Text
  delete_images with_suffix c [] d = (ok tt, d)
  delete_images with_suffix c (name ∷ names) d = elim (c.unlink_image name) [
    | err e ↦ (err e, d)
    | ok u ↦ elim (c.unlink_sidecar (with_suffix name)) [
      | err e ↦ (err e, record d { images = remove name d.images })
      | ok u ↦ delete_images with_suffix c names (record {
        images = remove name d.images;
        sidecars = remove (with_suffix name) d.sidecars;
      })
    ]
  ]

  unfoldable pub enforce_max_count :
      (String → String)
      → Calls Image Text
      → ℤ
      → Directory Image Text
      → Result (Unit {0}) × Directory Image Text
  unfolding delete_images
  enforce_max_count with_suffix c max_count d =
      let excess = pos (length (sorted_images d)) -ℤ max_count in
      delete_images with_suffix c (take (pos_part excess) (sorted_images d)) d

-- The clock and the formats, the drawing, and the encodings of an image and of a sidecar.
pub record Media (Frame Float Time Image Text : Type 0) : Type 0 where
  pub copy : Frame → Frame
  pub label : BoundingBox Float → String
  pub drawn_at : Time → String
  pub stem : Time → ℤ → String
  pub encode : Annotated Frame → Image
  pub dumps : Sidecar Time → Text
  pub with_suffix : String → String

module _ {Frame Float Time Image Text : Type 0} (M : Media Frame Float Time Image Text) where
  open M use {copy, label, drawn_at, stem, encode, dumps, with_suffix}

  abbrev pub image_name : Time → ℤ → String
  image_name now frame_id = append (stem now frame_id) ".jpg"

  abbrev pub sidecar_name : Time → ℤ → String
  sidecar_name now frame_id = append (stem now frame_id) ".json"

  -- `drawn` is the time that `annotate_frame` reads.
  abbrev pub snapshot : SnapshotConfig → Time → AlertContext Frame Float → Frame → Annotated Frame
  unfolding annotate_frame
  snapshot config drawn context frame =
      annotate_frame label copy (drawn_at drawn)
        (record {
          include_boxes = config.include_boxes;
          include_zones = config.include_zones;
          elevated = true;
        })
        frame context.detections context.zones context.triggered_zones

  abbrev pub sidecar : Time → AlertContext Frame Float → Sidecar Time
  sidecar now context = record {
    timestamp = now;
    triggered_zones = sorted_by str_le context.triggered_zones;
    detection_count = length context.detections;
    frame_id = context.frame_id;
  }

  abbrev pub after_text :
      SnapshotConfig
      → Calls Image Text
      → Time
      → AlertContext Frame Float
      → WriteText Text
      → Directory Image Text
      → Result (Unit {0}) × Directory Image Text
  unfolding enforce_max_count
  after_text config c now context stored d =
      enforce_max_count with_suffix c config.max_count (record d {
        sidecars =
            insert (sidecar_name now context.frame_id) (dumps (sidecar now context)) d.sidecars;
      })
  after_text config c now context (unstored e left) d = (
    err e,
    record d { sidecars = left_behind (sidecar_name now context.frame_id) left d.sidecars },
  )

  abbrev pub after_image :
      SnapshotConfig
      → Calls Image Text
      → Time
      → AlertContext Frame Float
      → Annotated Frame
      → Imwrite Image
      → Directory Image Text
      → Result (Unit {0}) × Directory Image Text
  after_image config c now context annotated written d =
      after_text config c now context c.write_text
        (record d { images = insert (image_name now context.frame_id) (encode annotated) d.images })
  after_image config c now context annotated (refused left) d =
      (ok tt, record d { images = left_behind (image_name now context.frame_id) left d.images })
  after_image config c now context annotated (failed e left) d =
      (err e, record d { images = left_behind (image_name now context.frame_id) left d.images })

  abbrev pub trigger_with :
      SnapshotConfig
      → Calls Image Text
      → Time
      → Time
      → AlertContext Frame Float
      → Option Frame
      → Directory Image Text
      → Result (Unit {0}) × Directory Image Text
  trigger_with config c drawn now context none d = (ok tt, d)
  trigger_with config c drawn now context (some frame) d =
      let annotated = snapshot config drawn context frame in
      caught (after_image config c now context annotated c.imwrite d)

  unfoldable pub trigger :
      SnapshotConfig
      → Calls Image Text
      → Time
      → Time
      → AlertContext Frame Float
      → Directory Image Text
      → Result (Unit {0}) × Directory Image Text
  trigger config c drawn now context d = trigger_with config c drawn now context context.frame d
