-- ===== src/Snapshot/Failures.antt =====
-- Triggers that save nothing.
use counter_cruiser.Prelude.{
  except_os_error_lem, ◌≡◌, ◌≢◌, ◌⊎◌, refl, ap, inl, inr, true, Option, none, some, List, String,
  insert, contains, Result, ok, err, os_error, arith,
}
use counter_cruiser.Alerts.{AlertContext}
use counter_cruiser.Annotation.{Annotated}
use counter_cruiser.Settings.{SnapshotConfig}
use counter_cruiser.Snapshot.Defs.{
  Directory, Calls, Media, enforce_max_count, image_name, snapshot, sidecar_name, caught,
  after_text, after_image, trigger_with, trigger, written, refused, failed, stored, unstored,
  Imwrite, WriteText, left_behind,
}
use counter_cruiser.Snapshot.Names.{names, contains-insert}

contains-left_behind :
    {Content : Type 0} (k name : String) (left : Option Content) (files : List (String × Content))
    → contains k (names files) ≡ true
    → contains k (names (left_behind name left files)) ≡ true
contains-left_behind k name none files h = h
contains-left_behind k name (some content) files h =
    ground (arith, contains-insert k name content files)

module _ {Frame Float Time Image Text : Type 0} (M : Media Frame Float Time Image Text) where
  open M use {encode}

  -- Nothing that was in the directory is missing, by name, and what is raised is not `OSError`.
  pub record Kept (d : Directory Image Text) (r : Result (Unit {0}) × Directory Image Text)
      : Type 0 where
    pub images :
        (name : String)
        → contains name (names d.images) ≡ true
        → contains name (names r.1.images) ≡ true
    pub sidecars :
        (name : String)
        → contains name (names d.sidecars) ≡ true
        → contains name (names r.1.sidecars) ≡ true
    pub raises : r.0 ≢ err os_error

  -- An alert without a frame changes nothing and returns. An image or a sidecar that cannot be written
  -- leads to no deletion: what was in the directory stays, by name, and an `OSError` is caught.
  pub trigger_unsaved :
      (config : SnapshotConfig) (c : Calls Image Text) (drawn now : Time)
      (context : AlertContext Frame Float) (d : Directory Image Text)
      → (context.frame ≡ none → trigger M config c drawn now context d ≡ (ok tt, d))
        × ((c.imwrite ≢ written) ⊎ (c.write_text ≢ stored)
            → Kept d (trigger M config c drawn now context d))
  unfolding trigger enforce_max_count
  trigger_unsaved config c drawn now context d = (
    λ missing. ap (λ f. trigger_with M config c drawn now context f d) missing,
    λ fails. with_frame context.frame fails,
  )
    where
      after_text-Kept :
          (d' : Directory Image Text) (w : WriteText Text)
          → ((name : String)
              → contains name (names d.images) ≡ true
              → contains name (names d'.images) ≡ true)
          → d.sidecars ≡ d'.sidecars
          → w ≢ stored
          → Kept d (caught (after_text M config c now context w d'))
      after_text-Kept d' stored i s bad = absurd (bad refl)
      after_text-Kept d' (unstored e left) i s bad = record {
        images = i;
        sidecars = λ name h.
            contains-left_behind name (sidecar_name M now context.frame_id) left d'.sidecars
              (rw s at h);
        raises = except_os_error_lem (err e);
      }

      after_image-Kept :
          (annotated : Annotated Frame) (w : Imwrite Image)
          → (w ≢ written) ⊎ (c.write_text ≢ stored)
          → Kept d (caught (after_image M config c now context annotated w d))
      after_image-Kept annotated written (inl bad) = absurd (bad refl)
      after_image-Kept annotated written (inr bad) =
          let name = image_name M now context.frame_id in
          after_text-Kept (record d { images = insert name (encode annotated) d.images })
            c.write_text (λ k h. contains-left_behind k name (some (encode annotated)) d.images h)
            refl bad
      after_image-Kept annotated (refused left) fails = record {
        images = λ k h. contains-left_behind k (image_name M now context.frame_id) left d.images h;
        sidecars = λ k h. h;
        raises = λ e. cc;
      }
      after_image-Kept annotated (failed e left) fails = record {
        images = λ k h. contains-left_behind k (image_name M now context.frame_id) left d.images h;
        sidecars = λ k h. h;
        raises = except_os_error_lem (err e);
      }

      with_frame :
          (o : Option Frame)
          → (c.imwrite ≢ written) ⊎ (c.write_text ≢ stored)
          → Kept d (trigger_with M config c drawn now context o d)
      with_frame none fails = record {
        images = λ name h. h;
        sidecars = λ name h. h;
        raises = λ e. cc;
      }
      with_frame (some frame) fails =
          let annotated = snapshot M config drawn context frame in
          after_image-Kept annotated c.imwrite fails
