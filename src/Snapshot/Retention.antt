-- ===== src/Snapshot/Retention.antt =====
-- Which images are left: a trigger deletes only the first of them by name, and no more than are over the
-- limit.
use counter_cruiser.Prelude.{
  except_os_error, ℕ, zero, suc, ◌-◌, ◌≡◌, refl, ap, ◌∙◌, inl, inr, some, List, [], ◌∷◌, take, drop,
  length, length-drop, String, insert, ℤ, pos, pos_part, ◌-ℤ◌, ◌≤ℤ◌, Result, ok, arith,
  Result-cases, ◌≤◌,
}
use counter_cruiser.Alerts.{AlertContext}
use counter_cruiser.Settings.{SnapshotConfig}
use counter_cruiser.Snapshot.Defs.{
  Directory, Calls, Media, remove, sorted_images, delete_images, enforce_max_count, image_name,
  snapshot, sidecar, sidecar_name, caught, after_text, after_image, trigger_with, trigger, written,
  stored,
}
use counter_cruiser.Snapshot.Names.{
  Distinct, names, insert-Distinct, sorted-Distinct, sorted-remove,
}

excess_lem :
    (n : ℕ) (max_count : ℤ)
    → pos 1 ≤ℤ max_count
    → let k = pos_part (pos n -ℤ max_count) in (k ≤ n) × (pos (n - k) ≤ℤ max_count)
unfolding ◌-ℤ◌
excess_lem n max_count h = (ground arith, ground arith)

module _ {Image Text : Type 0} where
  abbrev pub AllUnlinked : Calls Image Text → Type 0
  AllUnlinked c =
      ((name : String) → c.unlink_image name ≡ ok tt)
      × ((name : String) → c.unlink_sidecar name ≡ ok tt)

  -- What is left of the images `ys` after a loop over the first `k` of them.
  pub record Deleted (c : Calls Image Text) (k : ℕ) (ys : List String)
      (r : Result (Unit {0}) × Directory Image Text) : Type 0 where
    pub deleted : ℕ
    pub at_most : deleted ≤ k
    pub left : sorted_images r.1 ≡ drop deleted ys
    pub no_failure : AllUnlinked c → (deleted ≡ k) × (r.0 ≡ ok tt)

  delete_images-Deleted :
      (with_suffix : String → String) (c : Calls Image Text) (k : ℕ) (ys : List String)
      (d : Directory Image Text)
      → sorted_images d ≡ ys
      → Distinct ys
      → k ≤ length ys
      → Deleted c k ys (delete_images with_suffix c (take k ys) d)
  unfolding delete_images
  delete_images-Deleted with_suffix c zero ys d s h n = record {
    deleted = 0;
    at_most = omega arith;
    left = s;
    no_failure = λ all. (refl, refl);
  }
  delete_images-Deleted with_suffix c (suc k) [] d s h n = absurd (omega arith)
  delete_images-Deleted with_suffix c (suc k) (y ∷ ys) d s h n =
      elim (Result-cases (c.unlink_image y)) [
        | inr (e, kept) ↦ rw kept (record {
          deleted = 0;
          at_most = omega arith;
          left = s;
          no_failure = λ all. absurd (ground (arith, all.0 y));
        })
        | inl (u, gone) ↦
            let rest = sorted-remove y ys d.images s h.0 in
            elim (Result-cases (c.unlink_sidecar (with_suffix y))) [
              | inr (e, kept) ↦
                  rw (gone, kept)
                    (record {
                      deleted = 1;
                      at_most = omega arith;
                      left = rest;
                      no_failure = λ all. absurd (ground (arith, all.1 (with_suffix y)));
                    })
              | inl (v, also) ↦
                  let after =
                    delete_images-Deleted with_suffix c k ys
                      (record {
                        images = remove y d.images;
                        sidecars = remove (with_suffix y) d.sidecars;
                      })
                      rest h.1 (omega arith) in
                  rw (gone, also)
                    (record {
                      deleted = suc after.deleted;
                      at_most = omega (arith, after.at_most);
                      left = after.left;
                      no_failure =
                          λ all. (ap suc (after.no_failure all).0, (after.no_failure all).1);
                    })
            ]
      ]

  -- How many images are over the limit.
  abbrev pub excess : ℤ → Directory Image Text → ℕ
  excess max_count d = pos_part (pos (length (sorted_images d)) -ℤ max_count)

  enforce_max_count-Deleted :
      (with_suffix : String → String) (c : Calls Image Text) (max_count : ℤ)
      (d : Directory Image Text)
      → pos 1 ≤ℤ max_count
      → Distinct (names d.images)
      → Deleted c
          (excess max_count d)
          (sorted_images d)
          (enforce_max_count with_suffix c max_count d)
  unfolding enforce_max_count
  enforce_max_count-Deleted with_suffix c max_count d h distinct =
      delete_images-Deleted with_suffix c (excess max_count d) (sorted_images d) d refl
        (sorted-Distinct (names d.images) distinct)
        (excess_lem (length (sorted_images d)) max_count h).0

  caught-Deleted :
      (c : Calls Image Text) (k : ℕ) (ys : List String)
      (r : Result (Unit {0}) × Directory Image Text)
      → Deleted c k ys r
      → Deleted c k ys (except_os_error r.0, r.1)
  caught-Deleted c k ys r l = record {
    deleted = l.deleted;
    at_most = l.at_most;
    left = l.left;
    no_failure = λ all. ((l.no_failure all).0, rw (l.no_failure all).1);
  }

  -- All deletions made, no more images are left than the limit.
  Deleted-bounded :
      (c : Calls Image Text) (max_count : ℤ) (d : Directory Image Text)
      (r : Result (Unit {0}) × Directory Image Text)
      → pos 1 ≤ℤ max_count
      → Deleted c (excess max_count d) (sorted_images d) r
      → AllUnlinked c
      → pos (length (sorted_images r.1)) ≤ℤ max_count
  Deleted-bounded c max_count d r h l all =
      let bound = (excess_lem (length (sorted_images d)) max_count h).1 in
      omega (
        arith,
        ap length l.left,
        length-drop l.deleted (sorted_images d),
        (l.no_failure all).0,
        bound,
      )

module _ {Frame Float Time Image Text : Type 0} (M : Media Frame Float Time Image Text) where
  open M use {encode}

  -- The directory with the image and the sidecar of an alert.
  abbrev pub with_snapshot :
      SnapshotConfig
      → Time
      → Time
      → AlertContext Frame Float
      → Frame
      → Directory Image Text
      → Directory Image Text
  with_snapshot config drawn now context frame d = record {
    images =
        insert (image_name M now context.frame_id) (encode (snapshot M config drawn context frame))
          d.images;
    sidecars =
        insert (sidecar_name M now context.frame_id) (M.dumps (sidecar M now context)) d.sidecars;
  }

  -- A snapshot whose image and sidecar are written deletes only the first images by name, the new one
  -- counted, and at most as many as are over the limit, however the deletions end. If none of them
  -- fails, it returns, and no more images are left than `max_count`.
  pub trigger_retains :
      (config : SnapshotConfig) (c : Calls Image Text) (drawn now : Time)
      (context : AlertContext Frame Float) (frame : Frame) (d : Directory Image Text)
      → pos 1 ≤ℤ config.max_count
      → context.frame ≡ some frame
      → c.imwrite ≡ written
      → c.write_text ≡ stored
      → Distinct (names d.images)
      → let r = trigger M config c drawn now context d in
        let d' = with_snapshot config drawn now context frame d in
        Deleted c (excess config.max_count d') (sorted_images d') r
        × (AllUnlinked c → pos (length (sorted_images r.1)) ≤ℤ config.max_count)
  unfolding trigger enforce_max_count
  trigger_retains config c drawn now context frame d positive has_frame image text distinct =
      let name = image_name M now context.frame_id in
      let annotated = snapshot M config drawn context frame in
      let d' = with_snapshot config drawn now context frame d in
      let imaged = record d { images = insert name (encode annotated) d.images } in
      let saved =
        ap (λ f. trigger_with M config c drawn now context f d) has_frame
        ∙ ap (λ w. caught (after_image M config c now context annotated w d)) image
        ∙ ap (λ w. caught (after_text M config c now context w imaged)) text in
      let kept =
        enforce_max_count-Deleted M.with_suffix c config.max_count d' positive
          (insert-Distinct name _ d.images distinct) in
      let l = caught-Deleted c _ _ _ kept in
      rw saved (l, Deleted-bounded c config.max_count d' _ positive l)
