-- ===== src/Connection/Refined.antt =====
-- The whole session against its outline in Transport.Run.
use counter_cruiser.Prelude.{
  Bool, true, Option, none, some, List, [], ◌∷◌, ◌++◌, append_assoc, subst, ◌≡◌, ◌≢◌, sym, ap, ◌∙◌,
  ℤ, ℕ, Bool-cases, inl, inr, arith, Result, ok, err, if◌then◌else◌,
}
use counter_cruiser.Camera.{Opening, open_capture}
use counter_cruiser.Transport.Run
use counter_cruiser.Transport.Run.{
  Call, open_camera, release_camera, wait, connection_change, is_caught, turn, released,
}
use counter_cruiser.Connection.Defs.{Receiving}
use counter_cruiser.Connection.Run.{
  Attempt, Life, CameraConfig, Progress, open_still, again, over, attempt, go_on, run_loop,
  finally_release, opened, with_size, run,
}
use counter_cruiser.Connection.Stopped.{stopped-run_loop}
use counter_cruiser.Connection.Outline.{
  turn_of, outline, outlines, outline_next, Outlined, attempt-HasOutline,
}

abbrev pub size_asked : Result (ℤ × ℤ) → Result (Unit {0})
size_asked (err e) = err e
size_asked (ok size) = ok tt

module _ {Frame Client : Type 0} where
  -- The state in which the loop starts, if the camera gave its size.
  abbrev pub started : Result (ℤ × ℤ) → Life Frame Client → Life Frame Client
  started (err e) y = y
  started (ok (width, height)) y = record y { frame_height = height }

module _ {Frame Now Raw Request Message Client : Type 0} (encode : Frame → ℕ → Result Message)
    (receiving_at : ℤ → Receiving Frame Now Raw Request Client)
    (on_connection_change : Bool → Client → Client) where
  -- A loop that has ended with the result, as its outline does.
  abbrev LoopOutlined :
      List Run.Attempt
      → Life Frame Client
      → Result (Unit {0})
      → Option (Result (Unit {0})) × Life Frame Client
      → Type 0
  LoopOutlined os y result ended =
      (calls : List Call) × (ended.1.calls ≡ y.calls ++ calls)
      × (Run.run_loop os ≡ (some result, calls))

  go_on-outlines :
      (xs : List (Attempt Frame Now Raw Request)) (y : Life Frame Client) (o : Run.Attempt)
      (calls : List Call) (r : Progress × Life Frame Client) (result : Result (Unit {0}))
      → Outlined y calls r (turn o)
      → let loop = run_loop encode receiving_at on_connection_change xs in
        (go_on loop r).0 ≡ some result
        → ((y' : Life Frame Client)
            → y'.session.running ≡ true
            → (loop y').0 ≡ some result
            → LoopOutlined
                (outlines encode receiving_at on_connection_change xs y')
                y'
                result
                (loop y'))
        → LoopOutlined
            (o ∷ outline_next (outlines encode receiving_at on_connection_change xs) r)
            y
            result
            (go_on loop r)
  unfolding Run.run_loop
  go_on-outlines xs y o calls (open_still, y') result h ended ih = cc
  go_on-outlines xs y o calls (over result', y') result h ended ih =
      let same : result' ≡ result = cc in (calls, h.0, rw h.1 (ap (λ r. (some r, calls)) same))
  go_on-outlines xs y o calls (again, y') result h ended ih = elim (Bool-cases y'.session.running) [
    | inl on ↦
        let (more, same, outlined) = ih y' on ended in
        let turned : turn o ≡ Run.again calls = h.1 ∙ ap (λ b. turn_of again b calls) on in
        (
          calls ++ more,
          same ∙ ap (λ cs. cs ++ more) h.0 ∙ append_assoc y.calls calls more,
          rw (turned, outlined),
        )
    | inr off ↦
        let turned : turn o ≡ Run.over (ok tt) calls = h.1 ∙ ap (λ b. turn_of again b calls) off in
        let stopped = stopped-run_loop encode receiving_at on_connection_change xs y' off in
        let same : some (ok tt) ≡ some result = sym (ap (λ r. r.0) stopped) ∙ ended in
        (calls, ap (λ r. r.1.calls) stopped ∙ h.0, rw turned (ap (λ r. (r, calls)) same))
  ]

  go_on-ended :
      (rest : Life Frame Client → Option (Result (Unit {0})) × Life Frame Client)
      (r : Progress × Life Frame Client) (result : Result (Unit {0}))
      → (go_on rest r).0 ≡ some result
      → r.0 ≢ open_still
  go_on-ended rest (open_still, y) result h = λ e. cc
  go_on-ended rest (again, y) result h = λ e. cc
  go_on-ended rest (over r, y) result h = λ e. cc

  run_loop-outlines :
      (xs : List (Attempt Frame Now Raw Request)) (y : Life Frame Client)
      (result : Result (Unit {0}))
      → let loop = run_loop encode receiving_at on_connection_change xs in
        y.session.running ≡ true
        → (loop y).0 ≡ some result
        → LoopOutlined (outlines encode receiving_at on_connection_change xs y) y result (loop y)
  unfolding run_loop outlines
  run_loop-outlines [] y result on ended =
      let none_yet : Option (Result (Unit {0})) = none in
      let same : none_yet ≡ some result =
        sym (ap (λ b. if b then none_yet else some (ok tt)) on) ∙ ended in
      cc
  run_loop-outlines (x ∷ xs) y result on ended =
      let loop = run_loop encode receiving_at on_connection_change xs in
      let r = attempt encode receiving_at on_connection_change x y in
      let stopped : Option (Result (Unit {0})) × Life Frame Client = (some (ok tt), y) in
      let running = ap (λ b. (if b then go_on loop r else stopped).0) on in
      let ended_now : (go_on loop r).0 ≡ some result = sym running ∙ ended in
      let (o, calls, is_o, outlined) =
        attempt-HasOutline encode receiving_at on_connection_change x y
          (go_on-ended loop r result ended_now) in
      let next =
        go_on-outlines xs y o calls r result outlined ended_now
          (λ y' on' ended'. run_loop-outlines xs y' result on' ended') in
      let whole : LoopOutlined
          (outline encode receiving_at on_connection_change x y
            ++ outline_next (outlines encode receiving_at on_connection_change xs) r)
          y result (go_on loop r) =
        subst
          (λ os.
            LoopOutlined
              (os ++ outline_next (outlines encode receiving_at on_connection_change xs) r) y result
              (go_on loop r))
          (sym is_o) next in
      subst
        (λ b.
          LoopOutlined
            (if b
              then outline encode receiving_at on_connection_change x y
                ++ outline_next (outlines encode receiving_at on_connection_change xs) r
              else [])
            y result (if b then go_on loop r else stopped))
        (sym on) whole

  finally_release-outlines :
      (os : List Run.Attempt) (y : Life Frame Client)
      (ended : Option (Result (Unit {0})) × Life Frame Client) (result : Result (Unit {0}))
      → y.calls ≡ open_camera ∷ []
      → (finally_release ended).0 ≡ some result
      → (ended.0 ≡ some result → LoopOutlined os y result ended)
      → released (Run.run_loop os) ≡ (some result, (finally_release ended).1.calls)
  finally_release-outlines os y (none, y') result h e loop = cc
  finally_release-outlines os y (some r, y') result h e loop =
      let (calls, same, outlined) = loop e in
      rw outlined (
        ap (λ cs. (some result, cs ++ release_camera ∷ [])) (sym (same ∙ ap (λ cs. cs ++ calls) h)))

  with_size-outlines :
      (size : Result (ℤ × ℤ)) (xs : List (Attempt Frame Now Raw Request)) (y : Life Frame Client)
      (result : Result (Unit {0}))
      → y.calls ≡ open_camera ∷ []
      → let ended = with_size encode receiving_at on_connection_change size xs y in
        ended.0 ≡ some result
        → Run.run
            (size_asked size)
            y.session.running
            (outlines encode receiving_at on_connection_change xs (started size y))
          ≡ (some result, ended.1.calls)
  unfolding Run.run
  with_size-outlines (err e) xs y result h ended = ground (arith, h, ended)
  with_size-outlines (ok (width, height)) xs y result h ended =
      let y' = started (ok (width, height)) y in
      let loop = run_loop encode receiving_at on_connection_change xs y' in
      let target : Option (Result (Unit {0})) × List Call =
        (some result, (finally_release loop).1.calls) in
      let never : Option (Result (Unit {0})) × List Call =
        (some (ok tt), open_camera ∷ release_camera ∷ []) in
      elim (Bool-cases y.session.running) [
        | inl on ↦
            subst
              (λ b.
                (if b
                  then released
                      (Run.run_loop (outlines encode receiving_at on_connection_change xs y'))
                  else never)
                ≡ target)
              (sym on)
              (finally_release-outlines (outlines encode receiving_at on_connection_change xs y') y'
                loop result h ended (λ e. run_loop-outlines xs y' result on e))
        | inr off ↦
            let stopped = stopped-run_loop encode receiving_at on_connection_change xs y' off in
            let same : some (ok tt) ≡ some result =
              sym (ap (λ r. (finally_release r).0) stopped) ∙ ended in
            let calls : (finally_release loop).1.calls ≡ open_camera ∷ release_camera ∷ [] =
              ap (λ r. (finally_release r).1.calls) stopped
              ∙ ap (λ cs. cs ++ release_camera ∷ []) h in
            let off_now : never ≡ target =
              ap (λ r. (r, open_camera ∷ release_camera ∷ [])) same
              ∙ ap (λ cs. (some result, cs)) (sym calls) in
            subst
              (λ b.
                (if b
                  then released
                      (Run.run_loop (outlines encode receiving_at on_connection_change xs y'))
                  else never)
                ≡ target)
              (sym off) off_now
      ]

  -- A run of the whole session that has ended is a run of the outline: with the same result and the same
  -- calls of the camera, of the dashboard and of the wait, for the attempts as far as they were made, each
  -- reduced to how its connection ended and whether `stop` was called by then.
  pub run-outlines :
      (config : CameraConfig) (answer : Opening) (xs : List (Attempt Frame Now Raw Request))
      (y : Life Frame Client) (result : Result (Unit {0}))
      → y.calls ≡ []
      → let camera =
          open_capture answer config.camera_index config.frame_width config.frame_height y.camera in
        let ended = run encode receiving_at on_connection_change config answer xs y in
        ended.0 ≡ some result
        → Run.run (size_asked camera.0) y.session.running (
            outlines encode receiving_at on_connection_change xs
              (started camera.0 (opened camera y)))
          ≡ (some result, ended.1.calls)
  unfolding run
  run-outlines config answer xs y result h ended =
      let camera =
        open_capture answer config.camera_index config.frame_width config.frame_height y.camera in
      with_size-outlines camera.0 xs (opened camera y) result (ap (λ cs. cs ++ open_camera ∷ []) h)
        ended
