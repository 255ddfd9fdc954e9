-- ===== src/Transport/Reconnect.antt =====
-- What keeps the reconnect loop going, what ends it, and what the dashboard shows meanwhile.
use counter_cruiser.Prelude.{
  ◌≡◌, ◌≢◌, sym, ◌∙◌, ◌↔◌, refl, Bool, true, false, Option, none, some, List, [], ◌∷◌, ◌++◌, All,
  Exists, arith, Exception, Result, ok, err,
}
use counter_cruiser.Transport.Run.{
  Attempt, refused, dropped, closed, Call, open_camera, release_camera, wait, connection_change,
  is_caught, turn, run_loop, released, run,
}

-- The attempt failed with an exception that is caught, or its connection was closed; and `stop` was
-- not called.
abbrev pub IsRetried : Attempt → Type 0
IsRetried (refused e stopped stopped_waiting) =
    (is_caught e ≡ true) × (stopped ≡ false) × (stopped_waiting ≡ false)
IsRetried (dropped e stopped stopped_waiting) =
    (is_caught e ≡ true) × (stopped ≡ false) × (stopped_waiting ≡ false)
IsRetried (closed stopped) = stopped ≡ false

abbrev pub Raises : Exception → Attempt → Type 0
Raises e (refused x stopped stopped_waiting) = x ≡ e
Raises e (dropped x stopped stopped_waiting) = x ≡ e
Raises e (closed stopped) = ⊥

-- From a dashboard that shows `shown`, the client waits only while the dashboard shows no connection.
abbrev pub WaitsDisconnected : Bool → List Call → Type 0
WaitsDisconnected shown [] = Unit
WaitsDisconnected shown (connection_change b ∷ cs) = WaitsDisconnected b cs
WaitsDisconnected shown (wait ∷ cs) = (shown ≡ false) × WaitsDisconnected shown cs
WaitsDisconnected shown (open_camera ∷ cs) = WaitsDisconnected shown cs
WaitsDisconnected shown (release_camera ∷ cs) = WaitsDisconnected shown cs

-- The camera is released last, and never before.
abbrev pub EndsReleased : List Call → Type 0
EndsReleased [] = ⊥
EndsReleased (release_camera ∷ []) = Unit
EndsReleased (release_camera ∷ c ∷ cs) = ⊥
EndsReleased (open_camera ∷ cs) = EndsReleased cs
EndsReleased (wait ∷ cs) = EndsReleased cs
EndsReleased (connection_change b ∷ cs) = EndsReleased cs

goes_on :
    (xs : List Attempt)
    → ((run_loop xs).0 ≡ none → All IsRetried xs) × (All IsRetried xs → (run_loop xs).0 ≡ none)
unfolding run_loop turn
goes_on [] = (λ h. tt, λ h. refl)
goes_on (refused e s w ∷ xs) = let more = goes_on xs in ground arith
goes_on (dropped e s w ∷ xs) = let more = goes_on xs in ground arith
goes_on (closed s ∷ xs) = let more = goes_on xs in ground arith

raises :
    (xs : List Attempt) (e : Exception)
    → (run_loop xs).0 ≡ some (err e)
    → (is_caught e ≡ false) × Exists (Raises e) xs
unfolding run_loop turn
raises [] e h = cc
raises (refused x s w ∷ xs) e h = ground (arith, raises xs e)
raises (dropped x s w ∷ xs) e h = ground (arith, raises xs e)
raises (closed s ∷ xs) e h = ground (arith, raises xs e)

waits : (xs : List Attempt) (shown : Bool) → WaitsDisconnected shown (run_loop xs).1
unfolding run_loop turn
waits [] shown = tt
waits (refused x s w ∷ xs) shown = ground (arith, waits xs false, waits xs shown)
waits (dropped x s w ∷ xs) shown = ground (arith, waits xs false, waits xs shown)
waits (closed s ∷ xs) shown = ground (arith, waits xs true)

loop-EndsReleased : (xs : List Attempt) → EndsReleased ((run_loop xs).1 ++ release_camera ∷ [])
unfolding run_loop turn
loop-EndsReleased [] = tt
loop-EndsReleased (refused x s w ∷ xs) = ground (arith, loop-EndsReleased xs)
loop-EndsReleased (dropped x s w ∷ xs) = ground (arith, loop-EndsReleased xs)
loop-EndsReleased (closed s ∷ xs) = ground (arith, loop-EndsReleased xs)

release-WaitsDisconnected :
    (shown : Bool) (calls : List Call)
    → WaitsDisconnected shown calls
    → WaitsDisconnected shown (calls ++ release_camera ∷ [])
release-WaitsDisconnected shown [] h = tt
release-WaitsDisconnected shown (connection_change b ∷ calls) h =
    release-WaitsDisconnected b calls h
release-WaitsDisconnected shown (wait ∷ calls) h = (h.0, release-WaitsDisconnected shown calls h.1)
release-WaitsDisconnected shown (open_camera ∷ calls) h = release-WaitsDisconnected shown calls h
release-WaitsDisconnected shown (release_camera ∷ calls) h = release-WaitsDisconnected shown calls h

released-loop :
    (r : Option (Result (Unit {0})) × List Call)
    → EndsReleased (r.1 ++ release_camera ∷ [])
    → WaitsDisconnected false r.1
    → ((released r).0 ≢ none → EndsReleased (released r).1)
      × ((released r).0 ≡ r.0)
      × WaitsDisconnected false (released r).1
released-loop (none, calls) ends quiet = (λ h. absurd (h refl), refl, quiet)
released-loop (some result, calls) ends quiet =
    (λ h. ends, refl, release-WaitsDisconnected false calls quiet)

-- Once the camera is open and the session is running, `run` has not ended exactly if each attempt so
-- far was closed, or failed with `OSError` or `WebSocketException`, and `stop` was not called. It
-- raises only another exception of some attempt. However it ends, the camera is released last and
-- once; and the client waits for a retry only while the dashboard shows no connection.
pub run_lem :
    (xs : List Attempt)
    → let r = run (ok tt) true xs in
      ((r.0 ≡ none) ↔ All IsRetried xs)
      × ((e : Exception) → r.0 ≡ some (err e) → (is_caught e ≡ false) × Exists (Raises e) xs)
      × (r.0 ≢ none → EndsReleased r.1)
      × WaitsDisconnected false r.1
unfolding run
run_lem xs =
    let (ends, same, quiet) = released-loop (run_loop xs) (loop-EndsReleased xs) (waits xs false) in
    let (on, back) = goes_on xs in
    ((λ h. on (sym same ∙ h), λ a. same ∙ back a), λ e h. raises xs e (sym same ∙ h), ends, quiet)
