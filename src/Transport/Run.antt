-- ===== src/Transport/Run.antt =====
-- `ClientSession.run`: the reconnect loop. Each turn of it is one attempt; the loop may go on for
-- ever, so a run is given the attempts up to some moment.
use counter_cruiser.Prelude.{
  Bool, true, false, Option, none, some, List, [], ◌∷◌, ◌++◌, if◌then◌else◌, Exception, Result, ok,
  err,
}

-- How an attempt goes: the connection is refused, or made and then dropped by an exception, or its
-- two loops return. The first flag says that `stop` was called by then, the second that it was called
-- during the wait before the next attempt.
pub data Attempt : Type 0 where
  refused dropped : Exception → Bool → Bool → Attempt
  closed : Bool → Attempt

-- The calls: the camera is opened or released, the dashboard is told, and the wait for a retry.
pub data Call : Type 0 where
  open_camera release_camera wait : Call
  connection_change : Bool → Call

-- A turn ends with the next one, or ends the loop; with its calls.
pub data Turn : Type 0 where
  again : List Call → Turn
  over : Result (Unit {0}) → List Call → Turn

-- `except (OSError, WebSocketException)`
abbrev pub is_caught : Exception → Bool
is_caught Exception.os_error = true
is_caught Exception.web_socket_error = true
is_caught Exception.connection_closed = true
is_caught _ = false

-- After the exception `e`, with the calls made before it in the turn.
abbrev pub recover : List Call → Exception → Bool → Bool → Turn
recover before e stopped stopped_waiting =
    if is_caught e
    then (if stopped
        then over (ok tt) (before ++ connection_change false ∷ [])
        else if stopped_waiting
        then over (ok tt) (before ++ connection_change false ∷ wait ∷ [])
        else again (before ++ connection_change false ∷ wait ∷ []))
    else over (err e) before

unfoldable pub turn : Attempt → Turn
turn (refused e stopped stopped_waiting) = recover [] e stopped stopped_waiting
turn (dropped e stopped stopped_waiting) =
    recover (connection_change true ∷ []) e stopped stopped_waiting
turn (closed stopped) =
    if stopped
    then over (ok tt) (connection_change true ∷ [])
    else again (connection_change true ∷ [])

-- A loop that has not ended has no result yet.
abbrev pub after_turn :
    Turn → Option (Result (Unit {0})) × List Call → Option (Result (Unit {0})) × List Call
after_turn (again calls) more = (more.0, calls ++ more.1)
after_turn (over result calls) more = (some result, calls)

unfoldable pub run_loop : List Attempt → Option (Result (Unit {0})) × List Call
run_loop [] = (none, [])
run_loop (a ∷ xs) = let more = run_loop xs in after_turn (turn a) more

-- The `finally` clause.
abbrev pub released :
    Option (Result (Unit {0})) × List Call → Option (Result (Unit {0})) × List Call
released (none, calls) = (none, open_camera ∷ calls)
released (some result, calls) = (some result, open_camera ∷ calls ++ release_camera ∷ [])

-- `run` of a session with a listener, which is `running` when the loop starts. The opening of the
-- camera stands before the `try`.
unfoldable pub run :
    Result (Unit {0}) → Bool → List Attempt → Option (Result (Unit {0})) × List Call
unfolding run_loop turn
run (err e) running attempts = (some (err e), open_camera ∷ [])
run (ok u) running attempts =
    if running then released (run_loop attempts) else released (some (ok tt), [])
