-- ===== src/Rtr/Run.antt =====
-- backend/internal/rtr/client.go: `Run`, which connects again and again until its context ends or the
-- cache speaks another version.
pub mod Backoff
pub mod Breaks
pub mod Ends
pub mod Phases
pub mod Lasting
pub mod Recovers
mod Tests
use bgpulse.Base.{
  ℕ, zero, suc, ◌*◌, Bool, true, false, Option, none, some, List, [], ◌∷◌, ltb, if◌then◌else◌,
}
use bgpulse.Rtr.Session.{
  Client, Progress, SessionError, dial_error, read_error, write_error, timeout, fatal, cache_error,
  Outcome, continues, ended, panics, Attempt, session,
}

-- The waits, in seconds.
abbrev pub initial_backoff : ℕ
initial_backoff = 1

abbrev pub max_backoff : ℕ
max_backoff = 30

unfoldable pub next_backoff : ℕ → ℕ
next_backoff backoff = if ltb backoff max_backoff then backoff * 2 else backoff

-- The wait before the reconnection with this number, counted from 0.
unfoldable pub backoff : ℕ → ℕ
unfolding next_backoff
backoff zero = initial_backoff
backoff (suc n) = next_backoff (backoff n)

-- What one round of the loop meets: the connection it gets, and whether the context has ended at
-- the first test, at the one behind the session, and before the wait is over.
pub record Round : Type 0 where
  pub cancelled_before : Bool
  pub attempt : Attempt
  pub cancelled_during : Bool
  pub cancelled_waiting : Bool

-- Where Run is: it has returned the error of the context or a fatal one, a session still goes on, it
-- is about to connect once more, or the program has panicked.
pub data Phase : Type 0 where
  cancelled : Client → Phase
  gave_up : Client → List ℕ → Phase
  serving : Client → Progress → Phase
  reconnecting : Client → ℕ → Phase
  crashed : Phase

-- `errors.Is(err, errFatal)`, with the text that the error carries.
abbrev pub fatal_text : SessionError → Option (List ℕ)
fatal_text (fatal text) = some text
fatal_text dial_error = none
fatal_text (read_error e) = none
fatal_text write_error = none
fatal_text timeout = none
fatal_text (cache_error code text) = none

-- The lines behind the session, with the wait that is due.
unfoldable pub retry : ℕ → Round → Client → SessionError → Phase
retry wait r c e = if r.cancelled_during then cancelled c else elim (fatal_text e) [
  | some text ↦ gave_up c text
  | none ↦ if r.cancelled_waiting then cancelled c else reconnecting c (next_backoff wait)
]

-- One round.
unfoldable pub round : Client → ℕ → Round → Phase
unfolding session retry
round c wait r = if r.cancelled_before then cancelled c else elim (session c r.attempt) [
  | continues c' s bytes ↦ serving c' s
  | ended c' e ↦ retry wait r c' e
  | panics ↦ crashed
]

-- The loop over the rounds, with the waits that are over.
unfoldable pub run_rounds : Client → ℕ → List Round → List ℕ × Phase
unfolding round
run_rounds c wait [] = ([], reconnecting c wait)
run_rounds c wait (r ∷ rs) = elim (round c wait r) [
  | reconnecting c' next ↦ (let (waits, end) = run_rounds c' next rs in (wait ∷ waits, end))
  | cancelled c' ↦ ([], cancelled c')
  | gave_up c' text ↦ ([], gave_up c' text)
  | serving c' s ↦ ([], serving c' s)
  | crashed ↦ ([], crashed)
]

-- `Run`.
abbrev pub run_client : Client → List Round → List ℕ × Phase
run_client c rounds = run_rounds c initial_backoff rounds
