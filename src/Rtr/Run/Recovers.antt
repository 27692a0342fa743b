-- ===== src/Rtr/Run/Recovers.antt =====
-- `Run` of rtr/client.go behind connections that fail.
use bgpulse.Base.{
  ℕ, suc, ◌≡◌, ◌∙◌, refl, ap, arith, ◌^◌, min, true, false, List, [], ◌∷◌, ◌++◌, map,
}
use bgpulse.Rtr.Codec.{PrefixPdu, cache_response, end_of_data}
use bgpulse.Rtr.Session.{
  Client, Progress, Event, received, Outcome, continues, ended, panics, incremental, resetting,
  step, after, run, Arrival, session_loop, connected, session,
}
use bgpulse.Rtr.Session.Prefixes.{AllChanges, apply_changes_prefixes}
use bgpulse.Rtr.Session.Safety.{IsSound, IsSafe, IsReceived, session-IsSafe}
use bgpulse.Rtr.Session.Sync.{change_of, records, IsSynced, run-response}
use bgpulse.Rtr.Run.{
  next_backoff, Round, serving, reconnecting, crashed, retry, round, run_rounds, run_client,
}
use bgpulse.Rtr.Run.Breaks.{reports_fatal, breaks}
use bgpulse.Rtr.Run.Ends.{IsMild, IsOver, session-IsMild, session-IsOver}
use bgpulse.Rtr.Run.Lasting.{next_backoff-eq}

-- An event on a connection that takes every query.
abbrev pub taken : Event → Arrival
taken e = record { event = e; writable = true }

session_loop-taken :
    (c : Client) (s : Progress) (es : List Event) → session_loop c s (map taken es) ≡ run c s es
unfolding session_loop run
session_loop-taken c s [] = refl
session_loop-taken c s (e ∷ es) = same (λ c' s'. session_loop-taken c' s' es) (step true c s e)
  where
    same :
        ((c' : Client) (s' : Progress) → session_loop c' s' (map taken es) ≡ run c' s' es)
        → (o : Outcome)
        → (elim o [
          | continues c' s' bytes ↦ after bytes (session_loop c' s' (map taken es))
          | ended c' x ↦ ended c' x
          | panics ↦ panics
        ])
          ≡ (elim o [
            | continues c' s' bytes ↦ after bytes (run c' s' es)
            | ended c' x ↦ ended c' x
            | panics ↦ panics
          ])
    same k (continues c' s' bytes) = ap (after bytes) (k c' s')
    same k (ended c' x) = refl
    same k panics = refl

-- A whole response to a query.
abbrev pub response : List PrefixPdu → ℕ → ℕ → ℕ → ℕ → ℕ → List Event
response ps session serial refresh retry expire =
    received (cache_response session)
    ∷ (records ps ++ (received (end_of_data session serial refresh retry expire) ∷ []))

-- A round whose connection fails, at the dialer, with the first query or behind some arrivals, but
-- not for the version, with a context that goes on.
pub record Fails (r : Round) : Type 0 where
  pub before : r.cancelled_before ≡ false
  pub during : r.cancelled_during ≡ false
  pub waiting : r.cancelled_waiting ≡ false
  pub received : IsReceived r.attempt
  pub broken : breaks r.attempt ≡ true
  pub no_report : reports_fatal r.attempt ≡ false

abbrev pub AllFail : List Round → Type 0
AllFail [] = Unit
AllFail (r ∷ rs) = Fails r × AllFail rs

-- One wait for each round, from the one with the number `k`.
unfoldable pub one_each : ℕ → List Round → List ℕ
one_each k [] = []
one_each k (r ∷ rs) = 2 ^ min k 5 ∷ one_each (suc k) rs

round-retries :
    (c : Client) (wait : ℕ) (r : Round)
    → IsSound c
    → Fails r
    → (c' : Client) × IsSound c' × (round c wait r ≡ reconnecting c' (next_backoff wait))
unfolding round retry
round-retries c wait r s f =
    let (c', s', e) =
      over (session c r.attempt) (session-IsSafe c r.attempt s f.received)
        (session-IsMild c r.attempt f.no_report) (session-IsOver c r.attempt f.broken) in
    (c', s', cc (e, f.before))
  where
    over :
        (o : Outcome)
        → IsSafe o
        → IsMild o
        → IsOver o
        → (c' : Client) × IsSound c'
          × ((elim o [
            | continues c' s' bytes ↦ serving c' s'
            | ended c' e ↦ retry wait r c' e
            | panics ↦ crashed
          ])
              ≡ reconnecting c' (next_backoff wait))
    over (continues c' s' bytes) a m x = absurd x
    over (ended c' e) a m x = (c', a, ground (arith, m, f.during, f.waiting))
    over panics a m x = absurd a

-- A round whose connection brings a whole response.
pub record Answered (r : Round) (ps : List PrefixPdu) (session serial refresh retry expire : ℕ)
    : Type 0 where
  pub before : r.cancelled_before ≡ false
  pub attempt :
      r.attempt ≡ connected true (map taken (response ps session serial refresh retry expire))

round-Answered :
    (c : Client) (wait : ℕ) (r : Round) (ps : List PrefixPdu)
    → (session serial refresh retry expire : ℕ) → AllChanges (map change_of ps)
    → Answered r ps session serial refresh retry expire
    → (c' : Client) × (round c wait r ≡ serving c' incremental)
      × IsSynced c' (λ v. false) (map change_of ps) session serial
unfolding round session
round-Answered c wait r ps id serial refresh retry expire p a =
    let (c', done, is) =
      run-response c resetting ps id serial refresh retry expire
        (apply_changes_prefixes [] (map change_of ps) tt p) in
    (
      c',
      (let served : session_loop c resetting
                (map taken (response ps id serial refresh retry expire))
              ≡ continues c' incremental [] =
            session_loop-taken c resetting (response ps id serial refresh retry expire) ∙ done in
          cc (served, a.before, a.attempt)),
      is,
    )

run_rounds-Recovers :
    (k : ℕ) (c : Client) (wait : ℕ) (rs : List Round) (r : Round) (ps : List PrefixPdu)
    → (session serial refresh retry expire : ℕ) → wait ≡ 2 ^ min k 5
    → IsSound c
    → AllFail rs
    → AllChanges (map change_of ps)
    → Answered r ps session serial refresh retry expire
    → (c' : Client) × (run_rounds c wait (rs ++ (r ∷ [])) ≡ (one_each k rs, serving c' incremental))
      × IsSynced c' (λ v. false) (map change_of ps) session serial
unfolding run_rounds one_each
run_rounds-Recovers k c wait [] r ps session serial refresh retry expire e s f p a =
    let (c', done, is) = round-Answered c wait r ps session serial refresh retry expire p a in
    (c', cc done, is)
run_rounds-Recovers k c wait (x ∷ rs) r ps session serial refresh retry expire e s f p a =
    let (c1, s1, again) = round-retries c wait x s f.0 in
    let (c', done, is) =
      run_rounds-Recovers (suc k) c1 (next_backoff wait) rs r ps session serial refresh retry expire
        (next_backoff-eq k wait e) s1 f.1 p a in
    (c', cc (again, done, e), is)

-- Run of a sound client, on any rounds that fail, at the dialer, with the query or amid the events,
-- but neither for the version nor because the context ends, and then one whose connection brings a
-- whole response with valid prefixes, connects once more after each failure, after waits that
-- double from 1 second up to 32, and then serves exactly that response, whatever the client had
-- before: it holds a VRP when the last record about it announces it, and its live store validates
-- by the acceptable ones of these.
pub run_client-Recovers :
    (c : Client) (rs : List Round) (r : Round) (ps : List PrefixPdu)
    → (session serial refresh retry expire : ℕ) → IsSound c
    → AllFail rs
    → AllChanges (map change_of ps)
    → Answered r ps session serial refresh retry expire
    → (c' : Client) × (run_client c (rs ++ (r ∷ [])) ≡ (one_each 0 rs, serving c' incremental))
      × IsSynced c' (λ v. false) (map change_of ps) session serial
run_client-Recovers c rs r ps session serial refresh retry expire s f p a =
    run_rounds-Recovers 0 c 1 rs r ps session serial refresh retry expire refl s f p a
