-- ===== src/Rtr/Run/Phases.antt =====
-- One round of `Run` of rtr/client.go: what it keeps, and when it is the last one.
use bgpulse.Base.{
  ℕ, ◌≡◌, refl, arith, Bool, true, false, ◌||◌, Option, none, some, List, if◌then◌else◌, Bool-cases,
  inl, inr,
}
use bgpulse.Rtr.Session.{Client, SessionError, Outcome, continues, ended, panics, session}
use bgpulse.Rtr.Session.Safety.{IsSound, IsSafe, IsReceived, session-IsSafe}
use bgpulse.Rtr.Session.Prefixes.{AllChanges}
use bgpulse.Rtr.Run.{
  next_backoff, Round, Phase, cancelled, gave_up, serving, reconnecting, crashed, fatal_text, retry,
  round,
}
use bgpulse.Rtr.Run.Breaks.{reports_fatal}
use bgpulse.Rtr.Run.Ends.{IsMild, session-IsMild}

-- A phase with a sound client, in which Run has given up only for a fatal report, and waits next for
-- as long as is due.
abbrev pub IsLasting : Bool → ℕ → Phase → Type 0
IsLasting report due (cancelled c) = IsSound c
IsLasting report due (gave_up c text) = IsSound c × (report ≡ true)
IsLasting report due (serving c s) = IsSound c × AllChanges s.pending
IsLasting report due (reconnecting c wait) = IsSound c × (wait ≡ due)
IsLasting report due crashed = ⊥

-- The same phase where there is one more report, or none less.
pub weaker : (x y : Bool) (due : ℕ) (p : Phase) → IsLasting y due p → IsLasting (x || y) due p
weaker x y due (cancelled c) k = k
weaker x y due (gave_up c text) k = (k.0, ground (arith, k.1))
weaker x y due (serving c s) k = k
weaker x y due (reconnecting c wait) k = k
weaker x y due crashed k = k

retry-IsLasting :
    (wait : ℕ) (r : Round) (c : Client) (e : SessionError)
    → IsSound c
    → ((reports_fatal r.attempt ≡ false) → fatal_text e ≡ none)
    → IsLasting (reports_fatal r.attempt) (next_backoff wait) (retry wait r c e)
unfolding retry
retry-IsLasting wait r c e k mild = during r.cancelled_during
  where
    waiting :
        (x : Bool)
        → IsLasting
            (reports_fatal r.attempt)
            (next_backoff wait)
            (if x then cancelled c else reconnecting c (next_backoff wait))
    waiting true = k
    waiting false = (k, refl)

    report :
        (o : Option (List ℕ))
        → ((reports_fatal r.attempt ≡ false) → o ≡ none)
        → IsLasting (reports_fatal r.attempt) (next_backoff wait) (elim o [
          | some text ↦ gave_up c text
          | none ↦ if r.cancelled_waiting then cancelled c else reconnecting c (next_backoff wait)
        ])
    report none h = waiting r.cancelled_waiting
    report (some text) h = (
      k,
      elim (Bool-cases (reports_fatal r.attempt)) [
        | inl e' ↦ e'
        | inr e' ↦ absurd (let q : some text ≡ none = h e' in ground arith)
      ],
    )

    during :
        (x : Bool)
        → IsLasting (reports_fatal r.attempt) (next_backoff wait) (
            if x then cancelled c else elim (fatal_text e) [
              | some text ↦ gave_up c text
              | none ↦
                  if r.cancelled_waiting then cancelled c else reconnecting c (next_backoff wait)
            ])
    during true = k
    during false = report (fatal_text e) mild

pub round-IsLasting :
    (c : Client) (wait : ℕ) (r : Round)
    → IsSound c
    → IsReceived r.attempt
    → IsLasting (reports_fatal r.attempt) (next_backoff wait) (round c wait r)
unfolding round
round-IsLasting c wait r k d = before r.cancelled_before
  where
    after_session :
        (o : Outcome)
        → IsSafe o
        → ((reports_fatal r.attempt ≡ false) → IsMild o)
        → IsLasting (reports_fatal r.attempt) (next_backoff wait) (elim o [
          | continues c' s bytes ↦ serving c' s
          | ended c' e ↦ retry wait r c' e
          | panics ↦ crashed
        ])
    after_session (continues c' s bytes) a m = a
    after_session (ended c' e) a m = retry-IsLasting wait r c' e a m
    after_session panics a m = a

    before :
        (x : Bool)
        → IsLasting (reports_fatal r.attempt) (next_backoff wait) (
            if x then cancelled c else elim (session c r.attempt) [
              | continues c' s bytes ↦ serving c' s
              | ended c' e ↦ retry wait r c' e
              | panics ↦ crashed
            ])
    before true = k
    before false =
        after_session (session c r.attempt) (session-IsSafe c r.attempt k d)
          (session-IsMild c r.attempt)
