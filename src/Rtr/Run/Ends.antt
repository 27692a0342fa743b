-- ===== src/Rtr/Run/Ends.antt =====
-- How the sessions of rtr/client.go end.
use bgpulse.Base.{
  ℕ, ◌≡◌, refl, arith, Bool, true, false, Option, none, some, List, [], ◌∷◌, if◌then◌else◌,
  Bool-cases, ◌⊎◌, inl, inr,
}
use bgpulse.Rtr.Codec.{
  Pdu, reset_query, serial_query, serial_notify, cache_response, prefix_pdu, end_of_data,
  cache_reset, router_key, error_report,
}
use bgpulse.Rtr.Codec.Encode.{reset_query_bytes, serial_query_bytes}
use bgpulse.Rtr.Session.{
  Client, Progress, Event, received, timed_out, read_failed, timeout, Outcome, continues, ended,
  panics, incremental, resetting, synced, send, commit, handle, step, after, Arrival, session_loop,
  Attempt, unreachable, connected, session,
}
use bgpulse.Rtr.Run.{fatal_text}
use bgpulse.Rtr.Run.Breaks.{is_fatal, is_last, some_fatal, some_last, reports_fatal, breaks}

-- An outcome without a fatal error, and one that does not go on.
abbrev pub IsMild : Outcome → Type 0
IsMild (continues c s bytes) = Unit
IsMild (ended c e) = fatal_text e ≡ none
IsMild panics = Unit

abbrev pub IsOver : Outcome → Type 0
IsOver (continues c s bytes) = ⊥
IsOver (ended c e) = Unit
IsOver panics = Unit

send-IsMild :
    (writable : Bool) (c : Client) (s : Progress) (bytes : List ℕ)
    → IsMild (send writable c s bytes)
send-IsMild true c s bytes = tt
send-IsMild false c s bytes = refl

handle-IsMild :
    (writable : Bool) (c : Client) (s : Progress) (p : Pdu)
    → is_fatal (received p) ≡ false
    → IsMild (handle writable c s p)
unfolding handle
handle-IsMild writable c s (prefix_pdu p) n = tt
handle-IsMild writable c s reset_query n = tt
handle-IsMild writable c s (serial_query session serial) n = tt
handle-IsMild writable c s (serial_notify session serial) n = send-IsMild writable c _ _
handle-IsMild writable c s (cache_response session) n = tt
handle-IsMild writable c s (end_of_data session serial refresh retry expire) n =
    go (commit c s.full_sync s.pending)
  where
    go :
        (o : Option Client)
        → IsMild (elim o [
          | none ↦ panics
          | some c' ↦ continues (synced c' session serial refresh) incremental []
        ])
    go none = tt
    go (some c') = tt
handle-IsMild writable c s cache_reset n = send-IsMild writable _ _ _
handle-IsMild writable c s router_key n = tt
handle-IsMild writable c s (error_report code text) n = ground (arith, n)

step-IsMild :
    (writable : Bool) (c : Client) (s : Progress) (e : Event)
    → is_fatal e ≡ false
    → IsMild (step writable c s e)
unfolding step
step-IsMild writable c s (received p) n = handle-IsMild writable c s p n
step-IsMild writable c s timed_out n = go c.has_serial
  where
    go :
        (x : Bool)
        → IsMild (
            if x
            then send writable c incremental (serial_query_bytes c.session_id c.serial)
            else ended c timeout)
    go true = send-IsMild writable c incremental _
    go false = refl
step-IsMild writable c s (read_failed e) n = refl

step-IsOver :
    (writable : Bool) (c : Client) (s : Progress) (e : Event)
    → is_last e ≡ true
    → IsOver (step writable c s e)
unfolding step handle
step-IsOver writable c s (received (error_report code text)) l = tt
step-IsOver writable c s (read_failed e) l = tt
step-IsOver writable c s (received reset_query) l = absurd (ground arith)
step-IsOver writable c s (received (serial_query session serial)) l = absurd (ground arith)
step-IsOver writable c s (received (serial_notify session serial)) l = absurd (ground arith)
step-IsOver writable c s (received (cache_response session)) l = absurd (ground arith)
step-IsOver writable c s (received (prefix_pdu p)) l = absurd (ground arith)
step-IsOver writable c s (received (end_of_data session serial refresh retry expire)) l =
    absurd (ground arith)
step-IsOver writable c s (received cache_reset) l = absurd (ground arith)
step-IsOver writable c s (received router_key) l = absurd (ground arith)
step-IsOver writable c s timed_out l = absurd (ground arith)

after-IsMild : (bytes : List ℕ) (o : Outcome) → IsMild o → IsMild (after bytes o)
after-IsMild bytes (continues c s more) k = tt
after-IsMild bytes (ended c e) k = k
after-IsMild bytes panics k = tt

after-IsOver : (bytes : List ℕ) (o : Outcome) → IsOver o → IsOver (after bytes o)
after-IsOver bytes (continues c s more) k = k
after-IsOver bytes (ended c e) k = tt
after-IsOver bytes panics k = tt

then-IsMild :
    (next : Client → Progress → Outcome)
    → ((c : Client) (s : Progress) → IsMild (next c s))
    → (o : Outcome) → IsMild o
    → IsMild (elim o [
      | continues c s bytes ↦ after bytes (next c s)
      | ended c e ↦ ended c e
      | panics ↦ panics
    ])
then-IsMild next rest (continues c s bytes) k = after-IsMild bytes (next c s) (rest c s)
then-IsMild next rest (ended c e) k = k
then-IsMild next rest panics k = tt

then-IsOver :
    (next : Client → Progress → Outcome) (o : Outcome)
    → IsOver o ⊎ ((c : Client) (s : Progress) → IsOver (next c s))
    → IsOver (elim o [
      | continues c s bytes ↦ after bytes (next c s)
      | ended c e ↦ ended c e
      | panics ↦ panics
    ])
then-IsOver next (continues c s bytes) (inl k) = absurd k
then-IsOver next (continues c s bytes) (inr rest) = after-IsOver bytes (next c s) (rest c s)
then-IsOver next (ended c e) k = tt
then-IsOver next panics k = tt

-- Without a fatal report among the arrivals, no fatal error ends the session.
session_loop-IsMild :
    (c : Client) (s : Progress) (arrivals : List Arrival)
    → some_fatal arrivals ≡ false
    → IsMild (session_loop c s arrivals)
unfolding session_loop some_fatal
session_loop-IsMild c s [] n = tt
session_loop-IsMild c s (a ∷ rest) n =
    then-IsMild (λ c' s'. session_loop c' s' rest)
      (λ c' s'. session_loop-IsMild c' s' rest (ground (arith, n))) (step a.writable c s a.event)
      (step-IsMild a.writable c s a.event (ground (arith, n)))

-- With a last arrival, the session does not go on.
session_loop-IsOver :
    (c : Client) (s : Progress) (arrivals : List Arrival)
    → some_last arrivals ≡ true
    → IsOver (session_loop c s arrivals)
unfolding session_loop some_last
session_loop-IsOver c s [] l = absurd (ground arith)
session_loop-IsOver c s (a ∷ rest) l =
    then-IsOver (λ c' s'. session_loop c' s' rest) (step a.writable c s a.event)
      (elim (Bool-cases (is_last a.event)) [
        | inl e ↦ inl (step-IsOver a.writable c s a.event e)
        | inr e ↦ inr (λ c' s'. session_loop-IsOver c' s' rest (ground (arith, l, e)))
      ])

pub session-IsMild : (c : Client) (t : Attempt) → reports_fatal t ≡ false → IsMild (session c t)
unfolding session
session-IsMild c unreachable n = refl
session-IsMild c (connected true arrivals) n =
    after-IsMild reset_query_bytes _ (session_loop-IsMild c resetting arrivals n)
session-IsMild c (connected false arrivals) n = refl

pub session-IsOver : (c : Client) (t : Attempt) → breaks t ≡ true → IsOver (session c t)
unfolding session
session-IsOver c unreachable l = tt
session-IsOver c (connected true arrivals) l =
    after-IsOver reset_query_bytes _ (session_loop-IsOver c resetting arrivals l)
session-IsOver c (connected false arrivals) l = tt
