-- ===== src/Rtr/Session/Safety.antt =====
-- Panics of the session of rtr/client.go, and what its client keeps.
use bgpulse.Base.{ℕ, ◌≡◌, refl, ◌<◌, ltb, arith, Bool, true, false, List, [], ◌∷◌, if◌then◌else◌}
use mathlib.Core.Path.{subst}
use bgpulse.Rpki.{Builder, build}
use bgpulse.Rpki.Spec.{IsPrefix, IsIndex}
use bgpulse.Rtr.Codec.{
  Pdu, reset_query, serial_query, serial_notify, cache_response, prefix_pdu, end_of_data,
  cache_reset, router_key, error_report,
}
use bgpulse.Rtr.Codec.Encode.{reset_query_bytes, serial_query_bytes}
use bgpulse.Rtr.Session.{
  Client, apply_changes, Progress, Event, received, timed_out, read_failed, Outcome, continues,
  ended, panics, send, synced, handle, step, run, incremental, resetting, timeout, after, Arrival,
  session_loop, Attempt, unreachable, connected, session,
}
use bgpulse.Rtr.Session.Prefixes.{AllChanges, apply_changes_prefixes, append_changes, base_prefixes}
use bgpulse.Rtr.Session.Commit.{AllPrefixes, commit-Answers}

-- An event that carries a prefix carries a valid one, as `readPDU` makes sure.
abbrev pub IsDecoded : Event → Type 0
IsDecoded (received (prefix_pdu p)) = IsPrefix p.prefix
IsDecoded (received reset_query) = Unit
IsDecoded (received (serial_query session serial)) = Unit
IsDecoded (received (serial_notify session serial)) = Unit
IsDecoded (received (cache_response session)) = Unit
IsDecoded (received (end_of_data session serial refresh retry expire)) = Unit
IsDecoded (received cache_reset) = Unit
IsDecoded (received router_key) = Unit
IsDecoded (received (error_report code text)) = Unit
IsDecoded timed_out = Unit
IsDecoded (read_failed e) = Unit

abbrev pub AllDecoded : List Event → Type 0
AllDecoded [] = Unit
AllDecoded (e ∷ es) = IsDecoded e × AllDecoded es

-- A client whose VRPs have valid prefixes, whose reads have a deadline, and whose live store has its
-- tries in step with the VRPs of a builder.
pub record IsSound (c : Client) : Type 0 where
  pub prefixes : AllPrefixes c.current
  pub deadline : 0 < c.refresh
  pub builder : Builder
  pub built : c.live ≡ build builder
  pub index : IsIndex builder

-- An outcome that is no panic, after which the client is sound again.
abbrev pub IsSafe : Outcome → Type 0
IsSafe (continues c s bytes) = IsSound c × AllChanges s.pending
IsSafe (ended c e) = IsSound c
IsSafe panics = ⊥

send-IsSafe :
    (writable : Bool) (c : Client) (s : Progress) (bytes : List ℕ)
    → IsSound c
    → AllChanges s.pending
    → IsSafe (send writable c s bytes)
send-IsSafe true c s bytes a b = (a, b)
send-IsSafe false c s bytes a b = a

refresh_pos : (old new : ℕ) → 0 < old → 0 < (if ltb 0 new then new else old)
refresh_pos old new h = ground (arith, h)

moved : (c : Client) (session : ℕ) → IsSound c → IsSound (record c { session_id = session })
moved c session a = record {
  prefixes = a.prefixes;
  deadline = a.deadline;
  builder = a.builder;
  built = a.built;
  index = a.index;
}

emptied : (c : Client) → IsSound c → IsSound (record c { current = [] })
emptied c a = record {
  prefixes = tt;
  deadline = a.deadline;
  builder = a.builder;
  built = a.built;
  index = a.index;
}

handle-IsSafe :
    (writable : Bool) (c : Client) (s : Progress) (p : Pdu)
    → IsSound c
    → AllChanges s.pending
    → IsDecoded (received p)
    → IsSafe (handle writable c s p)
unfolding handle
handle-IsSafe writable c s (prefix_pdu p) a b d = (a, append_changes s.pending _ b d)
handle-IsSafe writable c s reset_query a b d = (a, b)
handle-IsSafe writable c s (serial_query session serial) a b d = (a, b)
handle-IsSafe writable c s (serial_notify session serial) a b d = send-IsSafe writable c _ _ a tt
handle-IsSafe writable c s (cache_response session) a b d = (moved c session a, tt)
handle-IsSafe writable c s (end_of_data session serial refresh retry expire) a b d =
    let all =
      apply_changes_prefixes _ s.pending (base_prefixes s.full_sync c.current a.prefixes) b in
    let (built, done, index, knows) = commit-Answers c s.full_sync s.pending all in
    let c1 : Client = record c {
      current = apply_changes (if s.full_sync then [] else c.current) s.pending;
      live = build built;
    } in
    subst IsSafe
      (let q : continues (synced c1 session serial refresh) incremental []
            ≡ handle writable c s (end_of_data session serial refresh retry expire) =
          ground arith in
        q)
      (
        record {
          prefixes = all;
          deadline = refresh_pos c.refresh refresh a.deadline;
          builder = built;
          built = refl;
          index = index;
        },
        tt,
      )
handle-IsSafe writable c s cache_reset a b d = send-IsSafe writable _ _ _ (emptied c a) tt
handle-IsSafe writable c s router_key a b d = (a, b)
handle-IsSafe writable c s (error_report code text) a b d = a

step-IsSafe :
    (writable : Bool) (c : Client) (s : Progress) (e : Event)
    → IsSound c
    → AllChanges s.pending
    → IsDecoded e
    → IsSafe (step writable c s e)
unfolding step
step-IsSafe writable c s (received p) a b d = handle-IsSafe writable c s p a b d
step-IsSafe writable c s timed_out a b d = go c.has_serial
  where
    go :
        (x : Bool)
        → IsSafe (
            if x
            then send writable c incremental (serial_query_bytes c.session_id c.serial)
            else ended c timeout)
    go true = send-IsSafe writable c incremental _ a tt
    go false = a
step-IsSafe writable c s (read_failed e) a b d = a

-- Events one after another, once the rest of them is safe from every sound client.
later-IsSafe : (bytes : List ℕ) (o : Outcome) → IsSafe o → IsSafe (after bytes o)
later-IsSafe bytes (continues c s more) k = k
later-IsSafe bytes (ended c e) k = k
later-IsSafe bytes panics k = k

then-IsSafe :
    (next : Client → Progress → Outcome)
    → ((c : Client) (s : Progress) → IsSound c → AllChanges s.pending → IsSafe (next c s))
    → (o : Outcome) → IsSafe o
    → IsSafe (elim o [
      | continues c s bytes ↦ after bytes (next c s)
      | ended c e ↦ ended c e
      | panics ↦ panics
    ])
then-IsSafe next rest (continues c s bytes) k = later-IsSafe bytes (next c s) (rest c s k.0 k.1)
then-IsSafe next rest (ended c e) k = k
then-IsSafe next rest panics k = k

-- On any events whose prefixes are as readPDU makes them, from a sound client and changes with valid
-- prefixes, the session does not panic, and the client is sound again.
run-IsSafe :
    (c : Client) (s : Progress) (es : List Event)
    → IsSound c
    → AllChanges s.pending
    → AllDecoded es
    → IsSafe (run c s es)
unfolding run
run-IsSafe c s [] a b d = (a, b)
run-IsSafe c s (e ∷ es) a b d =
    then-IsSafe (λ c' s'. run c' s' es) (λ c' s' a' b'. run-IsSafe c' s' es a' b' d.1)
      (step true c s e) (step-IsSafe true c s e a b d.0)

-- The arrivals carry such events.
abbrev pub AllReceived : List Arrival → Type 0
AllReceived [] = Unit
AllReceived (a ∷ rest) = IsDecoded a.event × AllReceived rest

pub session_loop-IsSafe :
    (c : Client) (s : Progress) (arrivals : List Arrival)
    → IsSound c
    → AllChanges s.pending
    → AllReceived arrivals
    → IsSafe (session_loop c s arrivals)
unfolding session_loop
session_loop-IsSafe c s [] a b d = (a, b)
session_loop-IsSafe c s (x ∷ rest) a b d =
    then-IsSafe (λ c' s'. session_loop c' s' rest)
      (λ c' s' a' b'. session_loop-IsSafe c' s' rest a' b' d.1) (step x.writable c s x.event)
      (step-IsSafe x.writable c s x.event a b d.0)

abbrev pub IsReceived : Attempt → Type 0
IsReceived unreachable = Unit
IsReceived (connected writable arrivals) = AllReceived arrivals

pub session-IsSafe : (c : Client) (t : Attempt) → IsSound c → IsReceived t → IsSafe (session c t)
unfolding session
session-IsSafe c unreachable a d = a
session-IsSafe c (connected true arrivals) a d =
    later-IsSafe reset_query_bytes (session_loop c resetting arrivals)
      (session_loop-IsSafe c resetting arrivals a tt d)
session-IsSafe c (connected false arrivals) a d = a
