-- ===== src/Rtr/Session.antt =====
-- backend/internal/rtr/client.go: one session with a cache as a function of what arrives.
pub mod Changes
pub mod Commit
pub mod Prefixes
pub mod Sync
pub mod Safety
mod Tests
use bgpulse.Base.{
  ℕ, zero, suc, ◌*◌, ◌+◌, Bool, true, false, Option, none, some, List, [], ◌∷◌, ◌++◌, ltb, ◌==◌,
  if◌then◌else◌,
}
use bgpulse.Base.Table.{member, add, remove}
use bgpulse.Rpki.{
  Vrp, Vrp-discrete, VrpStore, Builder, new_builder, Added, ok, refused, fault, add_vrp, build,
}
use bgpulse.Rtr.Codec.{
  PrefixPdu, Pdu, reset_query, serial_query, serial_notify, cache_response, prefix_pdu, end_of_data,
  cache_reset, router_key, error_report, ReadError, unsupported_protocol_version,
}
use bgpulse.Rtr.Codec.Encode.{reset_query_bytes, serial_query_bytes}

-- `Client`. A key of `current` is the text of a VRP's three fields; the VRP stands for it, so the map
-- is a set. `live` is the store that rpki.Live points to; `refresh` is in seconds.
pub record Client : Type 0 where
  pub session_id : ℕ
  pub serial : ℕ
  pub has_serial : Bool
  pub current : List Vrp
  pub live : VrpStore
  pub refresh : ℕ

abbrev pub default_refresh : ℕ
default_refresh = 3600

unfoldable pub new_client : VrpStore → Client
new_client live = record {
  session_id = 0;
  serial = 0;
  has_serial = false;
  current = [];
  live = live;
  refresh = default_refresh;
}

pub record ChangeRec : Type 0 where
  pub vrp : Vrp
  pub announce : Bool

abbrev pub to_vrp : PrefixPdu → Vrp
to_vrp p = record { prefix = p.prefix; max_length = p.max_len; origin_as = p.asn }

-- The loop of `commit` over the changes.
unfoldable pub apply_changes : List Vrp → List ChangeRec → List Vrp
apply_changes current [] = current
apply_changes current (ch ∷ changes) =
    apply_changes
      (if ch.announce then add Vrp-discrete ch.vrp current else remove Vrp-discrete ch.vrp current)
      changes

-- The loop of `commit` that adds every VRP and drops the errors; `none` is a panic of Add.
unfoldable pub add_all : Builder → List Vrp → Option Builder
add_all b [] = some b
add_all b (v ∷ vs) = elim (add_vrp b v) [
  | ok b' ↦ add_all b' vs
  | refused e ↦ add_all b vs
  | fault ↦ none
]

unfoldable pub commit : Client → Bool → List ChangeRec → Option Client
unfolding apply_changes add_all
commit c full_sync changes =
    let current = apply_changes (if full_sync then [] else c.current) changes in
    elim (add_all new_builder current) [
      | none ↦ none
      | some b ↦ some (record c { current = current; live = build b })
    ]

-- The local variables of `session`.
pub record Progress : Type 0 where
  pub full_sync : Bool
  pub pending : List ChangeRec

-- What one read of the connection gives: a PDU, the deadline, or another error.
pub data Event : Type 0 where
  received : Pdu → Event
  timed_out : Event
  read_failed : ReadError → Event

pub data SessionError : Type 0 where
  dial_error : SessionError
  read_error : ReadError → SessionError
  write_error : SessionError
  timeout : SessionError
  fatal : List ℕ → SessionError
  cache_error : ℕ → List ℕ → SessionError

-- How a round of the loop ends: with the bytes that it has written, with an error, or in a panic.
pub data Outcome : Type 0 where
  continues : Client → Progress → List ℕ → Outcome
  ended : Client → SessionError → Outcome
  panics : Outcome

-- The progress after a query for changes.
abbrev pub incremental : Progress
incremental = record { full_sync = false; pending = [] }

abbrev pub resetting : Progress
resetting = record { full_sync = true; pending = [] }

-- A write of a query; `writable` says whether the connection takes it.
abbrev pub send : Bool → Client → Progress → List ℕ → Outcome
send writable c next bytes = if writable then continues c next bytes else ended c write_error

-- The lines of the `EndOfData` case after `commit`.
abbrev pub synced : Client → ℕ → ℕ → ℕ → Client
synced c session serial refresh = record c {
  session_id = session;
  serial = serial;
  has_serial = true;
  refresh = if ltb 0 refresh then refresh else c.refresh;
}

-- The `switch` of `session`.
unfoldable pub handle : Bool → Client → Progress → Pdu → Outcome
unfolding commit
handle writable c s (cache_response session) =
    continues (record c { session_id = session }) (record s { pending = [] }) []
handle writable c s (prefix_pdu p) =
    let change : ChangeRec = record { vrp = to_vrp p; announce = p.announce } in
    continues c (record s { pending = s.pending ++ (change ∷ []) }) []
handle writable c s (end_of_data session serial refresh retry expire) =
    elim (commit c s.full_sync s.pending) [
      | none ↦ panics
      | some c' ↦ continues (synced c' session serial refresh) incremental []
    ]
handle writable c s (serial_notify session serial) =
    send writable c incremental (serial_query_bytes c.session_id c.serial)
handle writable c s cache_reset =
    send writable (record c { current = [] }) resetting reset_query_bytes
handle writable c s (error_report code text) =
    ended c (if code == unsupported_protocol_version then fatal text else cache_error code text)
handle writable c s router_key = continues c s []
handle writable c s reset_query = continues c s []
handle writable c s (serial_query session serial) = continues c s []

-- One round of the loop of `session`.
unfoldable pub step : Bool → Client → Progress → Event → Outcome
unfolding handle
step writable c s (received p) = handle writable c s p
step writable c s timed_out =
    if c.has_serial
    then send writable c incremental (serial_query_bytes c.session_id c.serial)
    else ended c timeout
step writable c s (read_failed e) = ended c (read_error e)

-- The bytes of an outcome come after others.
abbrev pub after : List ℕ → Outcome → Outcome
after bytes (continues c s more) = continues c s (bytes ++ more)
after bytes (ended c e) = ended c e
after bytes panics = panics

-- The loop over what arrives, as long as every write succeeds.
unfoldable pub run : Client → Progress → List Event → Outcome
unfolding step
run c s [] = continues c s []
run c s (e ∷ es) = elim (step true c s e) [
  | continues c' s' bytes ↦ after bytes (run c' s' es)
  | ended c' err ↦ ended c' err
  | panics ↦ panics
]

-- What one read gives, and whether the connection then takes the query that may answer it.
pub record Arrival : Type 0 where
  pub event : Event
  pub writable : Bool

-- The loop over what arrives; it goes on waiting behind the last arrival.
unfoldable pub session_loop : Client → Progress → List Arrival → Outcome
unfolding step
session_loop c s [] = continues c s []
session_loop c s (a ∷ rest) = elim (step a.writable c s a.event) [
  | continues c' s' bytes ↦ after bytes (session_loop c' s' rest)
  | ended c' err ↦ ended c' err
  | panics ↦ panics
]

-- One attempt of `session`: the dialer fails, or the connection takes the Reset Query or not and
-- brings what arrives on it.
pub data Attempt : Type 0 where
  unreachable : Attempt
  connected : Bool → List Arrival → Attempt

unfoldable pub session : Client → Attempt → Outcome
unfolding session_loop
session c unreachable = ended c dial_error
session c (connected writable arrivals) =
    if writable
    then after reset_query_bytes (session_loop c resetting arrivals)
    else ended c write_error
