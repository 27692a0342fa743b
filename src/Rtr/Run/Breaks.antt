-- ===== src/Rtr/Run/Breaks.antt =====
-- Connections of rtr/client.go that end, and those that report another version.
use bgpulse.Base.{Bool, true, false, ◌||◌, List, [], ◌∷◌, ◌==◌}
use bgpulse.Rtr.Codec.{
  reset_query, serial_query, serial_notify, cache_response, prefix_pdu, end_of_data, cache_reset,
  router_key, error_report, unsupported_protocol_version,
}
use bgpulse.Rtr.Session.{
  Event, received, timed_out, read_failed, Arrival, Attempt, unreachable, connected, session,
}

-- The report of an unsupported version.
abbrev pub is_fatal : Event → Bool
is_fatal (received (error_report code text)) = code == unsupported_protocol_version
is_fatal (received reset_query) = false
is_fatal (received (serial_query session serial)) = false
is_fatal (received (serial_notify session serial)) = false
is_fatal (received (cache_response session)) = false
is_fatal (received (prefix_pdu p)) = false
is_fatal (received (end_of_data session serial refresh retry expire)) = false
is_fatal (received cache_reset) = false
is_fatal (received router_key) = false
is_fatal timed_out = false
is_fatal (read_failed e) = false

-- An event behind which no session goes on.
abbrev pub is_last : Event → Bool
is_last (received (error_report code text)) = true
is_last (received reset_query) = false
is_last (received (serial_query session serial)) = false
is_last (received (serial_notify session serial)) = false
is_last (received (cache_response session)) = false
is_last (received (prefix_pdu p)) = false
is_last (received (end_of_data session serial refresh retry expire)) = false
is_last (received cache_reset) = false
is_last (received router_key) = false
is_last timed_out = false
is_last (read_failed e) = true

-- Some arrival is fatal, or is the last one.
unfoldable pub some_fatal : List Arrival → Bool
some_fatal [] = false
some_fatal (a ∷ rest) = is_fatal a.event || some_fatal rest

unfoldable pub some_last : List Arrival → Bool
some_last [] = false
some_last (a ∷ rest) = is_last a.event || some_last rest

abbrev pub reports_fatal : Attempt → Bool
reports_fatal unreachable = false
reports_fatal (connected writable arrivals) = some_fatal arrivals

abbrev pub breaks : Attempt → Bool
breaks unreachable = true
breaks (connected true arrivals) = some_last arrivals
breaks (connected false arrivals) = true
