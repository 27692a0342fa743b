-- ===== src/Mrt.antt =====
-- backend/internal/mrt: from decoded MRT records to events (parser.go), the reader's loop over the
-- records (reader.go) and the replay of what was decoded (replay.go). The decoding of the bytes is
-- a third-party package: its values are the data types here, and a prefix of an NLRI, of any type
-- `N`, is what `parse` makes of its text.
pub mod Events
pub mod Decoded
pub mod Aggregates
pub mod Replay
mod Tests
use bgpulse.Base.{
  ℕ, zero, suc, ◌+◌, ◌*◌, ◌/◌, ◌%◌, ◌^◌, Bool, true, false, Option, none, some, List, [], ◌∷◌, ◌++◌,
  map, if◌then◌else◌, inc64, ◌==◌,
}
use bgpulse.Bgp.Types.{Asn, announce, withdraw, UpdateEvent, Community}
use bgpulse.Bgp.Net.{Addr, invalid, Prefix, zero_prefix, masked}

-- A segment of an AS_PATH: whether it is an AS_SET, and its ASes.
pub record Segment : Type 0 where
  pub is_set : Bool
  pub ases : List Asn

-- The path attributes that the program looks at.
pub data Attribute (N : Type 0) : Type 0 where
  as_path_attr : List Segment → Attribute N
  next_hop_attr : Addr → Attribute N
  communities_attr : List ℕ → Attribute N
  mp_reach : Addr → List N → Attribute N
  mp_unreach : List N → Attribute N
  other_attr : Attribute N

pub record BgpUpdate (N : Type 0) : Type 0 where
  pub withdrawn_routes : List N
  pub nlri : List N
  pub path_attributes : List (Attribute N)

-- The body of a record: a BGP4MP message from a peer with an UPDATE or another message, or none;
-- or a record of another kind.
pub data Body (N : Type 0) : Type 0 where
  bgp4mp_update : Asn → BgpUpdate N → Body N
  bgp4mp_other : Asn → Body N
  other_body : Body N

-- The timestamp is in seconds.
pub record MrtMessage (N : Type 0) : Type 0 where
  pub timestamp : ℕ
  pub body : Body N

-- The path that `extractASPath` builds, whether it holds an AS_SET, and whether the last segment is
-- one.
pub record Flattened : Type 0 where
  pub path : List Asn
  pub has_as_set : Bool
  pub last_was_set : Bool

abbrev pub no_path : Flattened
no_path = record { path = []; has_as_set = false; last_was_set = false }

-- The hop that stands for an AS_SET: its first member.
abbrev pub set_hop : List Asn → List Asn
set_hop [] = []
set_hop (a ∷ rest) = a ∷ []

-- The loop over the segments.
unfoldable pub flatten : Flattened → List Segment → Flattened
flatten f [] = f
flatten f (seg ∷ segs) =
    flatten
      (if seg.is_set
        then record { path = f.path ++ set_hop seg.ases; has_as_set = true; last_was_set = true }
        else record f { path = f.path ++ seg.ases; last_was_set = false })
      segs

-- `path[len(path)-1]`
unfoldable pub last_as : List Asn → Asn
last_as [] = 0
last_as (a ∷ []) = a
last_as (a ∷ (b ∷ path)) = last_as (b ∷ path)

unfoldable pub origin_as_of : Flattened → Asn
unfolding last_as
origin_as_of f = if f.last_was_set then 0 else last_as f.path

-- `uint16(v >> 16)` and `uint16(v)`
abbrev pub community_of : ℕ → Community
community_of v = record { asn = v / 2 ^ 16 % 2 ^ 16; value = v % 2 ^ 16 }

module _ {N : Type 0} where
  unfoldable pub extract_as_path : List (Attribute N) → Flattened
  unfolding flatten
  extract_as_path [] = no_path
  extract_as_path (as_path_attr segs ∷ attrs) = flatten no_path segs
  extract_as_path (_ ∷ attrs) = extract_as_path attrs

  unfoldable pub extract_next_hop : List (Attribute N) → Addr
  extract_next_hop [] = invalid
  extract_next_hop (next_hop_attr nh ∷ attrs) = nh
  extract_next_hop (_ ∷ attrs) = extract_next_hop attrs

  unfoldable pub extract_communities : List (Attribute N) → List Community
  extract_communities [] = []
  extract_communities (communities_attr vs ∷ attrs) = map community_of vs
  extract_communities (_ ∷ attrs) = extract_communities attrs

-- `base`: the event that the others are copies of.
abbrev pub base_event : ℕ → Asn → UpdateEvent
base_event seconds peer = record {
  id = record { tag = ""; seq = 0 };
  seq = 0;
  timestamp = seconds * 10 ^ 9;
  kind = announce;
  prefix = zero_prefix;
  peer_as = peer;
  as_path = [];
  has_as_set = false;
  next_hop = invalid;
  communities = [];
  origin_as = 0;
}

abbrev pub announce_of : UpdateEvent → Prefix → Flattened → Addr → List Community → UpdateEvent
announce_of base p f nh comms = record base {
  kind = announce;
  prefix = p;
  as_path = f.path;
  has_as_set = f.has_as_set;
  origin_as = origin_as_of f;
  next_hop = nh;
  communities = comms;
}

abbrev pub withdraw_of : UpdateEvent → Prefix → UpdateEvent
withdraw_of base p = record base { kind = withdraw; prefix = p }

module _ {N : Type 0} (parse : N → Option Prefix) where
  -- `nlriPrefix`: the masked prefix, or none for an error.
  unfoldable pub nlri_prefix : N → Option Prefix
  nlri_prefix n = elim (parse n) [ none ↦ none | some p ↦ some (masked p) ]

  -- One event for each NLRI with a prefix.
  unfoldable pub events_for : (Prefix → UpdateEvent) → List N → List UpdateEvent
  events_for f [] = []
  events_for f (n ∷ ns) =
      let rest = events_for f ns in elim (nlri_prefix n) [ none ↦ rest | some p ↦ f p ∷ rest ]

  -- The events of the multiprotocol attributes.
  unfoldable pub mp_events :
      UpdateEvent → Flattened → List Community → List (Attribute N) → List UpdateEvent
  mp_events base f comms [] = []
  mp_events base f comms (mp_reach nh ns ∷ attrs) =
      events_for (λ p. announce_of base p f nh comms) ns ++ mp_events base f comms attrs
  mp_events base f comms (mp_unreach ns ∷ attrs) =
      events_for (withdraw_of base) ns ++ mp_events base f comms attrs
  mp_events base f comms (_ ∷ attrs) = mp_events base f comms attrs

  unfoldable pub update_events : UpdateEvent → BgpUpdate N → List UpdateEvent
  unfolding events_for mp_events
  update_events base upd =
      let f = extract_as_path upd.path_attributes in
      let nh = extract_next_hop upd.path_attributes in
      let comms = extract_communities upd.path_attributes in
      events_for (withdraw_of base) upd.withdrawn_routes
      ++ (events_for (λ p. announce_of base p f nh comms) upd.nlri
          ++ mp_events base f comms upd.path_attributes)

  unfoldable pub record_to_events : MrtMessage N → List UpdateEvent
  unfolding update_events
  record_to_events msg = elim msg.body [
    | bgp4mp_update peer upd ↦ update_events (base_event msg.timestamp peer) upd
    | bgp4mp_other peer ↦ []
    | other_body ↦ []
  ]

  -- The loop of `DecodeStream` over the framed records: one that does not decode is passed over.
  unfoldable pub decode_records : List (Option (MrtMessage N)) → List UpdateEvent
  unfolding record_to_events
  decode_records [] = []
  decode_records (none ∷ rest) = decode_records rest
  decode_records (some msg ∷ rest) = record_to_events msg ++ decode_records rest

  -- `DecodeStream`; `scan_failed` says that the scanner stopped at an error.
  unfoldable pub decode_stream : Bool → List (Option (MrtMessage N)) → Option (List UpdateEvent)
  unfolding decode_records
  decode_stream scan_failed records = if scan_failed then none else some (decode_records records)

-- `NewReplaySourceFromBytes` on what was decoded: a stream without events is refused.
unfoldable pub new_replay : Option (List UpdateEvent) → Option (List UpdateEvent)
new_replay none = none
new_replay (some []) = none
new_replay (some (ev ∷ evs)) = some (ev ∷ evs)

-- The event with its number and ID; the timestamp is the record's.
abbrev pub numbered_event : ℕ → UpdateEvent → UpdateEvent
numbered_event seq ev = record ev { id = record { tag = "mrt"; seq = seq }; seq = seq }

-- One pass over the events, from the number `seq` of the one before.
unfoldable pub replay_pass : ℕ → List UpdateEvent → List UpdateEvent
replay_pass seq [] = []
replay_pass seq (ev ∷ evs) = numbered_event (inc64 seq) ev ∷ replay_pass (inc64 seq) evs

-- The number of the last event of a pass.
unfoldable pub after_pass : ℕ → List UpdateEvent → ℕ
after_pass seq [] = seq
after_pass seq (ev ∷ evs) = after_pass (inc64 seq) evs

-- What is sent in a number of passes: one without `loop`, as many as there is time for with it.
unfoldable pub replay_passes : ℕ → ℕ → List UpdateEvent → List UpdateEvent
unfolding replay_pass after_pass
replay_passes zero seq evs = []
replay_passes (suc n) seq evs = replay_pass seq evs ++ replay_passes n (after_pass seq evs) evs
