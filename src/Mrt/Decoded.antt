-- ===== src/Mrt/Decoded.antt =====
-- The events that mrt/parser.go and mrt/reader.go make of the records of a dump.
use mathlib.Core.List.{map-append}
use bgpulse.Base.{
  ℕ, ◌*◌, ◌^◌, ◌≡◌, refl, ap, sym, ◌∙◌, false, Option, none, some, List, [], ◌∷◌, ◌++◌, map,
  Option-cases, ◌⊎◌, inl, inr, All, All-append,
}
use bgpulse.Bgp.Types.{Asn, UpdateKind, announce, withdraw, UpdateEvent, Community}
use bgpulse.Bgp.Net.{Addr, Prefix, masked}
use bgpulse.Mrt.{
  Segment, Attribute, as_path_attr, next_hop_attr, communities_attr, mp_reach, mp_unreach,
  other_attr, BgpUpdate, MrtMessage, bgp4mp_update, bgp4mp_other, other_body, Body, extract_as_path,
  extract_next_hop, extract_communities, base_event, announce_of, withdraw_of, nlri_prefix,
  events_for, mp_events, update_events, record_to_events, decode_records, decode_stream,
}
use bgpulse.Mrt.Events.{
  segments_of, IsParsed, masked-masked, IsWithdrawal, IsAnnouncement, withdraw_of-IsWithdrawal,
  announce_of-IsAnnouncement,
}

-- An event of an UPDATE that came from the peer at the time, whose AS_PATH has the segments.
pub record IsDecoded (seconds : ℕ) (peer : Asn) (segs : List Segment) (ev : UpdateEvent)
    : Type 0 where
  pub peer_as : ev.peer_as ≡ peer
  pub time : ev.timestamp ≡ seconds * 10 ^ 9
  pub prefix : masked ev.prefix ≡ ev.prefix
  pub is_kind : IsWithdrawal ev ⊎ IsAnnouncement segs ev

-- NLRIs with what an UPDATE does to them.
abbrev pub each : {N : Type 0} → UpdateKind → List N → List (UpdateKind × N)
each k ns = map (λ n. (k, n)) ns

-- The NLRIs of the multiprotocol attributes, and all that an UPDATE names, in its order.
abbrev pub mp_named : {N : Type 0} → List (Attribute N) → List (UpdateKind × N)
mp_named [] = []
mp_named (mp_reach nh ns ∷ attrs) = each announce ns ++ mp_named attrs
mp_named (mp_unreach ns ∷ attrs) = each withdraw ns ++ mp_named attrs
mp_named (_ ∷ attrs) = mp_named attrs

abbrev pub named : {N : Type 0} → BgpUpdate N → List (UpdateKind × N)
named upd =
    each withdraw upd.withdrawn_routes ++ (each announce upd.nlri ++ mp_named upd.path_attributes)

-- What an event does, and to which prefix.
abbrev pub change : UpdateEvent → UpdateKind × Prefix
change ev = (ev.kind, ev.prefix)

module _ {N : Type 0} (parse : N → Option Prefix) where
  -- The masked prefixes of those that parse.
  abbrev pub parsed : List (UpdateKind × N) → List (UpdateKind × Prefix)
  parsed [] = []
  parsed ((k, n) ∷ ns) = elim (parse n) [ none ↦ parsed ns | some p ↦ (k, masked p) ∷ parsed ns ]

  parsed-append : (ns ms : List (UpdateKind × N)) → parsed (ns ++ ms) ≡ parsed ns ++ parsed ms
  parsed-append [] ms = refl
  parsed-append ((k, n) ∷ ns) ms = elim (Option-cases (parse n)) [
    | inl e ↦ rw (e, parsed) (parsed-append ns ms)
    | inr (p, e) ↦ rw (e, parsed) (ap (λ l. (k, masked p) ∷ l) (parsed-append ns ms))
  ]

  -- The events are decoded, one for each of the NLRIs that parses, in their order, of its kind.
  abbrev pub Reports : ℕ → Asn → List Segment → List (UpdateKind × N) → List UpdateEvent → Type 0
  Reports seconds peer segs ns evs =
      All (IsDecoded seconds peer segs) evs × (map change evs ≡ parsed ns)

  -- What a record of the time is to give, and what a list of framed records is to give.
  abbrev pub IsReport : ℕ → Body N → List UpdateEvent → Type 0
  IsReport seconds (bgp4mp_update peer upd) evs =
      Reports seconds peer (segments_of upd.path_attributes) (named upd) evs
  IsReport seconds (bgp4mp_other peer) evs = evs ≡ []
  IsReport seconds other_body evs = evs ≡ []

  abbrev pub AreReported : List (Option (MrtMessage N)) → List UpdateEvent → Type 0
  AreReported [] evs = evs ≡ []
  AreReported (none ∷ rest) evs = AreReported rest evs
  AreReported (some msg ∷ rest) evs =
      (now : List UpdateEvent) × (later : List UpdateEvent) × (evs ≡ now ++ later)
      × IsReport msg.timestamp msg.body now
      × AreReported rest later

  module _ (seconds : ℕ) (peer : Asn) (segs : List Segment) where
    Reports-append :
        (ns ms : List (UpdateKind × N)) (evs fs : List UpdateEvent)
        → Reports seconds peer segs ns evs
        → Reports seconds peer segs ms fs
        → Reports seconds peer segs (ns ++ ms) (evs ++ fs)
    Reports-append ns ms evs fs r q = (
      All-append (IsDecoded seconds peer segs) evs fs r.0 q.0,
      map-append change evs fs
          ∙ (ap (λ l. l ++ map change fs) r.1
              ∙ (ap (λ l. parsed ns ++ l) q.1 ∙ sym (parsed-append ns ms))),
    )

    events_for-Reports :
        (k : UpdateKind) (f : Prefix → UpdateEvent) (ns : List N)
        → ((n : N) (p : Prefix) → parse n ≡ some p → IsParsed p)
        → ((p : Prefix) → masked p ≡ p → IsDecoded seconds peer segs (f p))
        → ((p : Prefix) → change (f p) ≡ (k, p))
        → Reports seconds peer segs (each k ns) (events_for parse f ns)
    unfolding events_for nlri_prefix
    events_for-Reports k f [] ok d e = (tt, refl)
    events_for-Reports k f (n ∷ ns) ok d e =
        let rest = events_for-Reports k f ns ok d e in
        elim (Option-cases (parse n)) [
          | inl q ↦ rw (q, events_for, nlri_prefix, parsed) rest
          | inr (p, q) ↦
              rw (q, events_for, nlri_prefix, parsed)
                (
                  (d (masked p) (masked-masked p (ok n p q)), rest.0),
                  (ap (λ a. a ∷ map change (events_for parse f ns)) (e (masked p))
                      ∙ ap (λ l. (k, masked p) ∷ l) rest.1),
                )
        ]

  module _ (ok : (n : N) (p : Prefix) → parse n ≡ some p → IsParsed p) (seconds : ℕ) (peer : Asn)
      (attrs : List (Attribute N)) where
    abbrev ReportsOf : List (UpdateKind × N) → List UpdateEvent → Type 0
    ReportsOf = Reports seconds peer (segments_of attrs)

    withdrawals-Reports :
        (ns : List N)
        → ReportsOf (each withdraw ns) (events_for parse (withdraw_of (base_event seconds peer)) ns)
    withdrawals-Reports ns =
        events_for-Reports seconds peer (segments_of attrs) withdraw
          (withdraw_of (base_event seconds peer)) ns ok
          (λ p m. record {
            peer_as = refl;
            time = refl;
            prefix = m;
            is_kind = inl (withdraw_of-IsWithdrawal seconds peer p);
          })
          (λ p. refl)

    announcements-Reports :
        (nh : Addr) (comms : List Community) (ns : List N)
        → ReportsOf (each announce ns) (
            events_for parse
              (λ p. announce_of (base_event seconds peer) p (extract_as_path attrs) nh comms)
              ns)
    announcements-Reports nh comms ns =
        let base = base_event seconds peer in
        events_for-Reports seconds peer (segments_of attrs) announce
          (λ p. announce_of base p (extract_as_path attrs) nh comms) ns ok
          (λ p m. record {
            peer_as = refl;
            time = refl;
            prefix = m;
            is_kind = inr (announce_of-IsAnnouncement base p nh comms attrs);
          })
          (λ p. refl)

    mp_events-Reports :
        (comms : List Community) (rest : List (Attribute N))
        → ReportsOf
            (mp_named rest)
            (mp_events parse (base_event seconds peer) (extract_as_path attrs) comms rest)
    unfolding mp_events
    mp_events-Reports comms [] = (tt, refl)
    mp_events-Reports comms (mp_reach nh ns ∷ rest) =
        Reports-append seconds peer (segments_of attrs) (each announce ns) (mp_named rest)
          (events_for parse
            (λ p. announce_of (base_event seconds peer) p (extract_as_path attrs) nh comms) ns)
          (mp_events parse (base_event seconds peer) (extract_as_path attrs) comms rest)
          (announcements-Reports nh comms ns) (mp_events-Reports comms rest)
    mp_events-Reports comms (mp_unreach ns ∷ rest) =
        Reports-append seconds peer (segments_of attrs) (each withdraw ns) (mp_named rest)
          (events_for parse (withdraw_of (base_event seconds peer)) ns)
          (mp_events parse (base_event seconds peer) (extract_as_path attrs) comms rest)
          (withdrawals-Reports ns) (mp_events-Reports comms rest)
    mp_events-Reports comms (as_path_attr s ∷ rest) = mp_events-Reports comms rest
    mp_events-Reports comms (next_hop_attr nh ∷ rest) = mp_events-Reports comms rest
    mp_events-Reports comms (communities_attr cs ∷ rest) = mp_events-Reports comms rest
    mp_events-Reports comms (other_attr ∷ rest) = mp_events-Reports comms rest

  module _ (ok : (n : N) (p : Prefix) → parse n ≡ some p → IsParsed p) where
    pub update_events-Reports :
        (seconds : ℕ) (peer : Asn) (upd : BgpUpdate N)
        → Reports seconds peer
            (segments_of upd.path_attributes)
            (named upd)
            (update_events parse (base_event seconds peer) upd)
    unfolding update_events
    update_events-Reports seconds peer upd =
        let attrs = upd.path_attributes in
        let base = base_event seconds peer in
        let comms = extract_communities attrs in
        let announced =
          events_for parse
            (λ p. announce_of base p (extract_as_path attrs) (extract_next_hop attrs) comms)
            upd.nlri in
        let others = mp_events parse base (extract_as_path attrs) comms attrs in
        Reports-append seconds peer (segments_of attrs) (each withdraw upd.withdrawn_routes)
          (each announce upd.nlri ++ mp_named attrs)
          (events_for parse (withdraw_of base) upd.withdrawn_routes) (announced ++ others)
          (withdrawals-Reports ok seconds peer attrs upd.withdrawn_routes)
          (Reports-append seconds peer (segments_of attrs) (each announce upd.nlri) (mp_named attrs)
            announced others
            (announcements-Reports ok seconds peer attrs (extract_next_hop attrs) comms upd.nlri)
            (mp_events-Reports ok seconds peer attrs comms attrs))

    record_to_events-IsReport :
        (seconds : ℕ) (body : Body N)
        → IsReport seconds body
            (record_to_events parse (record { timestamp = seconds; body = body }))
    unfolding record_to_events
    record_to_events-IsReport seconds (bgp4mp_update peer upd) =
        update_events-Reports seconds peer upd
    record_to_events-IsReport seconds (bgp4mp_other peer) = refl
    record_to_events-IsReport seconds other_body = refl

    decode_records-AreReported :
        (records : List (Option (MrtMessage N)))
        → AreReported records (decode_records parse records)
    unfolding decode_records
    decode_records-AreReported [] = refl
    decode_records-AreReported (none ∷ rest) = decode_records-AreReported rest
    decode_records-AreReported (some msg ∷ rest) = (
      record_to_events parse msg,
      decode_records parse rest,
      refl,
      record_to_events-IsReport msg.timestamp msg.body,
      decode_records-AreReported rest,
    )

    -- Where a text that parses as a prefix has an address with a length that lies in it,
    -- DecodeStream, unless its scanner fails, returns, record after record, what each decodable
    -- record is to give: an UPDATE one event for each NLRI that parses, in the order withdrawn
    -- routes, NLRI, multiprotocol attributes, with its masked prefix, its peer and its time: a
    -- withdrawal for a withdrawn route and for an NLRI of MP_UNREACH, an announcement for the NLRI
    -- of the UPDATE and of MP_REACH. A withdrawal says nothing of a path; an announcement has the
    -- hops of the segments of the first AS_PATH, an AS_SET as its first member, and its origin is
    -- the last AS of the path, or 0 for an empty path or one that ends in an AS_SET.
    pub decode_stream-AreReported :
        (records : List (Option (MrtMessage N)))
        → (evs : List UpdateEvent) × (decode_stream parse false records ≡ some evs)
          × AreReported records evs
    unfolding decode_stream
    decode_stream-AreReported records =
        (decode_records parse records, refl, decode_records-AreReported records)
