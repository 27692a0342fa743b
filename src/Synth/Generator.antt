-- ===== src/Synth/Generator.antt =====
-- backend/internal/synth/generator.go, and the scenarios of scenarios.go: the demo's event stream.
-- `none` is a panic: a call of IntN with 0.
use bgpulse.Base.{
  ℕ, suc, zero, ◌+◌, ◌*◌, ◌/◌, ◌%◌, ◌^◌, false, ◌&&◌, Option, none, some, List, [], ◌∷◌, ◌++◌,
  length, take, drop, last_n, leb, ltb, ◌==◌, if◌then◌else◌, inc64,
}
use bgpulse.Bgp.Types.{Asn, announce, withdraw, UpdateEvent}
use bgpulse.Bgp.Net.{Prefix, ip4, invalid}
use bgpulse.Synth.{Rng, Graph, adjacent, draw, element}
use bgpulse.Synth.Paths.{valid_path}
use bgpulse.Synth.Prefixes.{owner_of}

abbrev pub recent_cap : ℕ
recent_cap = 256

abbrev pub min_recent_for_wd : ℕ
min_recent_for_wd = 8

abbrev pub hijack_tries : ℕ
hijack_tries = 8

-- `GenConfig` without the pace of `Events`: 0 stands for a period that is not positive, and the
-- probability is in hundredths.
pub record GenConfig : Type 0 where
  pub leak_every : ℕ
  pub hijack_every : ℕ
  pub withdraw_prob : ℕ

abbrev pub default_gen_config : GenConfig
default_gen_config = record { leak_every = 12; hijack_every = 19; withdraw_prob = 8 }

pub record RecentAnn : Type 0 where
  pub prefix : Prefix
  pub peer_as : Asn

-- `Generator`, less the topology and the configuration.
pub record Generator (S : Type 0) : Type 0 where
  pub rng : S
  pub seq : ℕ
  pub clock : ℕ
  pub recent : List RecentAnn

-- `NewGenerator`; the base time is the epoch.
abbrev pub new_generator : {S : Type 0} → S → Generator S
new_generator s = record { rng = s; seq = 0; clock = 0; recent = [] }

-- `wirePath[0]` and `wirePath[n-1]`; 0 where the path is empty.
abbrev pub peer_of : List Asn → Asn
peer_of [] = 0
peer_of (peer ∷ path) = peer

unfoldable pub origin_of : List Asn → Asn
origin_of [] = 0
origin_of (asn ∷ []) = asn
origin_of (asn ∷ (next ∷ path)) = origin_of (next ∷ path)

-- The event before Next gives it an ID, a number and a time.
unfoldable pub announce_event : Prefix → List Asn → UpdateEvent
unfolding origin_of
announce_event prefix wire_path = record {
  id = record { tag = ""; seq = 0 };
  seq = 0;
  timestamp = 0;
  kind = announce;
  prefix = prefix;
  peer_as = peer_of wire_path;
  as_path = wire_path;
  has_as_set = false;
  next_hop = ip4 (10 ∷ peer_of wire_path / 2 ^ 8 % 2 ^ 8 ∷ peer_of wire_path % 2 ^ 8 ∷ 1 ∷ []);
  communities = record { asn = origin_of wire_path % 2 ^ 16; value = 100 } ∷ [];
  origin_as = origin_of wire_path;
}

abbrev pub withdraw_event : RecentAnn → UpdateEvent
withdraw_event r = record {
  id = record { tag = ""; seq = 0 };
  seq = 0;
  timestamp = 0;
  kind = withdraw;
  prefix = r.prefix;
  peer_as = r.peer_as;
  as_path = [];
  has_as_set = false;
  next_hop = invalid;
  communities = [];
  origin_as = 0;
}

unfoldable pub remember : UpdateEvent → List RecentAnn → List RecentAnn
remember ev recent =
    let longer = recent ++ (record { prefix = ev.prefix; peer_as = ev.peer_as } ∷ []) in
    if ltb recent_cap (length longer) then last_n recent_cap longer else longer

-- A scenario's event with `recent` as it was.
abbrev pub with_recent :
    {S : Type 0}
    → List RecentAnn
    → Option (UpdateEvent × S)
    → Option (UpdateEvent × List RecentAnn × S)
with_recent recent none = none
with_recent recent (some (ev, s)) = some (ev, recent, s)

-- The event with its ID, number and time.
abbrev pub stamped : ℕ → ℕ → UpdateEvent → UpdateEvent
stamped seq clock ev = record ev {
  id = record { tag = "synth"; seq = seq };
  seq = seq;
  timestamp = clock;
}

module _ {S : Type 0} (rng : Rng S) where
  -- The tries for a hijacker that is not the owner.
  unfoldable pub try_hijacker : ℕ → Asn → List Asn → Asn → Asn → S → Asn × S
  try_hijacker zero stub stubs owner hijacker s = (hijacker, s)
  try_hijacker (suc tries) stub stubs owner hijacker s =
      let (other, s') = draw rng stub stubs s in
      let rest = try_hijacker tries stub stubs owner other s' in
      if hijacker == owner then rest else (hijacker, s)

module _ {S : Type 0} (rng : Rng S) (t : Graph) where
  unfoldable pub pick_prefix : Asn → S → Option (Prefix × S)
  pick_prefix origin s = elim (adjacent t.owner_prefixes origin) [
    | [] ↦ none
    | p ∷ ps ↦ some (draw rng p ps s)
  ]

  -- The announcement of one of the origin's prefixes over a path.
  unfoldable pub announce_own : Asn → List Asn → S → Option (UpdateEvent × S)
  unfolding pick_prefix
  announce_own origin path s = elim (pick_prefix origin s) [
    | none ↦ none
    | some (p, s') ↦ some (announce_event p path, s')
  ]

  unfoldable pub make_announce : S → Option (UpdateEvent × S)
  unfolding announce_own
  make_announce s = elim t.originables [
    | [] ↦ none
    | o ∷ os ↦
        let (origin, s1) = draw rng o os s in
        let (path, s2) = valid_path rng t origin s1 in announce_own origin path s2
  ]

  unfoldable pub make_leak : S → Option (UpdateEvent × S)
  unfolding make_announce
  make_leak s = elim t.tier1 [
    | [] ↦ make_announce s
    | origin ∷ rest ↦ elim rest [
      | [] ↦ make_announce s
      | second ∷ _ ↦ elim t.transit [
        | [] ↦ make_announce s
        | customer ∷ _ ↦ announce_own origin (second ∷ customer ∷ origin ∷ []) s
      ]
    ]
  ]

  unfoldable pub hijack_of : Prefix → Asn → List Asn → S → Option (UpdateEvent × S)
  unfolding try_hijacker
  hijack_of victim stub stubs s =
      let owner = owner_of t victim in
      let (hijacker, s1) = try_hijacker rng hijack_tries stub stubs owner owner s in
      let (path, s2) = valid_path rng t hijacker s1 in
      if hijacker == owner then make_announce s1 else some (announce_event victim path, s2)

  unfoldable pub make_hijack_of : List Prefix → List Asn → S → Option (UpdateEvent × S)
  make_hijack_of [] stubs s = make_announce s
  make_hijack_of (p ∷ ps) [] s = make_announce s
  make_hijack_of (p ∷ ps) (stub ∷ stubs) s =
      let (victim, s') = draw rng p ps s in hijack_of victim stub stubs s'

  unfoldable pub make_hijack : S → Option (UpdateEvent × S)
  unfolding make_hijack_of
  make_hijack s = make_hijack_of t.roa_prefixes t.stubs s

  -- The withdrawal of a remembered announcement, which is forgotten.
  unfoldable pub make_withdraw : List RecentAnn → S → Option (UpdateEvent × List RecentAnn × S)
  make_withdraw [] s = none
  make_withdraw (r ∷ rs) s =
      let (i, s') = rng.int_n s (length (r ∷ rs)) in
      some (withdraw_event (element r rs i), take i (r ∷ rs) ++ drop (i + 1) (r ∷ rs), s')

  -- The last two cases of the `switch` of Next.
  unfoldable pub next_normal :
      GenConfig → List RecentAnn → S → Option (UpdateEvent × List RecentAnn × S)
  unfolding make_withdraw
  next_normal cfg recent s =
      let (hit, s') = rng.below s cfg.withdraw_prob in
      if leb min_recent_for_wd (length recent)
      then (if hit then make_withdraw recent s' else with_recent recent (make_announce s'))
      else with_recent recent (make_announce s)

  -- The `switch` of Next.
  unfoldable pub next_event :
      GenConfig → ℕ → List RecentAnn → S → Option (UpdateEvent × List RecentAnn × S)
  unfolding next_normal make_leak make_hijack
  next_event cfg seq recent s =
      if ltb 0 cfg.leak_every && seq % cfg.leak_every == 0
      then with_recent recent (make_leak s)
      else if ltb 0 cfg.hijack_every && seq % cfg.hijack_every == 0
      then with_recent recent (make_hijack s)
      else next_normal cfg recent s

  unfoldable pub next : GenConfig → Generator S → Option (UpdateEvent × Generator S)
  unfolding next_event remember
  next cfg g =
      let seq = inc64 g.seq in
      let (ms, s) = rng.int_n g.rng 160 in
      let clock = g.clock + (40 + ms) * 10 ^ 6 in
      elim (next_event cfg seq g.recent s) [
        | none ↦ none
        | some (ev, recent, s') ↦ some (
          stamped seq clock ev,
          record {
            rng = s';
            seq = seq;
            clock = clock;
            recent = elim ev.kind [
              | announce ↦ remember (stamped seq clock ev) recent
              | withdraw ↦ recent
            ];
          },
        )
      ]
