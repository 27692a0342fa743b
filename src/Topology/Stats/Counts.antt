-- ===== src/Topology/Stats/Counts.antt =====
-- topology/stats.go against counts over the events that were recorded.
use bgpulse.Base.{
  ℕ, ◌+◌, ◌%◌, ◌^◌, ◌≡◌, arith, List, [], ◌∷◌, Bool, true, false, if◌then◌else◌, ◌&&◌,
}
use bgpulse.Bgp.Types.{announce, withdraw, VfStatus, RpkiStatus, ClassifiedEvent}
use bgpulse.Topology.Stats.{Floats, Stats, new_stats, record_event}

-- The number of events that pass a test.
unfoldable pub tally : (ClassifiedEvent → Bool) → List ClassifiedEvent → ℕ
tally f [] = 0
tally f (ev ∷ evs) = (if f ev then 1 else 0) + tally f evs

abbrev pub is_announce : ClassifiedEvent → Bool
is_announce ev = elim ev.event.kind [ announce ↦ true | withdraw ↦ false ]

abbrev pub is_withdraw : ClassifiedEvent → Bool
is_withdraw ev = elim ev.event.kind [ announce ↦ false | withdraw ↦ true ]

abbrev pub is_leak : ClassifiedEvent → Bool
is_leak ev = elim ev.vf_status [ VfStatus.leak ↦ true | _ ↦ false ]

abbrev pub is_hijack : ClassifiedEvent → Bool
is_hijack ev = elim ev.vf_status [ VfStatus.hijack ↦ true | _ ↦ false ]

abbrev pub has_rpki : RpkiStatus → RpkiStatus → Bool
has_rpki RpkiStatus.valid RpkiStatus.valid = true
has_rpki RpkiStatus.invalid RpkiStatus.invalid = true
has_rpki RpkiStatus.not_found RpkiStatus.not_found = true
has_rpki a b = false

abbrev pub is_rpki : RpkiStatus → ClassifiedEvent → Bool
is_rpki status ev = is_announce ev && has_rpki status ev.rpki_status

-- The counters at `s` are ahead of those at `s0` by the counts of the events, modulo 2^64.
pub record Counted (fl : Floats) (s0 s : Stats fl) (evs : List ClassifiedEvent) : Type 0 where
  pub total : s.total_events % 2 ^ 64 ≡ (s0.total_events + tally (λ _. true) evs) % 2 ^ 64
  pub announced : s.announces % 2 ^ 64 ≡ (s0.announces + tally is_announce evs) % 2 ^ 64
  pub withdrawn : s.withdraws % 2 ^ 64 ≡ (s0.withdraws + tally is_withdraw evs) % 2 ^ 64
  pub leaked : s.leaks % 2 ^ 64 ≡ (s0.leaks + tally is_leak evs) % 2 ^ 64
  pub hijacked : s.hijacks % 2 ^ 64 ≡ (s0.hijacks + tally is_hijack evs) % 2 ^ 64
  pub valid :
      s.rpki_valid % 2 ^ 64 ≡ (s0.rpki_valid + tally (is_rpki RpkiStatus.valid) evs) % 2 ^ 64
  pub invalid :
      s.rpki_invalid % 2 ^ 64 ≡ (s0.rpki_invalid + tally (is_rpki RpkiStatus.invalid) evs) % 2 ^ 64
  pub unfound :
      s.rpki_not_found % 2 ^ 64
      ≡ (s0.rpki_not_found + tally (is_rpki RpkiStatus.not_found) evs) % 2 ^ 64
  pub ticked : s.tick_events % 2 ^ 64 ≡ (s0.tick_events + tally (λ _. true) evs) % 2 ^ 64

module _ (fl : Floats) where
  unfoldable pub record_all : Stats fl → List ClassifiedEvent → Stats fl
  record_all s [] = s
  record_all s (ev ∷ evs) = record_all (record_event fl s ev) evs

  record_event-Counted :
      (s : Stats fl) (ev : ClassifiedEvent) → Counted fl s (record_event fl s ev) (ev ∷ [])
  unfolding record_event tally
  record_event-Counted s ev = ground arith

  record_all-from :
      (s : Stats fl) (evs : List ClassifiedEvent) → Counted fl s (record_all s evs) evs
  unfolding record_all tally
  record_all-from s [] = ground arith
  record_all-from s (ev ∷ evs) =
      let one = record_event-Counted s ev in
      let rest = record_all-from (record_event fl s ev) evs in
      record {
        total = omega (arith, one.total, rest.total);
        announced = omega (arith, one.announced, rest.announced);
        withdrawn = omega (arith, one.withdrawn, rest.withdrawn);
        leaked = omega (arith, one.leaked, rest.leaked);
        hijacked = omega (arith, one.hijacked, rest.hijacked);
        valid = omega (arith, one.valid, rest.valid);
        invalid = omega (arith, one.invalid, rest.invalid);
        unfound = omega (arith, one.unfound, rest.unfound);
        ticked = omega (arith, one.ticked, rest.ticked);
      }

  -- After any events, each counter is the number of the events that it counts, modulo 2^64.
  pub record_all-Counted :
      (evs : List ClassifiedEvent) → Counted fl (new_stats fl) (record_all (new_stats fl) evs) evs
  record_all-Counted evs = record_all-from (new_stats fl) evs
