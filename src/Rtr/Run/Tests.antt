-- ===== src/Rtr/Run/Tests.antt =====
-- A client of rtr/client.go whose first two connections fail.
use bgpulse.Base.{◌≡◌, refl, arith, true, false, some, [], ◌∷◌, ◌++◌, map}
use bgpulse.Bgp.Net.{ip4}
use bgpulse.Rpki.{new_builder, build}
use bgpulse.Rpki.Spec.{new_builder-IsIndex}
use bgpulse.Rtr.Codec.{PrefixPdu, cache_response, prefix_pdu, error_report, closed}
use bgpulse.Rtr.Session.{
  Client, new_client, received, read_failed, incremental, Attempt, unreachable, connected,
}
use bgpulse.Rtr.Session.Safety.{IsSound}
use bgpulse.Rtr.Session.Sync.{change_of, IsSynced}
use bgpulse.Rtr.Run.{Round, serving, run_client}
use bgpulse.Rtr.Run.Breaks.{some_fatal, some_last}
use bgpulse.Rtr.Run.Lasting.{Lasts, run_client-Lasts}
use bgpulse.Rtr.Run.Recovers.{taken, response, one_each, run_client-Recovers}

abbrev pdu10 : PrefixPdu
pdu10 = record {
  is_v6 = false;
  announce = true;
  prefix = record { addr = ip4 (10 ∷ 0 ∷ 0 ∷ 0 ∷ []); bits = some 8 };
  max_len = 16;
  asn = 65001;
}

abbrev fresh : Client
unfolding new_client
fresh = new_client (build new_builder)

fresh-IsSound : IsSound fresh
unfolding fresh
fresh-IsSound = record {
  prefixes = tt;
  deadline = omega arith;
  builder = new_builder;
  built = refl;
  index = new_builder-IsIndex;
}

-- A round in a context that goes on.
abbrev round_of : Attempt → Round
round_of attempt = record {
  cancelled_before = false;
  attempt = attempt;
  cancelled_during = false;
  cancelled_waiting = false;
}

abbrev broken : Attempt
broken = connected true (
    map taken
      (received (cache_response 7) ∷ (received (prefix_pdu pdu10) ∷ (read_failed closed ∷ []))))

-- The report of an unsupported version.
abbrev rejected : Attempt
rejected = connected true (map taken (received (error_report 4 []) ∷ []))

run_client-Lasts_example :
    Lasts 0
      (round_of unreachable ∷ (round_of rejected ∷ []))
      (run_client fresh (round_of unreachable ∷ (round_of rejected ∷ [])))
run_client-Lasts_example =
    run_client-Lasts fresh (round_of unreachable ∷ (round_of rejected ∷ [])) fresh-IsSound
      (tt, ((tt, tt), tt))

abbrev answered : Round
answered = round_of (connected true (map taken (response (pdu10 ∷ []) 8 1 3600 600 7200)))

run_client-Recovers_example :
    (c : Client) × (run_client fresh
        ((round_of unreachable ∷ (round_of broken ∷ [])) ++ (answered ∷ []))
      ≡ (one_each 0 (round_of unreachable ∷ (round_of broken ∷ [])), serving c incremental))
    × IsSynced c (λ v. false) (map change_of (pdu10 ∷ [])) 8 1
unfolding some_fatal some_last
run_client-Recovers_example =
    run_client-Recovers fresh (round_of unreachable ∷ (round_of broken ∷ [])) answered (pdu10 ∷ [])
      8 1 3600 600 7200 fresh-IsSound
      (
        record {
          before = refl;
          during = refl;
          waiting = refl;
          received = tt;
          broken = refl;
          no_report = refl;
        },
        (
          record {
            before = refl;
            during = refl;
            waiting = refl;
            received = (tt, ((refl, refl, omega arith), (tt, tt)));
            broken = refl;
            no_report = refl;
          },
          tt,
        ),
      )
      ((refl, refl, omega arith), tt) (record { before = refl; attempt = refl })

-- The waits before the third connection are 1 and 2 seconds.
waits_of_two : one_each 0 (round_of unreachable ∷ (round_of broken ∷ [])) ≡ 1 ∷ 2 ∷ []
unfolding one_each
waits_of_two = refl
