-- ===== src/Rtr/Session/Tests.antt =====
-- Concrete responses for rtr/client.go: the records of two VRPs of AS65001.
use bgpulse.Base.{◌≡◌, refl, arith, true, false, some, [], ◌∷◌, ◌++◌, map}
use bgpulse.Base.Table.{member, add}
use bgpulse.Bgp.Net.{ip4}
use bgpulse.Rpki.{Vrp-discrete, new_builder, build}
use bgpulse.Rtr.Codec.{PrefixPdu, serial_notify, cache_response, end_of_data}
use bgpulse.Rtr.Codec.Encode.{serial_query_bytes}
use bgpulse.Rtr.Session.{
  Client, new_client, to_vrp, apply_changes, received, continues, incremental, resetting, run,
}
use bgpulse.Rtr.Session.Changes.{last_word, member-apply_changes}
use bgpulse.Rtr.Session.Sync.{change_of, records, IsSynced, held_by, run-response, run-notify}

abbrev pdu10 : PrefixPdu
pdu10 = record {
  is_v6 = false;
  announce = true;
  prefix = record { addr = ip4 (10 ∷ 0 ∷ 0 ∷ 0 ∷ []); bits = some 8 };
  max_len = 16;
  asn = 65001;
}

abbrev pdu11 : PrefixPdu
pdu11 = record {
  is_v6 = false;
  announce = true;
  prefix = record { addr = ip4 (11 ∷ 0 ∷ 0 ∷ 0 ∷ []); bits = some 8 };
  max_len = 8;
  asn = 65001;
}

abbrev fresh : Client
unfolding new_client
fresh = new_client (build new_builder)

member-apply_changes_example :
    member Vrp-discrete (to_vrp pdu10) (apply_changes [] (change_of pdu10 ∷ []))
    ≡ last_word (to_vrp pdu10) (member Vrp-discrete (to_vrp pdu10) []) (change_of pdu10 ∷ [])
member-apply_changes_example = member-apply_changes (to_vrp pdu10) [] (change_of pdu10 ∷ [])

run-response_example :
    (c : Client) × (run fresh resetting (
        received (cache_response 7)
        ∷ (records (pdu10 ∷ []) ++ (received (end_of_data 7 1 3600 600 7200) ∷ [])))
      ≡ continues c incremental [])
    × IsSynced c (held_by fresh true) (map change_of (pdu10 ∷ [])) 7 1
unfolding apply_changes add
run-response_example =
    run-response fresh resetting (pdu10 ∷ []) 7 1 3600 600 7200 ((refl, refl, omega arith), tt)

run-notify_example :
    (c : Client) × (run fresh resetting (
        records (pdu10 ∷ [])
        ++ (received (serial_notify 7 2)
            ∷ (records (pdu11 ∷ []) ++ (received (end_of_data 7 1 3600 600 7200) ∷ []))))
      ≡ continues c incremental (serial_query_bytes fresh.session_id fresh.serial))
    × IsSynced c (held_by fresh false) (map change_of (pdu11 ∷ [])) 7 1
unfolding apply_changes add fresh
run-notify_example =
    run-notify fresh resetting (pdu10 ∷ []) (pdu11 ∷ []) 2 7 1 3600 600 7200
      ((refl, refl, omega arith), tt)
