-- ===== src/Wshub/Tests.antt =====
-- A hub of wshub/hub.go with one client.
use bgpulse.Base.{ℕ, ◌%◌, ◌≡◌, refl, false, [], ◌∷◌, length, if◌then◌else◌, ℕ_discrete}
use bgpulse.Base.Table.{lookup, insert, member}
use bgpulse.Wshub.{Hub, new_hub, client_count, register, deliver, shutdown}
use bgpulse.Wshub.Deliver.{sent, lookup-deliver}
use bgpulse.Wshub.Order.{IsHub}
use bgpulse.Wshub.Reach.{registers, Reach, start, next, Reach-IsHub, client_count-shutdown}

abbrev idle : ℕ → ℕ × ℕ
idle id = (0, 0)

abbrev one_client : Hub ℕ
unfolding register lookup insert
one_client = register new_hub 1

one_client-Reach : Reach one_client
unfolding one_client lookup member
one_client-Reach = next start (registers new_hub 1 refl refl refl)

lookup-deliver_example : lookup ℕ_discrete 1 (deliver idle one_client (1 ∷ []) 9).clients ≡ (
    if member ℕ_discrete 1 (1 ∷ [])
    then sent idle 9 1 (lookup ℕ_discrete 1 one_client.clients)
    else lookup ℕ_discrete 1 one_client.clients)
unfolding member
lookup-deliver_example = lookup-deliver idle 9 one_client (1 ∷ []) 1 (refl, tt)

Reach-IsHub_example : IsHub one_client
Reach-IsHub_example = Reach-IsHub one_client-Reach

one_client_runs : one_client.stopped ≡ false
unfolding one_client register
one_client_runs = refl

client_count-shutdown_example :
    ((shutdown one_client).clients ≡ [])
    × (client_count (shutdown one_client) ≡ length one_client.clients % 4294967296)
client_count-shutdown_example = client_count-shutdown one_client-Reach one_client_runs
