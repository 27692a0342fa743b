-- ===== src/Wshub/Deliver.antt =====
-- A broadcast of wshub/hub.go, client by client.
use bgpulse.Base.{
  ℕ, ◌≡◌, refl, arith, Option, none, some, List, [], ◌∷◌, if◌then◌else◌, ite, ℕ_discrete,
  Option-cases, inl, inr,
}
use bgpulse.Base.Table.{lookup, member, lookup-insert, lookup-delete, IsDistinct}
use bgpulse.Wshub.{Conn, Hub, send_one, send_to_client, deliver}

module _ {A : Type 0} (pumps : ℕ → ℕ × ℕ) (msg : A) where
  -- What a frame makes of the entry of a client.
  abbrev pub sent : ℕ → Option (Conn A) → Option (Conn A)
  sent id none = none
  sent id (some c) = send_one (pumps id).0 (pumps id).1 c msg

  lookup-send_to_client :
      (h : Hub A) (id j : ℕ)
      → lookup ℕ_discrete j (send_to_client pumps h id msg).clients
        ≡ ite
            (ℕ_discrete id j)
            (sent id (lookup ℕ_discrete id h.clients))
            (lookup ℕ_discrete j h.clients)
  unfolding send_to_client
  lookup-send_to_client h id j = elim (Option-cases (lookup ℕ_discrete id h.clients)) [
    | inl e ↦ ground arith
    | inr (c, e) ↦ elim (Option-cases (send_one (pumps id).0 (pumps id).1 c msg)) [
      | inl k ↦ ground (arith, lookup-delete ℕ_discrete id j h.clients)
      | inr (c', k) ↦ ground (arith, lookup-insert ℕ_discrete id j c' h.clients)
    ]
  ]

  -- Whatever the order in which the clients are visited, each once, a broadcast gives every visited
  -- client what the frame makes of it alone, and leaves the others as they are: a slow client that
  -- is disconnected takes nothing from another.
  pub lookup-deliver :
      (h : Hub A) (ids : List ℕ) (j : ℕ)
      → IsDistinct ℕ_discrete ids
      → lookup ℕ_discrete j (deliver pumps h ids msg).clients ≡ (
          if member ℕ_discrete j ids
          then sent j (lookup ℕ_discrete j h.clients)
          else lookup ℕ_discrete j h.clients)
  unfolding deliver member
  lookup-deliver h [] j d = refl
  lookup-deliver h (id ∷ ids) j d = ground (
    arith,
    lookup-deliver (send_to_client pumps h id msg) ids j d.1,
    lookup-send_to_client h id j,
    d.0,
  )
