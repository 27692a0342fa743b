-- ===== src/Wshub.antt =====
-- backend/internal/wshub/hub.go and client.go: the hub that sends frames to the connected clients. A
-- frame is of any type; a client is named by a number that stands for its pointer.
pub mod Deliver
pub mod Clients
pub mod Order
pub mod Reach
mod Tests
use bgpulse.Base.{
  ℕ, zero, suc, ◌+◌, ◌-◌, ◌%◌, ◌^◌, ◌≡◌, Bool, true, false, Option, none, some, List, [], ◌∷◌, ◌++◌,
  length, drop, map, ltb, if◌then◌else◌, ℕ_discrete,
}
use bgpulse.Base.Table.{lookup, insert, delete, member}

abbrev pub client_send_buf : ℕ
client_send_buf = 64

abbrev pub hub_broadcast_buf : ℕ
hub_broadcast_buf = 256

abbrev pub client_drop_threshold : ℕ
client_drop_threshold = 512

-- `count.Add(1)` and `count.Add(-1)` on the bit pattern of an int32.
unfoldable pub inc32 : ℕ → ℕ
inc32 n = (n + 1) % 4294967296

unfoldable pub dec32 : ℕ → ℕ
dec32 n = (n + 4294967295) % 4294967296

-- `Client`: the frames in its send channel, the oldest first, and the counter of dropped ones.
pub record Conn (A : Type 0) : Type 0 where
  pub queue : List A
  pub dropped : ℕ

-- `Hub`. `backlog` is what waits in the broadcast channel; `closed` names the clients whose send
-- channel has been closed; `stopped` says that `Run` has returned.
pub record Hub (A : Type 0) : Type 0 where
  pub clients : List (ℕ × Conn A)
  pub count : ℕ
  pub backlog : List A
  pub closed : List ℕ
  pub stopped : Bool

module _ {A : Type 0} where
  abbrev pub new_hub : Hub A
  new_hub = record { clients = []; count = 0; backlog = []; closed = []; stopped = false }

  abbrev pub new_conn : Conn A
  new_conn = record { queue = []; dropped = 0 }

  -- `ClientCount`
  unfoldable pub client_count : Hub A → ℕ
  client_count h = h.count

  -- The case of `Run` for a new client.
  unfoldable pub register : Hub A → ℕ → Hub A
  register h id = record h {
    clients = insert ℕ_discrete id new_conn h.clients;
    count = inc32 h.count;
  }

  -- `delete(h.clients, c)`, `close(c.send)` and `h.count.Add(-1)`. The frames that the write pump may
  -- still take from the closed channel are no longer part of the state.
  abbrev pub disconnect : Hub A → ℕ → Hub A
  disconnect h id = record h {
    clients = delete ℕ_discrete id h.clients;
    closed = id ∷ h.closed;
    count = dec32 h.count;
  }

  -- The case of `Run` for a client that leaves.
  unfoldable pub unregister : Hub A → ℕ → Hub A
  unregister h id = elim (lookup ℕ_discrete id h.clients) [ none ↦ h | some c ↦ disconnect h id ]

  -- The three `select`s of `sendToClient` on a full queue. Between them the client's write pump may
  -- take frames: `k` before the second `select` and `j` before the third.
  unfoldable pub enqueue : ℕ → ℕ → List A → A → List A
  enqueue k j queue msg =
      let rest = drop j (drop 1 (drop k queue)) in
      if ltb (length rest) client_send_buf then rest ++ (msg ∷ []) else rest

  -- What `sendToClient` makes of a client; `none` where it disconnects it.
  unfoldable pub send_one : ℕ → ℕ → Conn A → A → Option (Conn A)
  unfolding enqueue
  send_one k j c msg =
      if ltb (length c.queue) client_send_buf
      then some (record c { queue = c.queue ++ (msg ∷ []) })
      else if ltb client_drop_threshold (c.dropped + 1)
      then none
      else some (record c { queue = enqueue k j c.queue msg; dropped = c.dropped + 1 })

  unfoldable pub send_to_client : (ℕ → ℕ × ℕ) → Hub A → ℕ → A → Hub A
  unfolding send_one
  send_to_client pumps h id msg = elim (lookup ℕ_discrete id h.clients) [
    | none ↦ h
    | some c ↦ elim (send_one (pumps id).0 (pumps id).1 c msg) [
      | none ↦ disconnect h id
      | some c' ↦ record h { clients = insert ℕ_discrete id c' h.clients }
    ]
  ]

  -- The loop of `Run` over the clients, in some order of the map.
  unfoldable pub deliver : (ℕ → ℕ × ℕ) → Hub A → List ℕ → A → Hub A
  unfolding send_to_client
  deliver pumps h [] msg = h
  deliver pumps h (id ∷ ids) msg = deliver pumps (send_to_client pumps h id msg) ids msg

  -- `Broadcast` drops the frame when the backlog is full.
  unfoldable pub broadcast : Hub A → A → Hub A
  broadcast h msg =
      if ltb (length h.backlog) hub_broadcast_buf
      then record h { backlog = h.backlog ++ (msg ∷ []) }
      else h

  -- The write pump of a client takes its oldest frame.
  unfoldable pub pump : Hub A → ℕ → Hub A
  pump h id = elim (lookup ℕ_discrete id h.clients) [
    | none ↦ h
    | some c ↦ record h {
      clients = insert ℕ_discrete id (record c { queue = drop 1 c.queue }) h.clients;
    }
  ]

  -- The case of `Run` for the end of its context: every client is closed, and the loop returns.
  unfoldable pub shutdown : Hub A → Hub A
  shutdown h = record h {
    clients = [];
    closed = map (λ e. e.0) h.clients ++ h.closed;
    stopped = true;
  }
