-- ===== src/Wshub/Reach.antt =====
-- The states of the hub of wshub/hub.go that its goroutine and its clients can lead to.
use bgpulse.Base.{ℕ, ◌%◌, ◌≤◌, ◌≡◌, refl, arith, false, none, List, [], ◌∷◌, length, ℕ_discrete}
use bgpulse.Base.Table.{lookup, member}
use mathlib.Core.Path.{subst}
use bgpulse.Wshub.{
  Hub, new_hub, client_count, register, unregister, deliver, broadcast, pump, shutdown,
}
use bgpulse.Wshub.Order.{
  IsHub, new_hub-IsHub, register-IsHub, unregister-IsHub, deliver-IsHub, pump-IsHub,
  broadcast-IsHub, shutdown-IsHub,
}

-- What can happen to a hub: the rounds of `Run` while it has not returned, and the calls and write
-- pumps around it. A new client is one that no round has seen.
pub data Step {A : Type 0} : Hub A → Hub A → Type 0 where
  registers :
      (h : Hub A) (id : ℕ)
      → h.stopped ≡ false
      → lookup ℕ_discrete id h.clients ≡ none
      → member ℕ_discrete id h.closed ≡ false
      → Step h (register h id)
  unregisters : (h : Hub A) (id : ℕ) → h.stopped ≡ false → Step h (unregister h id)
  delivers :
      (h : Hub A) (pumps : ℕ → ℕ × ℕ) (ids : List ℕ) (msg : A) (rest : List A)
      → h.stopped ≡ false
      → h.backlog ≡ msg ∷ rest
      → Step h (deliver pumps (record h { backlog = rest }) ids msg)
  broadcasts : (h : Hub A) (msg : A) → Step h (broadcast h msg)
  pumps_one : (h : Hub A) (id : ℕ) → Step h (pump h id)
  stops : (h : Hub A) → h.stopped ≡ false → Step h (shutdown h)

pub data Reach {A : Type 0} : Hub A → Type 0 where
  start : Reach new_hub
  next : {h h' : Hub A} → Reach h → Step h h' → Reach h'

module _ {A : Type 0} where
  -- Taking a frame from the backlog.
  taken-IsHub :
      (h : Hub A) (msg : A) (rest : List A)
      → h.backlog ≡ msg ∷ rest
      → IsHub h
      → IsHub (record h { backlog = rest })
  taken-IsHub h msg rest e v = record {
    distinct = v.distinct;
    counted = v.counted;
    bounded = v.bounded;
    open_channel = v.open_channel;
    closed_once = v.closed_once;
    backlog =
        (let q : length (msg ∷ rest) ≤ 256 = subst (λ l. length l ≤ 256) e v.backlog in
          (let r : length rest ≤ 256 = omega arith in r));
  }

  Step-IsHub : {h h' : Hub A} → Step h h' → IsHub h → IsHub h'
  Step-IsHub (registers h id s e fresh) v = register-IsHub h id v e fresh
  Step-IsHub (unregisters h id s) v = unregister-IsHub h id v
  Step-IsHub (delivers h pumps ids msg rest s e) v =
      deliver-IsHub pumps (record h { backlog = rest }) ids msg (taken-IsHub h msg rest e v)
  Step-IsHub (broadcasts h msg) v = broadcast-IsHub h msg v
  Step-IsHub (pumps_one h id) v = pump-IsHub h id v
  Step-IsHub (stops h s) v = shutdown-IsHub h v

  -- Every state that the hub can get into is in order: its clients are distinct, the count is their
  -- number modulo 2^32 until the hub stops, a client has at most 64 queued frames and 512 lost
  -- ones, a client of the hub has an open channel, no channel is closed twice, and the backlog has
  -- at most 256 frames.
  pub Reach-IsHub : {h : Hub A} → Reach h → IsHub h
  Reach-IsHub start = new_hub-IsHub
  Reach-IsHub (next r s) = Step-IsHub s (Reach-IsHub r)

  -- When Run of a reachable hub returns at the end of its context, it has no clients left, but
  -- ClientCount goes on to report the number of the clients that it had, modulo 2^32.
  pub client_count-shutdown :
      {h : Hub A}
      → Reach h
      → h.stopped ≡ false
      → ((shutdown h).clients ≡ []) × (client_count (shutdown h) ≡ length h.clients % 4294967296)
  unfolding shutdown client_count
  client_count-shutdown r s = (refl, (Reach-IsHub r).counted s)
