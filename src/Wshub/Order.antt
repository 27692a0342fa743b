-- ===== src/Wshub/Order.antt =====
-- The order that every operation of wshub/hub.go keeps.
use bgpulse.Base.{
  is_some, ℕ, ◌+◌, ◌%◌, ◌≤◌, ◌≡◌, ◌≢◌, refl, sym, ap, ◌∙◌, arith, true, false, none, some, List, [],
  ◌∷◌, ◌++◌, length, drop, ltb, if◌then◌else◌, ℕ_discrete, Option-cases, inl, inr, Bool-cases,
  length-append, length-drop,
}
use bgpulse.Base.Table.{
  lookup, insert, delete, member, lookup-insert, lookup-delete, member-add, member-remove,
  IsDistinct, add-IsDistinct, remove-IsDistinct,
}
use mathlib.Core.Path.{subst}
use bgpulse.Wshub.{
  Conn, Hub, new_hub, new_conn, inc32, dec32, register, unregister, disconnect, enqueue, send_one,
  send_to_client, deliver, broadcast, pump, shutdown,
}
use bgpulse.Wshub.Clients.{
  keys, member-keys, keys-insert, keys-delete, length-keys, length-add, length-remove,
  append-IsDistinct,
}

-- A client's channel holds at most 64 frames, and it has lost at most 512.
pub record IsBounded {A : Type 0} (c : Conn A) : Type 0 where
  pub queued : length c.queue ≤ 64
  pub lost : c.dropped ≤ 512

-- The hub in order: the count is that of the clients until it stops, the buffers keep their bounds, a
-- client of the hub has an open channel, and no channel is closed twice.
pub record IsHub {A : Type 0} (h : Hub A) : Type 0 where
  pub distinct : IsDistinct ℕ_discrete (keys h.clients)
  pub counted : h.stopped ≡ false → h.count ≡ length h.clients % 4294967296
  pub bounded : (id : ℕ) (c : Conn A) → lookup ℕ_discrete id h.clients ≡ some c → IsBounded c
  pub open_channel :
      (id : ℕ)
      → member ℕ_discrete id (keys h.clients) ≡ true
      → member ℕ_discrete id h.closed ≡ false
  pub closed_once : IsDistinct ℕ_discrete h.closed
  pub backlog : length h.backlog ≤ 256

module _ {A : Type 0} where
  pub new_hub-IsHub : IsHub (new_hub {A = A})
  unfolding lookup member
  new_hub-IsHub = record {
    distinct = tt;
    counted = λ e. refl;
    bounded = λ id c e. cc;
    open_channel = λ id e. cc;
    closed_once = tt;
    backlog = omega arith;
  }

  length-insert :
      (m : List (ℕ × Conn A)) (id : ℕ) (c : Conn A)
      → length (insert ℕ_discrete id c m)
        ≡ (if is_some (lookup ℕ_discrete id m) then length m else length m + 1)
  length-insert m id c =
      sym (length-keys (insert ℕ_discrete id c m))
      ∙ (ap length (keys-insert id c m)
          ∙ ground (arith, length-add id (keys m), member-keys id m, length-keys m))

  length-delete :
      (m : List (ℕ × Conn A)) (id : ℕ)
      → IsDistinct ℕ_discrete (keys m)
      → is_some (lookup ℕ_discrete id m) ≡ true
      → length (delete ℕ_discrete id m) + 1 ≡ length m
  length-delete m id d e =
      ap (λ n. n + 1) (sym (length-keys (delete ℕ_discrete id m)) ∙ ap length (keys-delete id m))
      ∙ (length-remove id (keys m) d (member-keys id m ∙ e) ∙ length-keys m)

  -- A client that is there is changed.
  put-IsHub :
      (h : Hub A) (id : ℕ) (c c' : Conn A)
      → IsHub h
      → lookup ℕ_discrete id h.clients ≡ some c
      → IsBounded c'
      → IsHub (record h { clients = insert ℕ_discrete id c' h.clients })
  put-IsHub h id c c' v e b = record {
    distinct =
        subst (IsDistinct ℕ_discrete) (sym (keys-insert id c' h.clients))
          (add-IsDistinct ℕ_discrete id (keys h.clients) v.distinct);
    counted = λ s. ground (arith, v.counted s, length-insert h.clients id c');
    bounded = λ j x k. elim (ℕ_discrete id j) [
      | yes p ↦
          subst IsBounded
            (let q : c' ≡ x = ground (arith, lookup-insert ℕ_discrete id j c' h.clients) in q) b
      | no n ↦ v.bounded j x (ground (arith, lookup-insert ℕ_discrete id j c' h.clients))
    ];
    open_channel = λ j k. v.open_channel j (
        ground (
          arith,
          ap (member ℕ_discrete j) (keys-insert id c' h.clients),
          member-add ℕ_discrete id j (keys h.clients),
          member-keys id h.clients,
        ));
    closed_once = v.closed_once;
    backlog = v.backlog;
  }

  disconnect-IsHub :
      (h : Hub A) (id : ℕ) (c : Conn A)
      → IsHub h
      → lookup ℕ_discrete id h.clients ≡ some c
      → IsHub (disconnect h id)
  unfolding dec32 member
  disconnect-IsHub h id c v e = record {
    distinct =
        subst (IsDistinct ℕ_discrete) (sym (keys-delete id h.clients))
          (remove-IsDistinct ℕ_discrete id (keys h.clients) v.distinct);
    counted = λ s. omega (arith, v.counted s, length-delete h.clients id v.distinct (ground arith));
    bounded = λ j x k. v.bounded j x (ground (arith, lookup-delete ℕ_discrete id j h.clients));
    open_channel = λ j k.
        let both : (j ≢ id) × (member ℕ_discrete j (keys h.clients) ≡ true) = ground (
          arith,
          ap (member ℕ_discrete j) (keys-delete id h.clients),
          member-remove ℕ_discrete id j (keys h.clients),
        ) in
        ground (arith, both.0, v.open_channel j both.1);
    closed_once = (v.open_channel id (ground (arith, member-keys id h.clients)), v.closed_once);
    backlog = v.backlog;
  }

  pub register-IsHub :
      (h : Hub A) (id : ℕ)
      → IsHub h
      → lookup ℕ_discrete id h.clients ≡ none
      → member ℕ_discrete id h.closed ≡ false
      → IsHub (register h id)
  unfolding register inc32
  register-IsHub h id v e fresh = record {
    distinct =
        subst (IsDistinct ℕ_discrete) (sym (keys-insert id new_conn h.clients))
          (add-IsDistinct ℕ_discrete id (keys h.clients) v.distinct);
    counted = λ s. ground (arith, v.counted s, length-insert h.clients id new_conn);
    bounded = λ j x k. elim (ℕ_discrete id j) [
      | yes p ↦
          subst IsBounded
            (let q : new_conn ≡ x =
                ground (arith, lookup-insert ℕ_discrete id j new_conn h.clients) in
              q)
            (record { queued = omega arith; lost = omega arith })
      | no n ↦ v.bounded j x (ground (arith, lookup-insert ℕ_discrete id j new_conn h.clients))
    ];
    open_channel = λ j k. elim (ℕ_discrete id j) [
      | yes p ↦ ground arith
      | no n ↦ v.open_channel j (
          ground (
            arith,
            ap (member ℕ_discrete j) (keys-insert id new_conn h.clients),
            member-add ℕ_discrete id j (keys h.clients),
          ))
    ];
    closed_once = v.closed_once;
    backlog = v.backlog;
  }

  pub unregister-IsHub : (h : Hub A) (id : ℕ) → IsHub h → IsHub (unregister h id)
  unfolding unregister
  unregister-IsHub h id v = elim (Option-cases (lookup ℕ_discrete id h.clients)) [
    | inl e ↦ subst IsHub (ground arith) v
    | inr (c, e) ↦ subst IsHub (ground arith) (disconnect-IsHub h id c v e)
  ]

  length-enqueue :
      (k j : ℕ) (queue : List A) (msg : A) → length queue ≤ 64 → length (enqueue k j queue msg) ≤ 64
  unfolding enqueue
  length-enqueue k j queue msg h = ground (
    arith,
    length-append (drop j (drop 1 (drop k queue))) (msg ∷ []),
    length-drop j (drop 1 (drop k queue)),
    length-drop 1 (drop k queue),
    length-drop k queue,
  )

  send_one-IsBounded :
      (k j : ℕ) (c : Conn A) (msg : A) {c' : Conn A}
      → IsBounded c
      → send_one k j c msg ≡ some c'
      → IsBounded c'
  unfolding send_one
  send_one-IsBounded k j c msg {c'} b e = record {
    queued = ground (
      arith,
      b.queued,
      length-enqueue k j c.queue msg b.queued,
      length-append c.queue (msg ∷ []),
    );
    lost = ground (arith, b.lost);
  }

  send_to_client-IsHub :
      (pumps : ℕ → ℕ × ℕ) (h : Hub A) (id : ℕ) (msg : A)
      → IsHub h
      → IsHub (send_to_client pumps h id msg)
  unfolding send_to_client
  send_to_client-IsHub pumps h id msg v = elim (Option-cases (lookup ℕ_discrete id h.clients)) [
    | inl e ↦ subst IsHub (ground arith) v
    | inr (c, e) ↦ elim (Option-cases (send_one (pumps id).0 (pumps id).1 c msg)) [
      | inl k ↦ subst IsHub (ground arith) (disconnect-IsHub h id c v e)
      | inr (c', k) ↦ subst IsHub (ground arith) (
          put-IsHub h id c c' v e
            (send_one-IsBounded (pumps id).0 (pumps id).1 c msg (v.bounded id c e) k))
    ]
  ]

  pub deliver-IsHub :
      (pumps : ℕ → ℕ × ℕ) (h : Hub A) (ids : List ℕ) (msg : A)
      → IsHub h
      → IsHub (deliver pumps h ids msg)
  unfolding deliver
  deliver-IsHub pumps h [] msg v = v
  deliver-IsHub pumps h (id ∷ ids) msg v =
      deliver-IsHub pumps (send_to_client pumps h id msg) ids msg
        (send_to_client-IsHub pumps h id msg v)

  pub pump-IsHub : (h : Hub A) (id : ℕ) → IsHub h → IsHub (pump h id)
  unfolding pump
  pump-IsHub h id v = elim (Option-cases (lookup ℕ_discrete id h.clients)) [
    | inl e ↦ subst IsHub (ground arith) v
    | inr (c, e) ↦
        let b = v.bounded id c e in
        subst IsHub (ground arith) (
          put-IsHub h id c (record c { queue = drop 1 c.queue }) v e
            (record { queued = omega (arith, b.queued, length-drop 1 c.queue); lost = b.lost }))
  ]

  pub broadcast-IsHub : (h : Hub A) (msg : A) → IsHub h → IsHub (broadcast h msg)
  unfolding broadcast
  broadcast-IsHub h msg v = elim (Bool-cases (ltb (length h.backlog) 256)) [
    | inl e ↦ subst IsHub (ground arith) (record {
      distinct = v.distinct;
      counted = v.counted;
      bounded = v.bounded;
      open_channel = v.open_channel;
      closed_once = v.closed_once;
      backlog =
          (let q : length (h.backlog ++ (msg ∷ [])) ≤ 256 =
              ground (arith, length-append h.backlog (msg ∷ [])) in
            q);
    })
    | inr e ↦ subst IsHub (ground arith) v
  ]

  pub shutdown-IsHub : (h : Hub A) → IsHub h → IsHub (shutdown h)
  unfolding shutdown lookup member
  shutdown-IsHub h v = record {
    distinct = tt;
    counted = λ s. cc;
    bounded = λ id c e. cc;
    open_channel = λ id e. cc;
    closed_once =
        append-IsDistinct (keys h.clients) h.closed v.distinct v.closed_once v.open_channel;
    backlog = v.backlog;
  }
