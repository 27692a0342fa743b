-- ===== src/Rtr/Session/Sync.antt =====
-- Whole responses of a cache through the loop of `session` in rtr/client.go.
use bgpulse.Base.{
  ℕ, ◌≡◌, refl, sym, ap, ◌∙◌, arith, Bool, true, false, some, List, [], ◌∷◌, ◌++◌, map,
  if◌then◌else◌,
}
use mathlib.Core.List.{append-nil, append_assoc}
use bgpulse.Base.Table.{member}
use bgpulse.Rpki.{Vrp, Vrp-discrete, Builder, build}
use bgpulse.Rpki.Spec.{IsIndex}
use bgpulse.Rtr.Codec.{PrefixPdu, serial_notify, cache_response, prefix_pdu, end_of_data}
use bgpulse.Rtr.Codec.Encode.{serial_query_bytes}
use bgpulse.Rtr.Session.{
  Client, ChangeRec, to_vrp, apply_changes, commit, Progress, Event, received, Outcome, continues,
  ended, panics, incremental, synced, handle, step, run, after,
}
use bgpulse.Rtr.Session.Changes.{last_word, member-apply_changes}
use bgpulse.Rtr.Session.Commit.{AllPrefixes, backed, commit-Answers}

abbrev pub change_of : PrefixPdu → ChangeRec
change_of p = record { vrp = to_vrp p; announce = p.announce }

abbrev pub records : List PrefixPdu → List Event
records ps = map (λ p. received (prefix_pdu p)) ps

pub after_nothing : (o : Outcome) → after [] o ≡ o
after_nothing (continues c s more) = refl
after_nothing (ended c e) = refl
after_nothing panics = refl

run-records :
    (c : Client) (full : Bool) (pending : List ChangeRec) (ps : List PrefixPdu) (es : List Event)
    → run c (record { full_sync = full; pending = pending }) (records ps ++ es)
      ≡ run c (record { full_sync = full; pending = pending ++ map change_of ps }) es
unfolding run step handle
run-records c full pending [] es =
    ap (λ p. run c (record { full_sync = full; pending = p }) es) (sym (append-nil pending))
run-records c full pending (p ∷ ps) es =
    after_nothing _
    ∙ (run-records c full (pending ++ (change_of p ∷ [])) ps es
        ∙ ap (λ q. run c (record { full_sync = full; pending = q }) es)
            (append_assoc pending (change_of p ∷ []) (map change_of ps)))

-- A client after a response: it has the session, the serial and the set of the changes over what it
-- held, and its live store is built from the acceptable VRPs of this set.
pub record IsSynced (c : Client) (held : Vrp → Bool) (changes : List ChangeRec) (session serial : ℕ)
    : Type 0 where
  pub session_id : c.session_id ≡ session
  pub serial_number : c.serial ≡ serial
  pub has_serial : c.has_serial ≡ true
  pub holds : (v : Vrp) → member Vrp-discrete v c.current ≡ last_word v (held v) changes
  pub builder : Builder
  pub built : c.live ≡ build builder
  pub index : IsIndex builder
  pub validates : (w : Vrp) → member Vrp-discrete w builder.seen ≡ backed w c.current

-- What a client holds before the changes of a response.
abbrev pub held_by : Client → Bool → Vrp → Bool
held_by c full v = if full then false else member Vrp-discrete v c.current

run-committed :
    (c : Client) (full : Bool) (changes : List ChangeRec) (session serial refresh retry expire : ℕ)
    → {c1 : Client} → commit c full changes ≡ some c1
    → run c
        (record { full_sync = full; pending = changes })
        (received (end_of_data session serial refresh retry expire) ∷ [])
      ≡ continues (synced c1 session serial refresh) incremental []
unfolding run step handle
run-committed c full changes session serial refresh retry expire e = ground (arith, e)

run-end_of_data :
    (c : Client) (full : Bool) (changes : List ChangeRec) (session serial refresh retry expire : ℕ)
    → AllPrefixes (apply_changes (if full then [] else c.current) changes)
    → (c' : Client) × (run c
          (record { full_sync = full; pending = changes })
          (received (end_of_data session serial refresh retry expire) ∷ [])
        ≡ continues c' incremental [])
      × IsSynced c' (held_by c full) changes session serial
unfolding member
run-end_of_data c full changes session serial refresh retry expire p =
    let (b, done, index, knows) = commit-Answers c full changes p in
    let base : List Vrp = if full then [] else c.current in
    let c1 : Client = record c { current = apply_changes base changes; live = build b } in
    (
      synced c1 session serial refresh,
      run-committed c full changes session serial refresh retry expire done,
      record {
        session_id = refl;
        serial_number = refl;
        has_serial = refl;
        holds = λ v.
            member-apply_changes v base changes
            ∙ ap (λ h. last_word v h changes)
                (let q : member Vrp-discrete v base ≡ held_by c full v = ground arith in q);
        builder = b;
        built = refl;
        index = index;
        validates = knows;
      },
    )

-- A whole response, with any prefix records of which the kept ones have valid prefixes: afterwards
-- the client holds a VRP exactly when the last record about it announces it, or, in an answer to a
-- Serial Query, when it held it and no record is about it; its live store validates by the
-- acceptable VRPs of this set.
pub run-response :
    (c : Client) (s : Progress) (ps : List PrefixPdu) (session serial refresh retry expire : ℕ)
    → AllPrefixes (apply_changes (if s.full_sync then [] else c.current) (map change_of ps))
    → (c' : Client) × (run c s (
          received (cache_response session)
          ∷ (records ps ++ (received (end_of_data session serial refresh retry expire) ∷ [])))
        ≡ continues c' incremental [])
      × IsSynced c' (held_by c s.full_sync) (map change_of ps) session serial
run-response c s ps session serial refresh retry expire p =
    let c0 : Client = record c { session_id = session } in
    let (c', done, is) =
      run-end_of_data c0 s.full_sync (map change_of ps) session serial refresh retry expire p in
    (
      c',
      (unfold run step handle in after_nothing _ ∙ (run-records c0 s.full_sync [] ps _ ∙ done)),
      is,
    )

-- A Serial Notify amid a response, of a full table or not, makes the client forget the records
-- received so far: at the End Of Data it holds what it held before the response, changed only by
-- the records that came after the notify.
pub run-notify :
    (c : Client) (s : Progress) (ps qs : List PrefixPdu)
    → (notified session serial refresh retry expire : ℕ)
    → AllPrefixes (apply_changes c.current (map change_of qs))
    → (c' : Client) × (run c s (
          records ps
          ++ (received (serial_notify session notified)
              ∷ (records qs ++ (received (end_of_data session serial refresh retry expire) ∷ []))))
        ≡ continues c' incremental (serial_query_bytes c.session_id c.serial))
      × IsSynced c' (held_by c false) (map change_of qs) session serial
run-notify c s ps qs notified session serial refresh retry expire p =
    let (c', done, is) =
      run-end_of_data c false (map change_of qs) session serial refresh retry expire p in
    (
      c',
      run-records c s.full_sync s.pending ps _
          ∙ (unfold run step handle in
              ap (after (serial_query_bytes c.session_id c.serial))
                (run-records c false [] qs _ ∙ done)
              ∙ ap (λ more. continues c' incremental more) (append-nil _)),
      is,
    )
