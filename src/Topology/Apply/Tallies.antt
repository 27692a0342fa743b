-- ===== src/Topology/Apply/Tallies.antt =====
-- The counters, the status and the samples of an edge of topology/apply.go, by the history.
use Prim.Native.String.{String}
use bgpulse.Base.{
  ℕ, ◌+◌, ◌-◌, ◌%◌, ◌^◌, ◌≡◌, inl, inr, refl, sym, ap, ◌∙◌, arith, none, some, List, [], ◌∷◌, ◌++◌,
  map, length, drop, last_n, drop-drop, drop-append, length-append, length-drop, ltb, if◌then◌else◌,
  Bool-cases, inc64, Bool,
}
use mathlib.Core.List.{append-nil, append_assoc, map-append}
use mathlib.Core.Path.{subst}
use bgpulse.Bgp.Types.{Asn, VfStatus, EventId, ClassifiedEvent}
use bgpulse.Base.Table.{lookup}
use bgpulse.Topology.Graph.{Edge, EdgeKey, new_graph}
use bgpulse.Topology.Stats.Counts.{tally, is_leak, is_hijack}
use bgpulse.Topology.Apply.{
  touch_edge, tally_edge, edge_or_new, append_sample, max_samples_per_edge,
}
use bgpulse.Topology.Apply.Rib.{apply_all}
use bgpulse.Topology.Apply.Edges.{edge_at, write_hop, write_all, all_hops, edge_at-apply_all}

abbrev pub event_id : ClassifiedEvent → EventId
event_id ev = ev.event.id

-- The status of the latest event.
unfoldable pub last_status : VfStatus → List ClassifiedEvent → VfStatus
last_status d [] = d
last_status d (ev ∷ evs) = last_status ev.vf_status evs

append_sample-eq :
    (s : List EventId) (id : EventId)
    → append_sample s id ≡ last_n max_samples_per_edge (s ++ (id ∷ []))
unfolding append_sample
append_sample-eq s id = elim (Bool-cases (ltb 15 (length (s ++ (id ∷ []))))) [
  | inl e ↦ rw e
  | inr e ↦ rw e (
      ap (λ n. drop n (s ++ (id ∷ [])))
        (let q : 0 ≡ length (s ++ (id ∷ [])) - 15 = ground arith in q))
]

last_n-append :
    (ids : List EventId) (id : EventId)
    → last_n 15 (last_n 15 ids ++ (id ∷ [])) ≡ last_n 15 (ids ++ (id ∷ []))
last_n-append ids id = elim (Bool-cases (ltb (length ids) 15)) [
  | inl lt ↦
      ap (λ n. last_n 15 (drop n ids ++ (id ∷ [])))
        (let q : length ids - 15 ≡ 0 = ground arith in q)
  | inr ge ↦
      let k = length ids - 15 in
      let size : length (drop k ids ++ (id ∷ [])) - 15 ≡ 1 =
        ground (arith, length-append (drop k ids) (id ∷ []), length-drop k ids) in
      let whole : length (ids ++ (id ∷ [])) - 15 ≡ k + 1 =
        ground (arith, length-append ids (id ∷ [])) in
      ap (λ n. drop n (drop k ids ++ (id ∷ []))) size
      ∙ (drop-append 1 (drop k ids) (id ∷ []) (ground (arith, length-drop k ids))
          ∙ (ap (λ l. l ++ (id ∷ [])) (drop-drop 1 k ids)
              ∙ (sym (drop-append (k + 1) ids (id ∷ []) (ground arith))
                  ∙ ap (λ n. drop n (ids ++ (id ∷ []))) (sym whole))))
]

append_sample-last_n :
    (ids : List EventId) (id : EventId)
    → append_sample (last_n max_samples_per_edge ids) id
      ≡ last_n max_samples_per_edge (ids ++ (id ∷ []))
append_sample-last_n ids id = append_sample-eq (last_n 15 ids) id ∙ last_n-append ids id

-- What the hops over an edge make of it, from any start.
touch_all : Edge → List ClassifiedEvent → Edge
touch_all ed [] = ed
touch_all ed (ev ∷ evs) = touch_all (touch_edge ed ev ev.event.timestamp) evs

write_all-some :
    (key : EdgeKey) (ed : Edge) (evs : List ClassifiedEvent)
    → write_all key (some ed) evs ≡ some (touch_all ed evs)
unfolding write_all write_hop touch_all
write_all-some key ed [] = refl
write_all-some key ed (ev ∷ evs) = write_all-some key (touch_edge ed ev ev.event.timestamp) evs

-- An edge after some hops, by all the hops since it was made.
pub record EdgeSums (ed : Edge) (hops : List ClassifiedEvent) : Type 0 where
  pub counted : ed.count ≡ length hops % 2 ^ 64
  pub leaked : ed.leak_count ≡ tally is_leak hops % 2 ^ 64
  pub hijacked : ed.hijack_count ≡ tally is_hijack hops % 2 ^ 64
  pub latest : ed.status ≡ last_status VfStatus.valid hops
  pub sampled : ed.samples ≡ last_n max_samples_per_edge (map event_id hops)

tally-snoc :
    (f : ClassifiedEvent → Bool) (hops : List ClassifiedEvent) (ev : ClassifiedEvent)
    → tally f (hops ++ (ev ∷ [])) ≡ tally f hops + (if f ev then 1 else 0)
unfolding tally
tally-snoc f [] ev = omega arith
tally-snoc f (h ∷ hops) ev = omega (arith, tally-snoc f hops ev)

last_status-snoc :
    (d : VfStatus) (hops : List ClassifiedEvent) (ev : ClassifiedEvent)
    → last_status d (hops ++ (ev ∷ [])) ≡ ev.vf_status
unfolding last_status
last_status-snoc d [] ev = refl
last_status-snoc d (h ∷ hops) ev = last_status-snoc h.vf_status hops ev

tally_edge-keeps_samples : (ed : Edge) (v : VfStatus) → (tally_edge ed v).samples ≡ ed.samples
tally_edge-keeps_samples ed VfStatus.leak = refl
tally_edge-keeps_samples ed VfStatus.hijack = refl
tally_edge-keeps_samples ed VfStatus.valid = refl
tally_edge-keeps_samples ed VfStatus.unknown = refl

touch_edge-EdgeSums :
    (ed : Edge) (hops : List ClassifiedEvent) (ev : ClassifiedEvent) (now : ℕ)
    → EdgeSums ed hops
    → EdgeSums (touch_edge ed ev now) (hops ++ (ev ∷ []))
unfolding touch_edge
touch_edge-EdgeSums ed hops ev now s = record {
  counted = ground (arith, s.counted, length-append hops (ev ∷ []));
  leaked = ground (arith, s.leaked, tally-snoc is_leak hops ev);
  hijacked = ground (arith, s.hijacked, tally-snoc is_hijack hops ev);
  latest = sym (last_status-snoc VfStatus.valid hops ev);
  sampled =
      ap (λ ids. append_sample ids ev.event.id)
        (tally_edge-keeps_samples (record ed { count = inc64 ed.count }) ev.vf_status ∙ s.sampled)
      ∙ (append_sample-last_n (map event_id hops) ev.event.id
          ∙ ap (last_n 15) (sym (map-append event_id hops (ev ∷ []))));
}

touch_all-EdgeSums :
    (ed : Edge) (before hops : List ClassifiedEvent)
    → EdgeSums ed before
    → EdgeSums (touch_all ed hops) (before ++ hops)
unfolding touch_all
touch_all-EdgeSums ed before [] s = subst (EdgeSums ed) (sym (append-nil before)) s
touch_all-EdgeSums ed before (ev ∷ hops) s =
    subst (EdgeSums (touch_all (touch_edge ed ev ev.event.timestamp) hops))
      (append_assoc before (ev ∷ []) hops)
      (touch_all-EdgeSums (touch_edge ed ev ev.event.timestamp) (before ++ (ev ∷ [])) hops
        (touch_edge-EdgeSums ed before ev ev.event.timestamp s))

edge_or_new-EdgeSums :
    (key : EdgeKey) (ev : ClassifiedEvent) → EdgeSums (edge_or_new new_graph key ev.hops) []
unfolding edge_or_new tally last_status lookup
edge_or_new-EdgeSums key ev = record {
  counted = refl;
  leaked = refl;
  hijacked = refl;
  latest = refl;
  sampled = refl;
}

some_edge-eq : {ed ed' : Edge} → some ed ≡ some ed' → ed ≡ ed'
some_edge-eq h = cc

write_all-EdgeSums :
    (key : EdgeKey) (hops : List ClassifiedEvent) {ed : Edge}
    → write_all key none hops ≡ some ed
    → EdgeSums ed hops
unfolding write_all write_hop
write_all-EdgeSums key [] h = absurd (cc)
write_all-EdgeSums key (ev ∷ hops) {ed} h =
    let start = touch_edge (edge_or_new new_graph key ev.hops) ev ev.event.timestamp in
    subst (λ e. EdgeSums e (ev ∷ hops)) (some_edge-eq (sym (write_all-some key start hops) ∙ h))
      (touch_all-EdgeSums start (ev ∷ []) hops (
        touch_edge-EdgeSums (edge_or_new new_graph key ev.hops) [] ev ev.event.timestamp
          (edge_or_new-EdgeSums key ev)))

-- Every edge of the graph that events have built counts the announced hops over it, those of leaks
-- and those of hijacks, modulo 2^64; it shows the status of the latest of these hops, and keeps the
-- ids of the latest 15.
pub apply_all-EdgeSums :
    (names : Asn → String) (evs : List ClassifiedEvent) (key : EdgeKey) {ed : Edge}
    → edge_at (apply_all names new_graph evs) key ≡ some ed
    → EdgeSums ed (all_hops key evs)
apply_all-EdgeSums names evs key h =
    write_all-EdgeSums key (all_hops key evs) (sym (edge_at-apply_all names evs key) ∙ h)
