-- ===== src/Topology/Ring.antt =====
-- backend/internal/topology/ring.go: the ring of the most recent events. The ring is the same for
-- every type of event, so the type is a parameter, with the zero value that `make` fills in.
pub mod Window
pub mod Recent
use mathlib.Core.Option
use bgpulse.Base.{
  ℕ, zero, suc, ◌+◌, ◌-◌, ◌*◌, ◌%◌, ◌≡◌, Bool, true, false, ◌&&◌, ◌||◌, Option, none, some, List,
  [], ◌∷◌, length, get_elem?, set, replicate, ltb, ◌==◌, if◌then◌else◌,
}
use bgpulse.Bgp.Types.{Asn}

pub record EventRing {ℓ} (A : Type ℓ) : Type ℓ where
  pub buf : List A
  pub head : ℕ
  pub size : ℕ
  pub cap : ℕ

module _ {ℓ} {A : Type ℓ} where
  -- A capacity below 1, a negative one too, is raised to 1.
  unfoldable pub new_event_ring : A → ℕ → EventRing A
  new_event_ring zero_value capacity =
      let cap = if ltb capacity 1 then 1 else capacity in
      record { buf = replicate cap zero_value; head = 0; size = 0; cap = cap }

  -- A write out of range, where Go panics, changes nothing; `Holds.head_lt` rules it out.
  unfoldable pub push : EventRing A → A → EventRing A
  push r ev = record r {
    buf = set r.buf r.head ev;
    head = (r.head + 1) % r.cap;
    size = if ltb r.size r.cap then r.size + 1 else r.size;
  }

  -- The index of the event that is `i` events old. With `i < size <= cap` nothing is below 0.
  abbrev pub index : EventRing A → ℕ → ℕ
  index r i = (r.head + 2 * r.cap - 1 - i) % r.cap

  -- The loop of `recent` with `k` rounds left; `none` is a read out of range.
  unfoldable pub recent_from : EventRing A → ℕ → ℕ → Option (List A)
  recent_from r i zero = some []
  recent_from r i (suc k) = elim (get_elem? r.buf (index r i)) [
    | none ↦ none
    | some ev ↦ Option.map (λ out. ev ∷ out) (recent_from r (i + 1) k)
  ]

  -- A limit of 0 stands for every limit that is not positive.
  abbrev pub clamp_limit : EventRing A → ℕ → ℕ
  clamp_limit r limit = if limit == 0 || ltb r.size limit then r.size else limit

  unfoldable pub recent : EventRing A → ℕ → Option (List A)
  unfolding recent_from
  recent r limit = recent_from r 0 (clamp_limit r limit)

  -- The loop of `byEdge` at age `i` with `k` rounds left before `size`; `want` is `limit - len(out)`.
  -- `traverses` is the test `pathHasEdge` on the event.
  unfoldable pub select_from : (A → Bool) → EventRing A → ℕ → ℕ → ℕ → Option (List A)
  select_from traverses r i zero want = some []
  select_from traverses r i (suc k) zero = some []
  select_from traverses r i (suc k) (suc want) = elim (get_elem? r.buf (index r i)) [
    | none ↦ none
    | some ev ↦ elim (traverses ev) [
      | true ↦ Option.map (λ out. ev ∷ out) (select_from traverses r (i + 1) k want)
      | false ↦ select_from traverses r (i + 1) k (suc want)
    ]
  ]

  unfoldable pub by_edge : (A → Bool) → EventRing A → ℕ → Option (List A)
  unfolding select_from
  by_edge traverses r limit = select_from traverses r 0 r.size limit

unfoldable pub path_has_edge_from : Asn → List Asn → Asn → Asn → Bool
path_has_edge_from u [] from to = false
path_has_edge_from u (v ∷ path) from to =
    (u == from && v == to) || path_has_edge_from v path from to

unfoldable pub path_has_edge : List Asn → Asn → Asn → Bool
unfolding path_has_edge_from
path_has_edge [] from to = false
path_has_edge (u ∷ path) from to = path_has_edge_from u path from to
