-- ===== src/Mrt/Events.antt =====
-- The events of mrt/parser.go and mrt/reader.go against the AS_PATH as its segments give it and
-- against the prefixes that the records name.

use mathlib.Core.List.{append_assoc, append-nil}
use native.Mathlib.Nat.{div-add-mod, mul-mod_right}
use bgpulse.Base.{
  ℕ, ◌-◌, ◌/◌, ◌%◌, ◌^◌, ◌≤◌, ◌≡◌, refl, ap, sym, ◌∙◌, arith, Bool, true, false, ◌||◌, some, List,
  [], ◌∷◌, ◌++◌, if◌then◌else◌, Bool-cases, inl, inr,
}
use bgpulse.Bgp.Types.{Asn, announce, withdraw, UpdateEvent, Community}
use bgpulse.Bgp.Net.{
  Addr, ip4, ip6, invalid, Prefix, masked, mask_bytes, mask_addr, prefix_from, is_addr, bit_len,
}
use bgpulse.Mrt.{
  Segment, Attribute, as_path_attr, next_hop_attr, communities_attr, mp_reach, mp_unreach,
  other_attr, Flattened, no_path, set_hop, flatten, last_as, origin_as_of, extract_as_path,
  base_event, announce_of, withdraw_of,
}

-- The ASes that a segment gives the path, and those of all segments.
abbrev pub hops_of : List Segment → List Asn
hops_of [] = []
hops_of (seg ∷ segs) = (if seg.is_set then set_hop seg.ases else seg.ases) ++ hops_of segs

abbrev pub any_set : List Segment → Bool
any_set [] = false
any_set (seg ∷ segs) = seg.is_set || any_set segs

-- Whether the last segment is an AS_SET.
abbrev pub ends_in_set : Bool → List Segment → Bool
ends_in_set before [] = before
ends_in_set before (seg ∷ segs) = ends_in_set seg.is_set segs

-- The segments of the first AS_PATH attribute.
abbrev pub segments_of : {N : Type 0} → List (Attribute N) → List Segment
segments_of [] = []
segments_of (as_path_attr segs ∷ attrs) = segs
segments_of (_ ∷ attrs) = segments_of attrs

abbrev with_segments : Flattened → List Segment → Flattened
with_segments f segs = record {
  path = f.path ++ hops_of segs;
  has_as_set = f.has_as_set || any_set segs;
  last_was_set = ends_in_set f.last_was_set segs;
}

Flattened-ext :
    {f g : Flattened}
    → f.path ≡ g.path
    → f.has_as_set ≡ g.has_as_set
    → f.last_was_set ≡ g.last_was_set
    → f ≡ g
Flattened-ext a b c = cc

or_false : (b : Bool) → b || false ≡ b
or_false true = refl
or_false false = refl

pub or_true : (b : Bool) → b || true ≡ true
or_true true = refl
or_true false = refl

pub flatten_eq : (f : Flattened) (segs : List Segment) → flatten f segs ≡ with_segments f segs
unfolding flatten
flatten_eq f [] = Flattened-ext (sym (append-nil f.path)) (sym (or_false f.has_as_set)) refl
flatten_eq f (seg ∷ segs) = elim (Bool-cases seg.is_set) [
  | inl e ↦ rw e (
      flatten_eq
        (record { path = f.path ++ set_hop seg.ases; has_as_set = true; last_was_set = true }) segs
      ∙ Flattened-ext (append_assoc f.path (set_hop seg.ases) (hops_of segs))
          (sym (or_true f.has_as_set)) refl)
  | inr e ↦ rw e (
      flatten_eq (record f { path = f.path ++ seg.ases; last_was_set = false }) segs
      ∙ Flattened-ext (append_assoc f.path seg.ases (hops_of segs)) refl refl)
]

pub extract_as_path_eq :
    {N : Type 0}
    → (attrs : List (Attribute N))
    → extract_as_path attrs ≡ with_segments no_path (segments_of attrs)
unfolding extract_as_path
extract_as_path_eq [] = refl
extract_as_path_eq (as_path_attr segs ∷ attrs) = flatten_eq no_path segs
extract_as_path_eq (next_hop_attr nh ∷ attrs) = extract_as_path_eq attrs
extract_as_path_eq (communities_attr cs ∷ attrs) = extract_as_path_eq attrs
extract_as_path_eq (mp_reach nh ns ∷ attrs) = extract_as_path_eq attrs
extract_as_path_eq (mp_unreach ns ∷ attrs) = extract_as_path_eq attrs
extract_as_path_eq (other_attr ∷ attrs) = extract_as_path_eq attrs

last_as-append : (path : List Asn) (o : Asn) → last_as (path ++ (o ∷ [])) ≡ o
unfolding last_as
last_as-append [] o = refl
last_as-append (a ∷ []) o = refl
last_as-append (a ∷ (b ∷ path)) o = last_as-append (b ∷ path) o

sub_mod-mod : (b m : ℕ) → 1 ≤ m → (b - b % m) % m ≡ 0
sub_mod-mod b m h = ground (arith, div-add-mod b m, mul-mod_right m (b / m))

mask_bytes-mask_bytes : (n : ℕ) (bs : List ℕ) → mask_bytes n (mask_bytes n bs) ≡ mask_bytes n bs
unfolding mask_bytes
mask_bytes-mask_bytes n [] = refl
mask_bytes-mask_bytes n (b ∷ bs) =
    ground (arith, mask_bytes-mask_bytes (n - 8) bs, sub_mod-mod b (2 ^ (8 - n)))

-- What `netip.ParsePrefix` returns: an address with a length that lies in it.
abbrev pub IsParsed : Prefix → Type 0
IsParsed p = (n : ℕ) × (p.bits ≡ some n) × (is_addr p.addr ≡ true) × (n ≤ bit_len p.addr)

mask_addr-mask_addr : (n : ℕ) (a : Addr) → mask_addr n (mask_addr n a) ≡ mask_addr n a
mask_addr-mask_addr n (ip4 b) = ap ip4 (mask_bytes-mask_bytes n b)
mask_addr-mask_addr n (ip6 b) = ap ip6 (mask_bytes-mask_bytes n b)
mask_addr-mask_addr n invalid = refl

mask_addr-fits :
    (n : ℕ) (a : Addr)
    → is_addr a ≡ true
    → n ≤ bit_len a
    → prefix_from (mask_addr n a) n ≡ record { addr = mask_addr n a; bits = some n }
unfolding prefix_from
mask_addr-fits n (ip4 b) k h = ground arith
mask_addr-fits n (ip6 b) k h = ground arith
mask_addr-fits n invalid k h = cc

pub masked-masked : (p : Prefix) → IsParsed p → masked (masked p) ≡ masked p
unfolding masked
masked-masked p (n, b, k, h) =
    rw b rw (mask_addr-fits n p.addr k h)
      (ap (λ a. prefix_from a n) (mask_addr-mask_addr n p.addr) ∙ mask_addr-fits n p.addr k h)

-- The withdrawal of a prefix says nothing of a path.
pub record IsWithdrawal (ev : UpdateEvent) : Type 0 where
  pub kind : ev.kind ≡ withdraw
  pub path : ev.as_path ≡ []
  pub origin : ev.origin_as ≡ 0

-- An announcement with the path of the segments: its origin is hidden by an AS_SET at the end, and
-- is the last AS of the path otherwise.
pub record IsAnnouncement (segs : List Segment) (ev : UpdateEvent) : Type 0 where
  pub kind : ev.kind ≡ announce
  pub path : ev.as_path ≡ hops_of segs
  pub aggregated : ev.has_as_set ≡ any_set segs
  pub hidden : ends_in_set false segs ≡ true → ev.origin_as ≡ 0
  pub no_origin : ev.as_path ≡ [] → ev.origin_as ≡ 0
  pub origin :
      (before : List Asn) (o : Asn)
      → ends_in_set false segs ≡ false
      → ev.as_path ≡ before ++ (o ∷ [])
      → ev.origin_as ≡ o

pub withdraw_of-IsWithdrawal :
    (seconds : ℕ) (peer : Asn) (p : Prefix) → IsWithdrawal (withdraw_of (base_event seconds peer) p)
withdraw_of-IsWithdrawal seconds peer p = record { kind = refl; path = refl; origin = refl }

module _ {N : Type 0} where
  pub announce_of-IsAnnouncement :
      (base : UpdateEvent) (p : Prefix) (nh : Addr) (comms : List Community)
      (attrs : List (Attribute N))
      → IsAnnouncement (segments_of attrs) (announce_of base p (extract_as_path attrs) nh comms)
  unfolding origin_as_of last_as
  announce_of-IsAnnouncement base p nh comms attrs =
      let q = extract_as_path_eq attrs in
      rw q record {
        kind = refl;
        path = refl;
        aggregated = refl;
        hidden = λ e. rw e refl;
        no_origin = λ e. rw e (ground arith);
        origin = λ before o e r. rw e (rw r (last_as-append before o));
      }
