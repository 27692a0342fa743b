-- ===== src/Bgp/Types.antt =====
-- backend/internal/bgp/types.go. A `uint32` AS number is the number itself: the program only
-- compares and stores it. A timestamp is in nanoseconds since the source's epoch.
use Prim.Native.String.{String}
use bgpulse.Base.{ℕ, Bool, List}
use bgpulse.Bgp.Net.{Addr, Prefix}

abbrev pub Asn : Type 0
Asn = ℕ

pub data UpdateKind : Type 0 where
  announce withdraw : UpdateKind

abbrev pub kind_string : UpdateKind → String
kind_string announce = "announce"
kind_string withdraw = "withdraw"

pub data RelStatus : Type 0 where
  unknown customer provider peer sibling : RelStatus

unfoldable pub RelStatus-discrete : Discrete RelStatus
RelStatus-discrete = hlevel

abbrev pub rel_string : RelStatus → String
rel_string customer = "customer"
rel_string provider = "provider"
rel_string peer = "peer"
rel_string sibling = "sibling"
rel_string unknown = "unknown"

unfoldable pub invert : RelStatus → RelStatus
invert customer = provider
invert provider = customer
invert peer = peer
invert sibling = sibling
invert unknown = unknown

pub data VfStatus : Type 0 where
  valid leak hijack unknown : VfStatus

abbrev pub vf_string : VfStatus → String
vf_string VfStatus.valid = "valid"
vf_string VfStatus.leak = "leak"
vf_string VfStatus.hijack = "hijack"
vf_string VfStatus.unknown = "unknown"

abbrev pub severity : VfStatus → ℕ
severity VfStatus.hijack = 3
severity VfStatus.leak = 2
severity VfStatus.valid = 1
severity VfStatus.unknown = 0

pub data RpkiStatus : Type 0 where
  not_found valid invalid : RpkiStatus

unfoldable pub RpkiStatus-discrete : Discrete RpkiStatus
RpkiStatus-discrete = hlevel

abbrev pub rpki_string : RpkiStatus → String
rpki_string RpkiStatus.valid = "valid"
rpki_string RpkiStatus.invalid = "invalid"
rpki_string RpkiStatus.not_found = "notfound"

pub record Community : Type 0 where
  pub asn : ℕ
  pub value : ℕ

pub record PathHop : Type 0 where
  pub from : Asn
  pub to : Asn
  pub rel : RelStatus
  pub is_offender : Bool

-- The text `<tag>-<seq>`; its two parts stand for it. Before a source assigns one the tag is "".
pub record EventId : Type 0 where
  pub tag : String
  pub seq : ℕ

pub record UpdateEvent : Type 0 where
  pub id : EventId
  pub seq : ℕ
  pub timestamp : ℕ
  pub kind : UpdateKind
  pub prefix : Prefix
  pub peer_as : Asn
  pub as_path : List Asn
  pub has_as_set : Bool
  pub next_hop : Addr
  pub communities : List Community
  pub origin_as : Asn

-- The text of `ClassifiedEvent.Reason`, by the values that are formatted into it: the empty text, a
-- valley's reason, "origin AS%d not authorized to announce %s (RPKI Invalid)", and the same followed
-- by "; path also leaks: " and a valley's reason.
pub data Reason : Type 0 where
  normal : Reason
  valley : String → Reason
  unauthorized : Asn → Prefix → Reason
  unauthorized_valley : Asn → Prefix → String → Reason

pub record ClassifiedEvent : Type 0 where
  pub event : UpdateEvent
  pub vf_status : VfStatus
  pub rpki_status : RpkiStatus
  pub hops : List PathHop
  pub offender_as : Asn
  pub reason : Reason
