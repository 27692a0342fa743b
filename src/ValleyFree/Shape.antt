-- ===== src/ValleyFree/Shape.antt =====
-- The valley-free shape of the package comment of valleyfree/classifier.go,
-- `(c2p)* (p2p | p2c)? (p2c)*`, as a grammar on lists of moves, and a recogniser of it.
use bgpulse.Base.{
  ℕ, zero, suc, ◌≡◌, refl, ap, ◌⊎◌, inl, inr, ◌↔◌, Option, none, some, List, [], ◌∷◌, ◌++◌, length,
  replicate, arith,
}
use bgpulse.Bgp.Types.{RelStatus, unknown, customer, provider, peer, sibling}
use bgpulse.ValleyFree.{WalkPhase, up, down}

-- The moves that count: sibling and unknown links are transparent.
abbrev pub known_moves : List RelStatus → List RelStatus
known_moves [] = []
known_moves (sibling ∷ ms) = known_moves ms
known_moves (unknown ∷ ms) = known_moves ms
known_moves (provider ∷ ms) = provider ∷ known_moves ms
known_moves (peer ∷ ms) = peer ∷ known_moves ms
known_moves (customer ∷ ms) = customer ∷ known_moves ms

-- The one move at the top of the path, if there is any.
abbrev pub turn_moves : Option RelStatus → List RelStatus
turn_moves none = []
turn_moves (some m) = m ∷ []

abbrev pub IsTurn : Option RelStatus → Type 0
IsTurn turn = (turn ≡ none) ⊎ ((turn ≡ some peer) ⊎ (turn ≡ some customer))

abbrev pub IsDescent : List RelStatus → Type 0
IsDescent ms = (downs : ℕ) × (known_moves ms ≡ replicate downs customer)

-- A climb, then at most one turn, then a descent.
abbrev pub IsValleyFree : List RelStatus → Type 0
IsValleyFree ms =
    (ups : ℕ) × (turn : Option RelStatus) × (downs : ℕ) × IsTurn turn
    × (known_moves ms ≡ replicate ups provider ++ (turn_moves turn ++ replicate downs customer))

-- The number of moves after the first one that breaks the shape.
unfoldable pub scan : WalkPhase → List RelStatus → Option ℕ
scan phase [] = none
scan phase (sibling ∷ ms) = scan phase ms
scan phase (unknown ∷ ms) = scan phase ms
scan up (provider ∷ ms) = scan up ms
scan down (provider ∷ ms) = some (length ms)
scan up (peer ∷ ms) = scan down ms
scan down (peer ∷ ms) = some (length ms)
scan phase (customer ∷ ms) = scan down ms

scan_down-IsDescent : (ms : List RelStatus) → scan down ms ≡ none → IsDescent ms
unfolding scan
scan_down-IsDescent [] h = (0, refl)
scan_down-IsDescent (sibling ∷ ms) h = scan_down-IsDescent ms h
scan_down-IsDescent (unknown ∷ ms) h = scan_down-IsDescent ms h
scan_down-IsDescent (provider ∷ ms) h = cc
scan_down-IsDescent (peer ∷ ms) h = cc
scan_down-IsDescent (customer ∷ ms) h =
    let (downs, e) = scan_down-IsDescent ms h in (suc downs, ap (◌∷◌ customer) e)

IsDescent-scan_down :
    (ms : List RelStatus) (downs : ℕ)
    → known_moves ms ≡ replicate downs customer
    → scan down ms ≡ none
unfolding scan
IsDescent-scan_down [] downs e = refl
IsDescent-scan_down (sibling ∷ ms) downs e = IsDescent-scan_down ms downs e
IsDescent-scan_down (unknown ∷ ms) downs e = IsDescent-scan_down ms downs e
IsDescent-scan_down (provider ∷ ms) zero e = cc
IsDescent-scan_down (provider ∷ ms) (suc downs) e = cc
IsDescent-scan_down (peer ∷ ms) zero e = cc
IsDescent-scan_down (peer ∷ ms) (suc downs) e = cc
IsDescent-scan_down (customer ∷ ms) zero e = cc
IsDescent-scan_down (customer ∷ ms) (suc downs) e = IsDescent-scan_down ms downs (cc)

scan_up-IsValleyFree : (ms : List RelStatus) → scan up ms ≡ none → IsValleyFree ms
unfolding scan
scan_up-IsValleyFree [] h = (0, none, 0, inl refl, refl)
scan_up-IsValleyFree (sibling ∷ ms) h = scan_up-IsValleyFree ms h
scan_up-IsValleyFree (unknown ∷ ms) h = scan_up-IsValleyFree ms h
scan_up-IsValleyFree (provider ∷ ms) h =
    let (ups, turn, downs, t, e) = scan_up-IsValleyFree ms h in
    (suc ups, turn, downs, t, ap (◌∷◌ provider) e)
scan_up-IsValleyFree (peer ∷ ms) h =
    let (downs, e) = scan_down-IsDescent ms h in
    (0, some peer, downs, inr (inl refl), ap (◌∷◌ peer) e)
scan_up-IsValleyFree (customer ∷ ms) h =
    let (downs, e) = scan_down-IsDescent ms h in
    (0, some customer, downs, inr (inr refl), ap (◌∷◌ customer) e)

-- After a turn that is no climb the rest of the list is a descent.
IsValleyFree-scan_up :
    (ms : List RelStatus) (ups : ℕ) (turn : Option RelStatus) (downs : ℕ)
    → IsTurn turn
    → known_moves ms ≡ replicate ups provider ++ (turn_moves turn ++ replicate downs customer)
    → scan up ms ≡ none
unfolding scan
IsValleyFree-scan_up [] ups turn downs t e = refl
IsValleyFree-scan_up (sibling ∷ ms) ups turn downs t e = IsValleyFree-scan_up ms ups turn downs t e
IsValleyFree-scan_up (unknown ∷ ms) ups turn downs t e = IsValleyFree-scan_up ms ups turn downs t e
IsValleyFree-scan_up (provider ∷ ms) (suc ups) turn downs t e =
    IsValleyFree-scan_up ms ups turn downs t (cc)
IsValleyFree-scan_up (provider ∷ ms) zero none zero t e = cc
IsValleyFree-scan_up (provider ∷ ms) zero none (suc downs) t e = cc
IsValleyFree-scan_up (provider ∷ ms) zero (some m) downs t e = ground arith
IsValleyFree-scan_up (peer ∷ ms) (suc ups) turn downs t e = cc
IsValleyFree-scan_up (peer ∷ ms) zero none zero t e = cc
IsValleyFree-scan_up (peer ∷ ms) zero none (suc downs) t e = cc
IsValleyFree-scan_up (peer ∷ ms) zero (some m) downs t e = IsDescent-scan_down ms downs (cc)
IsValleyFree-scan_up (customer ∷ ms) (suc ups) turn downs t e = cc
IsValleyFree-scan_up (customer ∷ ms) zero none zero t e = cc
IsValleyFree-scan_up (customer ∷ ms) zero none (suc downs) t e = IsDescent-scan_down ms downs (cc)
IsValleyFree-scan_up (customer ∷ ms) zero (some m) downs t e = IsDescent-scan_down ms downs (cc)

-- The recogniser accepts exactly the shape.
pub scan_iff : (ms : List RelStatus) → (scan up ms ≡ none) ↔ IsValleyFree ms
scan_iff ms = (scan_up-IsValleyFree ms, λ s. IsValleyFree-scan_up ms s.0 s.1 s.2 s.3 s.4)
