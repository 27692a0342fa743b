-- ===== src/Wshub/Clients.antt =====
-- The client set of wshub/hub.go as a table: its keys and its size.
use bgpulse.Base.{
  is_some, ℕ, suc, ◌+◌, ◌≡◌, refl, ap, arith, true, false, ◌||◌, List, [], ◌∷◌, ◌++◌, map, length,
  if◌then◌else◌, ℕ_discrete,
}
use bgpulse.Base.Table.{lookup, insert, delete, member, add, remove, IsDistinct}

module _ {V : Type 0} where
  abbrev pub keys : List (ℕ × V) → List ℕ
  keys m = map (λ e. e.0) m

  pub member-keys :
      (k : ℕ) (m : List (ℕ × V)) → member ℕ_discrete k (keys m) ≡ is_some (lookup ℕ_discrete k m)
  unfolding member lookup
  member-keys k [] = refl
  member-keys k ((j, v) ∷ m) = ground (arith, member-keys k m)

  pub keys-insert :
      (k : ℕ) (v : V) (m : List (ℕ × V))
      → keys (insert ℕ_discrete k v m) ≡ add ℕ_discrete k (keys m)
  unfolding insert add
  keys-insert k v [] = refl
  keys-insert k v ((j, w) ∷ m) = ground (arith, keys-insert k v m)

  pub keys-delete :
      (k : ℕ) (m : List (ℕ × V)) → keys (delete ℕ_discrete k m) ≡ remove ℕ_discrete k (keys m)
  unfolding delete remove
  keys-delete k [] = refl
  keys-delete k ((j, w) ∷ m) = ground (arith, keys-delete k m)

  pub length-keys : (m : List (ℕ × V)) → length (keys m) ≡ length m
  length-keys [] = refl
  length-keys (e ∷ m) = ap suc (length-keys m)

pub length-add :
    (k : ℕ) (s : List ℕ)
    → length (add ℕ_discrete k s) ≡ (if member ℕ_discrete k s then length s else length s + 1)
unfolding add member
length-add k [] = refl
length-add k (j ∷ s) = ground (arith, length-add k s)

length-remove_absent :
    (k : ℕ) (s : List ℕ) → member ℕ_discrete k s ≡ false → length (remove ℕ_discrete k s) ≡ length s
unfolding remove member
length-remove_absent k [] h = refl
length-remove_absent k (j ∷ s) h = ground (arith, length-remove_absent k s)

pub length-remove :
    (k : ℕ) (s : List ℕ)
    → IsDistinct ℕ_discrete s
    → member ℕ_discrete k s ≡ true
    → length (remove ℕ_discrete k s) + 1 ≡ length s
unfolding remove member
length-remove k [] d h = cc
length-remove k (j ∷ s) d h = ground (arith, length-remove k s d.1, length-remove_absent k s, d.0)

pub member-append :
    (k : ℕ) (s t : List ℕ)
    → member ℕ_discrete k (s ++ t) ≡ (member ℕ_discrete k s || member ℕ_discrete k t)
unfolding member
member-append k [] t = refl
member-append k (j ∷ s) t = ground (arith, member-append k s t)

pub append-IsDistinct :
    (s t : List ℕ)
    → IsDistinct ℕ_discrete s
    → IsDistinct ℕ_discrete t
    → ((k : ℕ) → member ℕ_discrete k s ≡ true → member ℕ_discrete k t ≡ false)
    → IsDistinct ℕ_discrete (s ++ t)
unfolding member
append-IsDistinct [] t d e f = e
append-IsDistinct (j ∷ s) t d e f = (
  ground (arith, member-append j s t, d.0, f j (ground arith)),
  append-IsDistinct s t d.1 e (λ k h. f k (ground arith)),
)
