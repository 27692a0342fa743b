-- ===== src/Base/Table.antt =====
-- Go's maps as association lists over keys with decidable equality. A `none` is a missing key.
use mathlib.Core.Path.{◌≡◌, refl}
use mathlib.Core.Logic.{ite, if_pos, if_neg}
use mathlib.Core.Bool.{Bool, true, false}
use mathlib.Core.List.{List, [], ◌∷◌}
use mathlib.Core.Option.{Option, none, some}
use native.Mathlib.Omega.{arith}

module _ {ℓ} {K V : Type ℓ} (dec : Discrete K) where
  unfoldable pub lookup : K → List (K × V) → Option V
  lookup k [] = none
  lookup k ((j, v) ∷ m) = ite (dec j k) (some v) (lookup k m)

  -- `m[k] = v`
  unfoldable pub insert : K → V → List (K × V) → List (K × V)
  insert k v [] = (k, v) ∷ []
  insert k v ((j, w) ∷ m) = ite (dec j k) ((k, v) ∷ m) ((j, w) ∷ insert k v m)

  -- `delete(m, k)`; every entry of `k` goes.
  unfoldable pub delete : K → List (K × V) → List (K × V)
  delete k [] = []
  delete k ((j, w) ∷ m) = let rest = delete k m in ite (dec j k) rest ((j, w) ∷ rest)

  pub lookup-insert :
      (k j : K) (v : V) (m : List (K × V))
      → lookup j (insert k v m) ≡ ite (dec k j) (some v) (lookup j m)
  unfolding lookup insert
  lookup-insert k j v [] = refl
  lookup-insert k j v ((i, w) ∷ m) = ground (arith, lookup-insert k j v m)

  pub lookup-delete :
      (k j : K) (m : List (K × V)) → lookup j (delete k m) ≡ ite (dec k j) none (lookup j m)
  unfolding lookup delete
  lookup-delete k j [] = ground arith
  lookup-delete k j ((i, w) ∷ m) = ground (arith, lookup-delete k j m)

-- A `map[K]struct{}`, as the list of its keys.
module _ {K : Type 0} (dec : Discrete K) where
  unfoldable pub member : K → List K → Bool
  member k [] = false
  member k (j ∷ s) = ite (dec j k) true (member k s)

  unfoldable pub add : K → List K → List K
  add k [] = k ∷ []
  add k (j ∷ s) = ite (dec j k) (j ∷ s) (j ∷ add k s)

  unfoldable pub remove : K → List K → List K
  remove k [] = []
  remove k (j ∷ s) = let rest = remove k s in ite (dec j k) rest (j ∷ rest)

  pub member-add : (k j : K) (s : List K) → member j (add k s) ≡ ite (dec k j) true (member j s)
  unfolding member add
  member-add k j [] = refl
  member-add k j (i ∷ s) = ground (arith, member-add k j s)

  pub member-remove :
      (k j : K) (s : List K) → member j (remove k s) ≡ ite (dec k j) false (member j s)
  unfolding member remove
  member-remove k j [] = ground arith
  member-remove k j (i ∷ s) = ground (arith, member-remove k j s)

  -- No key stands twice.
  abbrev pub IsDistinct : List K → Type 0
  IsDistinct [] = Unit
  IsDistinct (j ∷ s) = (member j s ≡ false) × IsDistinct s

  pub add-IsDistinct : (k : K) (s : List K) → IsDistinct s → IsDistinct (add k s)
  unfolding member add
  add-IsDistinct k [] d = (refl, tt)
  add-IsDistinct k (j ∷ s) d = elim (dec j k) [
    | yes p ↦ rw (if_pos (dec j k) p) d
    | no n ↦ rw (if_neg (dec j k) n) (ground (arith, member-add k j s), add-IsDistinct k s d.1)
  ]

  pub remove-IsDistinct : (k : K) (s : List K) → IsDistinct s → IsDistinct (remove k s)
  unfolding member remove
  remove-IsDistinct k [] d = tt
  remove-IsDistinct k (j ∷ s) d = elim (dec j k) [
    | yes p ↦ rw (if_pos (dec j k) p) (remove-IsDistinct k s d.1)
    | no n ↦
        rw (if_neg (dec j k) n) (ground (arith, member-remove k j s), remove-IsDistinct k s d.1)
  ]
