-- ===== src/Synth/Draws.antt =====
-- `pool[rng.IntN(len(pool))]`, of the whole synth package: what holds of a pool holds of a draw.
use bgpulse.Base.{◌≡◌, refl, List, [], ◌∷◌, All, All-get_or, ◌⊎◌, inl, inr}
use bgpulse.Synth.{Rng, draw}

pub draw-All :
    {A S : Type 0} (rng : Rng S) (P : A → Type 0) (x : A) (xs : List A) (s : S)
    → All P (x ∷ xs)
    → P (draw rng x xs s).0
unfolding draw
draw-All rng P x xs s h = All-get_or P (x ∷ xs) _ x h h.0

pub List-cases : {A : Type 0} (l : List A) → (l ≡ []) ⊎ ((x : A) × (xs : List A) × (l ≡ x ∷ xs))
List-cases [] = inl refl
List-cases (x ∷ xs) = inr (x, xs, refl)
