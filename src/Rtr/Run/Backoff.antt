-- ===== src/Rtr/Run/Backoff.antt =====
-- The waits of `Run` in rtr/client.go.
use bgpulse.Base.{ℕ, zero, suc, ◌^◌, ◌≡◌, ◌∙◌, ap, refl, arith, min}
use bgpulse.Rtr.Run.{next_backoff, backoff}

backoff_late : (n : ℕ) → backoff (suc (suc (suc (suc (suc n))))) ≡ 32
unfolding backoff next_backoff
backoff_late zero = refl
backoff_late (suc n) = ground (arith, backoff_late n)

-- The waits double from 1 second up to 32 seconds, which is more than maxBackoff, and stay there.
pub backoff-eq : (n : ℕ) → backoff n ≡ 2 ^ min n 5
unfolding backoff next_backoff
backoff-eq zero = refl
backoff-eq (suc zero) = refl
backoff-eq (suc (suc zero)) = refl
backoff-eq (suc (suc (suc zero))) = refl
backoff-eq (suc (suc (suc (suc zero)))) = refl
backoff-eq (suc (suc (suc (suc (suc n))))) =
    backoff_late n
    ∙ ap (λ k. 2 ^ k) (let q : 5 ≡ min (suc (suc (suc (suc (suc n))))) 5 = ground arith in q)
