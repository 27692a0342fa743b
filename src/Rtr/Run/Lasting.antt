-- ===== src/Rtr/Run/Lasting.antt =====
-- What `Run` of rtr/client.go keeps over its sessions, and when it returns.
use bgpulse.Base.{
  ℕ, zero, suc, ◌≡◌, ◌∙◌, refl, sym, ap, arith, ◌+◌, ◌^◌, min, Bool, false, ◌||◌, List, [], ◌∷◌,
}
use mathlib.Core.Path.{subst}
use bgpulse.Rtr.Session.{Client}
use bgpulse.Rtr.Session.Safety.{IsSound, IsReceived}
use bgpulse.Rtr.Run.{
  next_backoff, backoff, Round, Phase, cancelled, gave_up, serving, reconnecting, crashed, round,
  run_rounds, run_client,
}
use bgpulse.Rtr.Run.Backoff.{backoff-eq}
use bgpulse.Rtr.Run.Breaks.{reports_fatal}
use bgpulse.Rtr.Run.Phases.{IsLasting, weaker, round-IsLasting}

-- What the attempts of all rounds bring carries prefixes as readPDU makes them.
abbrev pub AllRounds : List Round → Type 0
AllRounds [] = Unit
AllRounds (r ∷ rs) = IsReceived r.attempt × AllRounds rs

-- A connection of some round reports that it does not know the version.
unfoldable pub some_report : List Round → Bool
some_report [] = false
some_report (r ∷ rs) = reports_fatal r.attempt || some_report rs

-- The first waits: 1, 2, 4, 8, 16 and then always 32 seconds.
unfoldable pub doublings : ℕ → ℕ → List ℕ
doublings k zero = []
doublings k (suc n) = 2 ^ min k 5 ∷ doublings (suc k) n

-- A run from the wait with the number `k` that has waited the next waits of the sequence.
pub record Lasts (k : ℕ) (rounds : List Round) (out : List ℕ × Phase) : Type 0 where
  pub count : ℕ
  pub waits : out.0 ≡ doublings k count
  pub phase : IsLasting (some_report rounds) (2 ^ min (k + count) 5) out.1

-- The rounds behind one after which Run connects once more.
then-Lasts :
    (k : ℕ) (r : Round) (rs : List Round) (c : Client) (wait : ℕ)
    → wait ≡ 2 ^ min k 5
    → Lasts (suc k) rs (run_rounds c (2 ^ min (suc k) 5) rs)
    → (next : ℕ) → next ≡ 2 ^ min (suc k) 5
    → Lasts k (r ∷ rs) (let (waits, end) = run_rounds c next rs in (wait ∷ waits, end))
unfolding doublings some_report
then-Lasts k r rs c wait e rest next d =
    subst (λ n. Lasts k (r ∷ rs) (let (waits, end) = run_rounds c n rs in (wait ∷ waits, end)))
      (sym d)
      (record {
        count = suc rest.count;
        waits = cc (e, rest.waits);
        phase = weaker (reports_fatal r.attempt) (some_report rs) _ _ (
            subst
              (λ n.
                IsLasting (some_report rs) (2 ^ min n 5) ((run_rounds c (2 ^ min (suc k) 5) rs).1))
              (let q : suc k + rest.count ≡ k + suc rest.count = omega arith in q) rest.phase);
      })

pub next_backoff-eq : (k wait : ℕ) → wait ≡ 2 ^ min k 5 → next_backoff wait ≡ 2 ^ min (suc k) 5
unfolding backoff
next_backoff-eq k wait e = ap next_backoff (e ∙ sym (backoff-eq k)) ∙ backoff-eq (suc k)

-- What Run makes of the phase behind a round.
then-rounds :
    (k : ℕ) (c : Client) (wait : ℕ) (r : Round) (rs : List Round)
    → wait ≡ 2 ^ min k 5
    → ((c' : Client) → IsSound c' → Lasts (suc k) rs (run_rounds c' (2 ^ min (suc k) 5) rs))
    → (p : Phase) → IsLasting (reports_fatal r.attempt) (next_backoff wait) p
    → Lasts k (r ∷ rs) (elim p [
      | reconnecting c' next ↦ (let (waits, end) = run_rounds c' next rs in (wait ∷ waits, end))
      | cancelled c' ↦ ([], cancelled c')
      | gave_up c' text ↦ ([], gave_up c' text)
      | serving c' s ↦ ([], serving c' s)
      | crashed ↦ ([], crashed)
    ])
unfolding doublings some_report
then-rounds k c wait r rs e rest (reconnecting c' next) p =
    then-Lasts k r rs c' wait e (rest c' p.0) next (p.1 ∙ next_backoff-eq k wait e)
then-rounds k c wait r rs e rest (cancelled c') p = record { count = 0; waits = refl; phase = p }
then-rounds k c wait r rs e rest (gave_up c' text) p = record {
  count = 0;
  waits = refl;
  phase = (p.0, ground (arith, p.1));
}
then-rounds k c wait r rs e rest (serving c' s) p = record { count = 0; waits = refl; phase = p }
then-rounds k c wait r rs e rest crashed p = absurd p

run_rounds-Lasts :
    (k : ℕ) (c : Client) (wait : ℕ) (rs : List Round)
    → wait ≡ 2 ^ min k 5
    → IsSound c
    → AllRounds rs
    → Lasts k rs (run_rounds c wait rs)
unfolding run_rounds doublings some_report
run_rounds-Lasts k c wait [] e s d = record {
  count = 0;
  waits = refl;
  phase = (s, ground (arith, e));
}
run_rounds-Lasts k c wait (r ∷ rs) e s d =
    then-rounds k c wait r rs e
      (λ c' s'. run_rounds-Lasts (suc k) c' (2 ^ min (suc k) 5) rs refl s' d.1) (round c wait r)
      (round-IsLasting c wait r s d.0)

-- Over any rounds, whose arrivals carry prefixes as readPDU makes them, Run of a client that is
-- sound does not panic, and its client is always sound: its VRPs have valid prefixes, its reads a
-- deadline, and its live store has its tries in step with the VRPs of a builder. The waits that are
-- over are the first of 1, 2, 4, 8, 16, 32 and then always 32 seconds, the next one follows them,
-- and Run gives up only if some connection reports an unsupported version.
pub run_client-Lasts :
    (c : Client) (rounds : List Round)
    → IsSound c
    → AllRounds rounds
    → Lasts 0 rounds (run_client c rounds)
run_client-Lasts c rounds s d = run_rounds-Lasts 0 c 1 rounds refl s d
