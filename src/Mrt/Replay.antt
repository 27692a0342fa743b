-- ===== src/Mrt/Replay.antt =====
-- The replay of mrt/replay.go: what it sends, pass after pass, and how it numbers it.
use mathlib.Core.List.{map-append}
use bgpulse.Base.{
  ℕ, zero, suc, ◌+◌, ◌*◌, ◌^◌, ◌<◌, ◌≡◌, refl, ap, sym, ◌∙◌, arith, List, [], ◌∷◌, ◌++◌, map,
  length, length-append, inc64,
}
use bgpulse.Bgp.Types.{UpdateEvent, EventId}
use bgpulse.Mrt.{replay_pass, after_pass, replay_passes}

-- Counting from 1 upward, `n` numbers.
abbrev pub count_from : ℕ → ℕ → List ℕ
count_from k zero = []
count_from k (suc n) = k ∷ count_from (k + 1) n

-- The list, a number of times.
abbrev pub times_over : {A : Type 0} → ℕ → List A → List A
times_over zero xs = []
times_over (suc n) xs = xs ++ times_over n xs

-- The event without the ID and the number that a replay sets.
abbrev pub unnumbered : UpdateEvent → UpdateEvent
unnumbered ev = record ev { id = record { tag = ""; seq = 0 }; seq = 0 }

abbrev pub numbered_id : UpdateEvent → EventId
numbered_id ev = record { tag = "mrt"; seq = ev.seq }

-- The events `sent` are those of `evs`, numbered in turn after `seq`, each with its number in its
-- ID, and every other field as it was decoded.
pub record IsReplay (seq : ℕ) (evs sent : List UpdateEvent) : Type 0 where
  pub numbers : map (λ ev. ev.seq) sent ≡ count_from (seq + 1) (length evs)
  pub ids : map (λ ev. ev.id) sent ≡ map numbered_id sent
  pub contents : map unnumbered sent ≡ map unnumbered evs

count_from-append :
    (k n m : ℕ) {t j : ℕ}
    → t ≡ n + m
    → j ≡ k + n
    → count_from k t ≡ count_from k n ++ count_from j m
count_from-append k zero m {t} {j} p q =
    ap (λ i. count_from k i) (let e : t ≡ m = omega arith in e)
    ∙ ap (λ i. count_from i m) (let e : k ≡ j = omega arith in e)
count_from-append k (suc n) m {t} {j} p q =
    ap (λ t. count_from k t) (let e : t ≡ suc (n + m) = omega arith in e)
    ∙ ap (λ l. k ∷ l)
        (count_from-append (k + 1) n m refl (let e : j ≡ (k + 1) + n = omega arith in e))

IsReplay-append :
    (seq : ℕ) (xs ys s t : List UpdateEvent)
    → IsReplay seq xs s
    → IsReplay (seq + length xs) ys t
    → IsReplay seq (xs ++ ys) (s ++ t)
IsReplay-append seq xs ys s t a b = record {
  numbers =
      map-append (λ ev. ev.seq) s t
      ∙ (ap (λ l. l ++ map (λ ev. ev.seq) t) a.numbers
          ∙ (ap (λ l. count_from (seq + 1) (length xs) ++ l) b.numbers
              ∙ sym (
                  count_from-append (seq + 1) (length xs) (length ys) (length-append xs ys)
                    (let q : (seq + length xs) + 1 ≡ (seq + 1) + length xs = omega arith in q))));
  ids =
      map-append (λ ev. ev.id) s t
      ∙ (ap (λ l. l ++ map (λ ev. ev.id) t) a.ids
          ∙ (ap (λ l. map numbered_id s ++ l) b.ids ∙ sym (map-append numbered_id s t)));
  contents =
      map-append unnumbered s t
      ∙ (ap (λ l. l ++ map unnumbered t) a.contents
          ∙ (ap (λ l. map unnumbered xs ++ l) b.contents ∙ sym (map-append unnumbered xs ys)));
}

replay_pass-IsReplay :
    (seq : ℕ) (evs : List UpdateEvent)
    → seq + length evs < 2 ^ 64
    → IsReplay seq evs (replay_pass seq evs) × (after_pass seq evs ≡ seq + length evs)
unfolding replay_pass after_pass
replay_pass-IsReplay seq [] h =
    (record { numbers = refl; ids = refl; contents = refl }, omega arith)
replay_pass-IsReplay seq (ev ∷ evs) h =
    let step : inc64 seq ≡ seq + 1 = ground arith in
    let (r, last) = replay_pass-IsReplay (seq + 1) evs (omega arith) in
    rw step (
      record {
        numbers = ap (λ l. (seq + 1) ∷ l) r.numbers;
        ids = ap (λ l. record { tag = "mrt"; seq = seq + 1 } ∷ l) r.ids;
        contents = ap (λ l. unnumbered ev ∷ l) r.contents;
      },
      last ∙ (let q : seq + 1 + length evs ≡ seq + suc (length evs) = omega arith in q),
    )

-- After any number of passes over the decoded events, as long as the numbers stay below 2^64, the
-- replay has sent the events over and over in their order, numbered without a gap from the first,
-- each with its number in its ID and every other field as it was decoded.
pub replay_passes-IsReplay :
    (n seq : ℕ) (evs : List UpdateEvent)
    → seq + n * length evs < 2 ^ 64
    → IsReplay seq (times_over n evs) (replay_passes n seq evs)
unfolding replay_passes
replay_passes-IsReplay zero seq evs h = record { numbers = refl; ids = refl; contents = refl }
replay_passes-IsReplay (suc n) seq evs h =
    let (now, last) = replay_pass-IsReplay seq evs (omega arith) in
    let later = replay_passes-IsReplay n (seq + length evs) evs (omega arith) in
    rw last (
      IsReplay-append seq evs (times_over n evs) (replay_pass seq evs)
        (replay_passes n (seq + length evs) evs) now later)
