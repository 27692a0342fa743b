-- ===== src/Synth/Next.antt =====
-- Next of synth/generator.go: it always makes an event, numbers it and gives it a later time, and
-- the demo's classifier sees in the event what the scenario meant.
use bgpulse.Base.{
  ℕ, zero, suc, ◌+◌, ◌*◌, ◌^◌, ◌%◌, ◌-◌, ◌≤◌, ◌<◌, ◌≡◌, refl, ap, arith, ◌⊎◌, inl, inr, Bool, true,
  false, Option, none, some, List, [], ◌∷◌, ◌++◌, ◌==◌, ltb, leb, length, length-append,
  length-drop, if◌then◌else◌, Bool-cases, ◌&&◌, inc64, max, take, drop,
}
use bgpulse.Bgp.Types.{VfStatus, announce, withdraw, UpdateEvent, UpdateKind}
use bgpulse.Classify.{neutral}
use bgpulse.Classify.Precedence.{classify-withdraw}
use bgpulse.Synth.{Rng, SynthTopology, element}
use bgpulse.Synth.World.{IsWorld}
use bgpulse.Synth.Scenarios.{verdict_on, IsCaught, IsHonest, IsForged}
use bgpulse.Synth.Stream.{Makes, make_announce-Makes, make_leak-Makes, make_hijack-Makes}
use bgpulse.Synth.Generator.{
  GenConfig, Generator, RecentAnn, next, next_event, next_normal, make_announce, make_withdraw,
  withdraw_event, with_recent, stamped, remember, recent_cap, min_recent_for_wd,
}

-- The guard of the first case of the `switch`.
abbrev pub leak_turn : GenConfig → ℕ → Bool
leak_turn cfg seq = ltb 0 cfg.leak_every && seq % cfg.leak_every == 0

length-take_le :
    {A : Type 0} (n : ℕ) (xs : List A) → (length (take n xs) ≤ length xs) × (length (take n xs) ≤ n)
length-take_le zero xs = (omega arith, omega arith)
length-take_le (suc n) [] = (omega arith, omega arith)
length-take_le (suc n) (x ∷ xs) =
    let (short, few) = length-take_le n xs in (omega arith, omega arith)

length-remember : (ev : UpdateEvent) (l : List RecentAnn) → length (remember ev l) ≤ recent_cap
unfolding remember
length-remember ev l =
    let longer = l ++ (record { prefix = ev.prefix; peer_as = ev.peer_as } ∷ []) in
    elim (Bool-cases (ltb recent_cap (length longer))) [
      | inl e ↦ rw e (omega (arith, length-drop (length longer - recent_cap) longer))
      | inr e ↦ rw e (ground (arith, e))
    ]

module _ {S : Type 0} (rng : Rng S) (t : SynthTopology) where
  -- A leak by AS 2001, a forged origin that is caught, an honest announcement, or a withdrawal that
  -- passes as it is.
  abbrev pub IsGenerated : UpdateEvent → Type 0
  IsGenerated ev =
      IsCaught t ev VfStatus.leak 2001
      ⊎ (IsForged t ev
          ⊎ (IsHonest t ev ⊎ ((ev.kind ≡ withdraw) × (verdict_on t ev ≡ some (neutral ev)))))

  -- The event that the `switch` chooses.
  record Chooses (well : UpdateEvent → Type 0) (recent : List RecentAnn)
      (r : Option (UpdateEvent × List RecentAnn × S)) : Type 0 where
    ev : UpdateEvent
    kept : List RecentAnn
    rest : S
    made : r ≡ some (ev, kept, rest)
    is_well : (n c : ℕ) → well (stamped n c ev)
    fewer : length kept ≤ length recent

  Makes-Chooses :
      (well well' : UpdateEvent → Type 0) (recent : List RecentAnn) {r : Option (UpdateEvent × S)}
      → ((ev : UpdateEvent) → well ev → well' ev)
      → Makes well r
      → Chooses well' recent (with_recent recent r)
  Makes-Chooses well well' recent f m = record {
    ev = m.ev;
    kept = recent;
    rest = m.rest;
    made = ap (with_recent recent) m.made;
    is_well = λ n c. f (stamped n c m.ev) (m.is_well n c);
    fewer = omega arith;
  }

  module _ (w : IsWorld t) where
    make_withdraw-Chooses :
        (recent : List RecentAnn) (s : S)
        → leb min_recent_for_wd (length recent) ≡ true
        → Chooses IsGenerated recent (make_withdraw rng t.graph recent s)
    unfolding make_withdraw
    make_withdraw-Chooses [] s h = absurd (ground arith)
    make_withdraw-Chooses (r ∷ rs) s h =
        let (i, s') = rng.int_n s (length (r ∷ rs)) in
        let (short, few) = length-take_le i (r ∷ rs) in
        record {
          ev = withdraw_event (element r rs i);
          kept = take i (r ∷ rs) ++ drop (i + 1) (r ∷ rs);
          rest = s';
          made = refl;
          is_well = λ n c. inr (
              inr (
                inr (
                  refl,
                  classify-withdraw _ _ (stamped n c (withdraw_event (element r rs i))) refl,
                )));
          fewer = omega (
            arith,
            length-append (take i (r ∷ rs)) (drop (i + 1) (r ∷ rs)),
            length-drop (i + 1) (r ∷ rs),
            short,
            few,
          );
        }

    honest-Chooses :
        (recent : List RecentAnn) (s : S)
        → Chooses IsGenerated recent (with_recent recent (make_announce rng t.graph s))
    honest-Chooses recent s =
        Makes-Chooses (IsHonest t) IsGenerated recent (λ ev h. inr (inr (inl h)))
          (make_announce-Makes rng t w s)

    Chooses-if :
        (well : UpdateEvent → Type 0) (recent : List RecentAnn) (b : Bool)
        {r r' : Option (UpdateEvent × List RecentAnn × S)}
        → (b ≡ true → Chooses well recent r)
        → (b ≡ false → Chooses well recent r')
        → Chooses well recent (if b then r else r')
    Chooses-if well recent true p q = p refl
    Chooses-if well recent false p q = q refl

    next_normal-Chooses :
        (cfg : GenConfig) (recent : List RecentAnn) (s : S)
        → Chooses IsGenerated recent (next_normal rng t.graph cfg recent s)
    unfolding next_normal
    next_normal-Chooses cfg recent s =
        let (hit, s') = rng.below s cfg.withdraw_prob in
        Chooses-if IsGenerated recent (leb min_recent_for_wd (length recent))
          (λ e.
            Chooses-if IsGenerated recent hit (λ _. make_withdraw-Chooses recent s' e)
              (λ _. honest-Chooses recent s'))
          (λ _. honest-Chooses recent s)

    -- On a turn for a leak the event is one.
    abbrev pub OnTurn : GenConfig → ℕ → UpdateEvent → Type 0
    OnTurn cfg seq ev =
        IsGenerated ev × ((leak_turn cfg seq ≡ false) ⊎ IsCaught t ev VfStatus.leak 2001)

    next_event-Chooses :
        (cfg : GenConfig) (seq : ℕ) (recent : List RecentAnn) (s : S)
        → Chooses (OnTurn cfg seq) recent (next_event rng t.graph cfg seq recent s)
    unfolding next_event
    next_event-Chooses cfg seq recent s =
        Chooses-if (OnTurn cfg seq) recent (leak_turn cfg seq)
          (λ e.
            Makes-Chooses (λ ev. IsCaught t ev VfStatus.leak 2001) (OnTurn cfg seq) recent
              (λ ev h. (inl h, inr h)) (make_leak-Makes rng t w s))
          (λ e.
            Chooses-if (OnTurn cfg seq) recent
              (ltb 0 cfg.hijack_every && seq % cfg.hijack_every == 0)
              (λ _.
                Makes-Chooses (λ ev. IsForged t ev ⊎ IsHonest t ev) (OnTurn cfg seq) recent
                  (λ ev h. (forged ev h, inl e)) (make_hijack-Makes rng t w s))
              (λ _. weaken e (next_normal-Chooses cfg recent s)))
      where
        forged : (ev : UpdateEvent) → IsForged t ev ⊎ IsHonest t ev → IsGenerated ev
        forged ev (inl h) = inr (inl h)
        forged ev (inr h) = inr (inr (inl h))

        weaken :
            leak_turn cfg seq ≡ false
            → {r : Option (UpdateEvent × List RecentAnn × S)} → Chooses IsGenerated recent r
            → Chooses (OnTurn cfg seq) recent r
        weaken e c = record {
          ev = c.ev;
          kept = c.kept;
          rest = c.rest;
          made = c.made;
          is_well = λ n k. (c.is_well n k, inl e);
          fewer = c.fewer;
        }

    -- What a call of Next returns.
    pub record Emits (cfg : GenConfig) (g : Generator S) (r : Option (UpdateEvent × Generator S))
        : Type 0 where
      pub ev : UpdateEvent
      pub after : Generator S
      pub made : r ≡ some (ev, after)
      pub generated : IsGenerated ev
      pub on_turn : (leak_turn cfg after.seq ≡ false) ⊎ IsCaught t ev VfStatus.leak 2001
      pub counted : (after.seq ≡ inc64 g.seq) × (ev.seq ≡ after.seq)
      pub later : (g.clock < after.clock) × (ev.timestamp ≡ after.clock)
      pub bounded : length after.recent ≤ max (length g.recent) recent_cap

    abbrev kept_of : UpdateEvent → List RecentAnn → List RecentAnn
    kept_of ev l = elim ev.kind [ announce ↦ remember ev l | withdraw ↦ l ]

    length-kept_of :
        (ev : UpdateEvent) (l : List RecentAnn) → length (kept_of ev l) ≤ max (length l) recent_cap
    length-kept_of ev l = go ev.kind
      where
        go :
            (k : UpdateKind)
            → length (elim k as (λ _. List RecentAnn) [ announce ↦ remember ev l | withdraw ↦ l ])
              ≤ max (length l) recent_cap
        go announce = omega (arith, length-remember ev l)
        go withdraw = omega arith

    -- On the demo topology every call of Next makes an event, with the next sequence number and a
    -- later time, and keeps at most 256 announcements unless it had more. The demo's own classifier
    -- sees in the event what was meant: a leak by AS 2001, which a turn for a leak always is, a
    -- hijack by an origin that does not own the prefix, an announcement by its owner that is
    -- neither, or a withdrawal passed on as it is.
    pub next-Emits : (cfg : GenConfig) (g : Generator S) → Emits cfg g (next rng t.graph cfg g)
    unfolding next
    next-Emits cfg g =
        let seq = inc64 g.seq in
        let (ms, s) = rng.int_n g.rng 160 in
        let clock = g.clock + (40 + ms) * 10 ^ 6 in
        let c = next_event-Chooses cfg seq g.recent s in
        let (generated, on_turn) = c.is_well seq clock in
        let ev = stamped seq clock c.ev in
        record {
          ev = ev;
          after = record { rng = c.rest; seq = seq; clock = clock; recent = kept_of ev c.kept };
          made =
              ap
                (λ r. elim r as (λ _. Option (UpdateEvent × Generator S)) [
                  | none ↦ none
                  | some (e, kept, s') ↦ some (
                    stamped seq clock e,
                    record {
                      rng = s';
                      seq = seq;
                      clock = clock;
                      recent = kept_of (stamped seq clock e) kept;
                    },
                  )
                ])
                c.made;
          generated = generated;
          on_turn = on_turn;
          counted = (refl, refl);
          later = (omega arith, refl);
          bounded = omega (arith, length-kept_of ev c.kept, c.fewer);
        }
