-- ===== src/Sources/Built.antt =====
-- What the parts of replaySources of server/sources.go are, and what stops it; the replay itself.
use mathlib.Core.Path.{subst}
use Prim.Native.String.{String, ◌++◌}
use bgpulse.Base.{
  ◌≡◌, ◌≢◌, refl, sym, arith, Bool, true, false, Option, none, some, List, [], ◌∷◌, ◌⊎◌, inl, inr,
  if◌then◌else◌, Bool-cases, Option-cases,
}
use bgpulse.Base.Text.{is_empty}
use bgpulse.Bgp.Types.{UpdateEvent}
use bgpulse.Bgp.Net.{Prefix}
use bgpulse.Relationships.{RelStore}
use bgpulse.Relationships.Loading as Caida
use bgpulse.Relationships.Loading.{load_caida}
use bgpulse.Relationships.Loading.Outcome.{IsOutcome}
use bgpulse.Rpki as Rpki
use bgpulse.Rpki.{VrpStore}
use bgpulse.Rpki.Loading as Vrps
use bgpulse.Rpki.Loading.{RoaValue, RoaJson, decode_export, load_vrps_json, new_live}
use bgpulse.Rpki.Loading.Outcome.{IsParsed, Ends}
use bgpulse.Rtr.Session.{Client, new_client}
use bgpulse.Mrt.{MrtMessage, decode_stream, new_replay}
use bgpulse.Mrt.Events as Events
use bgpulse.Mrt.Decoded.{AreReported, decode_stream-AreReported}
use bgpulse.Sources.{
  Inputs, Source, replay, SourceError, unknown_mode, bad_mrt, no_asrel_file, no_vrp_file, bad_asrel,
  bad_vrps, Result, ok, err, lost, ◌>>=◌, replay_of, replay_source,
}

-- A result that returns: a value with the first property, or an error with the second.
abbrev pub Returns : {A : Type 0} → (A → Type 0) → (SourceError → Type 0) → Result A → Type 0
Returns P C (ok a) = P a
Returns P C (err e) = C e
Returns P C lost = ⊥

pub Returns-bind :
    {A B : Type 0} (P : A → Type 0) (Q : B → Type 0) (C : SourceError → Type 0) (r : Result A)
    (f : A → Result B)
    → Returns P C r
    → ((a : A) → P a → Returns Q C (f a))
    → Returns Q C (r >>= f)
Returns-bind P Q C (ok a) f h k = k a h
Returns-bind P Q C (err e) f h k = h
Returns-bind P Q C lost f h k = h

-- The file that the configuration names, or the sample.
abbrev pub chosen : {A : Type 0} → String → A → (String → Option A) → Option A
chosen path sample open_file = if is_empty path then some sample else open_file path

pub Returns-eq :
    {A : Type 0} (P : A → Type 0) (C : SourceError → Type 0) (r r' : Result A)
    → r ≡ r'
    → Returns P C r
    → Returns P C r'
Returns-eq P C r r' e h = subst (Returns P C) e h

-- Where the named file cannot be opened, where it can, and where the sample is taken.
pub chosen-cases :
    {A : Type 0} (path : String) (sample : A) (open_file : String → Option A)
    → ((is_empty path ≡ true) × (chosen path sample open_file ≡ some sample))
      ⊎ ((is_empty path ≡ false)
          × (((open_file path ≡ none) × (chosen path sample open_file ≡ none))
              ⊎ ((file : A) × (open_file path ≡ some file)
                  × (chosen path sample open_file ≡ some file))))
chosen-cases path sample open_file = elim (Bool-cases (is_empty path)) [
  | inl e ↦ inl (e, rw e refl)
  | inr e ↦ inr (
    e,
    (elim (Option-cases (open_file path)) [
      | inl m ↦ inl (m, rw (e, m) refl)
      | inr (file, m) ↦ inr (file, m, rw (e, m) refl)
    ]),
  )
]

module _ {S N F : Type 0} (inputs : Inputs S N F) where
  open inputs use {parse_nlri, parse_prefix, files, cfg}

  -- A replay of the events of a dump, not none; the sample is replayed over and over.
  abbrev pub IsReplay : Source S → Type 0
  IsReplay s =
      (records : List (Option (MrtMessage N))) × (evs : List UpdateEvent) × (chosen cfg.mrt_file
          files.sample_mrt files.mrt
        ≡ some (false, records))
      × (s ≡ replay evs (is_empty cfg.mrt_file))
      × (evs ≢ [])
      × AreReported parse_nlri records evs

  -- The store answers what the lines say.
  abbrev pub IsRelStore : RelStore → Type 0
  IsRelStore s =
      (lines : List String) × (failed : Bool) × (chosen cfg.asrel_file files.sample_asrel
          files.asrel
        ≡ some (lines, failed))
      × IsOutcome lines failed (Caida.loaded s)

  -- An empty live store with a client of the cache, or the store of the entries.
  abbrev pub IsValidator : VrpStore → Option (String × Client) → Type 0
  IsValidator s client =
      ((is_empty cfg.rtr_addr ≡ false)
        × (s ≡ new_live none)
        × (client ≡ some (cfg.rtr_addr, new_client s)))
      ⊎ ((is_empty cfg.rtr_addr ≡ true)
          × (client ≡ none)
          × (values : List RoaValue) × (roas : List RoaJson) × (chosen cfg.vrp_file
                files.sample_vrps files.vrps
              ≡ some (some values))
          × (decode_export values ≡ some roas)
          × Ends parse_prefix Rpki.new_builder 0 roas (Vrps.loaded s))

  -- What an error says of the chosen file.
  abbrev pub IsCause : SourceError → Type 0
  IsCause unknown_mode = ⊥
  IsCause bad_mrt =
      (chosen cfg.mrt_file files.sample_mrt files.mrt ≡ none)
      ⊎ ((failed : Bool) × (records : List (Option (MrtMessage N))) × (chosen cfg.mrt_file
              files.sample_mrt files.mrt
            ≡ some (failed, records))
          × ((failed ≡ true) ⊎ AreReported parse_nlri records []))
  IsCause no_asrel_file = chosen cfg.asrel_file files.sample_asrel files.asrel ≡ none
  IsCause (bad_asrel line e) =
      (lines : List String) × (failed : Bool) × (chosen cfg.asrel_file files.sample_asrel
          files.asrel
        ≡ some (lines, failed))
      × IsOutcome lines failed (Caida.failed line e)
  IsCause no_vrp_file = chosen cfg.vrp_file files.sample_vrps files.vrps ≡ none
  IsCause (bad_vrps e) =
      (entries : Option (List RoaValue)) × (chosen cfg.vrp_file files.sample_vrps files.vrps
        ≡ some entries)
      × (load_vrps_json parse_prefix entries ≡ Vrps.failed e)

module _ {S N F : Type 0} (inputs : Inputs S N F)
    (valid_nlri : (n : N) (p : Prefix) → inputs.parse_nlri n ≡ some p → Events.IsParsed p)
    (valid_prefix : (t : String) (p : Prefix) → inputs.parse_prefix t ≡ some p → IsParsed p) where
  open inputs use {rng, seeded, fuel, parse_nlri, parse_prefix, files, cfg}

  abbrev pub Fails : SourceError → Type 0
  Fails = IsCause inputs

  abbrev pub IsGoodReplay : Source S × String → Type 0
  IsGoodReplay x = IsReplay inputs x.0

  after_decode : Option (List UpdateEvent) → Bool → String → Result (Source S × String)
  after_decode o loop desc = elim (new_replay o) [
    | none ↦ err bad_mrt
    | some evs ↦ ok (replay evs loop, desc)
  ]

  decode_stream-failed :
      (records : List (Option (MrtMessage N))) → decode_stream parse_nlri true records ≡ none
  unfolding decode_stream
  decode_stream-failed records = refl

  after_decode-Returns :
      (records : List (Option (MrtMessage N))) (evs : List UpdateEvent) (desc : String)
      → chosen cfg.mrt_file files.sample_mrt files.mrt ≡ some (false, records)
      → AreReported parse_nlri records evs
      → Returns IsGoodReplay Fails (after_decode (some evs) (is_empty cfg.mrt_file) desc)
  unfolding new_replay after_decode
  after_decode-Returns records [] desc c w = inr (false, records, c, inr w)
  after_decode-Returns records (ev ∷ evs) desc c w = (records, ev ∷ evs, c, refl, (λ e. cc), w)

  replay_of-Returns :
      (dump : Bool × List (Option (MrtMessage N))) (desc : String)
      → chosen cfg.mrt_file files.sample_mrt files.mrt ≡ some dump
      → Returns IsGoodReplay Fails (replay_of inputs dump (is_empty cfg.mrt_file) desc)
  unfolding new_replay after_decode
  replay_of-Returns (true, records) desc c =
      subst (λ o. Returns IsGoodReplay Fails (after_decode o (is_empty cfg.mrt_file) desc))
        (sym (decode_stream-failed records)) (inr (true, records, c, inl refl))
  replay_of-Returns (false, records) desc c =
      let (evs, made, reported) = decode_stream-AreReported parse_nlri valid_nlri records in
      subst (λ o. Returns IsGoodReplay Fails (after_decode o (is_empty cfg.mrt_file) desc))
        (sym made) (after_decode-Returns records evs desc c reported)

  pub replay_source-Returns : Returns IsGoodReplay Fails (replay_source inputs)
  unfolding replay_source
  replay_source-Returns = elim (chosen-cases cfg.mrt_file files.sample_mrt files.mrt) [
    | inl (e, c) ↦
        Returns-eq IsGoodReplay Fails
          (replay_of inputs files.sample_mrt (is_empty cfg.mrt_file) "mrt:bundled-sample") _
          (ground arith) (replay_of-Returns files.sample_mrt "mrt:bundled-sample" c)
    | inr (e, (inl (m, c))) ↦ Returns-eq IsGoodReplay Fails (err bad_mrt) _ (ground arith) (inl c)
    | inr (e, (inr (dump, m, c))) ↦
        Returns-eq IsGoodReplay Fails
          (replay_of inputs dump (is_empty cfg.mrt_file) ("mrt:" ++ cfg.mrt_file)) _ (ground arith)
          (replay_of-Returns dump ("mrt:" ++ cfg.mrt_file) c)
  ]
