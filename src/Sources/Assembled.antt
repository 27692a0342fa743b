-- ===== src/Sources/Assembled.antt =====
-- The stores of replaySources of server/sources.go, and the sources as a whole.
use mathlib.Core.Path.{subst}
use Prim.Native.String.{String, ◌++◌}
use bgpulse.Base.{
  ◌≡◌, refl, ap, sym, ◌∙◌, arith, Bool, true, false, Option, none, some, List, ◌⊎◌, inl, inr,
  Bool-cases,
}
use bgpulse.Base.Text.{is_empty}
use bgpulse.Bgp.Net.{Prefix}
use bgpulse.Relationships.{RelStore}
use bgpulse.Relationships.Loading as Caida
use bgpulse.Relationships.Loading.{load_caida}
use bgpulse.Relationships.Loading.Outcome.{IsOutcome, load_caida-IsOutcome}
use bgpulse.Rpki as Rpki
use bgpulse.Rpki.{VrpStore}
use bgpulse.Rpki.Loading as Vrps
use bgpulse.Rpki.Loading.{RoaValue, RoaJson, decode_export, load_vrps_json, new_live}
use bgpulse.Rpki.Loading.Outcome.{IsParsed, Ends, load_vrps_json-Ends, Ends-ne-panicked}
use bgpulse.Rtr.Session.{Client, new_client}
use bgpulse.Mrt.Events as Events
use text.Mathlib.Text.{◌==◌ as same_text}
use text.Mathlib.TextEquality.{eq_iff}
use bgpulse.Config.{Speeds}
use bgpulse.Config.Accepted.{IsValid}
use bgpulse.Sources.{
  Inputs, Sources, SourceError, no_asrel_file, no_vrp_file, bad_asrel, bad_vrps, ok, err, lost,
  rel_of, vrps_of, replay_source, rel_store, vrp_validator, replay_sources, demo_sources,
  build_sources,
}
use bgpulse.Sources.Built.{
  Returns, Returns-bind, Returns-eq, chosen, chosen-cases, IsReplay, IsRelStore, IsValidator,
  IsCause, IsGoodReplay, replay_source-Returns,
}

module _ {S N F : Type 0} (inputs : Inputs S N F)
    (valid_nlri : (n : N) (p : Prefix) → inputs.parse_nlri n ≡ some p → Events.IsParsed p)
    (valid_prefix : (t : String) (p : Prefix) → inputs.parse_prefix t ≡ some p → IsParsed p) where
  open inputs use {rng, seeded, fuel, parse_nlri, parse_prefix, files, cfg}

  abbrev pub Fails : SourceError → Type 0
  Fails = IsCause inputs

  abbrev IsGoodStore : RelStore × String → Type 0
  IsGoodStore x = IsRelStore inputs x.0

  abbrev IsGoodValidator : VrpStore × Option (String × Client) × String → Type 0
  IsGoodValidator x = IsValidator inputs x.0 x.1

  rel_of-Returns :
      (lines : List String) (failed : Bool) (desc : String)
      → chosen cfg.asrel_file files.sample_asrel files.asrel ≡ some (lines, failed)
      → Returns IsGoodStore Fails (rel_of inputs (lines, failed) desc)
  rel_of-Returns lines failed desc c =
      go (load_caida lines failed) (load_caida-IsOutcome lines failed)
    where
      go :
          (r : Caida.Loaded)
          → IsOutcome lines failed r
          → Returns IsGoodStore Fails (elim r [
            | Caida.loaded s ↦ ok (s, desc)
            | Caida.failed line e ↦ err (bad_asrel line e)
          ])
      go (Caida.loaded s) w = (lines, failed, c, w)
      go (Caida.failed line e) w = (lines, failed, c, w)

  rel_store-Returns : Returns IsGoodStore Fails (rel_store inputs)
  unfolding rel_store
  rel_store-Returns = elim (chosen-cases cfg.asrel_file files.sample_asrel files.asrel) [
    | inl (e, c) ↦
        Returns-eq IsGoodStore Fails (rel_of inputs files.sample_asrel "bundled") _ (ground arith)
          (rel_of-Returns files.sample_asrel.0 files.sample_asrel.1 "bundled" c)
    | inr (e, (inl (m, c))) ↦ Returns-eq IsGoodStore Fails (err no_asrel_file) _ (ground arith) c
    | inr (e, (inr (file, m, c))) ↦
        Returns-eq IsGoodStore Fails (rel_of inputs file ("caida:" ++ cfg.asrel_file)) _
          (ground arith) (rel_of-Returns file.0 file.1 ("caida:" ++ cfg.asrel_file) c)
  ]

  -- What the loading of the chosen entries may give.
  abbrev IsLoad : Option (List RoaValue) → Vrps.Loaded → Type 0
  IsLoad entries (Vrps.loaded s) =
      (values : List RoaValue) × (roas : List RoaJson) × (entries ≡ some values)
      × (decode_export values ≡ some roas)
      × Ends parse_prefix Rpki.new_builder 0 roas (Vrps.loaded s)
  IsLoad entries (Vrps.failed e) = load_vrps_json parse_prefix entries ≡ Vrps.failed e
  IsLoad entries Vrps.panicked = ⊥

  load_none : load_vrps_json parse_prefix none ≡ Vrps.failed Vrps.bad_json
  unfolding load_vrps_json
  load_none = refl

  load_vrps_json-IsLoad :
      (entries : Option (List RoaValue)) → IsLoad entries (load_vrps_json parse_prefix entries)
  load_vrps_json-IsLoad none = subst (IsLoad none) (sym load_none) load_none
  load_vrps_json-IsLoad (some values) =
      elim (load_vrps_json-Ends parse_prefix valid_prefix values) [
        | inl (e, bad) ↦ subst (IsLoad (some values)) (sym bad) bad
        | inr (roas, e, w) ↦ go (load_vrps_json parse_prefix (some values)) refl roas e w
      ]
    where
      go :
          (l : Vrps.Loaded)
          → load_vrps_json parse_prefix (some values) ≡ l
          → (roas : List RoaJson) → decode_export values ≡ some roas
          → Ends parse_prefix Rpki.new_builder 0 roas l
          → IsLoad (some values) l
      go (Vrps.loaded s) q roas e w = (values, roas, refl, e, w)
      go (Vrps.failed e) q roas d w = q
      go Vrps.panicked q roas d w = Ends-ne-panicked parse_prefix Rpki.new_builder 0 roas w

  vrps_of-Returns :
      (entries : Option (List RoaValue)) (desc : String)
      → is_empty cfg.rtr_addr ≡ true
      → chosen cfg.vrp_file files.sample_vrps files.vrps ≡ some entries
      → Returns IsGoodValidator Fails (vrps_of inputs entries desc)
  vrps_of-Returns entries desc r c =
      go (load_vrps_json parse_prefix entries) (load_vrps_json-IsLoad entries)
    where
      go :
          (l : Vrps.Loaded)
          → IsLoad entries l
          → Returns IsGoodValidator Fails (elim l [
            | Vrps.loaded s ↦ ok (s, none, desc)
            | Vrps.failed e ↦ err (bad_vrps e)
            | Vrps.panicked ↦ lost
          ])
      go (Vrps.loaded s) (values, roas, same, e, w) =
          inr (r, refl, values, roas, c ∙ ap some same, e, w)
      go (Vrps.failed e) w = (entries, c, w)
      go Vrps.panicked w = w

  vrp_validator-Returns : Returns IsGoodValidator Fails (vrp_validator inputs)
  unfolding vrp_validator
  vrp_validator-Returns = elim (Bool-cases (is_empty cfg.rtr_addr)) [
    | inr r ↦
        Returns-eq IsGoodValidator Fails
          (ok (
            new_live none,
            some (cfg.rtr_addr, new_client (new_live none)),
            "rtr:" ++ cfg.rtr_addr,
          ))
          _ (ground arith) (inl (r, refl, refl))
    | inl r ↦ elim (chosen-cases cfg.vrp_file files.sample_vrps files.vrps) [
      | inl (e, c) ↦
          Returns-eq IsGoodValidator Fails (vrps_of inputs files.sample_vrps "bundled") _
            (ground arith) (vrps_of-Returns files.sample_vrps "bundled" r c)
      | inr (e, (inl (m, c))) ↦
          Returns-eq IsGoodValidator Fails (err no_vrp_file) _ (ground arith) c
      | inr (e, (inr (entries, m, c))) ↦
          Returns-eq IsGoodValidator Fails (vrps_of inputs entries ("vrp:" ++ cfg.vrp_file)) _
            (ground arith) (vrps_of-Returns entries ("vrp:" ++ cfg.vrp_file) r c)
    ]
  ]

  -- The three parts are what they should be.
  abbrev pub AreSources : Sources S → Type 0
  AreSources src =
      IsReplay inputs src.source
      × IsRelStore inputs src.rel
      × IsValidator inputs src.validator src.rtr

  -- Replay.
  pub replay_sources-Returns : Returns AreSources Fails (replay_sources inputs)
  unfolding replay_sources
  replay_sources-Returns =
      Returns-bind (IsGoodReplay inputs valid_nlri valid_prefix) AreSources Fails
        (replay_source inputs) _ (replay_source-Returns inputs valid_nlri valid_prefix)
        (λ s w.
          Returns-bind IsGoodStore AreSources Fails (rel_store inputs) _ rel_store-Returns (λ r u.
            Returns-bind IsGoodValidator AreSources Fails (vrp_validator inputs) _
              vrp_validator-Returns (λ v x. (w, u, x))))

  -- For a valid configuration, where a text or an NLRI that parses has an address with a length
  -- that lies in it, buildSources either is in demo mode and does what demoSources does, or it is
  -- in replay mode and does not panic. Its sources are then the replay of the events that the
  -- records of the dump report, not none, once for a named dump and over and over for the bundled
  -- one; the store that answers what the relationship file says; and the store of the VRP entries,
  -- or, with the address of a cache, an empty live store with a client. Its errors tell the truth:
  -- the chosen file cannot be opened, has no events, or has the line or entry that the loader
  -- names.
  pub build_sources-Returns :
      (speeds : Speeds F) (readable : String → Bool)
      → IsValid speeds readable cfg
      → let built = build_sources inputs in
        ((cfg.mode ≡ "demo") × (built ≡ demo_sources inputs))
        ⊎ ((cfg.mode ≡ "replay") × Returns AreSources Fails built)
  unfolding build_sources
  build_sources-Returns speeds readable w = elim w.known_mode [
    | inl m ↦ inl (m, ground (arith, (eq_iff cfg.mode "demo").1 m))
    | inr m ↦ inr (
      m,
      (let other : same_text cfg.mode "demo" ≡ false = rw m refl in
          Returns-eq AreSources Fails (replay_sources inputs) _
            (ground (arith, other, (eq_iff cfg.mode "replay").1 m)) replay_sources-Returns),
    )
  ]
