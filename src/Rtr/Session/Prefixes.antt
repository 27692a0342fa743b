-- ===== src/Rtr/Session/Prefixes.antt =====
-- The prefixes of the VRPs that the session of rtr/client.go holds.
use bgpulse.Base.{Bool, true, false, List, [], ◌∷◌, ◌++◌, if◌then◌else◌, ite}
use bgpulse.Base.Table.{add, remove}
use bgpulse.Rpki.{Vrp, Vrp-discrete}
use bgpulse.Rpki.Spec.{IsPrefix}
use bgpulse.Rtr.Session.{ChangeRec, apply_changes}
use bgpulse.Rtr.Session.Commit.{AllPrefixes}

abbrev pub AllChanges : List ChangeRec → Type 0
AllChanges [] = Unit
AllChanges (ch ∷ changes) = IsPrefix ch.vrp.prefix × AllChanges changes

add_prefixes :
    (v : Vrp) (vs : List Vrp)
    → IsPrefix v.prefix
    → AllPrefixes vs
    → AllPrefixes (add Vrp-discrete v vs)
unfolding add
add_prefixes v [] p a = (p, tt)
add_prefixes v (w ∷ vs) p a =
    elim (Vrp-discrete w v) as (λ d. AllPrefixes (ite d (w ∷ vs) (w ∷ add Vrp-discrete v vs))) [
      | yes e ↦ a
      | no n ↦ (a.0, add_prefixes v vs p a.1)
    ]

remove_prefixes :
    (v : Vrp) (vs : List Vrp) → AllPrefixes vs → AllPrefixes (remove Vrp-discrete v vs)
unfolding remove
remove_prefixes v [] a = tt
remove_prefixes v (w ∷ vs) a =
    elim (Vrp-discrete w v)
      as (λ d. AllPrefixes (ite d (remove Vrp-discrete v vs) (w ∷ remove Vrp-discrete v vs))) [
        | yes e ↦ remove_prefixes v vs a.1
        | no n ↦ (a.0, remove_prefixes v vs a.1)
      ]

pub apply_changes_prefixes :
    (current : List Vrp) (changes : List ChangeRec)
    → AllPrefixes current
    → AllChanges changes
    → AllPrefixes (apply_changes current changes)
unfolding apply_changes
apply_changes_prefixes current [] a b = a
apply_changes_prefixes current (ch ∷ changes) a b =
    apply_changes_prefixes
      (if ch.announce then add Vrp-discrete ch.vrp current else remove Vrp-discrete ch.vrp current)
      changes (one ch.announce) b.1
  where
    one :
        (x : Bool)
        → AllPrefixes
            (if x then add Vrp-discrete ch.vrp current else remove Vrp-discrete ch.vrp current)
    one true = add_prefixes ch.vrp current b.0 a
    one false = remove_prefixes ch.vrp current a

pub append_changes :
    (changes : List ChangeRec) (ch : ChangeRec)
    → AllChanges changes
    → IsPrefix ch.vrp.prefix
    → AllChanges (changes ++ (ch ∷ []))
append_changes [] ch a p = (p, tt)
append_changes (x ∷ changes) ch a p = (a.0, append_changes changes ch a.1 p)

pub base_prefixes :
    (full : Bool) (current : List Vrp)
    → AllPrefixes current
    → AllPrefixes (if full then [] else current)
base_prefixes true current a = tt
base_prefixes false current a = a
