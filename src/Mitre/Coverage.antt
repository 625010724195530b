-- ===== src/Mitre/Coverage.antt =====
-- No technique of an event is lost in the catalogue.
use ganglion_oob.Prelude.{
  String, none, some, Bool, true, false, List, [], ◌∷◌, map, ◌≡◌, refl, ap, ◌∙◌, ◌&&◌, inl, inr,
  All, Option-cases, str_eq, eq_iff, arith,
}
use ganglion_oob.Prelude.Dict.{Dict, lookup, All-lookup}
use ganglion_oob.Mitre.{
  Technique, techniques, event_map, process_reason_map, reason_map, ids_or, technique_ids, known,
  map_event_to_techniques,
}

-- The catalogue holds the technique, under its own id.
abbrev pub IsCatalogued : String → Type 0
IsCatalogued t = (x : Technique) × (lookup t techniques ≡ some x) × (x.tid ≡ t)

known-ids : (ts : List String) → All IsCatalogued ts → map (λ x. x.tid) (known ts) ≡ ts
unfolding known
known-ids [] h = refl
known-ids (t ∷ ts) ((x, found, same), h) =
    rw (found, known)
      (ap (λ i. i ∷ map (λ y. y.tid) (known ts)) same ∙ ap (λ l. t ∷ l) (known-ids ts h))

is_catalogued : String → Bool
is_catalogued t = elim (lookup t techniques) [ none ↦ false | some x ↦ str_eq x.tid t ]

are_catalogued : List String → Bool
unfolding is_catalogued
are_catalogued [] = true
are_catalogued (t ∷ ts) = is_catalogued t && are_catalogued ts

is_catalogued_lem : (t : String) → is_catalogued t ≡ true → IsCatalogued t
unfolding is_catalogued
is_catalogued_lem t h = elim (Option-cases (lookup t techniques)) [
  | inl e ↦ absurd (ground arith)
  | inr (x, e) ↦ (x, e, ground (arith, eq_iff x.tid t))
]

are_catalogued_lem : (ts : List String) → are_catalogued ts ≡ true → All IsCatalogued ts
unfolding are_catalogued
are_catalogued_lem [] h = tt
are_catalogued_lem (t ∷ ts) h =
    (is_catalogued_lem t (ground arith), are_catalogued_lem ts (ground arith))

abbrev Checked : String × List String → Type 0
Checked e = are_catalogued e.1 ≡ true

all_checked : Dict (List String) → Bool
all_checked [] = true
all_checked ((_, ids) ∷ d) = are_catalogued ids && all_checked d

all_checked_lem : (d : Dict (List String)) → all_checked d ≡ true → All Checked d
unfolding all_checked
all_checked_lem [] h = tt
all_checked_lem ((_, ids) ∷ d) h = (ground arith, all_checked_lem d (ground arith))

event_map-checked : all_checked event_map ≡ true
unfolding all_checked are_catalogued event_map techniques lookup
event_map-checked = refl

process_reason_map-checked : all_checked process_reason_map ≡ true
unfolding all_checked are_catalogued process_reason_map techniques lookup
process_reason_map-checked = refl

reason_map-checked : all_checked reason_map ≡ true
unfolding all_checked are_catalogued reason_map techniques lookup
reason_map-checked = refl

ids_or-checked :
    (default : List String) (k : String) (d : Dict (List String))
    → are_catalogued default ≡ true
    → all_checked d ≡ true
    → are_catalogued (ids_or default (lookup k d)) ≡ true
unfolding ids_or
ids_or-checked default k d h checked = elim (Option-cases (lookup k d)) [
  | inl e ↦ rw (e, ids_or) h
  | inr (v, e) ↦ rw (e, ids_or) (All-lookup Checked k v d (all_checked_lem d checked) e)
]

technique_ids-checked :
    (event_type reason : String) → are_catalogued (technique_ids event_type reason) ≡ true
unfolding technique_ids are_catalogued techniques lookup
technique_ids-checked event_type reason = ground (
  arith,
  ids_or-checked ("T1059" ∷ []) reason process_reason_map refl process_reason_map-checked,
  ids_or-checked [] reason reason_map refl reason_map-checked,
  ids_or-checked [] event_type event_map refl event_map-checked,
)

-- The techniques of an event are those of its ids, in their order: every id that the three maps give
-- for any event type and reason stands in the catalogue, and none is dropped.
pub map_event-ids :
    (event_type reason : String)
    → map (λ x. x.tid) (map_event_to_techniques event_type reason) ≡ technique_ids event_type reason
unfolding map_event_to_techniques
map_event-ids event_type reason =
    let ids = technique_ids event_type reason in
    known-ids ids (are_catalogued_lem ids (technique_ids-checked event_type reason))
