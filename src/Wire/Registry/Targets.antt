-- ===== src/Wire/Registry/Targets.antt =====
-- Which connection a name resolves to in src/wire/registry.rs, and the harnesses that it lists.
use mathlib.Core.List.{Perm}
use holler_server.Prelude.{
  ◌≡◌, ◌≢◌, sym, Bool, true, String, [], ◌∷◌, map, none, some, ◌||◌, arith, ◌==◌, string_eq, eq_iff,
  Option-cases, Bool-cases, inl, inr,
}
use holler_server.Prelude.Dict.{Dict, get}
use holler_server.Text.Ordered.{IsSorted, sort_by-IsSorted, sort_by-perm}
use holler_server.Wire.Registry.{
  Registry, Entry, find_target, resolve_target, HarnessConfirmation, confirmation,
  confirmed_harnesses_snapshot,
}

-- An entry that a name stands for, other than by its token.
abbrev answers_to : String → Entry → Bool
answers_to id e = e.hostname == id || e.client_id == id

find-found :
    (id : String) (m : Dict String Entry) (t : String)
    → find_target id m ≡ some t
    → (e : Entry) × (get m t ≡ some e)
unfolding find_target get
find-found id [] t h = absurd (ground arith)
find-found id ((j, e) ∷ m) t h = elim (Bool-cases (j == t)) [
  | inl q ↦ (e, ground (arith, q))
  | inr q ↦ elim (Bool-cases (answers_to id e)) [
    | inl a ↦ absurd (ground (arith, q, a, h, eq_iff j t))
    | inr a ↦ let (x, y) = find-found id m t (ground (arith, a, h)) in (x, ground (arith, q, y))
  ]
]

-- A name that resolves, resolves to a token with a live connection.
resolves_to_live :
    (g : Registry) (id t : String)
    → resolve_target g id ≡ some t
    → (e : Entry) × (get g.entries t ≡ some e)
unfolding resolve_target
resolves_to_live g id t h = elim (Option-cases (get g.entries id)) [
  | inl e ↦ find-found id g.entries t (ground (arith, e, h))
  | inr (x, e) ↦ let same : id ≡ t = ground (arith, e, h) in rw (sym same) (x, e)
]

find-finds :
    (id : String) (m : Dict String Entry) (t : String) (e : Entry)
    → get m t ≡ some e
    → answers_to id e ≡ true
    → find_target id m ≢ none
unfolding find_target get
find-finds id [] t e h a q = ground (arith, h)
find-finds id ((j, x) ∷ m) t e h a q = elim (Bool-cases (j == t)) [
  | inl s ↦ ground (arith, s, h, a, q)
  | inr s ↦ find-finds id m t e (ground (arith, s, h)) a (ground (arith, q))
]

-- The token of a live connection, its hostname and its client id each resolve to some token, and the
-- token resolves to itself, also where another connection has it for a name.
live_names_resolve :
    (g : Registry) (t : String) (e : Entry)
    → get g.entries t ≡ some e
    → (resolve_target g t ≡ some t)
      × (resolve_target g e.hostname ≢ none)
      × (resolve_target g e.client_id ≢ none)
unfolding resolve_target
live_names_resolve g t e h =
    let by_host =
      find-finds e.hostname g.entries t e h (ground (arith, eq_iff e.hostname e.hostname)) in
    let by_client =
      find-finds e.client_id g.entries t e h (ground (arith, eq_iff e.client_id e.client_id)) in
    (ground (arith, h), resolves e.hostname by_host, resolves e.client_id by_client)
  where
    resolves : (id : String) → find_target id g.entries ≢ none → resolve_target g id ≢ none
    resolves id found q = found (ground (arith, q))

-- The snapshot of the confirmed harnesses has the row of each harness, as often as the map has it, in
-- the order of their ids.
confirmed_harnesses_snapshot_lem :
    (g : Registry)
    → IsSorted (λ (row : HarnessConfirmation). row.id) (confirmed_harnesses_snapshot g)
      × Perm (confirmed_harnesses_snapshot g) (map confirmation g.confirmed_harnesses)
unfolding confirmed_harnesses_snapshot
confirmed_harnesses_snapshot_lem g = (
  sort_by-IsSorted (λ (row : HarnessConfirmation). row.id) (map confirmation g.confirmed_harnesses),
  sort_by-perm (λ (row : HarnessConfirmation). row.id) (map confirmation g.confirmed_harnesses),
)
