-- ===== src/Roster/Routing.antt =====
-- What a lost connection means for routing in src/wire/roster.rs, and what the listings show of it.
use mathlib.Core.List.{Perm}
use holler_server.Prelude.{
  ℕ, ◌-◌, ◌<◌, ◌≤◌, ◌≡◌, ◌≢◌, ◌↔◌, refl, ◌∙◌, Bool, true, false, not, String, List, [], ◌∷◌, map,
  Option, none, some, arith, length, keep, All, string_eq, eq_iff,
}
use holler_server.Prelude.Dict.{Dict, get}
use holler_server.Prelude.Dict.Unique.{Unique}
use holler_server.Text.Ordered.{sort_by, sort_by-perm, sort_by-IsSorted, IsSorted, insert_by}
use holler_server.Roster.{
  Roster, RosterEntry, RosterConfig, RosterState, RosterRow, connected, reconnecting, gone, is_gone,
  state_at, resolve_session, live_count, snapshot, row_of,
}
use holler_server.Roster.Steps.{
  Call, advertises, touches, leaves, blocks, prunes, step, run, next_row, step_row, step-Unique,
}
use holler_server.Roster.Ownership.{route, resolve_session-route}

-- No row, or one that is known to be gone.
abbrev IsLost : Option RosterEntry → Type 0
IsLost none = Unit
IsLost (some e) = e.gone_now ≡ true

-- A call that does not advertise the name.
abbrev Silent : String → ℕ × Call → Type 0
Silent name (now, advertises n h t c m s) = n ≢ name
Silent name _ = Unit

next_row-IsLost :
    (config : RosterConfig) (c : ℕ × Call) (name : String) (row : Option RosterEntry)
    → Silent name c
    → IsLost row
    → IsLost (next_row config c name row)
next_row-IsLost config (now, advertises n h t c m s) name row q l = ground (arith, eq_iff n name)
next_row-IsLost config (now, touches t) name row q l = ground arith
next_row-IsLost config (now, leaves t) name row q l = ground arith
next_row-IsLost config (now, blocks n b) name row q l = ground arith
next_row-IsLost config (now, prunes) name row q l = ground arith

run-IsLost :
    (r : Roster) (cs : List (ℕ × Call)) (name : String)
    → Unique r.entries
    → All (Silent name) cs
    → IsLost (get r.entries name)
    → IsLost (get (run r cs).entries name)
unfolding run
run-IsLost r [] name u q l = l
run-IsLost r (c ∷ cs) name u q l =
    run-IsLost (step r c) cs name (step-Unique r c u) q.1
      (rw (step_row r c name u) (next_row-IsLost r.config c name (get r.entries name) q.0 l))

IsLost-route :
    (config : RosterConfig) (x : ℕ) (row : Option RosterEntry)
    → IsLost row
    → route config x row ≡ none
unfolding state_at
IsLost-route config x none l = refl
IsLost-route config x (some e) l = ground arith

leaves-IsLost :
    (config : RosterConfig) (now : ℕ) (owner name : String) (e : RosterEntry)
    → e.token_id ≡ owner
    → IsLost (next_row config (now, leaves owner) name (some e))
leaves-IsLost config now owner name e o = ground (arith, eq_iff e.token_id owner)

-- Once a connection is known to be over, no session of its client is routed at any time, whatever
-- happens next, heartbeats under the same token included, until the name is advertised again.
left_until_advertised :
    (r : Roster) (owner name : String) (e : RosterEntry) (now x : ℕ) (cs : List (ℕ × Call))
    → Unique r.entries
    → get r.entries name ≡ some e
    → e.token_id ≡ owner
    → All (Silent name) cs
    → resolve_session (run r ((now, leaves owner) ∷ cs)) x name ≡ none
unfolding run
left_until_advertised r owner name e now x cs u h o q =
    let c : ℕ × Call = (now, leaves owner) in
    let start : IsLost (get (step r c).entries name) =
      rw (step_row r c name u, h) (leaves-IsLost r.config now owner name e o) in
    let lost = run-IsLost (step r c) cs name (step-Unique r c u) q start in
    resolve_session-route (run (step r c) cs) x name ∙ IsLost-route _ x _ lost

abbrev rank : RosterState → ℕ
rank connected = 0
rank reconnecting = 1
rank gone = 2

-- With no news a row only decays: connected, reconnecting, gone, never back; and it is connected
-- and not yet gone exactly as long as its thresholds say, counted from the last news.
state_decays :
    (e : RosterEntry) (config : RosterConfig) (now later : ℕ)
    → e.gone_now ≡ false
    → config.reconnect_after ≤ config.gone_after
    → now ≤ later
    → (rank (state_at e now config) ≤ rank (state_at e later config))
      × ((state_at e now config ≡ connected) ↔ (now - e.last_seen < config.reconnect_after))
      × ((state_at e now config ≡ gone) ↔ (config.gone_after ≤ now - e.last_seen))
unfolding state_at
state_decays e config now later g order le =
    (ground arith, (λ h. ground arith, λ h. ground arith), (λ h. ground arith, λ h. ground arith))

abbrev routed : RosterConfig → ℕ → RosterEntry → Bool
routed config now e = not (is_gone (state_at e now config))

-- Whether a name is routed.
abbrev pub is_some : Option String → Bool
is_some none = false
is_some (some s) = true

names_routed :
    (r : Roster) (now : ℕ) (m : Dict String RosterEntry)
    → ((name : String) (e : RosterEntry) → get m name ≡ some e → get r.entries name ≡ some e)
    → Unique m
    → length (keep (λ (k : String × RosterEntry). routed r.config now k.1) m)
      ≡ length (
          keep
            (λ name. is_some (resolve_session r now name))
            (map (λ (k : String × RosterEntry). k.0) m))
unfolding get
names_routed r now [] sub u = refl
names_routed r now ((n, e) ∷ m) sub u = ground (
  arith,
  names_routed r now m (λ name e' h. ground (arith, sub name e', eq_iff n name)) u.1,
  resolve_session-route r now n,
  sub n e,
  eq_iff n n,
)

-- The count of live sessions (`query status`) is the number of names that are routed.
pub live_count-eq-routed :
    (r : Roster) (now : ℕ)
    → Unique r.entries
    → live_count r now
      ≡ length (
          keep
            (λ name. is_some (resolve_session r now name))
            (map (λ (k : String × RosterEntry). k.0) r.entries))
unfolding live_count
live_count-eq-routed r now u = names_routed r now r.entries (λ name e h. h) u

All-insert_by :
    (P : RosterRow → Type 0) (a : RosterRow) (l : List RosterRow)
    → P a
    → All P l
    → All P (insert_by (λ (row : RosterRow). row.name) a l)
unfolding insert_by
All-insert_by P a [] p h = (p, tt)
All-insert_by P a (b ∷ l) p h = ground (arith, All-insert_by P a l p h.1)

All-sort_by :
    (P : RosterRow → Type 0) (l : List RosterRow)
    → All P l
    → All P (sort_by (λ (row : RosterRow). row.name) l)
unfolding sort_by
All-sort_by P [] h = tt
All-sort_by P (a ∷ l) h = All-insert_by P a _ h.0 (All-sort_by P l h.1)

-- A row of the listing says of its session what routing does.
abbrev Agrees : Roster → ℕ → RosterRow → Type 0
Agrees r now row = is_some (resolve_session r now row.name) ≡ not (is_gone row.state)

rows-Agree :
    (r : Roster) (now : ℕ) (m : Dict String RosterEntry)
    → ((name : String) (e : RosterEntry) → get m name ≡ some e → get r.entries name ≡ some e)
    → Unique m
    → All (Agrees r now) (map (row_of r.config now) m)
unfolding row_of get
rows-Agree r now [] sub u = tt
rows-Agree r now ((n, e) ∷ m) sub u = (
  ground (arith, resolve_session-route r now n, sub n e, eq_iff n n),
  rows-Agree r now m (λ name e' h. ground (arith, sub name e', eq_iff n name)) u.1,
)

-- The listing has one row for each session, sorted by name, and a row shows its session as gone
-- exactly when a prompt for it would find no route.
snapshot_lem :
    (r : Roster) (now : ℕ)
    → Unique r.entries
    → Perm (snapshot r now) (map (row_of r.config now) r.entries)
      × IsSorted (λ (row : RosterRow). row.name) (snapshot r now)
      × All (Agrees r now) (snapshot r now)
unfolding snapshot
snapshot_lem r now u = (
  sort_by-perm _ _,
  sort_by-IsSorted _ _,
  All-sort_by (Agrees r now) _ (rows-Agree r now r.entries (λ name e h. h) u),
)
