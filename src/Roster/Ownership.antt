-- ===== src/Roster/Ownership.antt =====
-- Who owns a session name in src/wire/roster.rs, and for how long (ADR 0006, ADR 0007).
use holler_server.Prelude.{
  ℕ, ◌-◌, ◌<◌, ◌≤◌, ◌≡◌, ◌≢◌, ◌⊎◌, Bool-cases, refl, ap, ◌∙◌, true, false, String, List, [], ◌∷◌,
  Option, none, some, inl, inr, arith, if◌then◌else◌, ◌==◌, string_eq, eq_iff,
}
use holler_server.Prelude.Dict.{get, get-insert}
use holler_server.Prelude.Dict.Unique.{Unique}
use holler_server.Roster.{
  Roster, RosterEntry, RosterConfig, is_gone, state_at, conflicts, holder, advertise_with_mode,
  resolve_session, ok, err,
}
use holler_server.Roster.Steps.{
  Call, advertises, touches, leaves, blocks, prunes, step, run, fresh_row, next_row, step_config,
  step_row, step-Unique, run_config, marked,
}

-- The route that a row gives.
abbrev pub route : RosterConfig → ℕ → Option RosterEntry → Option String
route config now none = none
route config now (some e) = if is_gone (state_at e now config) then none else some e.token_id

pub resolve_session-route :
    (r : Roster) (now : ℕ) (name : String)
    → resolve_session r now name ≡ route r.config now (get r.entries name)
unfolding resolve_session
resolve_session-route r now name = ground arith

conflicts_owner :
    (config : RosterConfig) (now : ℕ) (t : String) (o : Option RosterEntry)
    → conflicts config now t o ≡ true
    → (owner : String) × (route config now o ≡ some owner) × (owner ≢ t)
unfolding conflicts
conflicts_owner config now t none h = cc
conflicts_owner config now t (some e) h =
    (e.token_id, ground arith, λ p. ground (arith, eq_iff e.token_id t))

fresh_row-route :
    (config : RosterConfig) (now : ℕ) (h t c : String) (m s : Option String)
    → 0 < config.gone_after
    → route config now (some (fresh_row now h t c m s)) ≡ some t
unfolding state_at
fresh_row-route config now h t c m s pos = ground arith

-- A name that is routed to one client cannot be taken by another: the advertisement is refused,
-- names the holder, and leaves the roster as it was. A name that is routed nowhere, or to the client
-- itself, is granted, is at once routed to it under a fresh row, and no other name's row changes.
pub advertise_decides :
    (r : Roster) (now : ℕ) (name harness token_id client_id : String) (mode hsid : Option String)
    (other : String)
    → 0 < r.config.gone_after
    → let result = advertise_with_mode r now name harness token_id client_id mode hsid in
      ((owner : String) × (resolve_session r now name ≡ some owner)
        × (owner ≢ token_id)
        × (result ≡ (
          r,
          err (record { session = name; held_by_client_id = holder (get r.entries name) }),
        )))
      ⊎ ((result.1 ≡ ok)
          × (resolve_session result.0 now name ≡ some token_id)
          × (get result.0.entries other ≡ (
              if name == other
              then some (fresh_row now harness token_id client_id mode hsid)
              else get r.entries other)))
unfolding advertise_with_mode
advertise_decides r now name h t c m s other pos =
    let row = fresh_row now h t c m s in
    elim (Bool-cases (conflicts r.config now t (get r.entries name))) [
      | inl e ↦
          let (owner, routed, differs) = conflicts_owner r.config now t _ e in
          inl (owner, resolve_session-route r now name ∙ routed, differs, rw e refl)
      | inr e ↦ rw e (
          inr (
            refl,
            resolve_session-route _ now name
                ∙ ap (route r.config now) {y = some row}
                    (ground (arith, get-insert r.entries name row name, eq_iff name name))
                ∙ fresh_row-route r.config now h t c m s pos,
            get-insert r.entries name row other,
          ))
    ]

-- The row of a name, as far as ownership goes: held by `owner`, last heard of at `seen`.
pub data Held (owner : String) (seen : ℕ) (row : Option RosterEntry) : Type 0 where
  held :
      (e : RosterEntry)
      → row ≡ some e
      → e.token_id ≡ owner
      → e.last_seen ≡ seen
      → e.gone_now ≡ false
      → Held owner seen row

-- A call that another client may cause.
abbrev pub Foreign : String → Call → Type 0
Foreign owner (advertises n h t c m s) = t ≢ owner
Foreign owner (touches t) = t ≢ owner
Foreign owner (leaves t) = t ≢ owner
Foreign owner (blocks n b) = Unit
Foreign owner prunes = Unit

-- Calls in the order in which the mutex lets them through: those of others come before the owner
-- has been silent for `gone_after`, and a heartbeat of the owner starts the clock again.
pub data Schedule (owner : String) (gone_after : ℕ) : ℕ → List (ℕ × Call) → ℕ → Type 0 where
  end : {seen : ℕ} → Schedule owner gone_after seen [] seen
  other :
      {seen seen' now : ℕ} {c : Call} {cs : List (ℕ × Call)}
      → now - seen < gone_after
      → Foreign owner c
      → Schedule owner gone_after seen cs seen'
      → Schedule owner gone_after seen ((now, c) ∷ cs) seen'
  beat :
      {seen seen' now : ℕ} {cs : List (ℕ × Call)}
      → Schedule owner gone_after now cs seen'
      → Schedule owner gone_after seen ((now, touches owner) ∷ cs) seen'

Foreign-Held :
    (config : RosterConfig) (owner name : String) (seen now : ℕ) (c : Call)
    (row : Option RosterEntry)
    → config.gone_after ≤ config.prune_after
    → now - seen < config.gone_after
    → Foreign owner c
    → Held owner seen row
    → Held owner seen (next_row config (now, c) name row)
unfolding conflicts state_at
Foreign-Held config owner name seen now (advertises n h t c m s) row le d f (held e r o l g) =
    held e (ground (arith, eq_iff e.token_id t)) o l g
Foreign-Held config owner name seen now (touches t) row le d f (held e r o l g) =
    held e (ground (arith, eq_iff e.token_id t)) o l g
Foreign-Held config owner name seen now (leaves t) row le d f (held e r o l g) =
    held e (ground (arith, eq_iff e.token_id t)) o l g
Foreign-Held config owner name seen now (blocks n b) row le d f (held e r o l g) =
    elim (Bool-cases (n == name)) [
      | inl same ↦ held (marked b e) (ground arith) o l g
      | inr differs ↦ held e (ground arith) o l g
    ]
Foreign-Held config owner name seen now prunes row le d f (held e r o l g) =
    held e (ground arith) o l g

beat-Held :
    (config : RosterConfig) (owner name : String) (seen now : ℕ) (row : Option RosterEntry)
    → Held owner seen row
    → Held owner now (next_row config (now, touches owner) name row)
beat-Held config owner name seen now row (held e r o l g) =
    held (record e { last_seen = now }) (ground (arith, eq_iff e.token_id owner)) o refl g

step-row-Held :
    (config : RosterConfig) (r : Roster) (c : ℕ × Call) (owner name : String) (seen : ℕ)
    → r.config ≡ config
    → Unique r.entries
    → Held owner seen (next_row config c name (get r.entries name))
    → Held owner seen (get (step r c).entries name)
step-row-Held config r c owner name seen e u h = rw (step_row r c name u) (rw e h)

Schedule-Held :
    (config : RosterConfig) (owner name : String) {seen seen' : ℕ} {cs : List (ℕ × Call)}
    (r : Roster)
    → r.config ≡ config
    → config.gone_after ≤ config.prune_after
    → Unique r.entries
    → Schedule owner config.gone_after seen cs seen'
    → Held owner seen (get r.entries name)
    → Held owner seen' (get (run r cs).entries name)
unfolding run
Schedule-Held config owner name r e le u end h = h
Schedule-Held config owner name {seen = seen} r e le u (other {now = now} {c = c} d f rest) h =
    Schedule-Held config owner name (step r (now, c)) (step_config r (now, c) ∙ e) le
      (step-Unique r (now, c) u) rest
      (step-row-Held config r (now, c) owner name seen e u
        (Foreign-Held config owner name seen now c (get r.entries name) le d f h))
Schedule-Held config owner name {seen = seen} r e le u (beat {now = now} rest) h =
    Schedule-Held config owner name (step r (now, touches owner))
      (step_config r (now, touches owner) ∙ e) le (step-Unique r (now, touches owner) u) rest
      (step-row-Held config r (now, touches owner) owner name now e u
        (beat-Held config owner name seen now (get r.entries name) h))

pub Held-route :
    (config : RosterConfig) (owner : String) (seen x : ℕ) (row : Option RosterEntry)
    → x - seen < config.gone_after
    → Held owner seen row
    → route config x row ≡ some owner
unfolding state_at
Held-route config owner seen x row d (held e r o l g) = rw r (ground arith)

-- A client that heartbeats keeps its session: whatever the other clients do (advertise the same
-- name, heartbeat, leave), whatever is pruned or reported blocked, and in whatever order, the name
-- is routed to the client that holds it as long as less than `gone_after` passes between its
-- heartbeats, and since the last one. The prune window must not be shorter than `gone_after`.
pub heartbeat_keeps_session :
    (r : Roster) (owner name : String) (seen seen' x : ℕ) (cs : List (ℕ × Call))
    → r.config.gone_after ≤ r.config.prune_after
    → Unique r.entries
    → Held owner seen (get r.entries name)
    → Schedule owner r.config.gone_after seen cs seen'
    → x - seen' < r.config.gone_after
    → resolve_session (run r cs) x name ≡ some owner
heartbeat_keeps_session r owner name seen seen' x cs le u h sched d =
    let last = Schedule-Held r.config owner name r refl le u sched h in
    resolve_session-route (run r cs) x name
    ∙ ap (λ config. route config x (get (run r cs).entries name)) (run_config r cs)
    ∙ Held-route r.config owner seen' x (get (run r cs).entries name) d last
