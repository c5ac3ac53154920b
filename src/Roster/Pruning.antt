-- ===== src/Roster/Pruning.antt =====
-- The sweep that drops old rows in src/wire/roster.rs, and the windows that it goes by.
use holler_server.Prelude.{
  ℕ, ◌-◌, ◌<◌, ◌≤◌, ◌≡◌, refl, false, String, List, Option, none, some, arith, ltb, string_eq,
}
use holler_server.Prelude.Dict.{get, kept}
use holler_server.Prelude.Dict.Unique.{Unique, get-retain}
use holler_server.Roster.{
  Roster, RosterEntry, RosterConfig, state_at, prune, resolve_session, env_duration_ms, from_env,
  default_config,
}
use holler_server.Roster.Ownership.{route, resolve_session-route}

prune_config : (r : Roster) (now : ℕ) → (prune r now).config ≡ r.config
unfolding prune
prune_config r now = refl

get-prune :
    (r : Roster) (now : ℕ) (name : String)
    → Unique r.entries
    → get (prune r now).entries name
      ≡ kept (λ e. ltb (now - e.last_seen) r.config.prune_after) (get r.entries name)
unfolding prune
get-prune r now name u = get-retain _ r.entries name u

kept-route :
    (config : RosterConfig) (now x : ℕ) (o : Option RosterEntry)
    → config.gone_after ≤ config.prune_after
    → now ≤ x
    → route config x (kept (λ e. ltb (now - e.last_seen) config.prune_after) o) ≡ route config x o
unfolding state_at
kept-route config now x none le later = refl
kept-route config now x (some e) le later = ground arith

-- The sweep is memory hygiene only: where the prune window is not shorter than `gone_after`, no name
-- is routed otherwise than without it, at the time of the sweep or later.
pub prune_invisible :
    (r : Roster) (now x : ℕ) (name : String)
    → r.config.gone_after ≤ r.config.prune_after
    → Unique r.entries
    → now ≤ x
    → resolve_session (prune r now) x name ≡ resolve_session r x name
prune_invisible r now x name le u later =
    rw
      (
        resolve_session-route (prune r now) x name,
        resolve_session-route r x name,
        prune_config r now,
        get-prune r now name u,
      )
      (kept-route r.config now x (get r.entries name) le later)

-- The prune window counts from the last news of a row and not from when the row went gone: a row
-- that was still routed at `before` is dropped by a sweep less than `prune_after` later, if by then
-- it has been silent for `prune_after`. With a window shorter than `gone_after` this drops a row
-- that is routed at the time of the sweep (`before` is then `now`).
pub pruned_since_silent :
    (r : Roster) (before now : ℕ) (name : String) (e : RosterEntry)
    → Unique r.entries
    → get r.entries name ≡ some e
    → e.gone_now ≡ false
    → before - e.last_seen < r.config.gone_after
    → now - before < r.config.prune_after
    → r.config.prune_after ≤ now - e.last_seen
    → (resolve_session r before name ≡ some e.token_id)
      × (resolve_session (prune r now) now name ≡ none)
unfolding resolve_session state_at
pruned_since_silent r before now name e u h g b recent silent =
    (ground (arith, h), ground (arith, h, get-prune r now name u))

-- With no environment variable set the windows are the documented ones. Whatever the others are set
-- to, the prune window is at least `gone_after` unless its own variable holds a number.
from_env_windows :
    (env : String → Option (List ℕ))
    → env_duration_ms env "HOLLER_ROSTER_PRUNE_MS" ≡ none
    → ((from_env env).gone_after ≤ (from_env env).prune_after)
      × (from_env (λ _. none) ≡ default_config)
unfolding from_env
from_env_windows env h = (ground (arith, h), unfold env_duration_ms in refl)
