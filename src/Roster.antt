-- ===== src/Roster.antt =====
-- src/wire/roster.rs: who can be hollered at. An `Instant` and a `Duration` are numbers of
-- nanoseconds, and each call takes the time at which it is made as an argument; the mutex makes a
-- call one step. `saturating_duration_since` is the subtraction on ℕ, which stops at 0.
pub mod Steps
pub mod Ownership
pub mod Routing
pub mod Pruning
pub mod Tests
use holler_server.Prelude.{
  ℕ, suc, ◌+◌, ◌-◌, ◌*◌, ◌/◌, ◌^◌, Bool, true, false, not, ◌&&◌, String, List, [], ◌∷◌, map, Option,
  none, some, ltb, leb, if◌then◌else◌, length, keep, Eq, ◌==◌, string_eq,
}
use holler_server.Prelude.Dict.{Dict, get, insert, alter, map_values, retain}
use holler_server.Text.{trim, parse_unsigned}
use holler_server.Text.Ordered.{sort_by}

pub data RosterState : Type 0 where
  connected reconnecting gone : RosterState

abbrev pub is_gone : RosterState → Bool
is_gone gone = true
is_gone _ = false

pub record RosterConfig : Type 0 where
  pub reconnect_after : ℕ
  pub gone_after : ℕ
  pub prune_after : ℕ
  pub sweep_interval : ℕ

abbrev pub millisecond : ℕ
millisecond = 1_000_000

abbrev pub second : ℕ
second = 1_000_000_000

unfoldable pub default_config : RosterConfig
default_config = record {
  reconnect_after = 45 * second;
  gone_after = 180 * second;
  prune_after = 180 * second * 2;
  sweep_interval = 30 * second;
}

-- The variable's value, if it is set and is text.
unfoldable pub env_duration_ms : (String → Option (List ℕ)) → String → Option ℕ
env_duration_ms env key = elim (env key) [
  | none ↦ none
  | some v ↦ elim (parse_unsigned (2 ^ 64) (trim v)) [
    | none ↦ none
    | some n ↦ some (n * millisecond)
  ]
]

abbrev or_else : Option ℕ → ℕ → ℕ
or_else none d = d
or_else (some n) d = n

unfoldable pub from_env : (String → Option (List ℕ)) → RosterConfig
unfolding default_config
from_env env =
    let reconnect_after =
      or_else (env_duration_ms env "HOLLER_ROSTER_RECONNECT_MS") default_config.reconnect_after in
    let gone_after =
      or_else (env_duration_ms env "HOLLER_ROSTER_GONE_MS") default_config.gone_after in
    let prune_after = or_else (env_duration_ms env "HOLLER_ROSTER_PRUNE_MS") (gone_after * 2) in
    let sweep_interval =
      or_else (env_duration_ms env "HOLLER_ROSTER_SWEEP_MS") default_config.sweep_interval in
    record {
      reconnect_after = reconnect_after;
      gone_after = gone_after;
      prune_after = prune_after;
      sweep_interval = sweep_interval;
    }

pub record RosterEntry : Type 0 where
  pub harness : String
  pub token_id : String
  pub client_id : String
  pub last_seen : ℕ
  pub gone_now : Bool
  pub mode : Option String
  pub harness_session_id : Option String
  pub blocked : Bool

unfoldable pub state_at : RosterEntry → ℕ → RosterConfig → RosterState
state_at e now config =
    let elapsed = now - e.last_seen in
    if e.gone_now
    then gone
    else if leb config.gone_after elapsed
    then gone
    else if leb config.reconnect_after elapsed
    then reconnecting
    else connected

pub record RosterRow : Type 0 where
  pub name : String
  pub harness : String
  pub client_id : String
  pub state : RosterState
  pub last_seen_ms_ago : ℕ
  pub mode : Option String
  pub harness_session_id : Option String
  pub blocked : Bool

pub record RosterConflict : Type 0 where
  pub session : String
  pub held_by_client_id : String

pub record Roster : Type 0 where
  pub entries : Dict String RosterEntry
  pub config : RosterConfig

unfoldable pub new : RosterConfig → Roster
new config = record { entries = []; config = config }

-- `Result<(), RosterConflict>`.
pub data Advertised : Type 0 where
  ok : Advertised
  err : RosterConflict → Advertised

-- The test on a row that already has the name.
unfoldable pub conflicts : RosterConfig → ℕ → String → Option RosterEntry → Bool
conflicts config now token_id none = false
conflicts config now token_id (some existing) =
    not (existing.token_id == token_id) && not (is_gone (state_at existing now config))

abbrev pub holder : Option RosterEntry → String
holder none = ""
holder (some e) = e.client_id

unfoldable pub advertise_with_mode :
    Roster
    → ℕ
    → String
    → String
    → String
    → String
    → Option String
    → Option String
    → Roster × Advertised
advertise_with_mode r now name harness token_id client_id mode harness_session_id =
    if conflicts r.config now token_id (get r.entries name)
    then (r, err (record { session = name; held_by_client_id = holder (get r.entries name) }))
    else (
      record r {
        entries = insert r.entries name (record {
          harness = harness;
          token_id = token_id;
          client_id = client_id;
          last_seen = now;
          gone_now = false;
          mode = mode;
          harness_session_id = harness_session_id;
          blocked = false;
        });
      },
      ok,
    )

unfoldable pub advertise : Roster → ℕ → String → String → String → String → Roster × Advertised
unfolding advertise_with_mode
advertise r now name harness token_id client_id =
    advertise_with_mode r now name harness token_id client_id none none

unfoldable pub touch_client : Roster → ℕ → String → Roster
touch_client r now token_id = record r {
  entries =
      map_values (λ e. if e.token_id == token_id then record e { last_seen = now } else e)
        r.entries;
}

unfoldable pub set_blocked : Roster → String → Bool → Roster
set_blocked r name blocked = record r {
  entries = alter r.entries name (λ e. record e { blocked = blocked });
}

unfoldable pub mark_gone : Roster → String → Roster
mark_gone r token_id = record r {
  entries =
      map_values (λ e. if e.token_id == token_id then record e { gone_now = true } else e)
        r.entries;
}

unfoldable pub resolve_session : Roster → ℕ → String → Option String
resolve_session r now name = elim (get r.entries name) [
  | none ↦ none
  | some e ↦ if is_gone (state_at e now r.config) then none else some e.token_id
]

unfoldable pub live_count : Roster → ℕ → ℕ
live_count r now =
    length
      (keep (λ (k : String × RosterEntry). not (is_gone (state_at k.1 now r.config))) r.entries)

unfoldable pub row_of : RosterConfig → ℕ → String × RosterEntry → RosterRow
row_of config now (name, e) = record {
  name = name;
  harness = e.harness;
  client_id = e.client_id;
  state = state_at e now config;
  last_seen_ms_ago = (now - e.last_seen) / millisecond;
  mode = e.mode;
  harness_session_id = e.harness_session_id;
  blocked = e.blocked;
}

unfoldable pub snapshot : Roster → ℕ → List RosterRow
unfolding row_of
snapshot r now = sort_by (λ (row : RosterRow). row.name) (map (row_of r.config now) r.entries)

unfoldable pub prune : Roster → ℕ → Roster
prune r now = record r {
  entries = retain (λ e. ltb (now - e.last_seen) r.config.prune_after) r.entries;
}
