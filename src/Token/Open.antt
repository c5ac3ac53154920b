-- ===== src/Token/Open.antt =====
-- `TokenStore::open` of src/token/mod.rs, and where the store and its lock are. A path is a directory with the
-- name of a file in it.
use holler_server.Prelude.{String, Option, none, some}
use holler_server.Token.Record.{io, Result, ok, err}

pub record FilePath : Type 0 where
  pub parent : String
  pub name : String

pub record TokenStore : Type 0 where
  pub path : FilePath

-- From the variables that are set and are text.
abbrev pub state_dir : (String → Option String) → String
state_dir env = elim (env "HOLLER_STATE_DIR") [ none ↦ "./holler-server-state" | some dir ↦ dir ]

-- With what making the directory fails with, if it fails.
unfoldable pub open_store : (String → Option String) → Option String → Result TokenStore
open_store env create_error = elim create_error [
  | some e ↦ err (io e)
  | none ↦ ok (record { path = record { parent = state_dir env; name = "tokens.json" } })
]

abbrev pub dir : TokenStore → String
dir store = store.path.parent

abbrev pub lock_path : TokenStore → FilePath
lock_path store = record { parent = dir store; name = "tokens.json.lock" }
