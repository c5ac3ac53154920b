-- ===== src/System.antt =====
-- The running server: the tasks of the connections of src/wire/connection.rs, the requests of the command
-- line of src/wire/control.rs, the requests of other processes to the store of src/token/mod.rs, and
-- the sweep of src/wire/mod.rs, as steps that come in any order. A step is what a task does from one
-- point where it waits to the next.
pub mod Turns
pub mod Tokens
pub mod Backed
pub mod Window
pub mod Reconnect
pub mod Task
pub mod Tests
use holler_server.Prelude.{
  ℕ, Bool, true, false, ◌≡◌, String, Option, none, some, if◌then◌else◌, nat_beq,
}
use holler_server.Net.{IpAddr}
use holler_server.Lockout.{is_locked_out}
use holler_server.Token.Record.{VerifiedClient}
use holler_server.Token.Disk.{Disk}
use holler_server.Token.History.{Request, perform}
use holler_server.Roster.{prune}
use holler_server.Wire.Registry.{insert_client, remove_client}
use holler_server.Wire.Registry.Entries.{IsCalm}
use holler_server.Wire.Connection.{Server, Context}
use holler_server.Wire.Connection.Admission.{Attempt, Admitted, closed, authenticated, first_frame}
use holler_server.Wire.Connection.Dispatch.{Moment}
use holler_server.Wire.Connection.Session.{Happening, Ended, running, over, take_turn, teardown}
use holler_server.Wire.Control as Control
use holler_server.Wire.Control.{Meets, handle_request}

-- Where a task waits: for its first frame; with a client that is authenticated, before it is put into
-- the registry; while the hello is written; in the session loop; and after the loop.
pub data Phase : Type 0 where
  before_first_frame : Phase
  admitted greeting serving : VerifiedClient → Phase
  leaving : VerifiedClient → (certain_close : Bool) → Phase

-- The shared objects, and the tasks that are not over, by number.
pub record System (Contents : Type 0) : Type 0 where
  pub server : Server Contents
  pub tasks : ℕ → Option Phase

-- A task goes on, or ends.
abbrev pub assign : ℕ → Option Phase → (ℕ → Option Phase) → ℕ → Option Phase
assign k phase tasks j = if nat_beq k j then phase else tasks j

abbrev pub moved :
    {Contents : Type 0} → System Contents → ℕ → Option Phase → Server Contents → System Contents
moved s k phase server = record { server = server; tasks = assign k phase s.tasks }

abbrev pub after_first : Admitted → Option Phase
after_first (closed sent) = none
after_first (authenticated v) = some (admitted v)

abbrev pub after_turn : VerifiedClient → Ended → Phase
after_turn v running = serving v
after_turn v (over certain) = leaving v certain

abbrev pub with_disk : {Contents : Type 0} → Server Contents → Disk → Server Contents
with_disk s d = record s { disk = d }

module _ {Contents : Type 0} (ctx : Context Contents) where
  pub data Step (s t : System Contents) : Type 0 where
    -- A connection is accepted, and dropped at once if its address is locked out.
    accepts :
        (k : ℕ) (peer : IpAddr) (now : ℕ)
        → s.tasks k ≡ none
        → t ≡ (
            let (lockout, locked) = is_locked_out s.server.lockout peer now in
            moved s k
              (if locked then none else some before_first_frame)
              (record s.server { lockout = lockout }))
        → Step s t
    -- No handshake, or no text in time.
    gives_up :
        (k : ℕ) → s.tasks k ≡ some before_first_frame → t ≡ moved s k none s.server → Step s t
    presents :
        (k : ℕ) (peer : IpAddr) (a : Attempt) (raw : String)
        → s.tasks k ≡ some before_first_frame
        → t ≡ (
            let (server, result) = first_frame ctx peer a raw s.server in
            moved s k (after_first result) server)
        → Step s t
    registers :
        (k channel : ℕ) (v : VerifiedClient)
        → s.tasks k ≡ some (admitted v)
        → t
          ≡ moved s k (some (greeting v)) (record s.server {
            registry = (insert_client s.server.registry v.token_id v.client_id v.machine channel).0;
          })
        → Step s t
    greets :
        (k : ℕ) (v : VerifiedClient) (hello_written : Bool)
        → s.tasks k ≡ some (greeting v)
        → t ≡ (
            if hello_written
            then moved s k (some (serving v)) s.server
            else moved s k none
                (record s.server { registry = (remove_client s.server.registry v.token_id).1 }))
        → Step s t
    turns :
        (k : ℕ) (v : VerifiedClient) (h : Happening) (m : Moment Contents)
        → s.tasks k ≡ some (serving v)
        → t ≡ (
            let r = take_turn ctx v h m s.server in
            moved s k (some (after_turn v r.ended)) r.server)
        → Step s t
    leaves :
        (k : ℕ) (v : VerifiedClient) (certain : Bool)
        → s.tasks k ≡ some (leaving v certain)
        → t ≡ moved s k none (teardown ctx v certain s.server)
        → Step s t
    -- A request of the command line. Connections that begin while it waits are taken to begin before
    -- or after it.
    commands :
        (q : Control.Request) (m : Meets Contents)
        → IsCalm m.world
        → t ≡ record s { server = (handle_request ctx m q s.server).0 }
        → Step s t
    -- A request to the store, of this or of another process.
    stores :
        (q : Request) (now : ℕ)
        → t ≡ record s {
          server = with_disk s.server (perform ctx.platform ctx.pepper q now s.server.disk).1;
        }
        → Step s t
    sweeps :
        (now : ℕ)
        → t ≡ record s { server = record s.server { roster = prune s.server.roster now } }
        → Step s t

  pub data Reach (s : System Contents) : System Contents → Type 0 where
    here : Reach s s
    next : {t u : System Contents} → Reach s t → Step t u → Reach s u
