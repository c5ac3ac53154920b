-- ===== src/Command/Tokens.antt =====
-- The token and client commands of src/main.rs. What a command prints is a list of lines, each the list of
-- its code points.
use holler_server.Prelude.{
  ℕ, Bool, true, false, String, List, [], ◌∷◌, ◌++◌, Option, none, some, if◌then◌else◌, ◌==◌,
  string_eq,
}
use holler_server.Text.{codes}
use holler_server.Advertise.{AdvertiseState, reachable, loopback_only, unknown}
use holler_server.Token.Record.{
  TokenError, Result, ok, err, panic, TokenView, MintResult, RedeemResult, PingOutcome,
  ConnectionStatus, Platform, to_string,
}
use holler_server.Token.Disk.{Disk}
use holler_server.Token.Secret.{Random}
use holler_server.Token.Store
use holler_server.Token.Ttl.{TtlUnit, hours, Ttl, duration, invalid, panics, parse_ttl}
use holler_server.Command.Table.{print_table}

pub data TokenCommands : Type 0 where
  mint : (label ttl : Option String) → TokenCommands
  list : (json : Bool) → TokenCommands
  delete ping : (id : String) → TokenCommands
  redeem : (id secret machine : String) → TokenCommands

pub data ClientCommands : Type 0 where
  list : (json : Bool) → ClientCommands
  detach : (id : String) → ClientCommands

-- How a command ends. The text of an invalid `--ttl` is its code points.
pub data End : Type 0 where
  success : End
  failed : TokenError → End
  invalid_ttl : List ℕ → End
  not_written : End
  panicked : End

-- What a command leaves: the state directory, what it printed, and the token whose connection it asked
-- a running server to close.
pub record Done : Type 0 where
  pub disk : Disk
  pub lines : List (List ℕ)
  pub told : Option String
  pub end : End

-- What a command meets: the clock, random bytes, how opening the store ends, the advertise file as it is
-- read, and a running server's answer about a connection. `make` is `Duration` of the crate time;
-- `json` the views as JSON, if they can be written; `shown` Rust's `{}` of a number.
pub record Around : Type 0 where
  pub platform : Platform
  pub pepper : Option String
  pub make : TtlUnit → ℕ → Result ℕ
  pub json : List TokenView → Option (List (List ℕ))
  pub shown : ℕ → String
  pub open_error : Option TokenError
  pub now : ℕ
  pub id_bytes : Random
  pub secret_bytes : Random
  pub advertised : AdvertiseState
  pub probe : String → ConnectionStatus

abbrev pub default_ttl : (TtlUnit → ℕ → Result ℕ) → Ttl
default_ttl make = elim (make hours 24) [ ok d ↦ duration d | err e ↦ panics | panic ↦ panics ]

abbrev pub says : String → String → List ℕ
says label value = codes label ++ codes value

abbrev pub unreachable_warning : List (List ℕ)
unreachable_warning =
    []
    ∷ codes
        "warning: server is bound to loopback only (or has not been started) — no reachable address to advertise; set --advertise on `holler-server serve`, or construct the join command manually with the correct address."
    ∷ []

unfoldable pub print_join_command : AdvertiseState → String → String → List (List ℕ)
print_join_command (reachable address) token_id secret =
    []
    ∷ codes "Run on the joining machine:"
    ∷ (codes "  holler join --server ws://"
        ++ (codes address
            ++ (codes " --token " ++ (codes token_id ++ (codes ":" ++ codes secret)))))
    ∷ []
print_join_command loopback_only token_id secret = unreachable_warning
print_join_command unknown token_id secret = unreachable_warning

unfoldable pub print_redeem_result : RedeemResult → List (List ℕ)
print_redeem_result redeemed =
    says "token_id:   " redeemed.token_id
    ∷ says "client_id:  " redeemed.client_id
    ∷ says "credential: " redeemed.credential
    ∷ []
    ∷ codes "This credential is shown once and is not stored. Save it now."
    ∷ []

abbrev pub ended : {A : Type 0} → Disk → Result A → (A → Done) → Done
ended d (ok a) next = next a
ended d (err e) next = record { disk = d; lines = []; told = none; end = failed e }
ended d panic next = record { disk = d; lines = []; told = none; end = panicked }

abbrev pub printed : Disk → List (List ℕ) → Done
printed d lines = record { disk = d; lines = lines; told = none; end = success }

abbrev pub bound_views : List TokenView → List TokenView
bound_views [] = []
bound_views (v ∷ vs) = let rest = bound_views vs in if v.state == "bound" then v ∷ rest else rest

module _ (a : Around) where
  -- Opening the store comes first.
  abbrev opened : Disk → Done → Done
  opened d done = elim a.open_error [
    | none ↦ done
    | some e ↦ record { disk = d; lines = []; told = none; end = failed e }
  ]

  abbrev show_views : Disk → Bool → List TokenView → Done
  show_views d false views = printed d (print_table views)
  show_views d true views = elim (a.json views) [
    | some lines ↦ printed d lines
    | none ↦ record { disk = d; lines = []; told = none; end = not_written }
  ]

  -- The store first, then the running server, then the line.
  unfoldable pub delete_and_notify : String → String → Disk → Done
  delete_and_notify kind id d =
      let (result, after) = Store.delete a.platform id a.now d in
      ended after result (λ new_state. record {
        disk = after;
        lines =
            (codes kind
              ++ (codes " " ++ (codes id ++ (codes " is now " ++ codes (to_string new_state)))))
            ∷ [];
        told = some id;
        end = success;
      })

  unfoldable pub minted_lines : MintResult → List (List ℕ)
  unfolding print_join_command
  minted_lines m =
      says "token_id: " m.token_id
      ∷ says "secret:   " m.secret
      ∷ says "expires:  " m.expires
      ∷ []
      ∷ codes "This secret is shown once and is not stored. Save it now."
      ∷ print_join_command a.advertised m.token_id m.secret

  abbrev mint_for : Option String → Ttl → Disk → Done
  mint_for label (duration ttl) d =
      let (result, after) =
        Store.mint a.platform a.pepper label ttl a.now a.id_bytes a.secret_bytes d in
      ended after result (λ m. printed after (minted_lines m))
  mint_for label (invalid text) d = record {
    disk = d;
    lines = [];
    told = none;
    end = invalid_ttl text;
  }
  mint_for label panics d = record { disk = d; lines = []; told = none; end = panicked }

  abbrev ttl_of : Option String → Ttl
  ttl_of none = default_ttl a.make
  ttl_of (some s) = parse_ttl a.make s

  abbrev ping_line : PingOutcome → List ℕ
  ping_line (PingOutcome.connected hostname rtt_ms) =
      codes hostname ++ (codes " rtt=" ++ (codes (a.shown rtt_ms) ++ codes "ms"))

  unfoldable pub run_token : TokenCommands → Disk → Done
  unfolding delete_and_notify minted_lines print_redeem_result print_table parse_ttl
  run_token (TokenCommands.mint label ttl) d = opened d (mint_for label (ttl_of ttl) d)
  run_token (TokenCommands.list json) d =
      let (result, after) = Store.list a.platform a.now d in
      opened d (ended after result (λ views. show_views after json views))
  run_token (TokenCommands.delete id) d = opened d (delete_and_notify "token" id d)
  run_token (TokenCommands.ping id) d =
      let (result, after) = Store.ping a.platform id a.probe d in
      opened d (ended after result (λ reply. printed after (ping_line reply ∷ [])))
  run_token (TokenCommands.redeem id secret machine) d =
      let (result, after) =
        Store.redeem a.platform a.pepper id secret machine a.now a.id_bytes a.secret_bytes d in
      opened d (ended after result (λ redeemed. printed after (print_redeem_result redeemed)))

  unfoldable pub run_client : ClientCommands → Disk → Done
  unfolding delete_and_notify print_table
  run_client (ClientCommands.list json) d =
      let (result, after) = Store.list a.platform a.now d in
      opened d (ended after result (λ views. show_views after json (bound_views views)))
  run_client (ClientCommands.detach id) d = opened d (delete_and_notify "client" id d)
