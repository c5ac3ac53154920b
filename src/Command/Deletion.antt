-- ===== src/Command/Deletion.antt =====
-- `token delete` and `client detach` of src/main.rs, at the store and at a running server.
use holler_server.Prelude.{
  ℕ, ◌≡◌, ◌≢◌, sym, ap, subst, ◌∙◌, String, List, [], ◌∷◌, ◌++◌, none, some, arith, inl, inr, ◌⊎◌,
  Option-cases, eq_iff, string_eq,
}
use holler_server.Prelude.Dict.{get, get-remove}
use holler_server.Text.{codes}
use holler_server.Token.Record.{
  ok, not_found, StoredState, TokenRecord, IsLawful, VerifiedClient, display_state, to_string,
}
use holler_server.Token.Disk.{Disk, with_lock}
use holler_server.Token.Store.{find_record, change_record, deleted, delete}
use holler_server.Token.Records.{Stored, save-Stored}
use holler_server.Token.Lifecycle.{IsEnded, delete-IsEnded}
use holler_server.Wire.Registry.{remove_client}
use holler_server.Wire.Connection.{Server, Context}
use holler_server.Wire.Control as Control
use holler_server.Wire.Control.{Meets, handle_request}
use holler_server.System.{System, admitted, Reach, with_disk}
use holler_server.System.Window.{IsOff, deleted_stays_out}
use holler_server.Command.Tokens.{
  Around, Done, success, failed, TokenCommands, ClientCommands, run_token, run_client,
  delete_and_notify,
}

-- The state that a deletion leads to, as it is printed.
abbrev pub printed_state : StoredState → String
printed_state StoredState.bound = "revoked"
printed_state _ = "invalidated"

-- The command did what it says: it succeeded, printed the new state, asked the running server to close
-- the token's connection, and the token is over in the store.
pub record Deleted (a : Around) (kind id : String) (r : TokenRecord) (done : Done) : Type 0 where
  pub succeeded : done.end ≡ success
  pub told : done.told ≡ some id
  pub line :
      done.lines
      ≡ (codes kind
          ++ (codes " " ++ (codes id ++ (codes " is now " ++ codes (printed_state r.state)))))
        ∷ []
  pub over : (rs : List TokenRecord) × Stored a.platform rs done.disk × IsEnded id rs

abbrev refused : Disk → String → Done
refused d id = record { disk = d; lines = []; told = none; end = failed (not_found id) }

module _ (a : Around) (l : IsLawful a.platform) where
  shown_after :
      (r : TokenRecord)
      → to_string (display_state a.platform (deleted r) a.now) ≡ printed_state r.state
  unfolding deleted display_state to_string
  shown_after r = ground arith

  delete_succeeds :
      (id : String) (d : Disk) (rs : List TokenRecord) (r : TokenRecord)
      → Stored a.platform rs d
      → find_record id rs ≡ some r
      → (delete a.platform id a.now d).0 ≡ ok (display_state a.platform (deleted r) a.now)
  unfolding delete with_lock
  delete_succeeds id d rs r st found =
      let reads = st.reads in
      let u = st.unlocked in
      let saved = save-Stored a.platform l rs (change_record id deleted rs) d st in
      ground (arith, found, saved)

  notify-Deleted :
      (kind id : String) (d : Disk) (rs : List TokenRecord) (r : TokenRecord)
      → Stored a.platform rs d
      → find_record id rs ≡ some r
      → Deleted a kind id r (delete_and_notify a kind id d)
  unfolding delete_and_notify
  notify-Deleted kind id d rs r st found =
      let e = delete_succeeds id d rs r st found in
      let disk : (delete_and_notify a kind id d).disk ≡ (delete a.platform id a.now d).1 =
        ground (arith, e) in
      record {
        succeeded = ground (arith, e);
        told = ground (arith, e);
        line = ground (arith, e, shown_after r);
        over = rw disk (delete-IsEnded a.platform l a.pepper id a.now d rs r st found);
      }

  notify-refused :
      (kind id : String) (d : Disk) (rs : List TokenRecord)
      → Stored a.platform rs d
      → find_record id rs ≡ none
      → delete_and_notify a kind id d ≡ refused d id
  unfolding delete_and_notify delete with_lock
  notify-refused kind id d rs st missing =
      let reads = st.reads in let u = st.unlocked in ground (arith, missing)

  run_token-delete :
      (id : String) (d : Disk)
      → a.open_error ≡ none
      → run_token a (TokenCommands.delete id) d ≡ delete_and_notify a "token" id d
  unfolding run_token
  run_token-delete id d opens = ground (arith, opens)

  run_client-detach :
      (id : String) (d : Disk)
      → a.open_error ≡ none
      → run_client a (ClientCommands.detach id) d ≡ delete_and_notify a "client" id d
  unfolding run_client
  run_client-detach id d opens = ground (arith, opens)

  -- A deletion ends in one of two ways, whichever of the two commands it is: where the token exists, in a
  -- store that opens and works, the command succeeds, prints the new state (revoked if it was
  -- bound, and else invalidated), asks the running server to close its connection, and leaves the
  -- token over; where it does not, the command fails with its name, prints nothing, asks nothing
  -- of the server, and leaves the store as it was.
  pub deletion_ends :
      (id : String) (d : Disk) (rs : List TokenRecord)
      → a.open_error ≡ none
      → Stored a.platform rs d
      → ((r : TokenRecord) × (find_record id rs ≡ some r)
          × Deleted a "token" id r (run_token a (TokenCommands.delete id) d)
          × Deleted a "client" id r (run_client a (ClientCommands.detach id) d))
        ⊎ ((find_record id rs ≡ none)
            × (run_token a (TokenCommands.delete id) d ≡ refused d id)
            × (run_client a (ClientCommands.detach id) d ≡ refused d id))
  deletion_ends id d rs opens st = elim (Option-cases (find_record id rs)) [
    | inl e ↦ inr (
      e,
      run_token-delete id d opens ∙ notify-refused "token" id d rs st e,
      run_client-detach id d opens ∙ notify-refused "client" id d rs st e,
    )
    | inr (r, e) ↦ inl (
      r,
      e,
      rw (run_token-delete id d opens) (notify-Deleted "token" id d rs r st e),
      rw (run_client-detach id d opens) (notify-Deleted "client" id d rs r st e),
    )
  ]

module _ {Contents : Type 0} (ctx : Context Contents) (a : Around)
    (same : a.platform ≡ ctx.platform) (m : Meets Contents) where
  -- The command beside a running server, which does what the command asks of it.
  abbrev pub deleting : String → System Contents → System Contents
  deleting id s =
      let done = run_token a (TokenCommands.delete id) s.server.disk in
      let server = with_disk s.server done.disk in
      record s {
        server = elim done.told [
          | none ↦ server
          | some token_id ↦ (handle_request ctx m (Control.Request.revoke token_id) server).0
        ];
      }

  -- `token delete` beside a running server does what an operator expects of it: under IsLawful, for one platform of both, where
  -- the token exists, the store opens and works, the server answers, and no client of the token is
  -- between the check of its credential and the registry, the token has no connection from then
  -- on, in any state that the server can reach.
  pub delete_command_cuts_off :
      (s t : System Contents) (id : String) (rs : List TokenRecord) (r : TokenRecord)
      → IsLawful ctx.platform
      → a.open_error ≡ none
      → Stored ctx.platform rs s.server.disk
      → find_record id rs ≡ some r
      → ((j : ℕ) (v : VerifiedClient) → s.tasks j ≡ some (admitted v) → v.token_id ≢ id)
      → Reach ctx (deleting id s) t
      → get t.server.registry.entries id ≡ none
  unfolding handle_request remove_client
  delete_command_cuts_off s t id rs r l opens st found nobody reach =
      let d = s.server.disk in
      let lawful : IsLawful a.platform = subst (λ p. IsLawful p) (sym same) l in
      let stored : Stored a.platform rs d = subst (λ p. Stored p rs d) (sym same) st in
      let done = run_token a (TokenCommands.delete id) d in
      let is : Deleted a "token" id r done =
        rw (run_token-delete a lawful id d opens)
          (notify-Deleted a lawful "token" id d rs r stored found) in
      let told = is.told in
      let u = deleting id s in
      let server : u.server
          ≡ (handle_request ctx m (Control.Request.revoke id) (with_disk s.server done.disk)).0 =
        ground (arith, told) in
      let (new, stored', over) = is.over in
      let disk : u.server.disk ≡ done.disk = ap (λ (x : Server Contents). x.disk) server in
      let off : IsOff ctx id u = record {
        ended = (
          new,
          subst (λ x. Stored ctx.platform new x) (sym disk)
              (subst (λ p. Stored p new done.disk) same stored'),
          over,
        );
        unconnected =
            ap (λ (x : Server Contents). get x.registry.entries id) server
            ∙ ground (arith, get-remove s.server.registry.entries id id, eq_iff id id);
        nobody_waits = nobody;
      } in
      (deleted_stays_out ctx l u t id off reach).unconnected
