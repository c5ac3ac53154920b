-- ===== src/System/Reconnect.antt =====
-- A client that connects again while its old connection's task is still there, in the steps of the running
-- server: `insert` of src/wire/registry.rs, and then the end of the old task of src/wire/connection.rs.
use holler_server.Prelude.{
  ℕ, ◌≡◌, ◌≢◌, refl, ap, ◌∙◌, true, false, [], ◌∷◌, none, some, arith, nat_beq_iff, eq_iff,
  string_eq,
}
use holler_server.Prelude.Dict.{get, get-remove, get-insert}
use holler_server.Token.Record.{VerifiedClient}
use holler_server.Wire.Registry.{
  Entry, sends, new_entry, superseded_notice, insert_client, remove_client,
}
use holler_server.Wire.Connection.{Context}
use holler_server.Wire.Connection.Dispatch.{Moment}
use holler_server.Wire.Connection.Session.{take_turn, teardown, channel_closed}
use holler_server.System.{
  System, admitted, greeting, serving, leaving, Reach, here, next, moved, after_turn, registers,
  greets, turns, leaves,
}

module _ {Contents : Type 0} (ctx : Context Contents) where
  -- The new connection's task goes on: it is registered, and the hello is written.
  abbrev pub reconnected : ℕ → VerifiedClient → ℕ → System Contents → System Contents
  reconnected j w channel s =
      let registered = record s.server {
        registry = (insert_client s.server.registry w.token_id w.client_id w.machine channel).0;
      } in
      moved (moved s j (some (greeting w)) registered) j (some (serving w)) registered

  -- The old connection's task goes on: its channel is closed, since its sender was in the entry that was
  -- replaced, and so it comes to its end.
  abbrev pub winds_up : ℕ → VerifiedClient → Moment Contents → System Contents → System Contents
  winds_up i v m s =
      let r = take_turn ctx v channel_closed m s.server in
      let left = moved s i (some (after_turn v r.ended)) r.server in
      moved left i none (teardown ctx v false left.server)

  -- A client that connects again is dropped by its old connection: whatever state the server is in, if one
  -- task serves a client of a token, the registry has an entry of the token, and another task has
  -- authenticated the token again, then the new registration tells the connection of that entry
  -- that it is superseded and gives the token the new entry, and its client is greeted and served;
  -- but when the old task then comes to its end, this entry is removed, and the token has no
  -- connection, although the new task still serves its client.
  pub late_teardown_drops_reconnect :
      (s : System Contents) (i j channel : ℕ) (v w : VerifiedClient) (old : Entry)
      (m : Moment Contents)
      → i ≢ j
      → s.tasks i ≡ some (serving v)
      → s.tasks j ≡ some (admitted w)
      → w.token_id ≡ v.token_id
      → get s.server.registry.entries v.token_id ≡ some old
      → let u = reconnected j w channel s in
        let t = winds_up i v m u in
        Reach ctx s u
        × Reach ctx u t
        × ((insert_client s.server.registry w.token_id w.client_id w.machine channel).1
            ≡ sends old.out_tx superseded_notice ∷ [])
        × (get u.server.registry.entries v.token_id
            ≡ some (new_entry w.client_id w.machine channel))
        × (get t.server.registry.entries v.token_id ≡ none)
        × (t.tasks i ≡ none)
        × (t.tasks j ≡ some (serving w))
  unfolding insert_client remove_client take_turn teardown
  late_teardown_drops_reconnect s i j channel v w old m d at_i at_j same there =
      let g = (insert_client s.server.registry w.token_id w.client_id w.machine channel).0 in
      let registered = record s.server { registry = g } in
      let greeted = moved s j (some (greeting w)) registered in
      let u = reconnected j w channel s in
      let left = moved u i (some (leaving v false)) registered in
      let at =
        get-insert s.server.registry.entries w.token_id (new_entry w.client_id w.machine channel)
          v.token_id in
      let gone = get-remove g.entries v.token_id v.token_id in
      let found : get s.server.registry.entries w.token_id ≡ some old =
        ap (get s.server.registry.entries) same ∙ there in
      let i_serves : u.tasks i ≡ some (serving v) = ground (arith, at_i, d, nat_beq_iff j i) in
      (
        next (next here (registers j channel w at_j refl))
            (greets j w true (ground (arith, nat_beq_iff j j)) refl),
        next (next here (turns i v channel_closed m i_serves refl))
            (leaves i v false (ground (arith, nat_beq_iff i i)) refl),
        ground (arith, found),
        ground (arith, at, eq_iff w.token_id v.token_id, same, found),
        ground (arith, gone, eq_iff v.token_id v.token_id),
        ground (arith, nat_beq_iff i i),
        ground (arith, nat_beq_iff i j, nat_beq_iff j j, d),
      )
