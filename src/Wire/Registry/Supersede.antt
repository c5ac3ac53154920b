-- ===== src/Wire/Registry/Supersede.antt =====
-- src/wire/registry.rs when a client connects again: `insert` and `remove`.
use holler_server.Prelude.{ℕ, ◌≡◌, ◌≢◌, String, [], ◌∷◌, some, arith, string_eq, ==_refl, ==→≡}
use holler_server.Prelude.Dict.{get, get-insert}
use holler_server.Wire.Registry.{
  Registry, Entry, sends, new_entry, superseded_notice, insert_client,
}

-- A connection that authenticates takes the place of the token's previous one: exactly that one is
-- sent the notice, the new entry has no waiters, and the entries of all other tokens stay.
insert_supersedes :
    (g : Registry) (token_id client_id hostname : String) (channel : ℕ) (old : Entry)
    (other : String)
    → get g.entries token_id ≡ some old
    → token_id ≢ other
    → let (g', effects) = insert_client g token_id client_id hostname channel in
      (effects ≡ sends old.out_tx superseded_notice ∷ [])
      × (get g'.entries token_id ≡ some (new_entry client_id hostname channel))
      × (get g'.entries other ≡ get g.entries other)
unfolding insert_client
insert_supersedes g token_id client_id hostname channel old other e apart =
    let at = get-insert g.entries token_id (new_entry client_id hostname channel) in
    (
      ground (arith, e),
      ground (arith, e, at token_id, ==_refl token_id),
      ground (arith, e, at other, ==→≡ token_id other),
    )
