-- ===== src/System/Window.antt =====
-- What becomes of a deleted token while the server runs: it is cut off for good, but for a client that
-- was authenticated and is not yet registered.
use holler_server.Prelude.{
  ℕ, ◌≡◌, ◌≢◌, refl, sym, ap, ◌∙◌, String, List, none, some, arith, inl, inr, Option-cases,
  ==_cases, string_eq, eq_iff,
}
use holler_server.Prelude.Dict.{get, get-remove}
use holler_server.Token.Record.{TokenRecord, IsLawful, VerifiedClient}
use holler_server.Token.Disk.{Disk}
use holler_server.Token.Store.{find_record, delete}
use holler_server.Token.Records.{Stored}
use holler_server.Token.History.{deletes, perform}
use holler_server.Token.Lifecycle.{IsEnded, Change-IsEnded, delete-IsEnded}
use holler_server.Wire.Registry.{Registry, Entry, insert_client, new_entry, remove_client}
use holler_server.Wire.Registry.Entries.{IsCalm}
use holler_server.Wire.Connection.{Context}
use holler_server.Wire.Control as Control
use holler_server.Wire.Control.{Meets, handle_request}
use holler_server.System.{
  System, admitted, greeting, Step, registers, commands, stores, Reach, here, next, moved,
  with_disk,
}
use holler_server.System.Tokens.{IsBound, Registered, none_begun, begun, Step-Outcome}
use holler_server.System.Backed.{registered-get}

module _ {Contents : Type 0} (ctx : Context Contents) where
  -- The token is over in the store.
  abbrev pub Over : String → System Contents → Type 0
  Over id s = (rs : List TokenRecord) × Stored ctx.platform rs s.server.disk × IsEnded id rs

  -- Over, without a connection, and with no client about to be registered.
  pub record IsOff (id : String) (s : System Contents) : Type 0 where
    pub ended : Over id s
    pub unconnected : get s.server.registry.entries id ≡ none
    pub nobody_waits :
        (j : ℕ) (v : VerifiedClient) → s.tasks j ≡ some (admitted v) → v.token_id ≢ id

  -- Deleting a token and cutting off its connection, as `token delete` does with a server running.
  abbrev pub delete_and_revoke : Meets Contents → String → ℕ → System Contents → System Contents
  delete_and_revoke m id now s = record s {
    server =
        (handle_request ctx m (Control.Request.revoke id) (
          with_disk s.server (perform ctx.platform ctx.pepper (deletes id) now s.server.disk).1)).0;
  }

  deletes-disk :
      (id : String) (now : ℕ) (d : Disk)
      → (perform ctx.platform ctx.pepper (deletes id) now d).1 ≡ (delete ctx.platform id now d).1
  unfolding perform
  deletes-disk id now d = ground arith

module _ {Contents : Type 0} (ctx : Context Contents) (l : IsLawful ctx.platform) where
  registered-none :
      (s t : System Contents) (id : String)
      → Registered s t
      → get s.server.registry.entries id ≡ none
      → ((j : ℕ) (v : VerifiedClient) → s.tasks j ≡ some (admitted v) → v.token_id ≢ id)
      → get t.server.registry.entries id ≡ none
  registered-none s t id (none_begun b) off waits =
      elim (Option-cases (get t.server.registry.entries id)) [
        | inl e ↦ e
        | inr (e, h) ↦ let (e0, h0, c) = b id e h in absurd (ground (arith, off, h0))
      ]
  registered-none s t id (begun k channel v at is) off waits = elim (==_cases v.token_id id) [
    | inl (q, same) ↦ absurd (waits k v at same)
    | inr (q, d) ↦
        ap (λ (g : Registry). get g.entries id) is
        ∙ (registered-get s.server.registry v channel id ∙ ground (arith, q, off))
  ]

  bound-not-ended :
      (rs : List TokenRecord) (v : VerifiedClient) (id : String)
      → IsBound rs v
      → IsEnded id rs
      → v.token_id ≢ id
  bound-not-ended rs v id (r, found, bound, c) (r', found', over) same =
      let at : find_record id rs ≡ some r = ap (λ x. find_record x rs) (sym same) ∙ found in
      ground (arith, at, found', bound, over)

  Step-IsOff :
      (s t : System Contents) (id : String) → Step ctx s t → IsOff ctx id s → IsOff ctx id t
  Step-IsOff s t id st f =
      let (rs, stored, over) = f.ended in
      let o = Step-Outcome ctx l rs s t stored st in
      let (new, change, stored') = o.tokens in
      record {
        ended = (new, stored', Change-IsEnded id change over);
        unconnected = registered-none s t id o.connections f.unconnected f.nobody_waits;
        nobody_waits = λ j v h. elim (o.admissions j v h) [
          | inl before ↦ f.nobody_waits j v before
          | inr b ↦ bound-not-ended rs v id b over
        ];
      }

  -- A deleted token is cut off for good: under IsLawful, once the record of a token is invalidated
  -- or revoked in a store that works, its connection is removed, and no client of it is between the
  -- check of its credential and the registry, no state that the server can reach, by whatever
  -- steps in whatever order, has a connection of this token, and the record stays as dead.
  pub deleted_stays_out :
      (s t : System Contents) (id : String) → IsOff ctx id s → Reach ctx s t → IsOff ctx id t
  deleted_stays_out s t id f here = f
  deleted_stays_out s t id f (next {t = u} r st) =
      Step-IsOff u t id st (deleted_stays_out s u id f r)

  -- But the check of a credential and the registration are two steps: if a client was authenticated
  -- and is not yet registered when its token is deleted and its connection cut off, then it is
  -- registered all the same, and the token has a connection although it is over in the store.
  pub deleted_between_stays_connected :
      (s : System Contents) (k now channel : ℕ) (v : VerifiedClient) (m : Meets Contents)
      (rs : List TokenRecord) (r : TokenRecord)
      → IsCalm m.world
      → Stored ctx.platform rs s.server.disk
      → find_record v.token_id rs ≡ some r
      → s.tasks k ≡ some (admitted v)
      → let u = delete_and_revoke ctx m v.token_id now s in
        (get u.server.registry.entries v.token_id ≡ none)
        × ((t : System Contents) × Reach ctx s t
            × Over ctx v.token_id t
            × ((e : Entry) × (get t.server.registry.entries v.token_id ≡ some e)))
  unfolding handle_request remove_client
  deleted_between_stays_connected s k now channel v m rs r calm st found at =
      let d = (perform ctx.platform ctx.pepper (deletes v.token_id) now s.server.disk).1 in
      let s1 : System Contents = record s { server = with_disk s.server d } in
      let u = delete_and_revoke ctx m v.token_id now s in
      let after = record u.server {
        registry = (insert_client u.server.registry v.token_id v.client_id v.machine channel).0;
      } in
      let t = moved u k (some (greeting v)) after in
      let ended =
        delete-IsEnded ctx.platform l ctx.pepper v.token_id now s.server.disk rs r st found in
      (
        ground (
          arith,
          get-remove s.server.registry.entries v.token_id v.token_id,
          eq_iff v.token_id v.token_id,
        ),
        (
          t,
          next
              (next (next here (stores (deletes v.token_id) now refl))
                (commands (Control.Request.revoke v.token_id) m calm refl))
              (registers k channel v at refl),
          rw (deletes-disk ctx v.token_id now s.server.disk) ended,
          (
            new_entry v.client_id v.machine channel,
            ground (
              arith,
              registered-get u.server.registry v channel v.token_id,
              eq_iff v.token_id v.token_id,
            ),
          ),
        ),
      )
