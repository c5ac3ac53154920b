-- ===== src/System/Backed.antt =====
-- Who is connected, in any state that the running server can reach.
use holler_server.Prelude.{
  ℕ, ◌≡◌, ◌≢◌, refl, sym, ap, ◌∙◌, String, List, [], none, some, arith, inl, inr, Bool-cases,
  ==_cases, ◌==◌, string_eq, eq_iff, if◌then◌else◌,
}
use holler_server.Prelude.Dict.{get, get-insert}
use holler_server.Token.Record.{StoredState, TokenRecord, IsLawful, VerifiedClient}
use holler_server.Token.Store.{find_record, or_empty, deleted, bind_client, unused_record}
use holler_server.Token.Records.{Stored, find-change, find-append}
use holler_server.Token.Steps.{Change, kept, minted, removed, joined, seen}
use holler_server.Wire.Registry.{Registry, Entry, insert_client, new_entry}
use holler_server.Wire.Connection.{Context}
use holler_server.System.{System, admitted, Step, Reach, here, next}
use holler_server.System.Tokens.{IsBound, Registered, none_begun, begun, Step-Outcome}

-- A token that was redeemed, and the client that it was redeemed for.
abbrev pub IsBacked : List TokenRecord → String → String → Type 0
IsBacked rs id client_id =
    (r : TokenRecord) × (find_record id rs ≡ some r)
    × (r.state ≢ StoredState.unused)
    × (client_id ≡ or_empty r.client_id)

Change-IsBacked :
    {rs new : List TokenRecord}
    → Change rs new
    → (id client_id : String) → IsBacked rs id client_id
    → IsBacked new id client_id
unfolding find_record deleted
Change-IsBacked kept id client_id b = b
Change-IsBacked {rs} (minted key hash label created expires) id client_id (r, e, u, c) =
    (r, ground (arith, find-append id rs (unused_record key hash label created expires)), u, c)
Change-IsBacked {rs} (removed key) id client_id (r, e, u, c) = elim (Bool-cases (key == id)) [
  | inl q ↦ (
    deleted r,
    ground (arith, find-change key deleted rs id (λ r. ground arith)),
    (λ h. ground (arith, h, u)),
    ground (arith),
  )
  | inr q ↦ (r, ground (arith, find-change key deleted rs id (λ r. ground arith)), u, c)
]
Change-IsBacked {rs} (joined key machine fresh hash x found unused) id client_id (r, e, u, c) = (
  r,
  ground (arith, eq_iff key id, find-change key (bind_client machine fresh hash) rs id (λ r. refl)),
  u,
  c,
)
Change-IsBacked {rs} (seen key at) id client_id (r, e, u, c) =
    let mark = (λ (x : TokenRecord). record x { last_seen = some at }) in
    elim (Bool-cases (key == id)) [
      | inl q ↦ (mark r, ground (arith, find-change key mark rs id (λ r. refl)), u, c)
      | inr q ↦ (r, ground (arith, find-change key mark rs id (λ r. refl)), u, c)
    ]

-- The entries after a client was registered.
pub registered-get :
    (g : Registry) (v : VerifiedClient) (channel : ℕ) (id : String)
    → get (insert_client g v.token_id v.client_id v.machine channel).0.entries id ≡ (
        if v.token_id == id
        then some (new_entry v.client_id v.machine channel)
        else get g.entries id)
unfolding insert_client
registered-get g v channel id =
    ground (arith, get-insert g.entries v.token_id (new_entry v.client_id v.machine channel) id)

module _ {Contents : Type 0} (ctx : Context Contents) (l : IsLawful ctx.platform) where
  -- Whoever is connected, or about to be, is the client of a token that was redeemed.
  record IsFounded (s : System Contents) : Type 0 where
    records : List TokenRecord
    stored : Stored ctx.platform records s.server.disk
    connected :
        (id : String) (e : Entry)
        → get s.server.registry.entries id ≡ some e
        → IsBacked records id e.client_id
    waiting :
        (j : ℕ) (v : VerifiedClient)
        → s.tasks j ≡ some (admitted v)
        → IsBacked records v.token_id v.client_id

  bound-IsBacked :
      (rs : List TokenRecord) (v : VerifiedClient)
      → IsBound rs v
      → IsBacked rs v.token_id v.client_id
  bound-IsBacked rs v (r, found, bound, same) = (r, found, (λ h. ground (arith, h, bound)), same)

  registered-IsBacked :
      (rs : List TokenRecord) (s t : System Contents)
      → Registered s t
      → ((id : String) (e : Entry)
          → get s.server.registry.entries id ≡ some e
          → IsBacked rs id e.client_id)
      → ((j : ℕ) (v : VerifiedClient)
          → s.tasks j ≡ some (admitted v)
          → IsBacked rs v.token_id v.client_id)
      → (id : String) (e : Entry) → get t.server.registry.entries id ≡ some e
      → IsBacked rs id e.client_id
  registered-IsBacked rs s t (none_begun b) old waits id e h =
      let (e0, h0, c) = b id e h in rw c (old id e0 h0)
  registered-IsBacked rs s t (begun k channel v at is) old waits id e h =
      let after : get
            (insert_client s.server.registry v.token_id v.client_id v.machine channel).0.entries id
          ≡ some e =
        ap (λ (g : Registry). get g.entries id) (sym is) ∙ h in
      let found = registered-get s.server.registry v channel id in
      elim (==_cases v.token_id id) [
        | inl (q, same) ↦
            let c : e.client_id ≡ v.client_id = ground (arith, after, found, q) in
            rw (c, ← same) (waits k v at)
        | inr (q, d) ↦ old id e (ground (arith, after, found, q))
      ]

  Step-IsFounded : (s t : System Contents) → Step ctx s t → IsFounded s → IsFounded t
  Step-IsFounded s t st f =
      let o = Step-Outcome ctx l f.records s t f.stored st in
      let (new, change, stored) = o.tokens in
      record {
        records = new;
        stored = stored;
        connected = λ id e h.
            Change-IsBacked change id e.client_id
              (registered-IsBacked f.records s t o.connections f.connected f.waiting id e h);
        waiting = λ j v h.
            Change-IsBacked change v.token_id v.client_id (elim (o.admissions j v h) [
              | inl before ↦ f.waiting j v before
              | inr b ↦ bound-IsBacked f.records v b
            ]);
      }

  Reach-IsFounded : (s t : System Contents) → IsFounded s → Reach ctx s t → IsFounded t
  Reach-IsFounded s t f here = f
  Reach-IsFounded s t f (next {t = u} r st) = Step-IsFounded u t st (Reach-IsFounded s u f r)

  -- Every connection belongs to a token that was redeemed: under IsLawful, with a store that can be
  -- locked and written, and whatever connections, frames, commands, requests to the store and
  -- sweeps there have been since the server began with nobody connected, in whatever order: the
  -- store has a record for each token that has a connection, it is not unused, and its client is
  -- the one that the registry shows.
  pub connected_are_redeemed :
      (s t : System Contents) (rs : List TokenRecord)
      → Stored ctx.platform rs s.server.disk
      → s.server.registry.entries ≡ []
      → ((k : ℕ) → s.tasks k ≡ none)
      → Reach ctx s t
      → (new : List TokenRecord) × Stored ctx.platform new t.server.disk
        × ((id : String) (e : Entry)
            → get t.server.registry.entries id ≡ some e
            → IsBacked new id e.client_id)
  unfolding get
  connected_are_redeemed s t rs st empty idle reach =
      let start : IsFounded s = record {
        records = rs;
        stored = st;
        connected = λ id e h. absurd (ground (arith, h, empty));
        waiting = λ j v h. absurd (ground (arith, h, idle j));
      } in
      let f = Reach-IsFounded s t start reach in (f.records, f.stored, f.connected)
