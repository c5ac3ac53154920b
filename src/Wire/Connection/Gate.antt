-- ===== src/Wire/Connection/Gate.antt =====
-- Who gets past the first frame in src/wire/connection.rs.
use holler_server.Prelude.{
  ℕ, ◌≡◌, refl, true, false, String, List, Option, none, some, arith, Option-cases, inl, inr, ◌⊎◌,
}
use holler_server.Net.{IpAddr}
use holler_server.Token.Record.{ok, StoredState, TokenRecord, VerifiedClient}
use holler_server.Token.Disk.{Disk, with_lock}
use holler_server.Token.Secret.{require_pepper}
use holler_server.Token.Store.{
  find_record, authenticates, matches_hash, or_empty, redeem, verify_credential,
  verify_credential_with_pepper,
}
use holler_server.Token.Records.{Stored}
use holler_server.Token.Steps.{Result-cases}
use holler_server.Proto.Json.{as_str}
use holler_server.Proto.{Body, AuthBody, Envelope}
use holler_server.Proto.Codec.{Decoded, DecodeError}
use holler_server.Proto.Decode.{decode}
use holler_server.Wire.Connection.{Server, Context}
use holler_server.Wire.Connection.Admission.{
  Attempt, authenticated, handle_join, authenticate, first_body, first_frame,
}

module _ {Contents : Type 0} where
  -- Two states of the shared objects that differ at most in the state directory and the tracker.
  pub record SameLive (s s' : Server Contents) : Type 0 where
    pub registry : s'.registry ≡ s.registry
    pub roster : s'.roster ≡ s.roster
    pub talks : s'.talks ≡ s.talks

  abbrev SameLive_refl : (s : Server Contents) → SameLive s s
  SameLive_refl s = record { registry = refl; roster = refl; talks = refl }

pub decoded_cases :
    {A : Type 0} (x : Decoded A)
    → ((e : DecodeError) × (x ≡ Decoded.err e)) ⊎ ((a : A) × (x ≡ Decoded.ok a))
decoded_cases (Decoded.err e) = inl (e, refl)
decoded_cases (Decoded.ok a) = inr (a, refl)

authenticates-bound :
    (state : StoredState) (id : String) (x : Unit {0})
    → authenticates state id ≡ ok x
    → state ≡ StoredState.bound
unfolding authenticates
authenticates-bound StoredState.bound id x h = refl
authenticates-bound StoredState.unused id x h = absurd (ground arith)
authenticates-bound StoredState.invalidated id x h = absurd (ground arith)
authenticates-bound StoredState.revoked id x h = absurd (ground arith)

module _ {Contents : Type 0} (ctx : Context Contents) (ip : IpAddr) (a : Attempt) where
  handle_join-SameLive :
      (env : Envelope) (secret hostname : String) (s : Server Contents)
      → SameLive s (handle_join ctx ip a env secret hostname s).0
  unfolding handle_join
  handle_join-SameLive env secret hostname s =
      let result =
        redeem ctx.platform ctx.pepper env.from secret hostname a.wall a.id_bytes a.credential_bytes
          s.disk in
      record { registry = ground arith; roster = ground arith; talks = ground arith }

  authenticate-SameLive :
      (env : Envelope) (credential : String) (s : Server Contents)
      → SameLive s (authenticate ctx ip a env credential s).0
  unfolding authenticate
  authenticate-SameLive env credential s = record {
    registry = ground arith;
    roster = ground arith;
    talks = ground arith;
  }

  first_body-SameLive :
      (env : Envelope) (body : Body) (s : Server Contents)
      → SameLive s (first_body ctx ip a env body s).0
  unfolding first_body
  first_body-SameLive env (Body.join b) s = handle_join-SameLive env b.secret b.hostname s
  first_body-SameLive env (Body.auth b) s = elim (Option-cases (as_str (some b.credential))) [
    | inl e ↦ rw (e, first_body) (SameLive_refl s)
    | inr (credential, e) ↦ rw (e, first_body) (authenticate-SameLive env credential s)
  ]
  first_body-SameLive env _ s = SameLive_refl s

  pub first_frame-SameLive :
      (raw : String) (s : Server Contents) → SameLive s (first_frame ctx ip a raw s).0
  unfolding first_frame
  first_frame-SameLive raw s = elim (decoded_cases (decode ctx.serde raw)) [
    | inl (e, h) ↦ rw (h, first_frame) (SameLive_refl s)
    | inr (env, h) ↦ rw (h, first_frame) (first_body-SameLive env env.body s)
  ]

  -- A verification that succeeds found a bound record with a credential hash that the credential
  -- matches.
  pub record IsBound (pepper : Option String) (rs : List TokenRecord) (env : Envelope)
      (credential : String) (v : VerifiedClient) : Type 0 where
    pub key : List ℕ
    pub record_of : TokenRecord
    pub has_pepper : require_pepper pepper ≡ ok key
    pub found : find_record env.from rs ≡ some record_of
    pub bound : record_of.state ≡ StoredState.bound
    pub matching : matches_hash ctx.platform key credential record_of.credential_hash ≡ ok true
    pub same_token : v.token_id ≡ env.from
    pub same_client : v.client_id ≡ or_empty record_of.client_id

  verify-IsBound :
      (rs : List TokenRecord) (d d' : Disk) (env : Envelope) (credential : String)
      (v : VerifiedClient)
      → Stored ctx.platform rs d
      → verify_credential ctx.platform ctx.pepper env.from credential a.wall d ≡ (ok v, d')
      → IsBound ctx.pepper rs env credential v
  unfolding verify_credential verify_credential_with_pepper with_lock
  verify-IsBound rs d d' env credential v st h =
      let reads = st.reads in
      let u = st.unlocked in
      elim (Result-cases (require_pepper ctx.pepper)) [
        | inr (f, e) ↦ absurd (ground arith)
        | inl (k, ek) ↦ elim (Option-cases (find_record env.from rs)) [
          | inl e ↦ absurd (ground arith)
          | inr (r, er) ↦ elim (Result-cases (authenticates r.state env.from)) [
            | inr (f, e) ↦ absurd (ground arith)
            | inl (x, es) ↦
                elim (Result-cases (matches_hash ctx.platform k credential r.credential_hash)) [
                  | inr (f, e) ↦ absurd (ground arith)
                  | inl (false, em) ↦ absurd (ground arith)
                  | inl (true, em) ↦ record {
                    key = k;
                    record_of = r;
                    has_pepper = ek;
                    found = er;
                    bound = authenticates-bound r.state env.from x es;
                    matching = em;
                    same_token = ground arith;
                    same_client = ground arith;
                  }
                ]
          ]
        ]
      ]

  -- What a first frame that authenticates was.
  pub data Entered (rs : List TokenRecord) (raw : String) (v : VerifiedClient) : Type 0 where
    entered :
        (env : Envelope) (b : AuthBody) (credential : String)
        → decode ctx.serde raw ≡ Decoded.ok env
        → env.body ≡ Body.auth b
        → as_str (some b.credential) ≡ some credential
        → IsBound ctx.pepper rs env credential v
        → Entered rs raw v

  authenticate-IsBound :
      (rs : List TokenRecord) (env : Envelope) (credential : String) (s : Server Contents)
      (v : VerifiedClient)
      → Stored ctx.platform rs s.disk
      → (authenticate ctx ip a env credential s).1 ≡ authenticated v
      → IsBound ctx.pepper rs env credential v
  unfolding authenticate
  authenticate-IsBound rs env credential s v st h =
      let call = verify_credential ctx.platform ctx.pepper env.from credential a.wall s.disk in
      elim (Result-cases call.0) [
        | inr (none, e) ↦ absurd (ground (arith, h, e))
        | inr (some f, e) ↦ absurd (ground (arith, h, e))
        | inl (w, e) ↦
            let same : w ≡ v = ground (arith, h, e) in
            verify-IsBound rs s.disk call.1 env credential v st (ground (arith, e, same))
      ]

  first_body-Entered :
      (rs : List TokenRecord) (raw : String) (env : Envelope) (body : Body) (s : Server Contents)
      (v : VerifiedClient)
      → Stored ctx.platform rs s.disk
      → decode ctx.serde raw ≡ Decoded.ok env
      → env.body ≡ body
      → (first_body ctx ip a env body s).1 ≡ authenticated v
      → Entered rs raw v
  unfolding first_body
  first_body-Entered rs raw env (Body.join b) s v st d eb h = absurd (ground (arith, h))
  first_body-Entered rs raw env (Body.auth b) s v st d eb h =
      elim (Option-cases (as_str (some b.credential))) [
        | inl e ↦ absurd (ground (arith, h, e))
        | inr (credential, e) ↦
            entered env b credential d eb e
              (authenticate-IsBound rs env credential s v st (ground (arith, h, e)))
      ]
  first_body-Entered rs raw env _ s v st d eb h = absurd (ground (arith, h))

  first_frame-Entered :
      (rs : List TokenRecord) (raw : String) (s : Server Contents) (v : VerifiedClient)
      → Stored ctx.platform rs s.disk
      → (first_frame ctx ip a raw s).1 ≡ authenticated v
      → Entered rs raw v
  unfolding first_frame
  first_frame-Entered rs raw s v st h = elim (decoded_cases (decode ctx.serde raw)) [
    | inl (e, d) ↦ absurd (ground (arith, h, d))
    | inr (env, d) ↦ first_body-Entered rs raw env env.body s v st d refl (ground (arith, h, d))
  ]

  -- Nobody gets in without a credential: whatever its first frame is, a connection that gets past it
  -- has sent an `auth` from a token whose record in the store is bound and has a hash that the
  -- credential matches, and is taken for the client of that record. Until then it has changed
  -- neither the registry nor the roster nor the talk log.
  pub only_credentials_enter :
      (rs : List TokenRecord) (raw : String) (s : Server Contents) (v : VerifiedClient)
      → Stored ctx.platform rs s.disk
      → (first_frame ctx ip a raw s).1 ≡ authenticated v
      → Entered rs raw v × SameLive s (first_frame ctx ip a raw s).0
  only_credentials_enter rs raw s v st h =
      (first_frame-Entered rs raw s v st h, first_frame-SameLive raw s)
