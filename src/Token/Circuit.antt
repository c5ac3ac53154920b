-- ===== src/Token/Circuit.antt =====
-- The join circuit of src/token/mod.rs: mint, redeem, verify.
use Prim.Native.String.{◌++◌ as append}
use holler_server.Prelude.{
  ℕ, ◌+◌, ◌<◌, ◌≡◌, refl, true, false, String, List, [], ◌∷◌, ◌++◌, Option, none, some, arith,
  string_eq, eq_iff,
}
use holler_server.Token.Hex.{to_hex, from_hex-to_hex}
use holler_server.Text.Utf8.{as_bytes}
use holler_server.Token.Record.{
  display_state, has_expired, ok, StoredState, TokenRecord, Platform, IsLawful,
}
use holler_server.Token.Disk.{Disk, with_lock}
use holler_server.Token.Secret.{bytes, bytes_eq, hash_secret, verify_secret, random_hex}
use holler_server.Token.Store.{
  find_record, change_record, bind_client, unused_record, redeemable, authenticates,
  mint_with_pepper, matches_hash, redeem_with_pepper, verify_credential_with_pepper,
}
use holler_server.Token.Records.{Stored, written, save-Stored, find-change, find-append}

bytes_eq_refl : (xs : List ℕ) → bytes_eq xs xs ≡ true
bytes_eq_refl [] = refl
bytes_eq_refl (x ∷ xs) = ground (arith, bytes_eq_refl xs)

module _ (p : Platform) (l : IsLawful p) where
  -- A secret is checked against a hash that the store wrote: the check does not panic, and accepts
  -- exactly when the HMACs of the two secrets under the pepper are the same bytes.
  pub verify-hash :
      (pepper : List ℕ) (secret other : String)
      → verify_secret p pepper secret (hash_secret p pepper other)
        ≡ ok (bytes_eq (p.hmac pepper (as_bytes secret)) (p.hmac pepper (as_bytes other)))
  unfolding verify_secret hash_secret
  verify-hash pepper secret other =
      let e =
        from_hex-to_hex (p.hmac pepper (as_bytes other)) (l.hmac_bytes pepper (as_bytes other)) in
      ground (arith, e)

  verify-same :
      (pepper : List ℕ) (secret : String)
      → verify_secret p pepper secret (hash_secret p pepper secret) ≡ ok true
  verify-same pepper secret =
      rw (verify-hash pepper secret secret)
        (rw (bytes_eq_refl (p.hmac pepper (as_bytes secret))) refl)

  -- Minting in a store that works, with an expiry that the calendar can hold: the secret is handed
  -- out, and one unused record is added that expires after the given duration.
  pub mint-adds :
      (pepper : List ℕ) (label : Option String) (ttl now end : ℕ) (expires created : String)
      (i s : List ℕ)
      → (rs : List TokenRecord) (d : Disk) → Stored p rs d
      → p.later now ttl ≡ ok end
      → p.format end ≡ ok expires
      → p.format now ≡ ok created
      → let id = append "tok_" (to_hex i) in
        let secret = append "hlr_" (to_hex s) in
        let new = rs ++ unused_record id (hash_secret p pepper secret) label created expires ∷ [] in
        mint_with_pepper p pepper label ttl now (bytes i) (bytes s) d
        ≡ (ok (record { token_id = id; secret = secret; expires = expires }), written p new d)
  unfolding mint_with_pepper with_lock random_hex
  mint-adds pepper label ttl now end expires created i s rs d st el ee ec =
      let reads = st.reads in
      let u = st.unlocked in
      let new =
        rs
        ++ unused_record (append "tok_" (to_hex i))
            (hash_secret p pepper (append "hlr_" (to_hex s))) label created expires
          ∷ [] in
      let w = save-Stored p l rs new d st in ground arith

  redeem-binds :
      (pepper : List ℕ) (id secret machine : String) (now : ℕ) (a b : List ℕ)
      → (rs : List TokenRecord) (r : TokenRecord) (d : Disk) → Stored p rs d
      → find_record id rs ≡ some r
      → r.state ≡ StoredState.unused
      → has_expired (p.parse r.expires) now ≡ false
      → r.secret_hash ≡ hash_secret p pepper secret
      → let client_id = append "cli_" (to_hex a) in
        let credential = append "hlr_live_" (to_hex b) in
        let new =
          change_record id (bind_client machine client_id (hash_secret p pepper credential)) rs in
        redeem_with_pepper p pepper id secret machine now (bytes a) (bytes b) d ≡ (
          ok (record { token_id = id; client_id = client_id; credential = credential }),
          written p new d,
        )
  unfolding redeem_with_pepper with_lock random_hex redeemable display_state
  redeem-binds pepper id secret machine now a b rs r d st er eu ex eh =
      let reads = st.reads in
      let u = st.unlocked in
      let new =
        change_record id
          (bind_client machine (append "cli_" (to_hex a))
            (hash_secret p pepper (append "hlr_live_" (to_hex b))))
          rs in
      let w = save-Stored p l rs new d st in let v = verify-same pepper secret in ground arith

  verify-admits :
      (pepper : List ℕ) (id credential client_id machine seen : String) (now : ℕ)
      → (rs : List TokenRecord) (r : TokenRecord) (d : Disk) → Stored p rs d
      → find_record id rs ≡ some r
      → r.state ≡ StoredState.bound
      → r.credential_hash ≡ some (hash_secret p pepper credential)
      → r.client_id ≡ some client_id
      → r.machine ≡ some machine
      → p.format now ≡ ok seen
      → let new = change_record id (λ (x : TokenRecord). record x { last_seen = some seen }) rs in
        verify_credential_with_pepper p pepper id credential now d
        ≡ (ok (record { token_id = id; client_id = client_id; machine = machine }), written p new d)
  unfolding verify_credential_with_pepper with_lock authenticates matches_hash
  verify-admits pepper id credential client_id machine seen now rs r d st er eb ec ei em ef =
      let reads = st.reads in
      let u = st.unlocked in
      let new = change_record id (λ (x : TokenRecord). record x { last_seen = some seen }) rs in
      let w = save-Stored p l rs new d st in let v = verify-same pepper credential in ground arith

  -- Under IsLawful, in a store that works, where the id that the generator gives is not taken, where the calendar can
  -- hold the three times, and where the secret is redeemed less than `ttl` after it was minted: the
  -- token is minted, its secret redeems it, and the credential that this hands out is verified, for
  -- the client id handed out with it and the machine that redeemed.
  pub join_circuit :
      (pepper : List ℕ) (label : Option String) (ttl minted_at redeemed_at verified_at end : ℕ)
      → (expires created seen machine : String) (i s a b : List ℕ) (rs : List TokenRecord)
        (d : Disk)
      → Stored p rs d
      → find_record (append "tok_" (to_hex i)) rs ≡ none
      → p.later minted_at ttl ≡ ok end
      → p.format end ≡ ok expires
      → p.format minted_at ≡ ok created
      → p.format verified_at ≡ ok seen
      → redeemed_at < minted_at + ttl
      → let id = append "tok_" (to_hex i) in
        let secret = append "hlr_" (to_hex s) in
        let client_id = append "cli_" (to_hex a) in
        let credential = append "hlr_live_" (to_hex b) in
        let minted = mint_with_pepper p pepper label ttl minted_at (bytes i) (bytes s) d in
        let joined =
          redeem_with_pepper p pepper id secret machine redeemed_at (bytes a) (bytes b) minted.1 in
        let verified = verify_credential_with_pepper p pepper id credential verified_at joined.1 in
        (minted.0 ≡ ok (record { token_id = id; secret = secret; expires = expires }))
        × (joined.0 ≡ ok (record { token_id = id; client_id = client_id; credential = credential }))
        × (verified.0 ≡ ok (record { token_id = id; client_id = client_id; machine = machine }))
  unfolding has_expired
  join_circuit pepper label ttl minted_at redeemed_at verified_at end expires created seen machine i
        s a b rs d st fresh el ee ec ev before =
      let id = append "tok_" (to_hex i) in
      let secret = append "hlr_" (to_hex s) in
      let client_id = append "cli_" (to_hex a) in
      let hash = hash_secret p pepper (append "hlr_live_" (to_hex b)) in
      let r = unused_record id (hash_secret p pepper secret) label created expires in
      let rs1 = rs ++ r ∷ [] in
      let m = mint-adds pepper label ttl minted_at end expires created i s rs d st el ee ec in
      let d1 = written p rs1 d in
      let st1 = (save-Stored p l rs rs1 d st).1 in
      let f1 : find_record id rs1 ≡ some r =
        ground (arith, fresh, find-append id rs r, eq_iff id id) in
      let alive : has_expired (p.parse expires) redeemed_at ≡ false =
        ground (arith, before, l.parse-format end expires ee, l.later-eq minted_at ttl end el) in
      let j =
        redeem-binds pepper id secret machine redeemed_at a b rs1 r d1 st1 f1 refl alive refl in
      let bind = bind_client machine client_id hash in
      let rs2 = change_record id bind rs1 in
      let d2 = written p rs2 d1 in
      let st2 = (save-Stored p l rs1 rs2 d1 st1).1 in
      let f2 : find_record id rs2 ≡ some (bind r) =
        ground (arith, f1, find-change id bind rs1 id (λ r. refl), eq_iff id id) in
      let v =
        verify-admits pepper id (append "hlr_live_" (to_hex b)) client_id machine seen verified_at
          rs2 (bind r) d2 st2 f2 refl refl refl refl ev in
      rw m (rw j (rw v (refl, refl, refl)))
