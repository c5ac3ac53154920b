-- ===== src/Token/Refusals.antt =====
-- What src/token/mod.rs refuses in the join circuit: a second redemption, an expired secret, and a wrong
-- secret.
use Prim.Native.String.{◌++◌ as append}
use holler_server.Prelude.{
  ℕ, ◌+◌, ◌≡◌, refl, false, String, List, [], ◌∷◌, ◌++◌, Option, none, some, arith, if◌then◌else◌,
  Option-cases, inl, inr, string_eq, eq_iff, leb,
}
use holler_server.Token.Hex.{to_hex}
use holler_server.Text.Utf8.{as_bytes}
use holler_server.Token.Record.{
  wrong_secret, already_bound, display_state, has_expired, ok, err, StoredState, TokenRecord,
  Platform, IsLawful, RedeemResult, stale,
}
use holler_server.Token.Disk.{Disk, with_lock}
use holler_server.Token.Secret.{Random, bytes, failed, bytes_eq, hash_secret, random_hex}
use holler_server.Token.Store.{
  find_record, change_record, bind_client, unused_record, redeemable, mint_with_pepper,
  redeem_with_pepper,
}
use holler_server.Token.Records.{Stored, written, save-Stored, find-change, find-append}
use holler_server.Token.Circuit.{mint-adds, verify-hash}

module _ (p : Platform) (l : IsLawful p) where
  bound-refused :
      (pepper : List ℕ) (id secret machine : String) (now : ℕ) (a b : Random)
      → (rs : List TokenRecord) (r : TokenRecord) (d : Disk) → Stored p rs d
      → find_record id rs ≡ some r
      → r.state ≡ StoredState.bound
      → redeem_with_pepper p pepper id secret machine now a b d ≡ (err (already_bound id), d)
  unfolding redeem_with_pepper with_lock redeemable display_state
  bound-refused pepper id secret machine now a b rs r d st e eb =
      let reads = st.reads in let u = st.unlocked in ground arith

  -- Under IsLawful, in a store that works: once a token was redeemed, every further redemption of it is refused as
  -- already bound and changes nothing, whatever secret, machine, pepper and time it comes with.
  pub redeemed_once :
      (pepper : List ℕ) (id secret machine : String) (now : ℕ) (a b : Random)
      → (rs : List TokenRecord) (d d' : Disk) (res : RedeemResult) → Stored p rs d
      → redeem_with_pepper p pepper id secret machine now a b d ≡ (ok res, d')
      → (pepper' : List ℕ) (secret' machine' : String) (now' : ℕ) (a' b' : Random)
      → redeem_with_pepper p pepper' id secret' machine' now' a' b' d'
        ≡ (err (already_bound id), d')
  unfolding redeem_with_pepper with_lock random_hex
  redeemed_once pepper id secret machine now (failed e) b rs d d' res st ok_res pepper' secret'
        machine' now' a' b' =
      let reads = st.reads in let u = st.unlocked in ground arith
  redeemed_once pepper id secret machine now (bytes a) (failed e) rs d d' res st ok_res pepper'
        secret' machine' now' a' b' =
      let reads = st.reads in let u = st.unlocked in ground arith
  redeemed_once pepper id secret machine now (bytes a) (bytes b) rs d d' res st ok_res pepper'
        secret' machine' now' a' b' =
      let reads = st.reads in
      let u = st.unlocked in
      let bind =
        bind_client machine (append "cli_" (to_hex a))
          (hash_secret p pepper (append "hlr_live_" (to_hex b))) in
      let new = change_record id bind rs in
      let (w, st') = save-Stored p l rs new d st in
      elim (Option-cases (find_record id rs)) [
        | inl e ↦ ground arith
        | inr (r, e) ↦
            let f : find_record id new ≡ some (bind r) =
              ground (arith, e, find-change id bind rs id (λ r. refl), eq_iff id id) in
            let same : d' ≡ written p new d = ground arith in
            rw same (
              bound-refused pepper' id secret' machine' now' a' b' new (bind r) (written p new d)
                st' f refl)
      ]

  -- Under IsLawful, in a store that works, where the id that the generator gives is not taken and the calendar can
  -- hold the times: after a mint, a redemption with a secret whose HMAC is not that of the secret
  -- minted is refused and changes nothing. The refusal is stale from `ttl` after the mint on, and
  -- wrong secret before.
  pub minted_secret_refused :
      (pepper : List ℕ) (label : Option String) (ttl minted_at redeemed_at end : ℕ)
      → (expires created machine secret' : String) (i s : List ℕ) (a b : Random)
        (rs : List TokenRecord) (d : Disk)
      → Stored p rs d
      → find_record (append "tok_" (to_hex i)) rs ≡ none
      → p.later minted_at ttl ≡ ok end
      → p.format end ≡ ok expires
      → p.format minted_at ≡ ok created
      → bytes_eq
          (p.hmac pepper (as_bytes secret'))
          (p.hmac pepper (as_bytes (append "hlr_" (to_hex s))))
        ≡ false
      → let id = append "tok_" (to_hex i) in
        let minted = mint_with_pepper p pepper label ttl minted_at (bytes i) (bytes s) d in
        redeem_with_pepper p pepper id secret' machine redeemed_at a b minted.1
        ≡ (err (if leb (minted_at + ttl) redeemed_at then stale id else wrong_secret id), minted.1)
  unfolding has_expired redeem_with_pepper with_lock redeemable display_state
  minted_secret_refused pepper label ttl minted_at redeemed_at end expires created machine secret' i
        s a b rs d st fresh el ee ec differ =
      let id = append "tok_" (to_hex i) in
      let secret = append "hlr_" (to_hex s) in
      let r = unused_record id (hash_secret p pepper secret) label created expires in
      let rs1 = rs ++ r ∷ [] in
      let m = mint-adds p l pepper label ttl minted_at end expires created i s rs d st el ee ec in
      let d1 = written p rs1 d in
      let st1 = (save-Stored p l rs rs1 d st).1 in
      let f1 : find_record id rs1 ≡ some r =
        ground (arith, fresh, find-append id rs r, eq_iff id id) in
      let at = l.parse-format end expires ee in
      let sum = l.later-eq minted_at ttl end el in
      let check = verify-hash p l pepper secret' secret in
      let reads = st1.reads in let u = st1.unlocked in rw m (ground arith)
