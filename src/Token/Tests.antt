-- ===== src/Token/Tests.antt =====
-- Tests of src/token/mod.rs: the theorems at concrete stores, over the sample platform.
pub mod Sample
use Prim.Native.String.{◌++◌ as append}
use holler_server.Prelude.{
  ◌*◌, ◌++◌, ℕ, ◌≡◌, ◌≢◌, refl, String, List, [], ◌∷◌, Option, none, some, All, arith, ◌<◌, true,
  false,
}
use holler_server.Text.Utf8.{as_bytes, is_char_boundary}
use holler_server.Text.{trim}
use holler_server.Token.Hex.{from_pairs, IsByte, to_hex, from_hex, parsed, from_hex-to_hex}
use holler_server.Token.Record.{
  display_state, is_blank, Result, ok, err, not_found, wrong_secret, already_bound, TokenRecord,
  StoredState, RedeemResult, VerifiedClient,
}
use holler_server.Token.Disk.{Disk, missing, load, save, with_lock}
use holler_server.Token.Secret.{bytes, hash_secret, random_hex}
use holler_server.Token.Store.{
  find_record, unused_record, redeem, redeem_with_pepper, delete, mint_with_pepper,
  verify_credential_with_pepper, verify_credential,
}
use holler_server.Token.Records.{Stored, written, save-Stored}
use holler_server.Token.History.{
  Request, mints, lists, deletes, redeems, verifies, perform, failed_changes_nothing,
}
use holler_server.Token.Lifecycle.{
  run, consistent, IsConsistent, Holds, records_stay-IsConsistent, deleted_token_refused,
}
use holler_server.Text.{codes, parse_number}
use holler_server.Text.Utf8.{utf8_char}
use holler_server.Proto.Json.{pos}
use holler_server.Token.Ttl.{
  TtlUnit, seconds, minutes, hours, days, parse_ttl, duration, panics, byte_length, split_last,
  parse_i64, unit_of, ttl_accepted, ttl_unit_panics,
}
use holler_server.Token.Circuit.{join_circuit}
use holler_server.Token.Refusals.{redeemed_once, minted_secret_refused}
use holler_server.Token.Tests.Sample.{sample_from_json, sample_parse, sample, sample-IsLawful}

abbrev pub empty : Disk
empty = record { file = missing; lock_error = none; write_error = none }

pub empty-Stored : Stored sample [] empty
unfolding load
empty-Stored = record { reads = refl; unlocked = refl; writable = refl }

abbrev pepper : Option String
pepper = some "pepper"

abbrev key : List ℕ
key = 1 ∷ []

-- A bound record, in a store.
abbrev pub bound_record : TokenRecord
bound_record = record {
  token_id = "tok_00";
  secret_hash = "00";
  state = StoredState.bound;
  label = none;
  machine = some "host";
  client_id = some "cli_00";
  credential_hash = some "01";
  created_at = ".";
  expires = "+.";
  last_seen = none;
}

abbrev pub one : Disk
one = written sample (bound_record ∷ []) empty

pub one-Stored : Stored sample (bound_record ∷ []) one
one-Stored = (save-Stored sample sample-IsLawful [] (bound_record ∷ []) empty empty-Stored).1

abbrev pub calls : List (Request × ℕ)
calls =
    (mints none 5 (bytes (1 ∷ [])) (bytes (2 ∷ [])), 10)
    ∷ (redeems "tok_01" "hlr_02" "host" (bytes (3 ∷ [])) (bytes (4 ∷ [])), 12)
    ∷ (deletes "tok_00", 13)
    ∷ []

not_there : (perform sample pepper (deletes "tok_00") 7 empty).0 ≡ err (not_found "tok_00")
unfolding perform delete with_lock load find_record
not_there = refl

fails : (perform sample pepper (deletes "tok_00") 7 empty).0 ≢ ok tt
fails = λ e. ground (arith, not_there, e)

records_stay-IsConsistent_example :
    Holds sample sample-IsLawful pepper (All IsConsistent) (run sample pepper calls one)
unfolding consistent
records_stay-IsConsistent_example =
    records_stay-IsConsistent sample sample-IsLawful pepper calls one
      (bound_record ∷ [], one-Stored, (refl, tt))

deleted_token_refused_example :
    let after = run sample pepper calls (delete sample "tok_00" 9 one).1 in
    let res : RedeemResult = record {
      token_id = "tok_00";
      client_id = "cli_05";
      credential = "hlr_live_06";
    } in
    let v : VerifiedClient = record {
      token_id = "tok_00";
      client_id = "cli_00";
      machine = "host";
    } in
    ((redeem sample pepper "tok_00" "hlr_02" "host" 20 (bytes (5 ∷ [])) (bytes (6 ∷ [])) after).0
      ≢ ok res)
    × ((verify_credential sample pepper "tok_00" "hlr_live_06" 20 after).0 ≢ ok v)
unfolding find_record
deleted_token_refused_example =
    deleted_token_refused sample sample-IsLawful pepper "tok_00" 9 one (bound_record ∷ [])
      bound_record one-Stored refl calls "hlr_02" "host" "hlr_live_06" 20 (bytes (5 ∷ []))
      (bytes (6 ∷ []))
      (record { token_id = "tok_00"; client_id = "cli_05"; credential = "hlr_live_06" })
      (record { token_id = "tok_00"; client_id = "cli_00"; machine = "host" })

join_circuit_example :
    let minted = mint_with_pepper sample key none 5 10 (bytes (1 ∷ [])) (bytes (2 ∷ [])) empty in
    let joined =
      redeem_with_pepper sample key "tok_01" "hlr_02" "host" 14
        (bytes (3 ∷ []))
        (bytes (4 ∷ []))
        minted.1 in
    let verified = verify_credential_with_pepper sample key "tok_01" "hlr_live_04" 20 joined.1 in
    (minted.0
      ≡ ok (record { token_id = "tok_01"; secret = "hlr_02"; expires = "+++++++++++++++." }))
    × (joined.0
        ≡ ok (record { token_id = "tok_01"; client_id = "cli_03"; credential = "hlr_live_04" }))
    × (verified.0 ≡ ok (record { token_id = "tok_01"; client_id = "cli_03"; machine = "host" }))
unfolding to_hex find_record
join_circuit_example =
    join_circuit sample sample-IsLawful key none 5 10 14 20 15 "+++++++++++++++." "++++++++++."
      "++++++++++++++++++++." "host" (1 ∷ []) (2 ∷ []) (3 ∷ []) (4 ∷ []) [] empty empty-Stored refl
      refl refl refl refl (ground arith)

abbrev minted : Disk
minted = (mint_with_pepper sample key none 5 10 (bytes (1 ∷ [])) (bytes (2 ∷ [])) empty).1

abbrev minted_record : TokenRecord
minted_record =
    unused_record "tok_01" (hash_secret sample key "hlr_02") none "++++++++++." "+++++++++++++++."

minted-written : minted ≡ written sample (minted_record ∷ []) empty
unfolding mint_with_pepper with_lock load random_hex to_hex
minted-written = refl

minted-Stored : Stored sample (minted_record ∷ []) minted
minted-Stored =
    rw minted-written
      (save-Stored sample sample-IsLawful [] (minted_record ∷ []) empty empty-Stored).1

abbrev joined : Disk
joined =
    (redeem_with_pepper sample key "tok_01" "hlr_02" "host" 14 (bytes (3 ∷ [])) (bytes (4 ∷ []))
      minted).1

abbrev given : RedeemResult
given = record { token_id = "tok_01"; client_id = "cli_03"; credential = "hlr_live_04" }

redeems-once :
    redeem_with_pepper sample key "tok_01" "hlr_02" "host" 14
      (bytes (3 ∷ []))
      (bytes (4 ∷ []))
      minted
    ≡ (ok given, joined)
unfolding redeem_with_pepper mint_with_pepper with_lock load random_hex to_hex is_blank trim
    as_bytes sample_from_json find_record display_state sample_parse from_hex from_pairs
    is_char_boundary
redeems-once = refl

redeemed_once_example :
    redeem_with_pepper sample key "tok_01" "hlr_02" "guest" 14
      (bytes (5 ∷ []))
      (bytes (6 ∷ []))
      joined
    ≡ (err (already_bound "tok_01"), joined)
redeemed_once_example =
    redeemed_once sample sample-IsLawful key "tok_01" "hlr_02" "host" 14 (bytes (3 ∷ []))
      (bytes (4 ∷ [])) (minted_record ∷ []) minted joined given minted-Stored redeems-once key
      "hlr_02" "guest" 14 (bytes (5 ∷ [])) (bytes (6 ∷ []))

abbrev in_seconds : TtlUnit → ℕ → Result ℕ
in_seconds seconds n = ok n
in_seconds minutes n = ok (n * 60)
in_seconds hours n = ok (n * 3600)
in_seconds days n = ok (n * 86400)

two_hours : parse_ttl in_seconds " 2h " ≡ duration 7200
unfolding parse_ttl trim byte_length utf8_char split_last parse_i64 parse_number unit_of
two_hours = refl
