-- ===== src/Wire/Connection/Deleted.antt =====
-- A deleted token at the door of src/wire/connection.rs: src/token/mod.rs and the first frame together.
use holler_server.Prelude.{ℕ, ◌≡◌, ◌≢◌, sym, ◌∙◌, ap, String, List, some, arith}
use holler_server.Net.{IpAddr}
use holler_server.Token.Record.{TokenRecord, IsLawful, VerifiedClient}
use holler_server.Token.Disk.{Disk}
use holler_server.Token.Records.{Stored}
use holler_server.Token.Store.{find_record, delete}
use holler_server.Token.History.{Request}
use holler_server.Token.Lifecycle.{run, IsEnded, run-Holds, delete-IsEnded, Change-IsEnded}
use holler_server.Wire.Connection.{Server, Context}
use holler_server.Wire.Connection.Admission.{Attempt, authenticated, first_frame}
use holler_server.Wire.Connection.Gate.{Entered, entered, only_credentials_enter}

module _ {Contents : Type 0} (ctx : Context Contents) (ip : IpAddr) (a : Attempt) where
  ended-Entered :
      (rs : List TokenRecord) (raw id : String) (v : VerifiedClient)
      → IsEnded id rs
      → Entered ctx ip a rs raw v
      → v.token_id ≢ id
  ended-Entered rs raw id v (r, found, over) (entered env b credential d e t bound) same =
      let at : find_record id rs ≡ some bound.record_of =
        ap (λ x. find_record x rs) (sym same ∙ bound.same_token) ∙ bound.found in
      let state = bound.bound in ground (arith, found, over, at, state)

  -- Deletion is final at the door too: under IsLawful, once a token that exists was deleted from a store
  -- that can be locked and written, and whatever requests the store has served since, no first
  -- frame authenticates a connection as this token, whatever credential it has.
  pub deleted_never_enters :
      (id raw : String) (now : ℕ) (d : Disk) (rs : List TokenRecord) (r : TokenRecord)
      (calls : List (Request × ℕ)) (s : Server Contents) (v : VerifiedClient)
      → IsLawful ctx.platform
      → Stored ctx.platform rs d
      → find_record id rs ≡ some r
      → s.disk ≡ run ctx.platform ctx.pepper calls (delete ctx.platform id now d).1
      → v.token_id ≡ id
      → (first_frame ctx ip a raw s).1 ≢ authenticated v
  deleted_never_enters id raw now d rs r calls s v l st found at own h =
      let (new, stored, gone) =
        run-Holds ctx.platform l ctx.pepper (IsEnded id) (λ rs new c. Change-IsEnded id c) calls
          (delete ctx.platform id now d).1
          (delete-IsEnded ctx.platform l ctx.pepper id now d rs r st found) in
      let entry = only_credentials_enter ctx ip a new raw s v (rw at stored) h in
      ended-Entered new raw id v gone entry.0 own
