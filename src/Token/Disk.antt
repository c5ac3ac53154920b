-- ===== src/Token/Disk.antt =====
-- The file under `TokenStore` of src/token/mod.rs. A call is a function of the state directory: what
-- the file holds, and what locking and writing will do this time, which the operating system decides.
-- The lock makes a call one step.
use holler_server.Prelude.{String, List, [], Option, none, some, if◌then◌else◌}
use holler_server.Token.Record.{
  TokenError, io, Result, ok, err, panic, TokenRecord, Platform, is_blank,
}

pub data File : Type 0 where
  missing : File
  unreadable : String → File
  text : String → File

pub record Disk : Type 0 where
  pub file : File
  -- What opening and locking the lock file fails with, if it fails.
  pub lock_error : Option String
  -- What writing the file fails with, if it fails, and what it leaves there.
  pub write_error : Option (String × File)

abbrev pub Exec : Type 0 → Type 0
Exec A = Disk → Result A × Disk

abbrev continue : {A B : Type 0} → Result A → (A → Exec B) → Exec B
continue (ok a) f d = f a d
continue (err e) f d = (err e, d)
continue panic f d = (panic, d)

infixl 5 ◌>>=◌ ◌>>◌
abbrev pub ◌>>=◌ : {A B : Type 0} → Exec A → (A → Exec B) → Exec B
◌>>=◌ m f d = let (r, d') = m d in continue r f d'

abbrev pub ◌>>◌ : {B : Type 0} → Exec (Unit {0}) → Exec B → Exec B
m >> k = m >>= λ _. k

abbrev pub lift : {A : Type 0} → Result A → Exec A
lift r d = (r, d)

abbrev pub pure : {A : Type 0} → A → Exec A
pure a d = (ok a, d)

-- `ok_or_else`
abbrev pub or_fail : {A : Type 0} → Option A → TokenError → Result A
or_fail none e = err e
or_fail (some a) e = ok a

abbrev pub write : String → Exec (Unit {0})
write json d = elim d.write_error [
  | none ↦ (ok tt, record d { file = text json })
  | some (e, left) ↦ (err (io e), record d { file = left })
]

unfoldable pub with_lock : {A : Type 0} → Exec A → Exec A
with_lock f d = elim d.lock_error [ none ↦ f d | some e ↦ (err (io e), d) ]

module _ (p : Platform) where
  unfoldable pub load : Exec (List TokenRecord)
  load d = elim d.file [
    | missing ↦ (ok [], d)
    | unreadable e ↦ (err (io e), d)
    | text contents ↦ if is_blank contents then (ok [], d) else (p.from_json contents, d)
  ]

  unfoldable pub save : List TokenRecord → Exec (Unit {0})
  save records = do json ← lift (p.to_json records); write json
