-- ===== src/Wire/TalkLog.antt =====
-- The talk log of src/wire/talklog.rs. The directory is a map from file names to contents; the crate
-- serde_json and whether a write succeeds are arguments. The lock makes a call one step.
pub mod Exchange
pub mod Tests
use Prim.Native.Char.{Char, char, code}
use Prim.Native.String.{◌++◌ as append}
use holler_server.Prelude.{
  ℕ, Bool, true, false, ◌||◌, ◌&&◌, String, List, [], ◌∷◌, ◌++◌, Option, none, some, if◌then◌else◌,
  leb, nat_beq, Eq, ◌==◌, string_eq,
}
use holler_server.Prelude.Dict.{Dict, get, insert}
use holler_server.Proto.Json.{ℤ}
use holler_server.Proto.{ReplyBody}

pub record TalkReplyRecord : Type 0 where
  pub text : Option String
  pub chunks : List String
  pub done : Bool
  pub exit : Option ℤ
  pub ts : String

pub record TalkEntry : Type 0 where
  pub id : String
  pub session : String
  pub prompt_text : String
  pub prompt_ts : String
  pub replies : List TalkReplyRecord

-- The entries of a file as JSON, and back; `Contents` is what files contain.
pub record Json (Contents : Type 0) : Type 0 where
  pub to_string : List TalkEntry → Contents
  pub from_str : Contents → Option (List TalkEntry)

abbrev pub Files : Type 0 → Type 0
Files Contents = Dict String Contents

-- How writing a file ends; a write that fails may leave other contents behind.
pub data Write (Contents : Type 0) : Type 0 where
  succeeds : Write Contents
  fails : (left : Option Contents) → Write Contents

-- ASCII letters and digits, `-` and `_`.
abbrev pub is_safe : ℕ → Bool
is_safe c =
    leb b'0' c && leb c b'9'
    || leb b'A' c && leb c b'Z'
    || leb b'a' c && leb c b'z'
    || nat_beq c b'-'
    || nat_beq c b'_'

abbrev underscore : Char
underscore = char 95 tt

abbrev pub safe_char : Char → Char
safe_char c = if is_safe (code c) then c else underscore

unfoldable pub safe_stem : String → String
safe_stem String.[] = ""
safe_stem (String.◌∷◌ c s) = String.◌∷◌ (safe_char c) (safe_stem s)

unfoldable pub safe_filename : String → String
safe_filename name = append (safe_stem name) ".json"

unfoldable pub reply_record : String → ReplyBody → TalkReplyRecord
reply_record ts reply = record {
  text = reply.text;
  chunks = reply.chunks;
  done = reply.done;
  exit = reply.exit;
  ts = ts;
}

unfoldable pub find_entry : String → List TalkEntry → Option TalkEntry
find_entry id [] = none
find_entry id (e ∷ rest) = if e.id == id then some e else find_entry id rest

-- The first entry with the id, with one more reply.
unfoldable pub add_reply : String → TalkReplyRecord → List TalkEntry → List TalkEntry
add_reply id r [] = []
add_reply id r (e ∷ rest) =
    let later = add_reply id r rest in
    if e.id == id then record e { replies = e.replies ++ r ∷ [] } ∷ rest else e ∷ later

abbrev or_no_entries : Option (List TalkEntry) → List TalkEntry
or_no_entries none = []
or_no_entries (some entries) = entries

module _ {Contents : Type 0} (j : Json Contents) where
  -- A file that is missing or does not parse is an empty log.
  unfoldable pub load : Files Contents → String → List TalkEntry
  load files session = elim (get files (safe_filename session)) [
    | none ↦ []
    | some contents ↦ or_no_entries (j.from_str contents)
  ]

  -- A write that fails is only warned about.
  unfoldable pub save : Write Contents → Files Contents → String → List TalkEntry → Files Contents
  save succeeds files session entries = insert files (safe_filename session) (j.to_string entries)
  save (fails none) files session entries = files
  save (fails (some left)) files session entries = insert files (safe_filename session) left

  unfoldable pub record_prompt :
      Write Contents → Files Contents → String → String → String → String → Files Contents
  record_prompt written files ts id session text = save written files session (
      load files session
      ++ record { id = id; session = session; prompt_text = text; prompt_ts = ts; replies = [] }
        ∷ [])

  unfoldable pub record_reply :
      Write Contents → Files Contents → String → String → String → ReplyBody → Files Contents
  record_reply written files ts id session reply =
      let entries = load files session in
      elim (find_entry id entries) [
        | none ↦ files
        | some e ↦ save written files session (add_reply id (reply_record ts reply) entries)
      ]
