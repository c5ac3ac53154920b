-- ===== src/Wire/TalkLog/Tests.antt =====
-- Tests of src/wire/talklog.rs: the theorems at a log of one exchange, with entries as the contents of
-- files.
use holler_server.Prelude.{◌≡◌, refl, true, List, [], ◌∷◌, ◌++◌, some, none, string_eq}
use holler_server.Prelude.Dict.{get}
use holler_server.Proto.{ReplyBody}
use holler_server.Wire.TalkLog.{
  succeeds, TalkEntry, Json, Files, safe_stem, safe_filename, load, record_prompt, reply_record,
  find_entry,
}
use holler_server.Wire.TalkLog.Exchange.{IsLawful, record_replies, exchange_logged}

abbrev kept : Json (List TalkEntry)
kept = record { to_string = λ entries. entries; from_str = λ contents. some contents }

kept-IsLawful : IsLawful kept
kept-IsLawful = λ entries. refl

abbrev no_files : Files (List TalkEntry)
no_files = []

abbrev answered : ReplyBody
answered = record { session = "main"; text = some "hello"; chunks = []; done = true; exit = none }

exchange_logged_example :
    let after =
      record_replies kept
        (record_prompt kept succeeds no_files "t0" "p1" "main" "hi")
        "p1"
        "main"
        (("t1", answered) ∷ []) in
    (load kept after "main"
      ≡ load kept no_files "main"
        ++ record {
          id = "p1";
          session = "main";
          prompt_text = "hi";
          prompt_ts = "t0";
          replies = reply_record "t1" answered ∷ [];
        }
          ∷ [])
    × (load kept after "side" ≡ load kept no_files "side")
unfolding load get find_entry safe_filename safe_stem
exchange_logged_example =
    exchange_logged kept kept-IsLawful no_files "t0" "p1" "main" "hi" "side" (("t1", answered) ∷ [])
      refl refl
