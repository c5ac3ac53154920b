-- ===== src/Wire/TalkLog/Exchange.antt =====
-- What src/wire/talklog.rs keeps of an exchange, and where.
use Prim.Native.Char.{Char, code}
use mathlib.Core.List.{append_assoc}
use holler_server.Prelude.{
  ◌≡◌, refl, true, false, String, List, [], ◌∷◌, ◌++◌, map, none, some, if◌then◌else◌, arith, All,
  ◌==◌, string_eq, ==_refl, eq_iff, Bool-cases, inl, inr,
}
use holler_server.Prelude.Dict.{get-insert}
use holler_server.Text.{codes}
use holler_server.Proto.{ReplyBody}
use holler_server.Wire.TalkLog.{
  succeeds, TalkReplyRecord, TalkEntry, Files, Json, is_safe, safe_char, safe_stem, safe_filename,
  reply_record, find_entry, add_reply, load, save, record_prompt, record_reply,
}

safe_char-safe : (c : Char) → is_safe (code (safe_char c)) ≡ true
safe_char-safe c = elim (Bool-cases (is_safe (code c))) [ inl e ↦ rw e e | inr e ↦ rw e refl ]

-- Whatever the session is called, the part of its file name before `.json` has ASCII letters, digits,
-- `-` and `_` only.
filename_confined : (name : String) → All (λ c. is_safe c ≡ true) (codes (safe_stem name))
unfolding safe_stem
filename_confined String.[] = tt
filename_confined (String.◌∷◌ c s) = (safe_char-safe c, filename_confined s)

append_nil {ℓ} : {A : Type ℓ} (xs : List A) → xs ++ [] ≡ xs
append_nil [] = refl
append_nil (x ∷ xs) = ground (arith, append_nil xs)

-- What is written is read back.
abbrev pub IsLawful : {Contents : Type 0} → Json Contents → Type 0
IsLawful j = (entries : List TalkEntry) → j.from_str (j.to_string entries) ≡ some entries

-- The replies of an exchange, one after the other; each comes with its time.
unfoldable pub record_replies :
    {Contents : Type 0}
    → Json Contents
    → Files Contents
    → String
    → String
    → List (String × ReplyBody)
    → Files Contents
record_replies j files id session [] = files
record_replies j files id session ((ts, reply) ∷ rest) =
    record_replies j (record_reply j succeeds files ts id session reply) id session rest

module _ {Contents : Type 0} (j : Json Contents) (l : IsLawful j) where
  load-save :
      (files : Files Contents) (session other : String) (entries : List TalkEntry)
      → load j (save j succeeds files session entries) other
        ≡ (if safe_filename session == safe_filename other then entries else load j files other)
  unfolding load save
  load-save files session other entries = ground (
    arith,
    get-insert files (safe_filename session) (j.to_string entries) (safe_filename other),
    l entries,
  )

  find-last :
      (id : String) (old : List TalkEntry) (e : TalkEntry)
      → find_entry id old ≡ none
      → e.id ≡ id
      → find_entry id (old ++ e ∷ []) ≡ some e
  unfolding find_entry
  find-last id [] e h q = ground (arith, q, eq_iff e.id id)
  find-last id (x ∷ old) e h q = ground (arith, h, q, find-last id old e)

  add-last :
      (id : String) (r : TalkReplyRecord) (old : List TalkEntry) (e : TalkEntry)
      → find_entry id old ≡ none
      → e.id ≡ id
      → add_reply id r (old ++ e ∷ []) ≡ old ++ record e { replies = e.replies ++ r ∷ [] } ∷ []
  unfolding find_entry add_reply
  add-last id r [] e h q = ground (arith, q, eq_iff e.id id)
  add-last id r (x ∷ old) e h q = ground (arith, h, q, add-last id r old e)

  replies-apart :
      (files : Files Contents) (id session other : String) (rs : List (String × ReplyBody))
      → (safe_filename session == safe_filename other) ≡ false
      → load j (record_replies j files id session rs) other ≡ load j files other
  unfolding record_replies record_reply
  replies-apart files id session other [] apart = refl
  replies-apart files id session other ((ts, r) ∷ rs) apart =
      let entries = add_reply id (reply_record ts r) (load j files session) in
      ground (
        arith,
        apart,
        replies-apart (record_reply j succeeds files ts id session r) id session other rs apart,
        load-save files session other entries,
      )

  replies-kept :
      (files : Files Contents) (id session : String) (old : List TalkEntry) (e : TalkEntry)
      (rs : List (String × ReplyBody))
      → load j files session ≡ old ++ e ∷ []
      → find_entry id old ≡ none
      → e.id ≡ id
      → load j (record_replies j files id session rs) session
        ≡ old ++ record e { replies = e.replies ++ map (λ r. reply_record r.0 r.1) rs } ∷ []
  unfolding record_replies record_reply
  replies-kept files id session old e [] h f q = ground (arith, h, append_nil e.replies)
  replies-kept files id session old e ((ts, r) ∷ rs) h f q =
      let found = find-last id old e f q in
      let new = record e { replies = e.replies ++ reply_record ts r ∷ [] } in
      let added = add-last id (reply_record ts r) old e f q in
      let next = record_reply j succeeds files ts id session r in
      let back : load j next session ≡ old ++ new ∷ [] = ground (
        arith,
        h,
        found,
        added,
        load-save files session session (old ++ new ∷ []),
        ==_refl (safe_filename session),
      ) in
      ground (
        arith,
        replies-kept next id session old new rs back f q,
        append_assoc e.replies (reply_record ts r ∷ []) (map (λ r. reply_record r.0 r.1) rs),
      )

  -- When writes succeed and what was written is read back: a prompt with an id that the session's log
  -- does not have, and then replies to it, leave the log with one more entry at its end, which has the
  -- prompt and these replies in order. The log of a session with another file name stays as it was.
  pub exchange_logged :
      (files : Files Contents) (ts id session text other : String) (rs : List (String × ReplyBody))
      → find_entry id (load j files session) ≡ none
      → (safe_filename session == safe_filename other) ≡ false
      → let after =
          record_replies j (record_prompt j succeeds files ts id session text) id session rs in
        (load j after session
          ≡ load j files session
            ++ record {
              id = id;
              session = session;
              prompt_text = text;
              prompt_ts = ts;
              replies = map (λ r. reply_record r.0 r.1) rs;
            }
              ∷ [])
        × (load j after other ≡ load j files other)
  unfolding record_prompt
  exchange_logged files ts id session text other rs fresh apart =
      let old = load j files session in
      let e : TalkEntry = record {
        id = id;
        session = session;
        prompt_text = text;
        prompt_ts = ts;
        replies = [];
      } in
      let next = record_prompt j succeeds files ts id session text in
      let back : load j next session ≡ old ++ e ∷ [] =
        ground (
          arith,
          load-save files session session (old ++ e ∷ []),
          ==_refl (safe_filename session),
        ) in
      let aside : load j next other ≡ load j files other =
        ground (arith, apart, load-save files session other (old ++ e ∷ [])) in
      (
        replies-kept next id session old e rs back fresh refl,
        ground (arith, aside, replies-apart next id session other rs apart),
      )
