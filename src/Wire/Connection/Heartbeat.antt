-- ===== src/Wire/Connection/Heartbeat.antt =====
-- A client that sends `ping` frames to src/wire/connection.rs keeps its sessions in the roster.
use holler_server.Prelude.{
  ℕ, ◌-◌, ◌<◌, ◌≤◌, ◌≡◌, ◌≢◌, refl, sym, ◌∙◌, ap, String, List, [], ◌∷◌, ◌++◌, some, All, string_eq,
}
use holler_server.Prelude.Dict.{get}
use holler_server.Prelude.Dict.Unique.{Unique}
use holler_server.Proto.{Body, PingBody, Envelope}
use holler_server.Proto.Codec.{Decoded}
use holler_server.Proto.Decode.{decode}
use holler_server.Roster.{resolve_session}
use holler_server.Roster.Steps.{Call, run}
use holler_server.Roster.Ownership.{
  Held, Foreign, Schedule, end, other, beat, heartbeat_keeps_session,
}
use holler_server.Wire.Connection.{Server, Context}
use holler_server.Wire.Connection.Dispatch.{Moment, handle_frame}
use holler_server.Wire.Connection.Calls.{frame_calls, frame-run, frame_calls-All, run-append}

-- A frame that a connection receives: of which client, and when.
pub record Received (Contents : Type 0) : Type 0 where
  pub token_id : String
  pub client_id : String
  pub moment : Moment Contents
  pub raw : String

module _ {Contents : Type 0} (ctx : Context Contents) where
  -- The frames of all connections, in the order in which they are handled.
  unfoldable pub handle_all : List (Received Contents) → Server Contents → Server Contents
  handle_all [] s = s
  handle_all (f ∷ fs) s =
      handle_all fs (handle_frame ctx f.token_id f.client_id f.moment f.raw s).server

  -- Frames of other clients, none of which is handled when the owner has been silent for `limit`, and
  -- pings of the owner; the owner is last heard of at `seen`, and after the frames at `seen'`.
  pub data Kept (owner : String) (limit : ℕ) : ℕ → List (Received Contents) → ℕ → Type 0 where
    no_more : {seen : ℕ} → Kept owner limit seen [] seen
    theirs :
        {seen seen' : ℕ} {f : Received Contents} {fs : List (Received Contents)}
        → f.token_id ≢ owner
        → ((k : ℕ) → f.moment.instant k - seen < limit)
        → Kept owner limit seen fs seen'
        → Kept owner limit seen (f ∷ fs) seen'
    pings :
        {seen seen' : ℕ} {f : Received Contents} {fs : List (Received Contents)} {env : Envelope}
        {b : PingBody}
        → f.token_id ≡ owner
        → decode ctx.serde f.raw ≡ Decoded.ok env
        → env.body ≡ Body.ping b
        → Kept owner limit (f.moment.instant 0) fs seen'
        → Kept owner limit seen (f ∷ fs) seen'

  calls_of : List (Received Contents) → List (ℕ × Call)
  calls_of [] = []
  calls_of (f ∷ fs) = frame_calls ctx f.token_id f.client_id f.moment f.raw ++ calls_of fs

  all-run :
      (fs : List (Received Contents)) (s : Server Contents)
      → (handle_all fs s).roster ≡ run s.roster (calls_of fs)
  unfolding handle_all run calls_of
  all-run [] s = refl
  all-run (f ∷ fs) s =
      let s1 = (handle_frame ctx f.token_id f.client_id f.moment f.raw s).server in
      let first = frame_calls ctx f.token_id f.client_id f.moment f.raw in
      all-run fs s1
      ∙ ap (λ r. run r (calls_of fs)) (frame-run ctx f.token_id f.client_id f.moment f.raw s)
      ∙ sym (run-append s.roster first (calls_of fs))

  abbrev Theirs : String → ℕ → ℕ → ℕ × Call → Type 0
  Theirs owner limit seen (now, c) = (now - seen < limit) × Foreign owner c

  before-Schedule :
      (owner : String) (limit : ℕ) {seen seen' : ℕ} (cs ds : List (ℕ × Call))
      → All (Theirs owner limit seen) cs
      → Schedule owner limit seen ds seen'
      → Schedule owner limit seen (cs ++ ds) seen'
  before-Schedule owner limit [] ds t rest = rest
  before-Schedule owner limit ((now, c) ∷ cs) ds t rest =
      other t.0.0 t.0.1 (before-Schedule owner limit cs ds t.1 rest)

  Kept-Schedule :
      (owner : String) (limit : ℕ) {seen seen' : ℕ} {fs : List (Received Contents)}
      → Kept owner limit seen fs seen'
      → Schedule owner limit seen (calls_of fs) seen'
  unfolding calls_of
  Kept-Schedule owner limit no_more = end
  Kept-Schedule owner limit (theirs {f = f} {fs = fs} d silent rest) =
      before-Schedule owner limit (frame_calls ctx f.token_id f.client_id f.moment f.raw)
        (calls_of fs)
        (frame_calls-All ctx f.token_id f.client_id (Theirs owner limit _) f.moment f.raw
          (λ k n h mode hsid. (silent k, d)) (silent 0, d) (λ n b. (silent 0, tt)))
        (Kept-Schedule owner limit rest)
  Kept-Schedule owner limit (pings {f = f} {fs = fs} own d b rest) =
      rw (d, b, own, frame_calls) (beat (Kept-Schedule owner limit rest))

  -- A connected client that pings stays reachable: whatever frames the other clients send, presence
  -- for the same name included, and however they interleave, a prompt for the name finds the client
  -- that holds it, as long as less than `gone_after` passes between its pings, and since the last
  -- one. The prune window must not be shorter than `gone_after`.
  pub pinging_client_stays_routed :
      (s : Server Contents) (owner name : String) (seen seen' x : ℕ) (fs : List (Received Contents))
      → s.roster.config.gone_after ≤ s.roster.config.prune_after
      → Unique s.roster.entries
      → Held owner seen (get s.roster.entries name)
      → Kept owner s.roster.config.gone_after seen fs seen'
      → x - seen' < s.roster.config.gone_after
      → resolve_session (handle_all fs s).roster x name ≡ some owner
  pinging_client_stays_routed s owner name seen seen' x fs le u h kept lt = rw (all-run fs s) (
      heartbeat_keeps_session s.roster owner name seen seen' x (calls_of fs) le u h
        (Kept-Schedule owner s.roster.config.gone_after kept) lt)
