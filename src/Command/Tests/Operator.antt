-- ===== src/Command/Tests/Operator.antt =====
-- The theorems about the commands of src/main.rs at the server with one redeemed token.
use holler_server.Prelude.{
  ◌≡◌, ◌⊎◌, ◌↔◌, refl, String, [], ◌∷◌, Option, none, some, arith, string_eq, ℕ, nat_beq,
  if◌then◌else◌,
}
use holler_server.Prelude.Dict.{get}
use holler_server.Token.Record.{TokenRecord, not_found, ok, ConnectionStatus}
use holler_server.Token.Secret.{bytes}
use holler_server.Token.Store.{find_record}
use holler_server.Token.Tests.Sample.{sample, sample-IsLawful}
use holler_server.Proto.Json.{pos}
use holler_server.Advertise.{unknown}
use holler_server.Wire.Control.{SayReply}
use holler_server.Wire.Control.Client.{reached}
use holler_server.System.{here}
use holler_server.System.Tests.{redeemed, live, live-Stored, lawful, start, meets}
use holler_server.Command.Tokens.{
  Around, Done, TokenCommands, ClientCommands, run_token, run_client, failed,
}
use holler_server.Proto.Json.{Value}
use holler_server.Wire.Query.{Facts, status_body, status_rest}
use holler_server.Command.Answers.{print_answer, print_status_like}
use holler_server.Command.Deletion.{Deleted, deletion_ends, deleting, delete_command_cuts_off}
use holler_server.Command.Talk.{
  SeemsFinished, run_say, say_status, exit_status, clamp, process_exit,
}

abbrev around : Around
around = record {
  platform = sample;
  pepper = some "pepper";
  make = λ unit n. ok n;
  json = λ views. none;
  shown = λ n. "0";
  open_error = none;
  now = 9;
  id_bytes = bytes [];
  secret_bytes = bytes [];
  advertised = unknown;
  probe = λ id. ConnectionStatus.disconnected;
}

abbrev missing : Done
missing = record { disk = live; lines = []; told = none; end = failed (not_found "tok_a") }

deletion_ends_example :
    ((r : TokenRecord) × (find_record "tok_a" (redeemed ∷ []) ≡ some r)
      × Deleted around "token" "tok_a" r (run_token around (TokenCommands.delete "tok_a") live)
      × Deleted around "client" "tok_a" r (run_client around (ClientCommands.detach "tok_a") live))
    ⊎ ((find_record "tok_a" (redeemed ∷ []) ≡ none)
        × (run_token around (TokenCommands.delete "tok_a") live ≡ missing)
        × (run_client around (ClientCommands.detach "tok_a") live ≡ missing))
deletion_ends_example =
    deletion_ends around sample-IsLawful "tok_a" live (redeemed ∷ []) refl live-Stored

delete_command_cuts_off_example :
    get (deleting lawful around refl meets "tok_a" start).server.registry.entries "tok_a" ≡ none
unfolding find_record
delete_command_cuts_off_example =
    delete_command_cuts_off lawful around refl meets start
      (deleting lawful around refl meets "tok_a" start) "tok_a" (redeemed ∷ []) redeemed
      sample-IsLawful refl live-Stored refl (λ j v h. absurd (ground (arith, h))) here

-- A turn that ends with 256 is seen as a success.
say_status_example :
    ((run_say (λ s. s) none "main" (reached (SayReply.ok "done" (some (pos 256))))).status ≡ 0) ↔ (
      ◌≡◌ {A = Option String} none none
      × SeemsFinished (λ s. s) (reached (SayReply.ok "done" (some (pos 256)))))
say_status_example = say_status (λ s. s) none "main" (reached (SayReply.ok "done" (some (pos 256))))

seen_as_success :
    (run_say (λ s. s) none "main" (reached (SayReply.ok "done" (some (pos 256))))).status ≡ 0
unfolding run_say exit_status clamp process_exit
seen_as_success = refl

abbrev facts : Facts
facts = record {
  hostname = "hub";
  listening = "127.0.0.1:41807" ∷ [];
  clients = 2;
  sessions = 1;
  confirmed = [];
}

abbrev digit : ℕ → String
digit n = if nat_beq n 1 then "1" else "2"

status_shown :
    print_answer digit (λ (v : Value). "") (status_body facts)
    ≡ "role:      server" ∷ "hostname:  hub" ∷ "protocol:  1 (min 1 max 1)"
      ∷ "listening: 127.0.0.1:41807" ∷ "clients:   2" ∷ "status:    healthy" ∷ []
unfolding status_body status_rest print_answer print_status_like
status_shown = refl
