-- ===== src/Wire/Connection/Cases.antt =====
-- Splits on what the first frame and the session loop of src/wire/connection.rs end in.
use holler_server.Prelude.{◌≡◌, refl, Bool, List, ◌⊎◌, inl, inr}
use holler_server.Token.Record.{VerifiedClient}
use holler_server.Wire.Connection.{Sent}
use holler_server.Wire.Connection.Admission.{Admitted, closed, authenticated}
use holler_server.Wire.Connection.Session.{Ended, running, over}

pub Admitted-cases :
    (x : Admitted)
    → ((sent : List Sent) × (x ≡ closed sent)) ⊎ ((v : VerifiedClient) × (x ≡ authenticated v))
Admitted-cases (closed sent) = inl (sent, refl)
Admitted-cases (authenticated v) = inr (v, refl)

pub Ended-cases : (x : Ended) → (x ≡ running) ⊎ ((certain : Bool) × (x ≡ over certain))
Ended-cases running = inl refl
Ended-cases (over certain) = inr (certain, refl)
