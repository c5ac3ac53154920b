-- ===== src/Wire/Registry/Entries.antt =====
-- Which calls of src/wire/registry.rs begin a connection: none but `insert`.
use holler_server.Prelude.{
  ◌≡◌, refl, ◌∙◌, String, List, some, arith, Option-cases, inl, inr, string_eq, Bool-cases,
}
use holler_server.Prelude.Dict.{get, get-alter, get-remove}
use holler_server.Proto.{Envelope}
use holler_server.Wire.Registry.{Registry, Entry, Effect, at_entry, remove_client}
use holler_server.Wire.Registry.Waiting.{World, started}

-- A change after which every entry was there before, for the same client.
abbrev pub BeginsNone : Registry → Registry → Type 0
BeginsNone g g' =
    (id : String) (e : Entry)
    → get g'.entries id ≡ some e
    → (e0 : Entry) × (get g.entries id ≡ some e0) × (e.client_id ≡ e0.client_id)

pub none_refl : (g : Registry) → BeginsNone g g
none_refl g id e h = (e, h, refl)

pub none_trans : (g g' g'' : Registry) → BeginsNone g g' → BeginsNone g' g'' → BeginsNone g g''
none_trans g g' g'' a b id e h =
    let (e1, h1, c1) = b id e h in let (e0, h0, c0) = a id e1 h1 in (e0, h0, c1 ∙ c0)

pub at_entry-BeginsNone :
    (g : Registry) (token_id : String) (f : Entry → Entry)
    → ((e : Entry) → (f e).client_id ≡ e.client_id)
    → BeginsNone g (at_entry g token_id f)
at_entry-BeginsNone g token_id f keeps id e h = elim (Option-cases (get g.entries id)) [
  | inl n ↦ absurd (ground (arith, h, n, get-alter g.entries token_id f id))
  | inr (e0, n) ↦ (e0, n, ground (arith, h, n, get-alter g.entries token_id f id, keeps e0))
]

pub remove-BeginsNone :
    (g : Registry) (token_id : String) → BeginsNone g (remove_client g token_id).1
unfolding remove_client
remove-BeginsNone g token_id id e h = (e, ground (arith, h, get-remove g.entries token_id id), refl)

-- Other tasks that begin no connection meanwhile.
pub record IsCalm (w : World) : Type 0 where
  pub at_register : (g : Registry) → BeginsNone g (w.at_register g)
  pub at_send : (g : Registry) → BeginsNone g (w.at_send g)
  pub at_wait : (g : Registry) → BeginsNone g (w.at_wait g)
  pub at_check : (g : Registry) → BeginsNone g (w.at_check g)

module _ (w : World) (calm : IsCalm w) (g : Registry) (token_id : String) where
  pub started-BeginsNone :
      {A : Type 0} (register : Entry → Entry) (frame : Envelope) (gone : A)
      (forget : Registry → Registry) (finish : Entry → Registry → A × Registry × List Effect)
      → ((e : Entry) → (register e).client_id ≡ e.client_id)
      → ((g : Registry) → BeginsNone g (forget g))
      → ((e : Entry) (g : Registry) → BeginsNone g (finish e g).1)
      → BeginsNone g (started w g token_id register frame gone forget finish).0
  unfolding started
  started-BeginsNone register frame gone forget finish keeps forgets finishes =
      let g1 = w.at_register g in
      let g2 = w.at_send (at_entry g1 token_id register) in
      let first = calm.at_register g in
      let second : BeginsNone g g2 =
        none_trans g (at_entry g1 token_id register) g2
          (none_trans g g1 (at_entry g1 token_id register) first
            (at_entry-BeginsNone g1 token_id register keeps))
          (calm.at_send (at_entry g1 token_id register)) in
      elim (Option-cases (get g.entries token_id)) [
        | inl h ↦ rw (h, started) (none_refl g)
        | inr (e, h) ↦ elim (Option-cases (get g1.entries token_id)) [
          | inl k ↦ rw (h, k, started) first
          | inr (e1, k) ↦ elim (Bool-cases w.is_open) [
            | inl o ↦
                rw (h, k, o, started)
                  (none_trans g g2 (finish e (w.at_wait g2)).1 second (
                    none_trans g2 (w.at_wait g2) (finish e (w.at_wait g2)).1 (calm.at_wait g2)
                      (finishes e (w.at_wait g2))))
            | inr o ↦ rw (h, k, o, started) (none_trans g g2 (forget g2) second (forgets g2))
          ]
        ]
      ]
