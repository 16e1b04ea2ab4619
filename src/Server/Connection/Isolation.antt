-- ===== src/Server/Connection/Isolation.antt =====
-- proxy.go: which database a connection works on.
use sqliteproxy.Base.{
  ℕ, ◌≡◌, ◌⊎◌, refl, inl, inr, [], List, Text, none, some, Option, false, arith, ap, ◌∙◌,
}
use sqliteproxy.Effect.{ok, Result-cases}
use sqliteproxy.Server.Binding
use sqliteproxy.Server.Binding.{Event, unbound}
use sqliteproxy.Server.Binding.Handshake.{finalize_isolates}
use sqliteproxy.Server.Connection.{new_client, handle_connection}
use sqliteproxy.Server.Engine.{Engine}
use sqliteproxy.Server.Handler.{Client, Translator, finalize}
use sqliteproxy.Server.Handler.Commands.{serve-IsIsolated}
use sqliteproxy.Server.Handler.Isolation.{IsIsolated}
use sqliteproxy.Server.Handler.Protocol.{Command}
use sqliteproxy.Server.Session
use sqliteproxy.Server.Statement.{Parser}
use sqliteproxy.Storage.Consistency.{IsConsistent}
use sqliteproxy.Storage.Registry.{get_by_username}
use sqliteproxy.Storage.{Database, Store}

module _ (E : Engine) where
  abbrev fresh : Text → ℕ → Binding.Binding → E.State → Client E
  fresh id now b g = record {
    session = Session.new_session id now;
    binding = b;
    db = none;
    engine = g;
    clock = now;
    calls = [];
  }

  -- A fresh client whose binding finalizes on a database is isolated on it.
  finalize_from :
      (d : Database) (user id : Text) (now : ℕ) (b : Binding.Binding) (g : E.State)
      → (Binding.finalize user b).0 ≡ ok (some d)
      → IsIsolated E d (finalize E user (fresh id now b g)).1
  unfolding finalize Session.bind
  finalize_from d user id now b g ended =
      rw (ended, finalize)
        (record { bound = refl; own_conn = tt; own_tx = tt; flagged = refl; own_calls = tt })

  finalized :
      (user : Text) (c : Client E)
      → (finalize E user c).0 ≡ ok tt
      → (r : Option Database) × ((Binding.finalize user c.binding).0 ≡ ok r)
  unfolding finalize
  finalized user c h = elim (Result-cases (Binding.finalize user c.binding).0) [
    | inl (r, e) ↦ (r, e)
    | inr (x, e) ↦ absurd (ground arith)
  ]

module _ (E : Engine) (tr : Translator) (parse : Parser) (stamp : ℕ → Text) where
  -- Over a consistent registry, whatever the handshake asked for as long as it has not finalized the
  -- binding, and whatever commands follow, a connection that is served for a user works on the one
  -- database that the registry has under that user's name, which is the one it asked for if it
  -- asked for one: the client is isolated on it.
  pub handle_connection-isolates :
      (s : Store) (handshake : List Event) (id user : Text) (now : ℕ)
      (commands : List (ℕ × Command E)) (g : E.State)
      → IsConsistent s
      → (Binding.run s handshake unbound).finalized ≡ false
      → (handle_connection E tr parse stamp s handshake id user now commands g).0 ≡ ok tt
      → (d : Database) × (get_by_username user s ≡ ok d)
        × (((Binding.run s handshake unbound).requested_db ≡ [])
            ⊎ ((Binding.run s handshake unbound).requested_db ≡ d.name))
        × IsIsolated E d (handle_connection E tr parse stamp s handshake id user now commands g).1
  unfolding handle_connection new_client
  handle_connection-isolates s handshake id user now commands g c pending h =
      let bound = finalize E user (new_client E tr parse stamp s handshake id now g) in
      elim (Result-cases bound.0) [
        | inr (x, e) ↦ absurd (unfold handle_connection in ground arith)
        | inl (u, e) ↦
            let (r, ended) =
              finalized E user (new_client E tr parse stamp s handshake id now g) e in
            let (d, r-some, found, asked) = finalize_isolates s handshake user r c pending ended in
            (
              d,
              found,
              asked,
              rw (e, handle_connection)
                  (serve-IsIsolated E d tr parse stamp commands _ (
                    finalize_from E d user id now (Binding.run s handshake unbound) g
                      (ended ∙ ap ok r-some))),
            )
      ]
