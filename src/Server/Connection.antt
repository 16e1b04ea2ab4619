-- ===== src/Server/Connection.antt =====
-- proxy.go: one connection from the handshake to its last command, `handleConnection`.
pub mod Isolation
use sqliteproxy.Base.{ℕ, [], List, Text, none}
use sqliteproxy.Effect.{Result, ok, err}
use sqliteproxy.Server.Binding
use sqliteproxy.Server.Binding.{Event, unbound}
use sqliteproxy.Server.Engine.{Engine}
use sqliteproxy.Server.Handler.{Client, Translator, finalize}
use sqliteproxy.Server.Handler.Protocol.{Command, serve}
use sqliteproxy.Server.Session.{new_session}
use sqliteproxy.Server.Statement.{Parser}
use sqliteproxy.Storage.{Store}

module _ (E : Engine) (tr : Translator) (parse : Parser) (stamp : ℕ → Text) where
  -- The handler of a new connection, whose binding has gone through the handshake.
  unfoldable pub new_client : Store → List Event → Text → ℕ → E.State → Client E
  unfolding Binding.run
  new_client s handshake id now g = record {
    session = new_session id now;
    binding = Binding.run s handshake unbound;
    db = none;
    engine = g;
    clock = now;
    calls = [];
  }

  -- `handleConnection` after the handshake; nothing is served when finalizing fails.
  unfoldable pub handle_connection :
      Store
      → List Event
      → Text
      → Text
      → ℕ
      → List (ℕ × Command E)
      → E.State
      → Result (Unit {0}) × Client E
  unfolding serve
  handle_connection s handshake id user now commands g =
      let bound = finalize E user (new_client s handshake id now g) in
      elim bound.0 [
        | err e ↦ (err e, bound.1)
        | ok _ ↦ (ok tt, serve E tr parse stamp commands bound.1)
      ]
