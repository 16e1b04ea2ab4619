-- ===== src/Server/Handler/Protocol.antt =====
-- server/handler.go and proxy.go: the commands of the protocol that the MySQL library hands to the handler.
use sqliteproxy.Base.{ℕ, [], ◌∷◌, List, Text, codes, Option}
use sqliteproxy.Effect.{Action}
use sqliteproxy.Server.Action.{pure, ◌>>=◌}
use sqliteproxy.Server.Engine.{Engine}
use sqliteproxy.Server.Handler.Dispatch.{handle_query}
use sqliteproxy.Server.Handler.Prepared.{
  stmt_prepare, stmt_execute, stmt_close, other_command, field_list,
}
use sqliteproxy.Server.Handler.{Client, Translator, use_db}
use sqliteproxy.Server.Session
use sqliteproxy.Server.Statement.{Parser}

module _ (E : Engine) where
  -- A command that reaches the handler.
  pub data Command : Type 0 where
    com_query : Text → Command
    com_prepare : Text → Command
    com_execute : Option ℕ → Text → E.Args → Command
    com_fields : Text → Command
    com_close : Option ℕ → Command
    com_init_db : Text → Command
    com_other : Text → Command

  unfoldable pub at_time : ℕ → Client E → Client E
  at_time now c = record c { clock = now }

  unfoldable pub note_query : Text → Client E → Client E
  unfolding Session.set_variable
  note_query stamp c = record c {
    session = Session.set_variable (codes "last_query") stamp c.clock c.session;
  }

module _ (E : Engine) (tr : Translator) (parse : Parser) where
  -- A command, less its answer.
  unfoldable pub command : Command E → Action (Client E) (Unit {0})
  command (com_query text) = do _ ← handle_query E tr parse text; pure tt
  command (com_prepare text) = do _ ← stmt_prepare E tr parse text; pure tt
  command (com_execute stmt text args) = do _ ← stmt_execute E tr parse stmt text args; pure tt
  command (com_fields table) = do _ ← field_list E tr parse table; pure tt
  command (com_close stmt) = stmt_close E tr parse stmt
  command (com_init_db name) = use_db E name
  command (com_other text) = other_command E tr parse text

  -- The commands of a client one after the other, each with its time; `stamp` writes a time.
  unfoldable pub serve : (ℕ → Text) → List (ℕ × Command E) → Client E → Client E
  serve stamp [] c = c
  serve stamp ((now, k) ∷ ks) c =
      serve stamp ks (note_query E (stamp now) (command k (at_time E now c)).1)
