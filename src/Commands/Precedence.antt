-- ===== src/Commands/Precedence.antt =====
-- cmd/sqlite-proxy/main.go: which of the flags, the file and the defaults a setting comes from.
use sqliteproxy.Base.{Text, Option, none, some, List, [], ◌∷◌, ◌≡◌, refl, ◌∙◌, ap, text_eq}
use sqliteproxy.Commands.{
  Setting, address_flag, port_flag, storage_flag, management_address_flag, management_port_flag,
  wal_flag, max_conns_flag, debug_flag, Flags, default_flags, parse_flag, parse_flags, overridden,
  from_flags, loaded, proxy_config, is_flag_passed,
}
use sqliteproxy.Config.{Config, FileConfig, default_config, to_config}
use sqliteproxy.Effect.{Result, ok, err}
use sqliteproxy.Errors.{Error}

-- One flag over a configuration.
abbrev pub with_flag : Setting → Config → Config
with_flag (address_flag v) c = record c { address = v }
with_flag (port_flag v) c = record c { port = v }
with_flag (storage_flag v) c = record c { storage_root = v }
with_flag (management_address_flag v) c = record c { management_address = v }
with_flag (management_port_flag v) c = record c { management_port = v }
with_flag (wal_flag v) c = record c { wal_mode = v }
with_flag (max_conns_flag v) c = record c { max_conns = v }
with_flag (debug_flag v) c = record c { debug = v }

-- The flags one after the other.
abbrev pub with_flags : List Setting → Config → Config
with_flags [] c = c
with_flags (s ∷ ss) c = with_flags ss (with_flag s c)

from_flags-parse_flag :
    (s : Setting) (f : Flags) → from_flags (parse_flag s f) ≡ with_flag s (from_flags f)
unfolding from_flags
from_flags-parse_flag (address_flag v) f = refl
from_flags-parse_flag (port_flag v) f = refl
from_flags-parse_flag (storage_flag v) f = refl
from_flags-parse_flag (management_address_flag v) f = refl
from_flags-parse_flag (management_port_flag v) f = refl
from_flags-parse_flag (wal_flag v) f = refl
from_flags-parse_flag (max_conns_flag v) f = refl
from_flags-parse_flag (debug_flag v) f = refl

overridden-parse_flag :
    (c : Config) (s : Setting) (f : Flags)
    → overridden c (parse_flag s f) ≡ with_flag s (overridden c f)
unfolding overridden is_flag_passed text_eq
overridden-parse_flag c (address_flag v) f = refl
overridden-parse_flag c (port_flag v) f = refl
overridden-parse_flag c (storage_flag v) f = refl
overridden-parse_flag c (management_address_flag v) f = refl
overridden-parse_flag c (management_port_flag v) f = refl
overridden-parse_flag c (wal_flag v) f = refl
overridden-parse_flag c (max_conns_flag v) f = refl
overridden-parse_flag c (debug_flag v) f = refl

module _ (read : Flags → Config)
    (follows : (s : Setting) (f : Flags) → read (parse_flag s f) ≡ with_flag s (read f)) where
  follows-all : (ss : List Setting) (f : Flags) → read (parse_flags ss f) ≡ with_flags ss (read f)
  follows-all [] f = refl
  follows-all (s ∷ ss) f = follows-all ss (parse_flag s f) ∙ ap (with_flags ss) (follows s f)

-- The configuration that the flags are put over.
abbrev pub base_config : (Text → FileConfig × Option Error) → Text → Result Config
base_config load [] = ok default_config
base_config load (c ∷ s) =
    let (fc, failure) = load (c ∷ s) in elim failure [ none ↦ ok (to_config fc) | some e ↦ err e ]

abbrev pub over : List Setting → Result Config → Result Config
over ss (ok c) = ok (with_flags ss c)
over ss (err e) = err e

loaded_lem :
    (l : FileConfig × Option Error) (ss : List Setting)
    → loaded l (parse_flags ss default_flags)
      ≡ over ss (elim l.1 [ none ↦ ok (to_config l.0) | some e ↦ err e ])
unfolding default_flags overridden is_flag_passed loaded to_config
loaded_lem (fc, none) ss = ap ok (
    follows-all (overridden (to_config fc)) (overridden-parse_flag (to_config fc)) ss default_flags)
loaded_lem (fc, some e) ss = refl

-- The proxy starts with the configuration of the file that is named, or else with the default one, and
-- in either case every flag on the command line replaces the value of its setting, the later one of
-- two flags of one name counting; a file that does not load gives its error and no configuration.
pub proxy_config_lem :
    (load : Text → FileConfig × Option Error) (file : Text) (ss : List Setting)
    → proxy_config load file ss ≡ over ss (base_config load file)
unfolding proxy_config from_flags default_flags
proxy_config_lem load [] ss = ap ok (follows-all from_flags from_flags-parse_flag ss default_flags)
proxy_config_lem load (c ∷ s) ss = loaded_lem (load (c ∷ s)) ss
