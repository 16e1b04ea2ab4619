-- ===== src/Errors.antt =====
-- The errors of the program: the sentinels of `storage/store.go`, those of `server/errors.go`,
-- errors of the systems below (`external`), and what `fmt.Errorf` wraps round them.
use sqliteproxy.Base.{◌++◌, Bool, true, false, Text, codes, Option, none, some}

pub data Error : Type 0 where
  -- `ErrNotFound`, `ErrInvalidLabel`, `ErrClosed`
  not_found invalid_label closed : Error
  -- a call through a nil pointer, which panics
  nil_dereference : Error
  -- `errAccessDenied`, `errDBAccessDenied`, `errNotBound`
  access_denied : Error
  db_access_denied : Text → Error
  not_bound : Error
  -- an error with a text of its own, `fmt.Errorf` with no `%w`
  message : Text → Error
  -- an error that the operating system, a driver or a parser returned
  external : Text → Error
  -- `fmt.Errorf("text: %w", e)` and `fmt.Errorf("%w: text", e)`
  wrapped : Text → Error → Error
  annotated : Error → Text → Error

-- `errors.Is(e, storage.ErrNotFound)`
abbrev pub is_not_found : Error → Bool
is_not_found not_found = true
is_not_found (wrapped t e) = is_not_found e
is_not_found (annotated e t) = is_not_found e
is_not_found invalid_label = false
is_not_found closed = false
is_not_found nil_dereference = false
is_not_found access_denied = false
is_not_found (db_access_denied n) = false
is_not_found not_bound = false
is_not_found (message t) = false
is_not_found (external t) = false

-- `errors.Is(e, storage.ErrInvalidLabel)`
abbrev pub is_invalid_label : Error → Bool
is_invalid_label invalid_label = true
is_invalid_label (wrapped t e) = is_invalid_label e
is_invalid_label (annotated e t) = is_invalid_label e
is_invalid_label not_found = false
is_invalid_label closed = false
is_invalid_label nil_dereference = false
is_invalid_label access_denied = false
is_invalid_label (db_access_denied n) = false
is_invalid_label not_bound = false
is_invalid_label (message t) = false
is_invalid_label (external t) = false

-- `err.Error()`. The text of a MySQL error is the client library's; the program gives its parts.
unfoldable pub error_text : Error → Text
error_text not_found = codes "database not found"
error_text invalid_label = codes "invalid label"
error_text closed = codes "store is closed"
error_text nil_dereference = codes "nil pointer dereference"
error_text access_denied = codes "Access denied"
error_text (db_access_denied n) = n
error_text not_bound = codes "connection is not bound to a database"
error_text (message t) = t
error_text (external t) = t
error_text (wrapped t e) = t ++ codes ": " ++ error_text e
error_text (annotated e t) = error_text e ++ codes ": " ++ t

-- `if err != nil && firstErr == nil { firstErr = err }`
abbrev pub first_error : Option Error → Option Error → Option Error
first_error none e = e
first_error (some d) e = some d
