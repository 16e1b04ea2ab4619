-- ===== src/Management/Routes.antt =====
-- management/handler.go, `ServeHTTP`: which handler a request goes to.
pub mod Dispatch
use sqliteproxy.Base.{
  ℕ, Bool, true, false, not, ◌&&◌, [], ◌∷◌, List, Text, codes, Option, none, some, is_empty,
  text_eq, has_prefix, has_suffix, reverse, drop, length, if◌then◌else◌, ◌==◌,
}

pub data Route : Type 0 where
  create_database list_databases import_database : Route
  get_database export_database query_database : Text → Route
  -- the answer 405 with these methods in its header
  method_not_allowed : List Text → Route
  -- the answer 404 with this code and text
  unknown : Text → Text → Route

abbrev pub not_found : Route
not_found = unknown (codes "not_found") (codes "not found")

abbrev slash : ℕ
slash = b'/'

-- `strings.TrimSuffix(path, "/")`, and "/" for the empty path.
abbrev drop_slash : Text → Text
drop_slash [] = []
drop_slash (c ∷ rest) = if c == slash then reverse rest else reverse (c ∷ rest)

unfoldable pub clean_path : Text → Text
clean_path path = let p = drop_slash (reverse path) in if is_empty p then codes "/" else p

-- The text before and after the first slash: `parts[:i]`, `parts[i+1:]`, or nothing if there is none.
unfoldable pub cut_slash : Text → Option (Text × Text)
cut_slash [] = none
cut_slash (c ∷ s) =
    if c == slash
    then some ([], s)
    else elim (cut_slash s) [ none ↦ none | some (a, b) ↦ some (c ∷ a, b) ]

abbrev pub get_method : Text
get_method = codes "GET"

abbrev pub post_method : Text
post_method = codes "POST"

abbrev pub collection : Text
collection = codes "/v1/databases"

abbrev pub member_prefix : Text
member_prefix = codes "/v1/databases/"

-- The action on a named database.
abbrev pub action_route : Text → Text → Text → Route
action_route method name action =
    if is_empty name
    then not_found
    else if is_empty action
    then not_found
    else if text_eq action (codes "export") && text_eq method get_method
    then export_database name
    else if text_eq action (codes "query") && text_eq method post_method
    then query_database name
    else not_found

-- The routes below the collection.
unfoldable pub member_route : Text → Text → Route
unfolding cut_slash
member_route method parts =
    if is_empty parts
    then unknown (codes "database_not_found") (codes "database not found")
    else elim (cut_slash parts) [
      | none ↦
          if text_eq method get_method
          then get_database parts
          else method_not_allowed (get_method ∷ [])
      | some (name, action) ↦ action_route method name action
    ]

-- `ServeHTTP` on the path without its last slash.
unfoldable pub route_path : Text → Text → Route
unfolding member_route
route_path method path =
    if text_eq path collection && text_eq method post_method
    then create_database
    else if text_eq path collection && text_eq method get_method
    then list_databases
    else if text_eq path collection
    then method_not_allowed (get_method ∷ post_method ∷ [])
    else if text_eq path (codes "/v1/databases/import") && text_eq method post_method
    then import_database
    else if has_prefix member_prefix path
    then member_route method (drop (length member_prefix) path)
    else not_found

unfoldable pub route : Text → Text → Route
unfolding route_path clean_path
route method path = route_path method (clean_path path)
