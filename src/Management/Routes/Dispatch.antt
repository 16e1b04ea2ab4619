-- ===== src/Management/Routes/Dispatch.antt =====
-- management/handler.go, `ServeHTTP`: the methods that reach a handler, and the names they get.
use sqliteproxy.Base.{
  ◌≡◌, ◌≢◌, refl, Bool, true, false, [], ◌∷◌, Text, codes, Option, none, some, is_empty,
  is_empty_iff, text_eq, text_eq_iff, All, if◌then◌else◌, arith, ◌&&◌, drop, length,
}
use sqliteproxy.Management.Routes.{
  Route, create_database, list_databases, import_database, get_database, export_database,
  query_database, method_not_allowed, unknown, not_found, cut_slash, route, route_path,
  member_route, clean_path, get_method, post_method, member_prefix, action_route, collection,
}

-- A name of one path segment.
abbrev pub IsSegment : Text → Type 0
IsSegment name = (name ≢ []) × All (λ c. c ≢ b'/') name

-- The method that a route is for, and the name that its handler gets.
abbrev pub IsRouted : Text → Route → Type 0
IsRouted method create_database = method ≡ post_method
IsRouted method list_databases = method ≡ get_method
IsRouted method import_database = method ≡ post_method
IsRouted method (get_database name) = (method ≡ get_method) × IsSegment name
IsRouted method (export_database name) = (method ≡ get_method) × IsSegment name
IsRouted method (query_database name) = (method ≡ post_method) × IsSegment name
IsRouted method (method_not_allowed allowed) = All (λ m. method ≢ m) allowed
IsRouted method (unknown code text) = Unit

-- What cutting at the first slash gives.
abbrev IsCut : Text → Option (Text × Text) → Type 0
IsCut s none = All (λ c. c ≢ b'/') s
IsCut s (some (a, b)) = All (λ c. c ≢ b'/') a

cut_slash-IsCut : (s : Text) → IsCut s (cut_slash s)
unfolding cut_slash
cut_slash-IsCut [] = tt
cut_slash-IsCut (c ∷ s) = ground (arith, cut_slash-IsCut s)

if-IsRouted :
    (method : Text) (test : Bool) (x y : Route)
    → (test ≡ true → IsRouted method x)
    → (test ≡ false → IsRouted method y)
    → IsRouted method (if test then x else y)
if-IsRouted method true x y p q = p refl
if-IsRouted method false x y p q = q refl

action_route-IsRouted :
    (method name action : Text)
    → All (λ c. c ≢ b'/') name
    → IsRouted method (action_route method name action)
action_route-IsRouted method name action h =
    if-IsRouted method (is_empty name) not_found _ (λ _. tt)
      λ e.
        if-IsRouted method (is_empty action) not_found _ (λ _. tt)
          λ _.
            if-IsRouted method (text_eq action (codes "export") && text_eq method get_method)
              (export_database name) _
              (λ t. (
                ground (arith, text_eq_iff method get_method),
                (ground (arith, is_empty_iff name), h),
              ))
              λ _.
                if-IsRouted method (text_eq action (codes "query") && text_eq method post_method)
                  (query_database name) _
                  (λ t. (
                    ground (arith, text_eq_iff method post_method),
                    (ground (arith, is_empty_iff name), h),
                  ))
                  λ _. tt

cut_route-IsRouted :
    (method parts : Text) (cut : Option (Text × Text))
    → is_empty parts ≡ false
    → IsCut parts cut
    → IsRouted method (elim cut [
      | none ↦
          if text_eq method get_method
          then get_database parts
          else method_not_allowed (get_method ∷ [])
      | some (name, action) ↦ action_route method name action
    ])
cut_route-IsRouted method parts none e h =
    if-IsRouted method (text_eq method get_method) (get_database parts)
      (method_not_allowed (get_method ∷ []))
      (λ t.
        (ground (arith, text_eq_iff method get_method), (ground (arith, is_empty_iff parts), h)))
      (λ t. ground (arith, text_eq_iff method get_method))
cut_route-IsRouted method parts (some (name, action)) e h =
    action_route-IsRouted method name action h

member_route-IsRouted : (method parts : Text) → IsRouted method (member_route method parts)
unfolding member_route
member_route-IsRouted method parts =
    if-IsRouted method _ _ _ (λ _. tt)
      λ e. cut_route-IsRouted method parts (cut_slash parts) e (cut_slash-IsCut parts)

route_path-IsRouted : (method path : Text) → IsRouted method (route_path method path)
unfolding route_path
route_path-IsRouted method path =
    if-IsRouted method (text_eq path collection && text_eq method post_method) create_database _
      (λ t. ground (arith, text_eq_iff method post_method))
      λ a.
        if-IsRouted method (text_eq path collection && text_eq method get_method) list_databases _
          (λ t. ground (arith, text_eq_iff method get_method))
          λ b.
            if-IsRouted method (text_eq path collection)
              (method_not_allowed (get_method ∷ post_method ∷ [])) _
              (λ t. ground (arith, text_eq_iff method get_method, text_eq_iff method post_method))
              λ _.
                if-IsRouted method
                  (text_eq path (codes "/v1/databases/import") && text_eq method post_method)
                  import_database _ (λ t. ground (arith, text_eq_iff method post_method))
                  λ _.
                    if-IsRouted method _ (member_route method (drop (length member_prefix) path))
                      (not_found)
                      (λ _. member_route-IsRouted method (drop (length member_prefix) path)) λ _. tt

-- Every request goes to one route, and reaches a handler only with the method that the handler is
-- for; a database's name that a handler gets is not empty and has no slash. A method is refused only
-- where it is none of those that the answer names.
pub route-IsRouted : (method path : Text) → IsRouted method (route method path)
unfolding route
route-IsRouted method path = route_path-IsRouted method (clean_path path)
