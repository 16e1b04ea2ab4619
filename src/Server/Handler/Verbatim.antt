-- ===== src/Server/Handler/Verbatim.antt =====
-- server/handler.go with translator/translator.go: the handler with the translator that the program gives
-- it, on statements that neither has to change.
use sqliteproxy.Base.{
  true, false, Text, codes, none, some, List, [], ◌∷◌, has_prefix, to_upper, to_upper_byte, ℕ, ◌<◌,
  ◌≡◌, refl, ap, ◌∙◌, inl, inr, arith,
}
use sqliteproxy.Effect.{Result, ok, err, Action}
use sqliteproxy.Errors.{not_bound}
use sqliteproxy.Server.Engine.{Engine}
use sqliteproxy.Server.Handler.{Translator, Client, Reply, done, exec}
use sqliteproxy.Server.Handler.Dispatch.{
  execute_kind, execute_translated, execute_all, handle_translated, handle_first, handle_parsed,
  handle_query, translated,
}
use sqliteproxy.Server.Statement.{
  Parser, Stmt, Kind, insert_stmt, update_stmt, delete_stmt, use_stmt, show_databases, show_other,
  select_stmt, begin_stmt, commit_stmt, rollback_stmt, other_stmt,
}
use sqliteproxy.Storage.{Database}
use sqliteproxy.Translator.Commands.{starts_with_one}
use sqliteproxy.Translator.Translate.{translate, rewrite}
use sqliteproxy.Translator.Types.{TypeMap}
use sqliteproxy.Translator.Unchanged.Statement.{row_verbs, IsPlain, Verb, Verb-cases, rewrite-plain}

-- `Translate`, and `TranslateAST` of a tree that `Restore` has written.
abbrev pub program_translator : TypeMap → Translator
program_translator order = record {
  translate = translate order;
  translate_restored = rewrite order;
}

abbrev pub IsWrite : Kind → Type 0
IsWrite insert_stmt = Unit
IsWrite update_stmt = Unit
IsWrite delete_stmt = Unit
IsWrite _ = ⊥

-- A statement that writes rows, which `Restore` writes as `sql`, with no notation of MySQL.
pub record IsVerbatim (s : Stmt) (sql : Text) : Type 0 where
  pub writes : IsWrite s.kind
  pub restores : s.restored ≡ ok sql
  pub begins : starts_with_one (to_upper sql) row_verbs ≡ true
  pub plain : IsPlain sql

abbrev pub AllVerbatim : List Stmt → List Text → Type 0
AllVerbatim [] [] = Unit
AllVerbatim (s ∷ ss) (t ∷ ts) = IsVerbatim s t × AllVerbatim ss ts
AllVerbatim _ _ = ⊥

unmarked_letter :
    (c d : ℕ) (s r : Text)
    → to_upper (c ∷ s) ≡ d ∷ r
    → 64 < d
    → has_prefix (codes "-- RECONSTRUCT_TABLE:") (c ∷ s) ≡ false
unfolding has_prefix to_upper to_upper_byte
unmarked_letter c d s r e h = ground (arith, e, h)

unmarked :
    (sql : Text) → Verb (to_upper sql) → has_prefix (codes "-- RECONSTRUCT_TABLE:") sql ≡ false
unfolding has_prefix
unmarked [] v = refl
unmarked (c ∷ s) (inl (r, e)) = unmarked_letter c b'S' s _ e (omega arith)
unmarked (c ∷ s) (inr (inl (r, e))) = unmarked_letter c b'I' s _ e (omega arith)
unmarked (c ∷ s) (inr (inr (inl (r, e)))) = unmarked_letter c b'U' s _ e (omega arith)
unmarked (c ∷ s) (inr (inr (inr (r, e)))) = unmarked_letter c b'D' s _ e (omega arith)

module _ (E : Engine) where
  -- The texts one after the other, up to the first that fails.
  unfoldable pub exec_all : List Text → Reply E → Action (Client E) (Reply E)
  exec_all [] last c = (ok last, c)
  exec_all (t ∷ ts) last c =
      let run = exec E t c in elim run.0 [ ok r ↦ exec_all ts r run.1 | err e ↦ (err e, run.1) ]

module _ (E : Engine) (order : TypeMap) (parse : Parser) where
  execute_kind-write :
      (k : Kind) (sql : Text) (c : Client E)
      → IsWrite k
      → execute_kind E (program_translator order) parse (some k) sql c ≡ exec E sql c
  unfolding execute_kind
  execute_kind-write insert_stmt sql c w = refl
  execute_kind-write update_stmt sql c w = refl
  execute_kind-write delete_stmt sql c w = refl
  execute_kind-write (use_stmt _) sql c w = elim w [ ]
  execute_kind-write show_databases sql c w = elim w [ ]
  execute_kind-write show_other sql c w = elim w [ ]
  execute_kind-write (select_stmt _) sql c w = elim w [ ]
  execute_kind-write begin_stmt sql c w = elim w [ ]
  execute_kind-write commit_stmt sql c w = elim w [ ]
  execute_kind-write rollback_stmt sql c w = elim w [ ]
  execute_kind-write other_stmt sql c w = elim w [ ]

  execute_translated-IsVerbatim :
      (s : Stmt) (t : Text) (c : Client E)
      → IsVerbatim s t
      → execute_translated E
          (program_translator order)
          parse
          (some s.kind)
          (translated E (program_translator order) parse s)
          c
        ≡ exec E t c
  unfolding execute_translated
  execute_translated-IsVerbatim s t c v =
      let verb = Verb-cases (to_upper t) v.begins in
      rw (v.restores, rewrite-plain t order verb v.plain, unmarked t verb)
        (execute_kind-write s.kind t c v.writes)

  abbrev Runs : Type 0
  Runs = Result (Reply E) × Client E

  abbrev and_then : (Reply E → Action (Client E) (Reply E)) → Runs → Runs
  and_then rest run = elim run.0 [ ok r ↦ rest r run.1 | err e ↦ (err e, run.1) ]

  and_then-same :
      (f g : Reply E → Action (Client E) (Reply E)) (run : Runs)
      → ((r : Reply E) (c : Client E) → f r c ≡ g r c)
      → and_then f run ≡ and_then g run
  and_then-same f g (ok r, c) h = h r c
  and_then-same f g (err e, c) h = refl

  execute_all-IsVerbatim :
      (ss : List Stmt) (ts : List Text) (last : Reply E) (c : Client E)
      → AllVerbatim ss ts
      → execute_all E (program_translator order) parse ss last c ≡ exec_all E ts last c
  unfolding execute_all exec_all
  execute_all-IsVerbatim [] [] last c v = refl
  execute_all-IsVerbatim [] (t ∷ ts) last c v = elim v [ ]
  execute_all-IsVerbatim (s ∷ ss) [] last c v = elim v [ ]
  execute_all-IsVerbatim (s ∷ ss) (t ∷ ts) last c v =
      let tr = program_translator order in
      ap (and_then (execute_all E tr parse ss)) (execute_translated-IsVerbatim s t c v.0)
      ∙ and_then-same (execute_all E tr parse ss) (exec_all E ts) (exec E t c)
          (λ r d. execute_all-IsVerbatim ss ts r d v.1)

  handle_first-write :
      (k : Kind) (text : Text) (s : Stmt) (ss : List Stmt) (c : Client E)
      → IsWrite k
      → handle_first E (program_translator order) parse k text (s ∷ ss) c
        ≡ execute_all E (program_translator order) parse (s ∷ ss) done c
  unfolding handle_first handle_translated
  handle_first-write insert_stmt text s ss c w = refl
  handle_first-write update_stmt text s ss c w = refl
  handle_first-write delete_stmt text s ss c w = refl
  handle_first-write (use_stmt _) text s ss c w = elim w [ ]
  handle_first-write show_databases text s ss c w = elim w [ ]
  handle_first-write show_other text s ss c w = elim w [ ]
  handle_first-write (select_stmt _) text s ss c w = elim w [ ]
  handle_first-write begin_stmt text s ss c w = elim w [ ]
  handle_first-write commit_stmt text s ss c w = elim w [ ]
  handle_first-write rollback_stmt text s ss c w = elim w [ ]
  handle_first-write other_stmt text s ss c w = elim w [ ]

  -- A query of a client that is bound to a database, which the parser reads as one or more INSERT, UPDATE
  -- and DELETE statements, each restored as a text with no notation that the translator rewrites, has the
  -- engine execute exactly these texts, in order, on the session's transaction or connection, up to the
  -- first that fails, whose error is the answer.
  pub handle_query-IsVerbatim :
      (text : Text) (s : Stmt) (ss : List Stmt) (t : Text) (ts : List Text) (d : Database)
      (c : Client E)
      → c.db ≡ some d
      → parse text ≡ ok (s ∷ ss)
      → AllVerbatim (s ∷ ss) (t ∷ ts)
      → handle_query E (program_translator order) parse text c ≡ exec_all E (t ∷ ts) done c
  unfolding handle_query
  handle_query-IsVerbatim text s ss t ts d c b p v =
      let tr = program_translator order in
      ap
        (λ o. elim o as (λ _. Runs) [
          | none ↦ (err not_bound, c)
          | some _ ↦ handle_parsed E tr parse text (parse text) c
        ])
        b
      ∙ ap (λ r. handle_parsed E tr parse text r c) p
      ∙ handle_first-write s.kind text s ss c v.0.writes
      ∙ execute_all-IsVerbatim (s ∷ ss) (t ∷ ts) done c v
