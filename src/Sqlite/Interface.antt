-- ===== src/Sqlite/Interface.antt =====
-- The operating system and the SQL driver as the program sees them: database handles, and files
-- below the storage root. Each call may fail, and returns the state that it leaves.
use sqliteproxy.Base.{ℕ, ◌≡◌, Bool, true, false, Text, Option, none, if◌then◌else◌, ◌==◌}
use sqliteproxy.Base.Int.{ℤ}
use sqliteproxy.Errors.{Error}
use sqliteproxy.Effect.{Result, ok, err}

-- Whether handle `j` is open after a call that may have returned a new handle.
abbrev pub opened : Result ℕ → ℕ → Bool → Bool
opened (ok h) j before = if h == j then true else before
opened (err e) j before = before

pub record Host : Type 1 where
  pub State : Type 0
  pub is_open : ℕ → State → Bool
  pub has_file : Text → State → Bool
  -- `sql.Open(driver, dsn)`, and the calls of a `*sql.DB`
  pub open_db : Text → Text → State → Result ℕ × State
  pub configure : ℕ → ℤ → ℤ → ℤ → State → State
  pub ping : ℕ → State → Option Error × State
  pub exec : ℕ → Text → State → Option Error × State
  pub close_db : ℕ → State → Option Error × State
  -- `os.OpenFile` with `O_CREATE|O_EXCL`, `f.Close`, `os.WriteFile`, `os.Remove`
  pub create_file : Text → State → Option Error × State
  pub close_file : Text → State → Option Error × State
  pub write_file : Text → Text → State → Option Error × State
  pub remove_file : Text → State → State
  -- `os.Lstat`: nil where there is such a file
  pub stat_file : Text → State → Option Error
  -- A handle is new when it is returned, and stays open until it is closed; `Close` closes it
  -- whatever it returns.
  pub open_db_handles :
      (d n : Text) (s : State) (j : ℕ)
      → is_open j (open_db d n s).1 ≡ opened (open_db d n s).0 j (is_open j s)
  pub open_db_fresh :
      (d n : Text) (s : State) (h : ℕ) → (open_db d n s).0 ≡ ok h → is_open h s ≡ false
  pub configure_handles :
      (h : ℕ) (a b c : ℤ) (s : State) (j : ℕ) → is_open j (configure h a b c s) ≡ is_open j s
  pub ping_handles : (h : ℕ) (s : State) (j : ℕ) → is_open j (ping h s).1 ≡ is_open j s
  pub exec_handles : (h : ℕ) (q : Text) (s : State) (j : ℕ) → is_open j (exec h q s).1 ≡ is_open j s
  pub close_db_handles :
      (h : ℕ) (s : State) (j : ℕ)
      → is_open j (close_db h s).1 ≡ (if h == j then false else is_open j s)
  pub create_file_handles :
      (p : Text) (s : State) (j : ℕ) → is_open j (create_file p s).1 ≡ is_open j s
  pub close_file_handles :
      (p : Text) (s : State) (j : ℕ) → is_open j (close_file p s).1 ≡ is_open j s
  pub write_file_handles :
      (p b : Text) (s : State) (j : ℕ) → is_open j (write_file p b s).1 ≡ is_open j s
  pub remove_file_handles :
      (p : Text) (s : State) (j : ℕ) → is_open j (remove_file p s) ≡ is_open j s
  -- A file stays until it is removed, and a call that makes one has made it where it succeeds.
  pub open_db_files :
      (d n : Text) (s : State) (p : Text)
      → has_file p s ≡ true
      → has_file p (open_db d n s).1 ≡ true
  pub configure_files :
      (h : ℕ) (a b c : ℤ) (s : State) (p : Text)
      → has_file p s ≡ true
      → has_file p (configure h a b c s) ≡ true
  pub ping_files :
      (h : ℕ) (s : State) (p : Text) → has_file p s ≡ true → has_file p (ping h s).1 ≡ true
  pub exec_files :
      (h : ℕ) (q : Text) (s : State) (p : Text)
      → has_file p s ≡ true
      → has_file p (exec h q s).1 ≡ true
  pub close_db_files :
      (h : ℕ) (s : State) (p : Text) → has_file p s ≡ true → has_file p (close_db h s).1 ≡ true
  pub create_file_made :
      (p : Text) (s : State) → (create_file p s).0 ≡ none → has_file p (create_file p s).1 ≡ true
  pub close_file_files :
      (q : Text) (s : State) (p : Text) → has_file p s ≡ true → has_file p (close_file q s).1 ≡ true
  pub write_file_made :
      (p b : Text) (s : State)
      → (write_file p b s).0 ≡ none
      → has_file p (write_file p b s).1 ≡ true
  pub stat_file_there : (p : Text) (s : State) → stat_file p s ≡ none → has_file p s ≡ true
