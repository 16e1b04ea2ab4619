-- ===== src/Examples/Machine.antt =====
-- A machine for sqlite/pool.go and storage/store.go: the handles that have been handed out with
-- their state, the files, and a limit on the handles.
use sqliteproxy.Base.{
  ℕ, ◌≡◌, refl, ◌≤◌, Bool, true, false, ◌||◌, [], ◌∷◌, List, Text, codes, text_eq, text_eq_iff,
  Option, none, some, length, ltb, ◌==◌, ==_iff, if◌then◌else◌, arith,
}
use sqliteproxy.Errors.{Error, external}
use sqliteproxy.Effect.{Result, ok, err}
use sqliteproxy.Sqlite.Interface.{Host}

-- The head of `handles` is the youngest one; a handle's number is the length of what follows.
pub record Machine : Type 0 where
  pub handles : List Bool
  pub files : List Text
  pub limit : ℕ

abbrev pub is_open_in : ℕ → List Bool → Bool
is_open_in j [] = false
is_open_in j (b ∷ l) = if length l == j then b else is_open_in j l

abbrev pub shut : ℕ → List Bool → List Bool
shut h [] = []
shut h (b ∷ l) = (if length l == h then false else b) ∷ shut h l

abbrev pub stored : Text → List Text → Bool
stored p [] = false
stored p (q ∷ fs) = text_eq q p || stored p fs

abbrev pub without : Text → List Text → List Text
without p [] = []
without p (q ∷ fs) = if text_eq q p then without p fs else q ∷ without p fs

length-shut : (h : ℕ) (l : List Bool) → length (shut h l) ≡ length l
length-shut h [] = refl
length-shut h (b ∷ l) = ground (arith, length-shut h l)

pub is_open_in-shut :
    (h j : ℕ) (l : List Bool) → is_open_in j (shut h l) ≡ (if h == j then false else is_open_in j l)
is_open_in-shut h j [] = ground arith
is_open_in-shut h j (b ∷ l) = ground (
  arith,
  length-shut h l,
  is_open_in-shut h j l,
  ==_iff h j,
  ==_iff (length l) j,
  ==_iff (length l) h,
)

pub is_open_in_fresh : (j : ℕ) (l : List Bool) → length l ≤ j → is_open_in j l ≡ false
is_open_in_fresh j [] h = refl
is_open_in_fresh j (b ∷ l) h = ground (arith, is_open_in_fresh j l)

abbrev pub open_handle : Text → Text → Machine → Result ℕ × Machine
open_handle d n m =
    if ltb (length m.handles) m.limit
    then (ok (length m.handles), record m { handles = true ∷ m.handles })
    else (err (external (codes "too many open files")), m)

abbrev pub add_file : Text → Machine → Machine
add_file p m = record m { files = p ∷ m.files }

abbrev make_file : Text → Machine → Option Error × Machine
make_file p m =
    if stored p m.files then (some (external (codes "file exists")), m) else (none, add_file p m)

abbrev pub machine : Host
machine = record {
  State = Machine;
  is_open = λ j m. is_open_in j m.handles;
  has_file = λ p m. stored p m.files;
  open_db = open_handle;
  configure = λ h a b c m. m;
  ping = λ h m. (none, m);
  exec = λ h q m. (none, m);
  close_db = λ h m. (none, record m { handles = shut h m.handles });
  create_file = make_file;
  close_file = λ p m. (none, m);
  write_file = λ p b m. (none, add_file p m);
  remove_file = λ p m. record m { files = without p m.files };
  stat_file = λ p m. if stored p m.files then none else some (external (codes "no such file"));
  open_db_handles = λ d n m j. ground arith;
  open_db_fresh = λ d n m h e. ground (arith, is_open_in_fresh h m.handles);
  configure_handles = λ h a b c m j. refl;
  ping_handles = λ h m j. refl;
  exec_handles = λ h q m j. refl;
  close_db_handles = λ h m j. is_open_in-shut h j m.handles;
  create_file_handles = λ p m j. ground arith;
  close_file_handles = λ p m j. refl;
  write_file_handles = λ p b m j. refl;
  remove_file_handles = λ p m j. refl;
  open_db_files = λ d n m p h. ground (arith, h);
  configure_files = λ h a b c m p e. e;
  ping_files = λ h m p e. e;
  exec_files = λ h q m p e. e;
  close_db_files = λ h m p e. e;
  create_file_made = λ p m e. ground (arith, text_eq_iff p p);
  close_file_files = λ q m p e. e;
  write_file_made = λ p b m e. ground (arith, text_eq_iff p p);
  stat_file_there = λ p m e. ground arith;
}
