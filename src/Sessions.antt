-- ===== src/Sessions.antt =====
-- `SessionGC` of src/session_gc.py: which session files a clean-up removes. The files found, the
-- answers of the file system and the time of the clean-up are arguments. Times are in seconds.
pub mod Newest
pub mod Kept
mod Tests
use Prim.Native.String.{String}
use text.Mathlib.Text.{◌==◌ as str_eq}
use tobs.Prelude.{
  ℕ, suc, ◌+◌, ◌-◌, ◌*◌, Bool, true, false, Option, none, some, List, [], ◌∷◌, ltb, leb,
  if◌then◌else◌,
}

pub record Session : Type 0 where
  pub stem : String
  pub mtime : ℕ

-- A file of `glob("*.session")`, with `none` where `stat` fails.
pub record Found : Type 0 where
  pub stem : String
  pub mtime : Option ℕ

-- `active_session_name` is `none` where it is None or empty.
pub record SessionGc : Type 0 where
  pub max_age_days : ℕ
  pub keep_last_n : ℕ
  pub active_session_name : Option String

-- Removing a file and its journal, either of which may raise OSError.
pub data Unlink : Type 0 where
  unlinked not_unlinked journal_not_unlinked : Unlink

-- `(files_removed, errors)`, with the sessions left and the sessions removed.
pub record Report : Type 0 where
  pub kept : List Session
  pub removed : List Session
  pub files_removed : ℕ
  pub errors : ℕ

unfoldable pub insert : Session → List Session → List Session
insert s [] = s ∷ []
insert s (t ∷ ts) = if leb t.mtime s.mtime then s ∷ t ∷ ts else t ∷ insert s ts

-- Newest first; `sort(reverse=True)` is stable.
unfoldable pub scan_sessions : List Found → List Session
unfolding insert
scan_sessions [] = []
scan_sessions (f ∷ files) = elim f.mtime [
  | none ↦ scan_sessions files
  | some mtime ↦ insert (record { stem = f.stem; mtime = mtime }) (scan_sessions files)
]

abbrev pub is_active : SessionGc → Session → Bool
is_active gc s = elim gc.active_session_name [ none ↦ false | some name ↦ str_eq s.stem name ]

-- `age_days > self.max_age_days`
abbrev pub is_old : SessionGc → ℕ → Session → Bool
is_old gc now s = ltb (gc.max_age_days * 86_400) (now - s.mtime)

unfoldable pub should_remove : SessionGc → ℕ → Session → ℕ → Bool
should_remove gc now s index =
    if is_active gc s then false else if ltb index gc.keep_last_n then false else is_old gc now s

abbrev pub keep_file : Session → Report → Report
keep_file s r = record r { kept = s ∷ r.kept }

abbrev pub remove_file : Unlink → Session → Report → Report
remove_file unlinked s r = record r { removed = s ∷ r.removed; files_removed = r.files_removed + 1 }
remove_file not_unlinked s r = record r { kept = s ∷ r.kept; errors = r.errors + 1 }
remove_file journal_not_unlinked s r = record r {
  removed = s ∷ r.removed;
  files_removed = r.files_removed + 1;
  errors = r.errors + 1;
}

module _ (gc : SessionGc) (now : ℕ) (dry_run : Bool) (unlink : String → Unlink) where
  -- `for index, (file_path, mtime) in enumerate(sessions)`
  unfoldable pub clean_from : ℕ → List Session → Report
  unfolding should_remove
  clean_from index [] = record { kept = []; removed = []; files_removed = 0; errors = 0 }
  clean_from index (s ∷ sessions) =
      let r = clean_from (suc index) sessions in
      if should_remove gc now s index
      then if dry_run
        then record r { kept = s ∷ r.kept; files_removed = r.files_removed + 1 }
        else remove_file (unlink s.stem) s r
      else keep_file s r

  unfoldable pub cleanup : List Found → Report
  unfolding clean_from scan_sessions
  cleanup files = clean_from 0 (scan_sessions files)
