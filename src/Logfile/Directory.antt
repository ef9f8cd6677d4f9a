-- ===== src/Logfile/Directory.antt =====
-- The rotated files of internal/logfile/writer.go: the directory of the log, with `rotate`,
-- `cleanupExisting` and `enforceTotal`. Any system call may fail.
use cpa_monitor.Base.{
  Bool, List, Option, Text, [], atoi, decimal, find, if◌then◌else◌, inl, inr, is_some, leb, ltb,
  none, pos_part, put, remove, some, text_eq, text_ltb, ℕ, ◌==◌, ◌∷◌, ◌⊎◌,
}

-- A regular file whose name is the log's, a dot and the suffix.
pub record Rotated : Type 0 where
  pub suffix : Text
  pub size : ℕ

abbrev pub rotated_key : Rotated → Text
rotated_key f = f.suffix

-- The log file with its size, and the files beside it.
pub record Directory : Type 0 where
  pub active : Option ℕ
  pub rotated : List Rotated

pub data LogName : Type 0 where
  active_log : LogName
  backup : Text → LogName

pub data Call : Type 0 where
  remove_file stat_file truncate_file : LogName → Call
  rename_file : LogName → LogName → Call
  list_files open_log write_log secure_log stat_log close_log : Call

pub data LogError : Type 0 where
  call_failed : Call → LogError
  over_total short_write file_closed : LogError

-- What the code does to a directory, and whether each call fails there.
abbrev pub Io : Type 0 → Type 0
Io A = Directory → (LogError ⊎ A) × Directory

-- What comes after a result: nothing after an error.
abbrev pub after :
    {A B : Type 0} → (A → Io B) → (LogError ⊎ A) × Directory → (LogError ⊎ B) × Directory
after f (inl e, d) = (inl e, d)
after f (inr a, d) = f a d

infixl 5 ◌>>=◌ ◌>>◌
abbrev pub ◌>>=◌ : {A B : Type 0} → Io A → (A → Io B) → Io B
(m >>= f) d = after f (m d)

abbrev pub ◌>>◌ : {A B : Type 0} → Io A → Io B → Io B
m >> k = m >>= (λ a. k)

abbrev pub done : Io Unit
done d = (inr tt, d)

-- `backupFile`, with the suffix for its path.
pub record Backup : Type 0 where
  pub index : ℕ
  pub suffix : Text
  pub canonical : Bool

-- The index of a suffix, where it has one above 0.
unfoldable pub backup_index : Text → Option ℕ
backup_index suffix = elim (atoi suffix) [
  | none ↦ none
  | some i ↦ if ltb 0 (pos_part i) then some (pos_part i) else none
]

-- The order of `sort.Slice`. The paths differ by their suffixes.
unfoldable pub backup_ltb : Backup → Backup → Bool
backup_ltb x y = if x.index == y.index then text_ltb x.suffix y.suffix else ltb x.index y.index

unfoldable pub insert_backup : Backup → List Backup → List Backup
insert_backup x [] = x ∷ []
insert_backup x (y ∷ ys) =
    let rest = insert_backup x ys in if backup_ltb y x then y ∷ rest else x ∷ y ∷ ys

-- `backups`, without its call.
unfoldable pub backups_of : List Rotated → List Backup
backups_of [] = []
backups_of (f ∷ fs) =
    let rest = backups_of fs in
    elim (backup_index f.suffix) [
      | none ↦ rest
      | some i ↦
          insert_backup
            (record { index = i; suffix = f.suffix; canonical = text_eq f.suffix (decimal i) }) rest
    ]

-- The size of a file, 0 where it is missing.
unfoldable pub size_of : LogName → Directory → ℕ
size_of active_log d = elim d.active [ none ↦ 0 | some n ↦ n ]
size_of (backup s) d = elim (find rotated_key s d.rotated) [ none ↦ 0 | some f ↦ f.size ]

unfoldable pub without : LogName → Directory → Directory
without active_log d = record d { active = none }
without (backup s) d = record d { rotated = remove rotated_key s d.rotated }

unfoldable pub with_size : LogName → ℕ → Directory → Directory
with_size active_log n d = record d { active = some n }
with_size (backup s) n d = record d {
  rotated = put rotated_key (record { suffix = s; size = n }) d.rotated;
}

unfoldable pub exists_in : LogName → Directory → Bool
exists_in active_log d = is_some d.active
exists_in (backup s) d = is_some (find rotated_key s d.rotated)

-- `MaxSizeBytes`, `MaxFiles` and `MaxTotalSizeBytes` of options that were accepted.
pub record Limits : Type 0 where
  pub max_size : ℕ
  pub max_files : ℕ
  pub max_total : ℕ

module _ (fails : Call → Directory → Bool) where
  unfoldable pub call : {A : Type 0} → Call → (Directory → A × Directory) → Io A
  call c f d = if fails c d then (inl (call_failed c), d) else (inr (f d).0, (f d).1)

  -- `backups`.
  unfoldable pub backups : Io (List Backup)
  backups = call list_files (λ d. (backups_of d.rotated, d))

  -- `fileSize`.
  unfoldable pub file_size : LogName → Io ℕ
  file_size name = call (stat_file name) (λ d. (size_of name d, d))

  -- `removeIfExists`.
  unfoldable pub remove_if_exists : LogName → Io Unit
  remove_if_exists name = call (remove_file name) (λ d. (tt, without name d))

  -- `renameIfExists`.
  unfoldable pub rename_if_exists : LogName → LogName → Io Unit
  rename_if_exists from to =
      call (rename_file from to)
        (λ d. (tt, if exists_in from d then with_size to (size_of from d) (without from d) else d))

  -- `trimFile`.
  unfoldable pub trim_file : LogName → ℕ → Io Unit
  trim_file name max = do
    size ← file_size name
    if leb size max then done else call (truncate_file name) (λ d. (tt, with_size name max d))
