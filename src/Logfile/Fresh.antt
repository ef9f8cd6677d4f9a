-- ===== src/Logfile/Fresh.antt =====
-- The log after a rotation of internal/logfile/writer.go: a new file.
use cpa_monitor.Base.{
  Bool, Bool-cases, List, Text, [], ap, arith, decimal, inl, inr, leb, refl, subst, suc, sym, zero,
  ℕ, ◌-◌, ◌==◌, ◌∙◌, ◌∷◌, ◌≡◌, ◌≤◌, ◌⊎◌,
}
use cpa_monitor.Logfile.Directory.{
  LogName, active_log, backup, Directory, Call, LogError, Io, after, ◌>>=◌, ◌>>◌, Backup, Limits,
  call, backups, file_size, remove_if_exists, rename_if_exists, with_size, size_of, without,
  exists_in,
}
use cpa_monitor.Logfile.Rotation.{
  shift_backups, backup_at, move_log, Gathered, unmanaged, gather, evict, check_total,
  enforce_total, open_active,
}

-- A chain that succeeds is two steps that do.
pub after-inr :
    {A B : Type 0} (f : A → Io B) (r : (LogError ⊎ A) × Directory) {b : B}
    → (after f r).0 ≡ inr b
    → (a : A) × (r.0 ≡ inr a) × (after f r ≡ f a r.1)
after-inr f (inl e, d) h = absurd (ground (arith, h))
after-inr f (inr a, d) h = (a, refl, refl)

module _ (k : ℕ) where
  -- What leaves the log within a size.
  abbrev pub Gone : {A : Type 0} → (LogError ⊎ A) × Directory → Type 0
  Gone r = size_of active_log r.1 ≤ k

  abbrev pub Keeps : {A : Type 0} → Io A → Type 0
  Keeps m = (d : Directory) → size_of active_log d ≤ k → Gone (m d)

  after-Gone :
      {A B : Type 0} (f : A → Io B) (r : (LogError ⊎ A) × Directory)
      → Gone r
      → ((a : A) → Keeps (f a))
      → Gone (after f r)
  after-Gone f (inl e, d) h k = h
  after-Gone f (inr a, d) h k = k a d h

  >>=-Keeps :
      {A B : Type 0} (m : Io A) (f : A → Io B) → Keeps m → ((a : A) → Keeps (f a)) → Keeps (m >>= f)
  >>=-Keeps m f h k d z = after-Gone f (m d) (h d z) k

  module _ (fails : Call → Directory → Bool) where
    call-Keeps :
        {A : Type 0} (c : Call) (f : Directory → A × Directory)
        → ((d : Directory) → size_of active_log d ≤ k → size_of active_log (f d).1 ≤ k)
        → Keeps (call fails c f)
    unfolding call
    call-Keeps c f h d z = elim (Bool-cases (fails c d)) [
      | inl e ↦ rw (e) z
      | inr e ↦ rw (e) (h d z)
    ]

    file_size-Keeps : (name : LogName) → Keeps (file_size fails name)
    unfolding file_size
    file_size-Keeps name = call-Keeps _ _ (λ d z. z)

    remove-Keeps : (s : Text) → Keeps (remove_if_exists fails (backup s))
    unfolding remove_if_exists without size_of
    remove-Keeps s = call-Keeps _ _ (λ d z. z)

    backups-Keeps : Keeps (backups fails)
    unfolding backups
    backups-Keeps = call-Keeps _ _ (λ d z. z)

    module _ (l : Limits) where
      gather-Keeps : (bs : List Backup) (g : Gathered) → Keeps (gather fails l bs g)
      unfolding gather
      gather-Keeps [] g = λ d z. z
      gather-Keeps (b ∷ bs) g = elim (Bool-cases (unmanaged l b)) [
        | inl e ↦ rw (e) (
            >>=-Keeps (remove_if_exists fails (backup b.suffix)) _ (remove-Keeps b.suffix)
              (λ a. gather-Keeps bs g))
        | inr e ↦ rw (e) (
            >>=-Keeps (file_size fails (backup b.suffix)) _ (file_size-Keeps (backup b.suffix))
              (λ size. gather-Keeps bs _))
      ]

      evict-Keeps : (ss : List Text) (total : ℕ) → Keeps (evict fails l ss total)
      unfolding evict
      evict-Keeps [] total = λ d z. z
      evict-Keeps (s ∷ ss) total = elim (Bool-cases (leb total l.max_total)) [
        | inl e ↦ rw (e) (λ d z. z)
        | inr e ↦ rw (e) (
            >>=-Keeps (file_size fails (backup s)) _ (file_size-Keeps (backup s)) (λ size.
              >>=-Keeps (remove_if_exists fails (backup s)) _ (remove-Keeps s)
                (λ a. evict-Keeps ss (total - size))))
      ]

      check_total-Keeps : (total : ℕ) → Keeps (check_total fails l total)
      unfolding check_total
      check_total-Keeps total d z = ground (arith, z)

      pub enforce_total-Keeps : Keeps (enforce_total fails l)
      unfolding enforce_total
      enforce_total-Keeps =
          >>=-Keeps (file_size fails active_log) _ (file_size-Keeps active_log) (λ active.
            >>=-Keeps (backups fails) _ backups-Keeps (λ found.
              >>=-Keeps (gather fails l found (record { total = active; managed = [] })) _
                (gather-Keeps found _)
                (λ g.
                  >>=-Keeps (evict fails l g.managed g.total) _ (evict-Keeps g.managed g.total)
                    (λ total. check_total-Keeps total))))

module _ (k : ℕ) (fails : Call → Directory → Bool) (l : Limits) where
  remove_any-Keeps : (name : LogName) → Keeps k (remove_if_exists fails name)
  unfolding remove_if_exists without size_of
  remove_any-Keeps active_log = call-Keeps k fails _ _ (λ d z. omega arith)
  remove_any-Keeps (backup s) = remove-Keeps k fails s

  rename-Keeps : (from : LogName) (s : Text) → Keeps k (rename_if_exists fails from (backup s))
  unfolding rename_if_exists without exists_in with_size size_of
  rename-Keeps active_log s = call-Keeps k fails _ _ (λ d z. ground (arith, z))
  rename-Keeps (backup t) s = call-Keeps k fails _ _ (λ d z. ground (arith, z))

  shift_backups-Keeps : (i : ℕ) → Keeps k (shift_backups fails l i)
  unfolding shift_backups
  shift_backups-Keeps zero = λ d z. z
  shift_backups-Keeps (suc i) =
      >>=-Keeps k (rename_if_exists fails (backup_at (suc i)) (backup_at (suc (suc i)))) _
        (rename-Keeps (backup_at (suc i)) (decimal (suc (suc i)))) (λ a. shift_backups-Keeps i)

  move_log-Keeps : Keeps k (move_log fails l)
  unfolding move_log
  move_log-Keeps = elim (Bool-cases (l.max_files == 0)) [
    | inl e ↦ rw (e, move_log) (remove_any-Keeps active_log)
    | inr e ↦
        rw (e, move_log)
          (>>=-Keeps k
            (remove_if_exists fails (backup_at l.max_files)
              >> shift_backups fails l (l.max_files - 1))
            _
            (>>=-Keeps k (remove_if_exists fails (backup_at l.max_files)) _
              (remove_any-Keeps (backup_at l.max_files))
              (λ a. shift_backups-Keeps (l.max_files - 1)))
            (λ a. rename-Keeps active_log (decimal 1)))
  ]

  open_active-Keeps : Keeps k (open_active fails l)
  unfolding open_active call with_size size_of
  open_active-Keeps d z = ground (arith, z)

  -- A rotation does not make the log larger, wherever it fails.
  pub rotation-Keeps : Keeps k (move_log fails l >> (enforce_total fails l >> open_active fails l))
  rotation-Keeps = >>=-Keeps k (move_log fails l) _ move_log-Keeps (λ a.
      >>=-Keeps k (enforce_total fails l) _ (enforce_total-Keeps k fails l)
        (λ b. open_active-Keeps))

module _ (fails : Call → Directory → Bool) (l : Limits) where
  -- The size that `open` gives is that of the file.
  pub open_active-size :
      (d : Directory) {n : ℕ}
      → (open_active fails l d).0 ≡ inr n
      → size_of active_log (open_active fails l d).1 ≡ n
  unfolding open_active call with_size size_of
  open_active-size d h = ground (arith, h)

  -- The log is not there any more after a removal or a renaming that succeeds.
  removed-Gone :
      (d : Directory)
      → (remove_if_exists fails active_log d).0 ≡ inr tt
      → Gone 0 (remove_if_exists fails active_log d)
  unfolding remove_if_exists call without size_of
  removed-Gone d h = ground (arith, h)

  renamed-Gone :
      (s : Text) (d : Directory)
      → (rename_if_exists fails active_log (backup s) d).0 ≡ inr tt
      → Gone 0 (rename_if_exists fails active_log (backup s) d)
  unfolding rename_if_exists call without exists_in with_size size_of
  renamed-Gone s d h = ground (arith, h)

  pub open_active-Gone :
      (k : ℕ) (d : Directory) {n : ℕ}
      → size_of active_log d ≤ k
      → (open_active fails l d).0 ≡ inr n
      → n ≤ k
  unfolding open_active call with_size size_of
  open_active-Gone k d z h = ground (arith, z, h)

  move_log-Gone : (d : Directory) → (move_log fails l d).0 ≡ inr tt → Gone 0 (move_log fails l d)
  unfolding move_log
  move_log-Gone d h = elim (Bool-cases (l.max_files == 0)) [
    | inl e ↦ rw (e, move_log) (removed-Gone d (rw (e, move_log) at h))
    | inr e ↦ rw (e, move_log) (several d (rw (e, move_log) at h))
  ]
    where
      several :
          (d : Directory)
          → (((remove_if_exists fails (backup_at l.max_files)
                  >> shift_backups fails l (l.max_files - 1))
                >> rename_if_exists fails active_log (backup_at 1))
              d).0
            ≡ inr tt
          → Gone 0 (
              ((remove_if_exists fails (backup_at l.max_files)
                    >> shift_backups fails l (l.max_files - 1))
                  >> rename_if_exists fails active_log (backup_at 1))
                d)
      several d h =
          let moved =
            remove_if_exists fails (backup_at l.max_files)
            >> shift_backups fails l (l.max_files - 1) in
          let (a, q, eq) =
            after-inr (λ a. rename_if_exists fails active_log (backup_at 1)) (moved d) h in
          subst (Gone 0) (sym eq)
            (renamed-Gone (decimal 1) (moved d).1 (ap (λ r. r.0) (sym eq) ∙ h))

  pub rotated_size :
      (d : Directory) {n : ℕ}
      → ((move_log fails l >> (enforce_total fails l >> open_active fails l)) d).0 ≡ inr n
      → size_of active_log
          ((move_log fails l >> (enforce_total fails l >> open_active fails l)) d).1
        ≡ n
  rotated_size d {n} h =
      let (a, q, eq) =
        after-inr (λ a. enforce_total fails l >> open_active fails l) (move_log fails l d) h in
      let d1 = (move_log fails l d).1 in
      let h1 = ap (λ r. r.0) (sym eq) ∙ h in
      let (b, p, eq2) = after-inr (λ a. open_active fails l) (enforce_total fails l d1) h1 in
      ap (λ r. size_of active_log r.1) (eq ∙ eq2)
      ∙ open_active-size (enforce_total fails l d1).1 (ap (λ r. r.0) (sym eq2) ∙ h1)

  -- The file that a rotation opens is empty.
  pub rotated_fresh :
      (d : Directory) {n : ℕ}
      → ((move_log fails l >> (enforce_total fails l >> open_active fails l)) d).0 ≡ inr n
      → n ≡ 0
  rotated_fresh d {n} h =
      let (a, q, eq) =
        after-inr (λ a. enforce_total fails l >> open_active fails l) (move_log fails l d) h in
      let d1 = (move_log fails l d).1 in
      let (b, p, eq2) =
        after-inr (λ a. open_active fails l) (enforce_total fails l d1)
          (ap (λ r. r.0) (sym eq) ∙ h) in
      let empty =
        open_active-Gone 0 (enforce_total fails l d1).1
          (enforce_total-Keeps 0 fails l d1 (move_log-Gone d q))
          (ap (λ r. r.0) (sym eq2) ∙ (ap (λ r. r.0) (sym eq) ∙ h)) in
      omega arith
