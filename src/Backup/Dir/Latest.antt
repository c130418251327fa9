-- ===== src/Backup/Dir/Latest.antt =====
-- The latest backup is the one made last, whatever the clock did and whatever was pruned.
use mathlib.Core.Path.{subst}
use mcpgw.Base.{
  ℕ, suc, ◌≡◌, ◌≤◌, ◌<◌, refl, sym, ap, ◌∙◌, Bool, true, false, not, ◌*◌, some, [], ◌∷◌, All,
  length, retain, arith, Bool-cases, inl, inr,
}
use mcpgw.Base.Bytes.{Text, text_eq, text_eq_iff}
use mcpgw.Backup.{seq_span, u64_max, backup_name, parse_key, claim_key}
use mcpgw.Backup.Key.{parse_key-backup_name}
use mcpgw.Backup.Dir.{
  Files, list, last_of, latest_backup, reversed, skip, holds, prune, key_on_disk, next_key,
  free_key, backup_file_at,
}
use mcpgw.Backup.Dir.Order.{
  UpTo, Older, list-All, list-UpTo, place_newest, last_of-snoc, reversed-All, reversed-snoc,
  skip-All,
}

UpTo-Older : (j k : ℕ) (files : Files) → j < k → UpTo j files → Older k files
UpTo-Older j k [] h a = tt
UpTo-Older j k (f ∷ files) h (p, a) = (omega (arith, h, p), UpTo-Older j k files h a)

-- The key of a new backup: past the last claimed and past every file, within a u64.
module _ (last millis : ℕ) (files : Files) where
  abbrev disk : ℕ
  disk = key_on_disk (last_of (list files))

  next_key-bounds :
      last < u64_max
      → disk < u64_max
      → millis * seq_span ≤ u64_max
      → (last < next_key last millis files)
        × (disk < next_key last millis files)
        × (next_key last millis files ≤ u64_max)
  unfolding next_key claim_key
  next_key-bounds l d m = (omega (arith, l, d, m), omega (arith, l, d, m), omega (arith, l, d, m))

-- A name whose key is newer than every file's is not there.
holds_newer :
    (name : Text) (files : Files) → Older (parse_key name) files → holds files name ≡ false
holds_newer name [] a = refl
holds_newer name (f ∷ files) (p, a) = rw (apart (text_eq f.0 name) refl) (holds_newer name files a)
  where
    apart : (b : Bool) → text_eq f.0 name ≡ b → b ≡ false
    apart false e = refl
    apart true e = let same = ap parse_key ((text_eq_iff f.0 name).0 e) in absurd (no same)
      where
        no : ¬ (parse_key f.0 ≡ parse_key name)
        no q = omega (arith, p, q)

retain-All :
    (P : Text × Text → Type 0) (p : Text × Text → Bool) (files : Files)
    → All P files
    → All P (retain p files)
retain-All P p [] a = tt
retain-All P p (f ∷ files) (q, a) = elim (Bool-cases (p f)) [
  | inl t ↦ rw t (q, retain-All P p files a)
  | inr e ↦ rw e (retain-All P p files a)
]

latest_newest :
    (x : Text × Text) (files : Files)
    → Older (parse_key x.0) files
    → latest_backup (x ∷ files) ≡ some x
unfolding latest_backup list
latest_newest x files a =
    ap last_of (place_newest x (list files) (list-All (λ f. parse_key f.0 < parse_key x.0) files a))
    ∙ last_of-snoc x (list files)

-- Pruning keeps the newest file.
latest-prune :
    (keep : ℕ) (x : Text × Text) (files : Files)
    → Older (parse_key x.0) files
    → latest_backup (prune (suc keep) (x ∷ files)) ≡ some x
unfolding prune list
latest-prune keep x files a =
    ap latest_backup (rw spared refl)
    ∙ latest_newest x (retain kept files)
        (retain-All (λ f. parse_key f.0 < parse_key x.0) kept files a)
  where
    removed : Files
    removed = skip (suc keep) (reversed (list (x ∷ files)))

    kept : Text × Text → Bool
    kept f = not (holds removed f.0)

    older : Older (parse_key x.0) (list files)
    older = list-All (λ f. parse_key f.0 < parse_key x.0) files a

    removed_is : removed ≡ skip keep (reversed (list files))
    removed_is =
        ap (λ l. skip (suc keep) (reversed l)) (place_newest x (list files) older)
        ∙ ap (skip (suc keep)) (reversed-snoc x (list files))

    spared : holds removed x.0 ≡ false
    spared =
        ap (λ l. holds l x.0) removed_is
        ∙ holds_newer x.0 (skip keep (reversed (list files))) (
            skip-All (λ f. parse_key f.0 < parse_key x.0) keep (reversed (list files))
              (reversed-All (λ f. parse_key f.0 < parse_key x.0) (list files) older))

-- The first key tried is free.
free_key_first :
    (fuel key : ℕ) (name : Text) (files : Files)
    → Older (parse_key (backup_name key name)) files
    → free_key (suc fuel) name files key ≡ key
unfolding free_key
free_key_first fuel key name files a = rw (holds_newer (backup_name key name) files a) refl

-- A backup is taken under a key past the last one claimed, and it is then the latest, with the
-- content that was backed up: whatever the clock says, whatever other backups the directory holds and
-- however few are kept, as long as no key has reached the end of a u64.
pub latest_backup-backup_file_at :
    (keep : ℕ) (name content : Text) (millis last : ℕ) (files : Files)
    → last < u64_max
    → key_on_disk (last_of (list files)) < u64_max
    → millis * seq_span ≤ u64_max
    → (last < (backup_file_at (suc keep) name content millis last files).1)
      × (latest_backup (backup_file_at (suc keep) name content millis last files).2
          ≡ some ((backup_file_at (suc keep) name content millis last files).0, content))
unfolding backup_file_at
latest_backup-backup_file_at keep name content millis last files l d m =
    let (past, newer, fits) = next_key-bounds last millis files l d m in
    let older = UpTo-Older disk_key key files newer (list-UpTo files) in
    let read = parse_key-backup_name key name fits in
    let below = subst (λ k. Older k files) (sym read) older in
    subst Made (sym (free_key_first (length files) key name files below))
      (past, latest-prune keep (backup_name key name, content) files below)
  where
    key : ℕ
    key = next_key last millis files

    disk_key : ℕ
    disk_key = key_on_disk (last_of (list files))

    Made : ℕ → Type 0
    Made k =
        (last < k)
        × (latest_backup (prune (suc keep) ((backup_name k name, content) ∷ files))
            ≡ some (backup_name k name, content))
