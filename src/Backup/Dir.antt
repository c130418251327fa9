-- ===== src/Backup/Dir.antt =====
-- crates/core/src/backup.rs: a backup made, pruned and found again in a directory of files.
pub mod Order
pub mod Latest
use mcpgw.Base.{
  ℕ, zero, suc, Bool, true, false, not, ◌&&◌, ◌||◌, ◌+◌, ◌*◌, max, Option, none, some, List, [],
  ◌∷◌, ◌++◌, any, length, retain, ltb, ◌==◌, if◌then◌else◌, Ordering,
}
use mcpgw.Base.Bytes.{Text, text_eq, text_cmp}
use mcpgw.Backup.{seq_span, saturate, backup_name, parse_key, claim_key}

-- A directory: each file's name and content.
abbrev pub Files : Type 0
Files = List (Text × Text)

abbrev not_after : Ordering → Bool
not_after Ordering.gt = false
not_after _ = true

-- The order of `entries.sort()`: by key, and by path where the keys are the same.
unfoldable pub precedes : Text → Text → Bool
unfolding parse_key text_cmp
precedes a b =
    ltb (parse_key a) (parse_key b) || parse_key a == parse_key b && not_after (text_cmp a b)

unfoldable pub place : Text × Text → Files → Files
unfolding precedes
place file [] = file ∷ []
place file (other ∷ files) =
    let rest = place file files in
    if precedes other.0 file.0 then other ∷ rest else file ∷ other ∷ files

-- list: the backups in the order in which they were written.
unfoldable pub list : Files → Files
unfolding place
list [] = []
list (file ∷ files) = place file (list files)

abbrev pub last_of : Files → Option (Text × Text)
last_of [] = none
last_of (file ∷ []) = some file
last_of (file ∷ other ∷ files) = last_of (other ∷ files)

unfoldable pub latest_backup : Files → Option (Text × Text)
unfolding list
latest_backup files = last_of (list files)

abbrev pub reversed : Files → Files
reversed [] = []
reversed (file ∷ files) = reversed files ++ file ∷ []

abbrev pub skip : ℕ → Files → Files
skip zero files = files
skip (suc n) [] = []
skip (suc n) (file ∷ files) = skip n files

abbrev pub holds : Files → Text → Bool
holds files name = any (λ f. text_eq f.0 name) files

unfoldable pub prune : ℕ → Files → Files
unfolding list text_eq
prune keep files = retain (λ f. not (holds (skip keep (reversed (list files))) f.0)) files

abbrev pub key_on_disk : Option (Text × Text) → ℕ
key_on_disk none = 0
key_on_disk (some file) = parse_key file.0

unfoldable pub next_key : ℕ → ℕ → Files → ℕ
unfolding claim_key list parse_key
next_key last millis files =
    claim_key last (max (millis * seq_span) (saturate (key_on_disk (last_of (list files)) + 1)))

-- while target.exists(): a key that is claimed is the last claimed.
unfoldable pub free_key : ℕ → Text → Files → ℕ → ℕ
unfolding backup_name claim_key text_eq
free_key zero name files key = key
free_key (suc fuel) name files key =
    let rest = free_key fuel name files (claim_key key (key + 1)) in
    if holds files (backup_name key name) then rest else key

-- The backup's name, the last key claimed and the directory.
unfoldable pub backup_file_at : ℕ → Text → Text → ℕ → ℕ → Files → Text × ℕ × Files
unfolding next_key free_key backup_name prune
backup_file_at keep name content millis last files =
    let key = free_key (suc (length files)) name files (next_key last millis files) in
    (backup_name key name, key, prune keep ((backup_name key name, content) ∷ files))
