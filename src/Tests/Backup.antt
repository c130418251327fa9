-- ===== src/Tests/Backup.antt =====
-- Backups at concrete inputs.
use mcpgw.Base.{◌≡◌, ◌<◌, refl, some, [], ◌∷◌, arith}
use mcpgw.Base.Bytes.{codes}
use mcpgw.Backup.{backup_name, parse_key}
use mcpgw.Backup.Key.{parse_key-backup_name}
use mcpgw.Backup.Dir.{Files, latest_backup, backup_file_at}
use mcpgw.Backup.Dir.Latest.{latest_backup-backup_file_at}

names_run :
    (backup_name 17570000000000002 (codes "mcp.json") ≡ codes "1757000000000-0002-mcp.json")
    × (parse_key (codes "000001757000000000.10-mcp.json") ≡ 17570000000000010)
    × (parse_key (codes "notes") ≡ 0)
unfolding backup_name parse_key
names_run = (refl, refl, refl)

parse_key-backup_name_example :
    parse_key (backup_name 17570000000000002 (codes "mcp.json")) ≡ 17570000000000002
parse_key-backup_name_example =
    parse_key-backup_name 17570000000000002 (codes "mcp.json") (omega arith)

-- A backup of the clock's own millisecond and one from its future.
abbrev files : Files
files =
    (codes "1757000000000-0000-m", codes "old") ∷ (codes "1757000000009-0000-m", codes "ahead") ∷ []

latest_backup-backup_file_at_example :
    (3 < (backup_file_at 1 (codes "m") (codes "new") 1757000000000 3 files).1)
    × (latest_backup (backup_file_at 1 (codes "m") (codes "new") 1757000000000 3 files).2
        ≡ some ((backup_file_at 1 (codes "m") (codes "new") 1757000000000 3 files).0, codes "new"))
unfolding latest_backup
latest_backup-backup_file_at_example =
    latest_backup-backup_file_at 0 (codes "m") (codes "new") 1757000000000 3 files (omega arith)
      (omega arith) (omega arith)
