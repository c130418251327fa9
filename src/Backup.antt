-- ===== src/Backup.antt =====
-- crates/core/src/backup.rs: the names and the order of a client's backups. A directory is a list of
-- its files, each a name and its content; a file system error ends the source's functions and is not
-- modelled.
pub mod Key
pub mod Dir
use mcpgw.Base.{
  ℕ, zero, suc, Bool, true, false, not, ◌&&◌, ◌||◌, ◌+◌, ◌-◌, ◌*◌, ◌/◌, ◌%◌, ◌^◌, max, min, Option,
  none, some, List, [], ◌∷◌, ◌++◌, all, any, is_empty, length, retain, ltb, leb, ◌==◌,
  if◌then◌else◌, Ordering,
}
use mcpgw.Base.Bytes.{Text, text_eq, text_cmp}
use mcpgw.Base.Map.{get_or}
use mcpgw.Config.Name.{is_ascii_digit}
use mcpgw.Import.Suffix.{decimal}
use mcpgw.Import.Suffix.Decimal.{spelled}

abbrev pub keep_newest : ℕ
keep_newest = 5

-- SEQ_SPAN
abbrev pub seq_span : ℕ
seq_span = 10000

-- u64::MAX
abbrev pub u64_max : ℕ
u64_max = 2 ^ 64 - 1

abbrev pub saturate : ℕ → ℕ
saturate n = min n u64_max

abbrev pub zeros : ℕ → Text
zeros zero = []
zeros (suc n) = b'0' ∷ zeros n

-- {:0width}
unfoldable pub padded : ℕ → ℕ → Text
unfolding decimal
padded width n = zeros (width - length (decimal n)) ++ decimal n

unfoldable pub backup_name : ℕ → Text → Text
unfolding padded
backup_name key name =
    padded 13 (key / seq_span) ++ (b'-' ∷ (padded 4 (key % seq_span) ++ (b'-' ∷ name)))

abbrev behind : ℕ → Option (Text × Text) → Option (Text × Text)
behind c none = none
behind c (some (before, after)) = some (c ∷ before, after)

-- str::split_once of one character
unfoldable pub split_at : ℕ → Text → Option (Text × Text)
split_at mark [] = none
split_at mark (c ∷ text) =
    let rest = behind c (split_at mark text) in if c == mark then some ([], text) else rest

-- str::parse of a u64, of ASCII digits
unfoldable pub digits : Text → Option ℕ
unfolding is_ascii_digit spelled
digits text =
    if is_empty text || not (all is_ascii_digit text)
    then none
    else if leb (spelled 0 text) u64_max
    then some (spelled 0 text)
    else none

abbrev pub key_of : ℕ → ℕ → ℕ
key_of millis seq = saturate (saturate (millis * seq_span) + seq)

-- The sequence number of the current format: four digits and a dash.
abbrev pub sequence : Option (Text × Text) → ℕ
sequence none = 0
sequence (some (seq, name)) = if length seq == 4 then get_or 0 (digits seq) else 0

abbrev pub counted : Option ℕ → Option ℕ → ℕ
counted (some millis) (some counter) = if ltb counter seq_span then key_of millis counter else 0
counted none counter = 0
counted (some millis) none = 0

abbrev pub stamped : Option ℕ → Text → ℕ
stamped none rest = 0
stamped (some millis) rest = key_of millis (sequence (split_at b'-' rest))

abbrev pub stamp_key : Text → Text → Option (Text × Text) → ℕ
stamp_key stamp rest (some (millis, counter)) = counted (digits millis) (digits counter)
stamp_key stamp rest none = stamped (digits stamp) rest

abbrev pub name_key : Option (Text × Text) → ℕ
name_key none = 0
name_key (some (stamp, rest)) = stamp_key stamp rest (split_at b'.' stamp)

unfoldable pub parse_key : Text → ℕ
unfolding split_at digits
parse_key file_name = name_key (split_at b'-' file_name)

-- claim_key, whose loop ends in the turn in which no other claim came between: the key and the new
-- LAST_KEY.
unfoldable pub claim_key : ℕ → ℕ → ℕ
claim_key last candidate = max candidate (saturate (last + 1))
