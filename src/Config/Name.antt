-- ===== src/Config/Name.antt =====
-- crates/core/src/config.rs: `validate_name`, which server names a config may hold.
pub mod Laws
use mcpgw.Base.{
  ℕ, Bool, true, false, not, ◌&&◌, ◌||◌, List, [], ◌∷◌, all, is_empty, ◌==◌, leb, if◌then◌else◌,
  Result, ok, err,
}
use mcpgw.Base.Bytes.{Text, codes, contains}

pub data Reason : Type 0 where
  charset reserved : Reason

unfoldable pub is_ascii_lowercase : ℕ → Bool
is_ascii_lowercase c = leb b'a' c && leb c b'z'

unfoldable pub is_ascii_digit : ℕ → Bool
is_ascii_digit c = leb b'0' c && leb c b'9'

unfoldable pub name_byte : ℕ → Bool
unfolding is_ascii_lowercase is_ascii_digit
name_byte c = is_ascii_lowercase c || is_ascii_digit c || c == b'-' || c == b'_'

-- gateway.rs: SEPARATOR
abbrev pub separator : Text
separator = codes "__"

unfoldable pub validate_name : Text → Result Reason (Unit {0})
unfolding name_byte contains
validate_name name =
    if not (not (is_empty name) && all name_byte name)
    then err charset
    else if contains separator name
    then err reserved
    else ok tt
