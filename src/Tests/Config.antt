-- ===== src/Tests/Config.antt =====
-- Tool rules and server names at concrete inputs.
use mcpgw.Base.{◌≡◌, refl, ◌↔◌, true, false, [], ◌∷◌, ok, err}
use mcpgw.Base.Bytes.{codes}
use mcpgw.Config.Rules.{ToolRules, warn, allows, unmatched}
use mcpgw.Config.Rules.Allows.{Allowed, allows_iff}
use mcpgw.Config.Name.{charset, reserved, validate_name}
use mcpgw.Config.Name.Laws.{IsName, validate_name_iff}

abbrev github : ToolRules
github = record {
  allow = codes "get_*" ∷ codes "search" ∷ [];
  deny = codes "get_secret" ∷ [];
  drift = warn;
}

allows_runs :
    (allows github (codes "get_file") ≡ true)
    × (allows github (codes "get_secret") ≡ false)
    × (allows github (codes "delete") ≡ false)
unfolding allows
allows_runs = (refl, refl, refl)

unmatched_runs :
    unmatched github (codes "get_file" ∷ [])
    ≡ (codes "allow", codes "search") ∷ (codes "deny", codes "get_secret") ∷ []
unfolding unmatched
unmatched_runs = refl

validate_name_runs :
    (validate_name (codes "my-server_2") ≡ ok tt)
    × (validate_name (codes "My") ≡ err charset)
    × (validate_name (codes "a__b") ≡ err reserved)
unfolding validate_name
validate_name_runs = (refl, refl, refl)

allows_iff_example : (allows github (codes "search") ≡ true) ↔ Allowed github (codes "search")
allows_iff_example = allows_iff github (codes "search")

validate_name_iff_example : (validate_name (codes "a_b") ≡ ok tt) ↔ IsName (codes "a_b")
validate_name_iff_example = validate_name_iff (codes "a_b")
