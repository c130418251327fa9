-- ===== src/Tests/Import.antt =====
-- Importing at concrete inputs.
use mcpgw.Base.{
  ◌≡◌, Bool, refl, true, false, none, List, [], ◌∷◌, ◌++◌, All, Exists, inl, inr, length, ok,
}
use mcpgw.Base.Bytes.{Text, codes, text_eq, text_eq_iff, text_cmp}
use mcpgw.Base.Map.{Map, contains_key}
use mcpgw.Config.Name.{validate_name}
use mcpgw.Config.Server.{Server, stdio}
use mcpgw.Import.Slug.{slugify}
use mcpgw.Import.Slug.Laws.{validate_name-slugify}
use mcpgw.Import.Suffix.{next_free}
use mcpgw.Import.Suffix.Search.{IsFirstFree, next_free-IsFirstFree}
use mcpgw.Import.Address.{canonical_url}
use mcpgw.Import.Plan.{ClientRead, plan_import}
use mcpgw.Import.Names.{Distinct}
use mcpgw.Import.Fresh.{handed_out, plan_import-Distinct}
use mcpgw.Import.Origins.{StandsFor}
use mcpgw.Import.Behind.{plan_import-StandsFor}

slugify_runs :
    (slugify (codes "My  Server__2!") ≡ codes "my-server_2")
    × (slugify (codes "!?") ≡ codes "imported-server")
unfolding slugify
slugify_runs = (refl, refl)

url_run : canonical_url (codes "HTTPS://u:P@Host/a/?q=A") ≡ codes "https://u:P@host/a?q=A"
unfolding canonical_url
url_run = refl

validate_name-slugify_example : validate_name (slugify (codes "My  Server__2!")) ≡ ok tt
validate_name-slugify_example = validate_name-slugify (codes "My  Server__2!")

abbrev held : Text → Bool
held name = text_eq name (codes "fs")

next_free-IsFirstFree_example :
    IsFirstFree held (codes "fs") 0 (next_free (length (codes "fs" ∷ [])) (codes "fs") held)
next_free-IsFirstFree_example =
    next_free-IsFirstFree (codes "fs" ∷ []) (codes "fs") held
      (λ name t. inl ((text_eq_iff name (codes "fs")).0 t))

next_free_run : next_free 1 (codes "fs") held ≡ codes "fs-2"
unfolding next_free text_eq
next_free_run = refl

abbrev at_command : Text → Server
at_command command = record {
  enabled = true;
  tags = [];
  calls_per_minute = 0;
  transport = stdio command [] [];
  tools = none;
}

abbrev read_of : Server → ClientRead
read_of server = record { servers = (codes "fs", server) ∷ []; problems = [] }

-- Two clients that mean different things by `fs`, and a config that means a third.
abbrev sources : List (Text × ClientRead)
sources =
    (codes "cursor", read_of (at_command (codes "a")))
    ∷ (codes "zed", read_of (at_command (codes "b")))
    ∷ []

abbrev canonical : Map Server
canonical = (codes "fs", at_command (codes "c")) ∷ []

abbrev found_all : Text → Bool
found_all command = true

plan_run : handed_out (plan_import sources canonical found_all) ≡ codes "fs-2" ∷ codes "fs-3" ∷ []
unfolding plan_import text_eq text_cmp mcpgw.Import.Handed.adopted
plan_run = refl

plan_import-Distinct_example :
    Distinct (handed_out (plan_import sources canonical found_all))
    × All
        (λ name. contains_key name canonical ≡ false)
        (handed_out (plan_import sources canonical found_all))
plan_import-Distinct_example = plan_import-Distinct sources canonical found_all

plan_import-StandsFor_example :
    Exists (StandsFor (codes "zed", codes "fs") (stdio (codes "b") [] [])) (
      (plan_import sources canonical found_all).new
      ++ (plan_import sources canonical found_all).already
      ++ (plan_import sources canonical found_all).conflicts)
plan_import-StandsFor_example =
    plan_import-StandsFor sources canonical found_all (codes "zed")
      (read_of (at_command (codes "b"))) (codes "fs") (at_command (codes "b")) (inr (inl refl))
      (inl refl)
