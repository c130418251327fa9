-- ===== src/Tests/Reload.antt =====
-- Reloads at concrete inputs.
use mcpgw.Base.{◌≡◌, Bool, refl, true, false, none, some, List, [], ◌∷◌, ok, err}
use mcpgw.Base.Bytes.{codes, text_cmp}
use mcpgw.Upstream.Slot.{upstream_publishing}
use mcpgw.Base.Map.{get}
use mcpgw.Config.Server.{Server, stdio}
use mcpgw.Reload.{Reloader, Reading, poll, polls}
use mcpgw.Reload.Serving.{IsServing, polls-IsServing}
use mcpgw.Reload.Once.{poll_twice}

abbrev plain : Server
plain = record {
  enabled = true;
  tags = [];
  calls_per_minute = 0;
  transport = stdio (codes "npx") [] [];
  tools = none;
}

abbrev off : Server
off = record plain { enabled = false }

abbrev boot : Reloader
boot = record {
  manager = record {
    upstreams = [];
    heap = λ id. upstream_publishing plain 0;
    fresh = 0;
    channels = 0;
  };
  endpoints = [];
  selection = none;
  clients = [];
  seen = none;
}

abbrev good : Reading
good = record {
  stamp = some (some 1, 40);
  loaded = ok (record { servers = (codes "fs", plain) ∷ (codes "gh", off) ∷ []; clients = [] });
}

-- The file is saved with a typo.
abbrev broken : Reading
broken = record { stamp = some (some 2, 39); loaded = err (codes "expected =") }

abbrev looks : List (Bool × Reading)
looks = (false, good) ∷ (false, broken) ∷ (true, broken) ∷ []

polls_run : (polls boot looks).endpoints ≡ codes "fs" ∷ []
unfolding polls
polls_run = refl

boot-IsServing : IsServing boot
unfolding get
boot-IsServing = record {
  managed = record { distinct = λ n k id e f. cc; issued = λ n id e. cc; sorted = tt };
  served = tt;
}

polls-IsServing_example : IsServing (polls boot looks)
unfolding text_cmp
polls-IsServing_example =
    polls-IsServing boot looks ((((refl, tt), (tt, tt))), (tt, (tt, tt))) boot-IsServing

-- The same stamp, and a file that parses.
abbrev mended : Reading
mended = record good { stamp = some (some 2, 39) }

poll_twice_example : poll (poll boot (true, broken)) (false, mended) ≡ poll boot (true, broken)
poll_twice_example = poll_twice boot true broken mended refl
