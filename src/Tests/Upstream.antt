-- ===== src/Tests/Upstream.antt =====
-- The budget, the slot and a reload at concrete inputs.
use mcpgw.Base.{
  ℕ, ◌+◌, ◌-◌, ◌*◌, ◌≤◌, ◌≡◌, refl, ◌↔◌, ◌≢◌, Bool, true, false, none, some, [], ◌∷◌, arith,
}
use mcpgw.Base.Bytes.{codes, text_eq_iff}
use mcpgw.Base.Map.{Map, get}
use mcpgw.Config.Server.{Server, stdio}
use mcpgw.Upstream.Budget.{OverBudget, interval, burst, charge, admitted}
use mcpgw.Upstream.Budget.Rate.{admitted-rate}
use mcpgw.Upstream.Budget.Retry.{charge-retry_in}
use mcpgw.Upstream.Slot.{
  Slot, Upstream, Claim, Answer, connected, upstream_publishing, look, settle, drop_guard, retire,
  attempts_full,
}
use mcpgw.Upstream.Slot.Step.{Step, Reach}
use mcpgw.Upstream.Slot.Ladder.{Fresh, own-Fresh, settle-stranger, wait-drop_guard}
use mcpgw.Upstream.Apply.{Manager, apply, server, with_server}
use mcpgw.Upstream.Apply.Turn.{IsWf}
use mcpgw.Upstream.Apply.Served.{apply-server}
use mcpgw.Upstream.Apply.Kept.{apply-kept}
use mcpgw.Upstream.Apply.Reenable.{reenabled-gone}

-- Three calls a minute: the fourth of a burst is refused until a third of a minute has passed.
charge_runs :
    (admitted 3 none (5 ∷ 5 ∷ 5 ∷ 5 ∷ 20000000005 ∷ []) ≡ 4)
    × ((charge 3 5 (some 60000000005)).0 ≡ some (record { limit = 3; retry_in = 20000000000 }))
unfolding admitted charge interval burst
charge_runs = (refl, refl)

admitted-rate_example : admitted 3 none (5 ∷ 7 ∷ []) * interval 3 ≤ (9 - 5) + interval 3 * 3
admitted-rate_example =
    admitted-rate 3 5 9 none (5 ∷ 7 ∷ []) (omega arith) (omega arith) (omega arith)

abbrev over : OverBudget
over = record { limit = 3; retry_in = 20000000000 }

charge-retry_in_example : ((charge 3 9 (some 60000000005)).0 ≡ none) ↔ (5 + 20000000000 ≤ 9)
charge-retry_in_example = charge-retry_in 3 5 9 (some 60000000005) over refused (omega arith)
  where
    refused : (charge 3 5 (some 60000000005)).0 ≡ some over
    refused = charge_runs.1

abbrev on : Server
on = record {
  enabled = true;
  tags = [];
  calls_per_minute = 0;
  transport = stdio (codes "npx") [] [];
  tools = none;
}

abbrev off : Server
off = record on { enabled = false }

abbrev alive : ℕ → Bool
alive service = false

abbrev first : Upstream
first = upstream_publishing on 0

abbrev claimed : Upstream
claimed = (look alive first).1

own-Fresh_example : Fresh alive first 0
own-Fresh_example = own-Fresh (Reach.starts on 0) alive 3 0 owned
  where
    owned : (look alive first).0 ≡ Claim.own 3 0
    owned = unfold look upstream_publishing in refl

settle-stranger_example :
    ((settle (λ s. none) 0 (connected 7) (retire claimed)).1.slot ≡ (retire claimed).slot)
    × ((settle (λ s. none) 0 (connected 7) (retire claimed)).1.info ≡ (retire claimed).info)
    × ((service : ℕ)
        → (settle (λ s. none) 0 (connected 7) (retire claimed)).0 ≢ Answer.serve service)
settle-stranger_example = settle-stranger (retire claimed) (λ s. none) 0 (connected 7) gone
  where
    gone : (retire claimed).slot ≢ Slot.connecting 0
    gone = unfold retire in λ e. cc

wait-drop_guard_example :
    (claim : ℕ) × (claimed.slot ≡ Slot.connecting claim)
    × (claimed.live claim ≡ true)
    × ((look alive (drop_guard claim claimed)).0 ≡ Claim.own attempts_full claimed.next)
wait-drop_guard_example = wait-drop_guard claimed alive alive waits
  where
    waits : (look alive claimed).0 ≡ Claim.wait
    waits = unfold look upstream_publishing in refl

abbrev manager : Manager
manager = record {
  upstreams = (codes "a", 0) ∷ [];
  heap = λ id. upstream_publishing on 0;
  fresh = 1;
  channels = 1;
}

manager-IsWf : IsWf manager
unfolding get
manager-IsWf = record {
  distinct =
      λ n k id e f. ground (arith, text_eq_iff (codes "a") n, text_eq_iff (codes "a") k, e, f);
  issued = λ n id e. ground (arith, text_eq_iff (codes "a") n, e);
  sorted = (tt, tt);
}

abbrev only : Server → Map Server
only s = (codes "a", s) ∷ []

apply-server_example : server (apply manager (only off)).0 (codes "a") ≡ get (codes "a") (only off)
apply-server_example = apply-server manager (only off) (codes "a") manager-IsWf (tt, tt)

apply-kept_example :
    (get (codes "a") (apply manager (only on)).0.upstreams ≡ some 0)
    × ((apply manager (only on)).0.heap 0 ≡ with_server on (manager.heap 0))
unfolding get upstream_publishing
apply-kept_example =
    apply-kept manager (only on) (codes "a") 0 on manager-IsWf (tt, tt) refl refl refl refl

reenabled-gone_example :
    (get (codes "a") (apply (apply manager (only off)).0 (only on)).0.upstreams ≡ some 0)
    × (((apply (apply manager (only off)).0 (only on)).0.heap 0).server ≡ on)
    × ((look alive ((apply (apply manager (only off)).0 (only on)).0.heap 0)).0 ≡ Claim.gone)
unfolding get upstream_publishing
reenabled-gone_example =
    reenabled-gone manager (codes "a") 0 off on (only off) (only on) alive manager-IsWf (tt, tt)
      (tt, tt) refl refl refl refl refl refl refl refl
