-- ===== src/Gateway/Refused.antt =====
-- A call that does not reach the upstream costs nothing.
use mathlib.Core.Path.{fun_ext}
use mcpgw.Base.{
  ℕ, ◌≡◌, ◌≢◌, refl, ap, ◌∙◌, Bool, true, false, Option, none, some, ◌==◌, ==_iff, ltb,
  if◌then◌else◌, max, ◌-◌, ◌+◌,
}
use mcpgw.Base.Bytes.{Text}
use mcpgw.Base.Map.{get, get_or}
use mcpgw.Upstream.Budget.{OverBudget, Budget, charge, burst, interval}
use mcpgw.Upstream.Slot.{Upstream}
use mcpgw.Upstream.Apply.{Manager, Heap, update}
use mcpgw.Gateway.{
  Gateway, Refusal, refusal, manager_charge, put_budget, Admission, denied, forwarded, metered,
  call_tool,
}

-- A bucket that refuses is left as it is.
charge-refused :
    (limit now : ℕ) (state : Budget) (over : OverBudget)
    → (charge limit now state).0 ≡ some over
    → (charge limit now state).1 ≡ state
unfolding charge
charge-refused limit now state over h =
    by (limit == 0) (ltb (burst limit) (max (get_or now state) now - now)) h
  where
    outcome : Bool → Bool → Option OverBudget × Budget
    outcome unmetered exceeded =
        if unmetered
        then (none, state)
        else if exceeded
        then (
          some (record {
            limit = limit;
            retry_in = (max (get_or now state) now - now) - burst limit;
          }),
          state,
        )
        else (none, some (max (get_or now state) now + interval limit))

    by : (a b : Bool) → (outcome a b).0 ≡ some over → (outcome a b).1 ≡ state
    by true b e = refl
    by false true e = refl
    by false false e = cc

update_same : (heap : Heap) (id : ℕ) (u : Upstream) → u ≡ heap id → update heap id u ≡ heap
update_same heap id u e = fun_ext (λ other. by other (id == other) refl)
  where
    by : (other : ℕ) (b : Bool) → (id == other) ≡ b → (if b then u else heap other) ≡ heap other
    by other true h = e ∙ ap heap ((==_iff id other).0 h)
    by other false h = refl

manager_charge-refused :
    (m : Manager) (name : Text) (now : ℕ) (over : OverBudget)
    → (manager_charge m name now).0 ≡ some over
    → (manager_charge m name now).1 ≡ m
unfolding manager_charge
manager_charge-refused m name now over h = by (get name m.upstreams) h
  where
    charged : ℕ → Option OverBudget × Budget
    charged id = charge (m.heap id).server.calls_per_minute now (m.heap id).budget

    outcome : Option ℕ → Option OverBudget × Manager
    outcome o = elim o [
      | none ↦ (none, m)
      | some id ↦ (
        (charged id).0,
        record m { heap = update m.heap id (put_budget (m.heap id) (charged id).1) },
      )
    ]

    by : (o : Option ℕ) → (outcome o).0 ≡ some over → (outcome o).1 ≡ m
    by none e = refl
    by (some id) e =
        ap (λ heap. record m { heap = heap })
          (update_same m.heap id (put_budget (m.heap id) (charged id).1) (
            ap (put_budget (m.heap id))
              (charge-refused (m.heap id).server.calls_per_minute now (m.heap id).budget over e)))

-- A call that is not forwarded to the upstream, denied by a table or over the budget, leaves the
-- gateway as it was: no budget is charged.
pub call_tool-refused :
    (gateway : Gateway) (now : ℕ) (tool : Text) (client : Option Text)
    → (call_tool gateway now tool client).0 ≢ forwarded
    → (call_tool gateway now tool client).1 ≡ gateway
unfolding call_tool
call_tool-refused gateway now tool client h = by (refusal gateway tool client) h
  where
    charged : Option OverBudget × Manager
    charged = manager_charge gateway.manager gateway.upstream now

    answered : Option Refusal → Option OverBudget × Manager → Admission × Gateway
    answered why c = elim why [ some r ↦ (denied r, gateway) | none ↦ metered gateway c ]

    untouched :
        (c : Option OverBudget × Manager)
        → ((over : OverBudget) → c.0 ≡ some over → c.1 ≡ gateway.manager)
        → (metered gateway c).0 ≢ forwarded
        → (metered gateway c).1 ≡ gateway
    untouched (none, m) k n = absurd (n refl)
    untouched (some over, m) k n = ap (λ x. record gateway { manager = x }) (k over refl)

    by :
        (why : Option Refusal)
        → (answered why charged).0 ≢ forwarded
        → (answered why charged).1 ≡ gateway
    by (some r) n = refl
    by none n = untouched charged (manager_charge-refused gateway.manager gateway.upstream now) n
