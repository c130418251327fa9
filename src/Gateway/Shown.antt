-- ===== src/Gateway/Shown.antt =====
-- What a client is shown is what it may call.
use mcpgw.Base.{
  ℕ, ◌≡◌, refl, sym, ap, ◌∙◌, ◌↔◌, Bool, true, false, Option, none, some, List, [], ◌∷◌, In, retain,
  Bool-cases, inl, inr,
}
use mcpgw.Base.Bytes.{Text}
use mcpgw.Upstream.Budget.{OverBudget}
use mcpgw.Upstream.Apply.{Manager}
use mcpgw.Gateway.{
  Gateway, Refusal, refusal, allows, list_tools, manager_charge, Admission, denied, throttled,
  forwarded, metered, call_tool,
}

abbrev pub is_denied : Admission → Bool
is_denied (denied why) = true
is_denied (throttled over) = false
is_denied forwarded = false

denied_by :
    (gateway : Gateway) (now : ℕ) (tool : Text) (client : Option Text)
    → (allows gateway tool client ≡ true)
      ↔ (is_denied (call_tool gateway now tool client).0 ≡ false)
unfolding allows call_tool
denied_by gateway now tool client =
    by (refusal gateway tool client) (manager_charge gateway.manager gateway.upstream now)
  where
    answered : Option Refusal → Option OverBudget × Manager → Admission × Gateway
    answered why charged = elim why [
      | some r ↦ (denied r, gateway)
      | none ↦ metered gateway charged
    ]

    by :
        (why : Option Refusal) (charged : Option OverBudget × Manager)
        → (elim why [ none ↦ true | some r ↦ false ] ≡ true)
          ↔ (is_denied (answered why charged).0 ≡ false)
    by (some r) charged = (λ h. cc, λ h. cc)
    by none (none, m) = (λ h. refl, λ h. refl)
    by none (some over, m) = (λ h. refl, λ h. refl)

retain-In :
    {A : Type 0} (p : A → Bool) (x : A) (l : List A) → In x (retain p l) ↔ (In x l × (p x ≡ true))
retain-In p x [] = (λ i. elim i [ ], λ (i, h). elim i [ ])
retain-In p x (y ∷ l) = elim (Bool-cases (p y)) [
  | inl t ↦ rw t (
    λ i. elim i [
      | inl e ↦ (inl e, ap p e ∙ t)
      | inr j ↦ let (k, h) = (retain-In p x l).0 j in (inr k, h)
    ],
    λ (i, h). elim i [ inl e ↦ inl e | inr j ↦ inr ((retain-In p x l).1 (j, h)) ],
  )
  | inr f ↦ rw f (
    λ i. let (k, h) = (retain-In p x l).0 i in (inr k, h),
    λ (i, h). elim i [
      | inl e ↦ absurd (clash (sym (ap p e ∙ f) ∙ h))
      | inr j ↦ (retain-In p x l).1 (j, h)
    ],
  )
]
  where
    clash : ¬ (false ≡ true)
    clash q = cc

-- A tool that the upstream lists stands in the list that a client is given exactly when a call of it
-- by that client, at whatever time, is not denied.
pub list_tools_iff :
    {Tool : Type 0} (name : Tool → Text) (gateway : Gateway) (client : Option Text)
    (tools : List Tool) (tool : Tool) (now : ℕ)
    → In tool (list_tools name gateway false client tools)
      ↔ (In tool tools × (is_denied (call_tool gateway now (name tool) client).0 ≡ false))
unfolding list_tools
list_tools_iff name gateway client tools tool now = (
  λ i.
      let (k, h) = (retain-In (λ t. allows gateway (name t) client) tool tools).0 i in
      (k, (denied_by gateway now (name tool) client).0 h),
  λ (i, h).
      (retain-In (λ t. allows gateway (name t) client) tool tools).1
        (i, (denied_by gateway now (name tool) client).1 h),
)
