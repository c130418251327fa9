-- ===== src/Upstream/Apply/Entry.antt =====
-- What a reload does to the upstream of one name: the entry keeps its place and its connection when
-- only its settings changed, and is retired in place when it was switched off.
use mcpgw.Base.{
  ℕ, ◌≤◌, ◌<◌, ◌≡◌, refl, ap, sym, ◌∙◌, ◌≢◌, inl, inr, Bool, true, false, Option, none, some, [],
  ◌∷◌, ◌++◌, In, In-append_cases, In-append_left, arith,
}
use mcpgw.Base.Bytes.{Text, text_eq_iff}
use mcpgw.Base.Map.{get, get-insert}
use mcpgw.Config.Server.{Server}
use mcpgw.Upstream.Apply.{
  Manager, Pass, Verdict, same, edited, stopped, replaced, compare_servers, visit, visit_found,
  settle_verdict, with_server,
}
use mcpgw.Upstream.Apply.Turn.{IsWf, Keeps}

module _ (m : Manager) (wf : IsWf m) (n : Text) (i : ℕ) (mine : get n m.upstreams ≡ some i) where
  -- Whether the entry is on the list of entries to retire.
  abbrev pub Listed : Bool → Pass → Type 0
  Listed true p = In i p.retire
  Listed false p = ¬ In i p.retire

  pub record Before (p : Pass) : Type 0 where
    pub heap : p.heap i ≡ m.heap i
    pub unlisted : ¬ In i p.retire

  pub record After (s : Server) (b : Bool) (p : Pass) : Type 0 where
    pub mapped : get n p.upstreams ≡ some i
    pub heap : p.heap i ≡ with_server s (m.heap i)
    pub listed : Listed b p

  -- Another entry joins the list.
  pub Listed-append :
      (id : ℕ) (b : Bool) (p q : Pass)
      → id ≢ i
      → q.retire ≡ p.retire ++ id ∷ []
      → Listed b p
      → Listed b q
  Listed-append id true p q d e l = rw e (In-append_left i p.retire (id ∷ []) l)
  Listed-append id false p q d e l = λ x. elim (In-append_cases i p.retire (id ∷ []) (rw e at x)) [
    | inl y ↦ l y
    | inr (inl y) ↦ d (sym y)
    | inr (inr y) ↦ elim y [ ]
  ]

  module _ (k : Text) (v : Server) (p : Pass) (h : Keeps m wf p) (other : k ≢ n) where
    not_fresh : i ≢ p.fresh
    not_fresh e = clash (wf.issued n i mine) h.grows
      where
        clash : i < m.fresh → m.fresh ≤ p.fresh → ⊥
        clash a b = omega arith

    not_theirs : (id : ℕ) → get k m.upstreams ≡ some id → id ≢ i
    not_theirs id c e = other (wf.distinct k n i (c ∙ ap some e) mine)

    found-heap : (o : Option ℕ) → get k m.upstreams ≡ o → (visit_found k v p o).heap i ≡ p.heap i
    found-heap none c = ground (arith, not_fresh)
    found-heap (some id) c = go (compare_servers (p.heap id).server v)
      where
        go : (w : Verdict) → (settle_verdict k v id p w).heap i ≡ p.heap i
        go same = refl
        go edited = ground (arith, not_theirs id c)
        go stopped = ground (arith, not_theirs id c)
        go replaced = ground (arith, not_fresh)

    pub other-heap : (visit m.upstreams k v p).heap i ≡ p.heap i
    unfolding visit
    other-heap = found-heap (get k m.upstreams) refl

    found-mapped : (o : Option ℕ) → get n (visit_found k v p o).upstreams ≡ get n p.upstreams
    found-mapped none = ground (arith, get-insert n k p.fresh p.upstreams, text_eq_iff k n)
    found-mapped (some id) = go (compare_servers (p.heap id).server v)
      where
        go : (w : Verdict) → get n (settle_verdict k v id p w).upstreams ≡ get n p.upstreams
        go replaced = ground (arith, get-insert n k p.fresh p.upstreams, text_eq_iff k n)
        go _ = ground (arith, get-insert n k id p.upstreams, text_eq_iff k n)

    pub other-mapped : get n (visit m.upstreams k v p).upstreams ≡ get n p.upstreams
    unfolding visit
    other-mapped = found-mapped (get k m.upstreams)

    found-Listed :
        (b : Bool) (o : Option ℕ)
        → get k m.upstreams ≡ o
        → Listed b p
        → Listed b (visit_found k v p o)
    found-Listed true none c l = l
    found-Listed false none c l = l
    found-Listed b (some id) c l = go b l (compare_servers (p.heap id).server v)
      where
        go : (b' : Bool) → Listed b' p → (w : Verdict) → Listed b' (settle_verdict k v id p w)
        go b' x stopped =
            Listed-append id b' p (settle_verdict k v id p stopped) (not_theirs id c) refl x
        go b' x replaced =
            Listed-append id b' p (settle_verdict k v id p replaced) (not_theirs id c) refl x
        go true x same = x
        go false x same = x
        go true x edited = x
        go false x edited = x

    pub other-Listed : (b : Bool) → Listed b p → Listed b (visit m.upstreams k v p)
    unfolding visit
    other-Listed b = found-Listed b (get k m.upstreams) refl
