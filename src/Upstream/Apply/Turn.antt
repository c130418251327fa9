-- ===== src/Upstream/Apply/Turn.antt =====
-- What one turn of the loop changes, and what it leaves alone.
use mcpgw.Base.{
  ℕ, ◌≤◌, ◌<◌, ◌≡◌, refl, ◌≢◌, ◌⊎◌, inl, inr, Option, none, some, if◌then◌else◌, arith,
  Option-cases,
}
use mcpgw.Base.Bytes.{Text, text_eq, text_eq_iff}
use mcpgw.Base.Map.{get, get-insert, IsSorted, insert-IsSorted}
use mcpgw.Config.Server.{Server}
use mcpgw.Upstream.Slot.{upstream_publishing}
use mcpgw.Upstream.Apply.{
  Manager, Pass, Verdict, same, replaced, compare_servers, server_at, visit, visit_found,
  settle_verdict, add_new,
}

pub compare_servers_same : (old s : Server) → compare_servers old s ≡ same → old ≡ s
unfolding compare_servers
compare_servers_same old s h = ground arith

-- No entry is reached by two names, and every entry was handed out.
pub record IsWf (m : Manager) : Type 0 where
  pub distinct :
      (n k : Text) (id : ℕ) → get n m.upstreams ≡ some id → get k m.upstreams ≡ some id → n ≡ k
  pub issued : (n : Text) (id : ℕ) → get n m.upstreams ≡ some id → id < m.fresh
  pub sorted : IsSorted m.upstreams

module _ (m : Manager) (wf : IsWf m) where
  -- An entry of the new map is the old entry of its name, or a new one.
  pub record Keeps (p : Pass) : Type 0 where
    pub grows : m.fresh ≤ p.fresh
    pub issued : (n : Text) (id : ℕ) → get n p.upstreams ≡ some id → id < p.fresh
    pub sorted : IsSorted p.upstreams
    pub origin :
        (n : Text) (id : ℕ)
        → get n p.upstreams ≡ some id
        → (get n m.upstreams ≡ some id) ⊎ (m.fresh ≤ id)
    pub distinct :
        (n k : Text) (id : ℕ) → get n p.upstreams ≡ some id → get k p.upstreams ≡ some id → n ≡ k

  module _ (name : Text) (s : Server) where
    separate :
        (n : Text) (p : Pass) (i id : ℕ)
        → Keeps p
        → name ≢ n
        → get n p.upstreams ≡ some i
        → get name m.upstreams ≡ some id
        → i ≢ id
    separate n p i id h d a c e = ground (
      arith,
      h.origin n i a,
      wf.issued name id c,
      λ (q : get n m.upstreams ≡ some id). wf.distinct name n id c q,
    )

    add_new-Keeps : (p : Pass) → Keeps p → Keeps (add_new name s p)
    add_new-Keeps p h = record {
      grows = omega (arith, h.grows);
      sorted = insert-IsSorted name p.fresh p.upstreams h.sorted;
      issued = λ n id e. ground (arith, get-insert n name p.fresh p.upstreams, h.issued n id, e);
      origin = λ n id e.
          ground (arith, get-insert n name p.fresh p.upstreams, h.origin n id, h.grows, e);
      distinct = λ n k i e f. ground (
        arith,
        get-insert n name p.fresh p.upstreams,
        get-insert k name p.fresh p.upstreams,
        text_eq_iff name n,
        text_eq_iff name k,
        h.issued n i,
        h.issued k i,
        h.distinct n k i,
        e,
        f,
      );
    }

    settle_verdict-Keeps :
        (id : ℕ) (p : Pass) (v : Verdict)
        → get name m.upstreams ≡ some id
        → Keeps p
        → Keeps (settle_verdict name s id p v)
    settle_verdict-Keeps id p replaced c h = record {
      grows = omega (arith, h.grows);
      sorted = insert-IsSorted name p.fresh p.upstreams h.sorted;
      issued = λ n i e. ground (arith, get-insert n name p.fresh p.upstreams, h.issued n i, e);
      origin =
          λ n i e. ground (arith, get-insert n name p.fresh p.upstreams, h.origin n i, h.grows, e);
      distinct = λ n k i e f. ground (
        arith,
        get-insert n name p.fresh p.upstreams,
        get-insert k name p.fresh p.upstreams,
        text_eq_iff name n,
        text_eq_iff name k,
        h.issued n i,
        h.issued k i,
        h.distinct n k i,
        e,
        f,
      );
    }
    settle_verdict-Keeps id p _ c h = record {
      grows = h.grows;
      sorted = insert-IsSorted name id p.upstreams h.sorted;
      issued = λ n i e.
          ground (
            arith,
            get-insert n name id p.upstreams,
            h.issued n i,
            h.grows,
            wf.issued name id c,
            e,
          );
      origin = λ n i e.
          ground (arith, get-insert n name id p.upstreams, h.origin n i, text_eq_iff name n, c, e);
      distinct = λ n k i e f. ground (
        arith,
        get-insert n name id p.upstreams,
        get-insert k name id p.upstreams,
        text_eq_iff name n,
        text_eq_iff name k,
        h.distinct n k i,
        λ (d : name ≢ n) (g : get n p.upstreams ≡ some i). separate n p i id h d g c,
        λ (d : name ≢ k) (g : get k p.upstreams ≡ some i). separate k p i id h d g c,
        e,
        f,
      );
    }

    visit_found-Keeps :
        (p : Pass) (o : Option ℕ)
        → get name m.upstreams ≡ o
        → Keeps p
        → Keeps (visit_found name s p o)
    visit_found-Keeps p none c h = add_new-Keeps p h
    visit_found-Keeps p (some id) c h = settle_verdict-Keeps id p _ c h

    pub visit-Keeps : (p : Pass) → Keeps p → Keeps (visit m.upstreams name s p)
    unfolding visit
    visit-Keeps p h = visit_found-Keeps p (get name m.upstreams) refl h

    module _ (n : Text) (p : Pass) (h : Keeps p) where
      abbrev AtTurn : Pass → Type 0
      AtTurn q =
          server_at q.upstreams q.heap n
          ≡ (if text_eq name n then some s else server_at p.upstreams p.heap n)

      add_new-server_at : AtTurn (add_new name s p)
      unfolding server_at upstream_publishing
      add_new-server_at = elim (Option-cases (get n p.upstreams)) [
        | inl e ↦ ground (arith, get-insert n name p.fresh p.upstreams, e)
        | inr (i, e) ↦ ground (arith, get-insert n name p.fresh p.upstreams, e, h.issued n i e)
      ]

      settle_verdict-server_at :
          (id : ℕ) (v : Verdict)
          → get name m.upstreams ≡ some id
          → compare_servers (p.heap id).server s ≡ v
          → AtTurn (settle_verdict name s id p v)
      unfolding server_at upstream_publishing
      settle_verdict-server_at id same c v = elim (Option-cases (get n p.upstreams)) [
        | inl e ↦ ground (arith, get-insert n name id p.upstreams, e, compare_servers_same _ s v)
        | inr (i, e) ↦
            ground (arith, get-insert n name id p.upstreams, e, compare_servers_same _ s v)
      ]
      settle_verdict-server_at id replaced c v = elim (Option-cases (get n p.upstreams)) [
        | inl e ↦ ground (arith, get-insert n name p.fresh p.upstreams, e)
        | inr (i, e) ↦ ground (arith, get-insert n name p.fresh p.upstreams, e, h.issued n i e)
      ]
      settle_verdict-server_at id _ c v = elim (Option-cases (get n p.upstreams)) [
        | inl e ↦ ground (arith, get-insert n name id p.upstreams, e)
        | inr (i, e) ↦ ground (
          arith,
          get-insert n name id p.upstreams,
          e,
          text_eq_iff name n,
          λ (d : name ≢ n). separate n p i id h d e c,
        )
      ]

      visit_found-server_at :
          (o : Option ℕ) → get name m.upstreams ≡ o → AtTurn (visit_found name s p o)
      visit_found-server_at none c = add_new-server_at
      visit_found-server_at (some id) c = settle_verdict-server_at id _ c refl

      -- A turn sets the server of its own name, and no other name's.
      pub visit-server_at : AtTurn (visit m.upstreams name s p)
      unfolding visit
      visit-server_at = visit_found-server_at (get name m.upstreams) refl
