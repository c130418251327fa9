-- ===== src/Upstream/Apply/Served.antt =====
-- After a reload the manager serves exactly the servers of the new config.
use mathlib.Core.Path.{ap₂}
use mcpgw.Base.{
  ℕ, ◌≡◌, refl, ap, ◌∙◌, inl, inr, Bool, true, false, Option, none, some, List, [], ◌∷◌, arith,
  Option-cases,
}
use mcpgw.Base.Bytes.{Text, text_eq_iff}
use mcpgw.Base.Map.{Map, get, contains_key, IsSorted, Below-get}
use mcpgw.Config.Server.{Server}
use mcpgw.Upstream.Slot.{retire}
use mcpgw.Upstream.Apply.{
  Manager, Pass, Heap, update, visit, visit_all, drop_one, drop_missing, retire_all, start, pass,
  apply, server_at, server,
}
use mcpgw.Upstream.Apply.Turn.{IsWf, Keeps, visit-Keeps, visit-server_at}

-- The first of two answers, if there is one.
abbrev first_of : Option Server → Option Server → Option Server
first_of none rest = rest
first_of (some s) rest = some s

module _ (m : Manager) (wf : IsWf m) where
  pub visit_all-Keeps :
      (servers : Map Server) (p : Pass)
      → Keeps m wf p
      → Keeps m wf (visit_all m.upstreams servers p)
  unfolding visit_all
  visit_all-Keeps [] p h = h
  visit_all-Keeps ((k, s) ∷ servers) p h =
      visit_all-Keeps servers (visit m.upstreams k s p) (visit-Keeps m wf k s p h)

  visit_all-server_at :
      (n : Text) (servers : Map Server) (p : Pass)
      → Keeps m wf p
      → IsSorted servers
      → server_at
          (visit_all m.upstreams servers p).upstreams
          (visit_all m.upstreams servers p).heap
          n
        ≡ first_of (get n servers) (server_at p.upstreams p.heap n)
  unfolding visit_all get
  visit_all-server_at n [] p h s = refl
  visit_all-server_at n ((k, v) ∷ servers) p h (b, s) =
      visit_all-server_at n servers (visit m.upstreams k v p) (visit-Keeps m wf k v p h) s
      ∙ ground (
        arith,
        visit-server_at m wf k v n p h,
        text_eq_iff k n,
        λ (e : k ≡ n). rw e at (Below-get k servers b),
      )

  pub start-Keeps : Keeps m wf (start m)
  unfolding start get
  start-Keeps = record {
    grows = omega arith;
    sorted = tt;
    issued = λ n id e. cc;
    origin = λ n id e. cc;
    distinct = λ n k id e f. cc;
  }

-- Two passes hold the same entries.
abbrev pub SameEntries : Pass → Pass → Type 0
SameEntries p q = (p.upstreams ≡ q.upstreams) × (p.heap ≡ q.heap) × (p.fresh ≡ q.fresh)

drop_one_keeps : (k : Text) (id : ℕ) (b : Bool) (p : Pass) → SameEntries (drop_one k id b p) p
drop_one_keeps k id true p = (refl, refl, refl)
drop_one_keeps k id false p = (refl, refl, refl)

-- The second loop only notes what to retire.
pub drop_missing_keeps : (current : Map ℕ) (p : Pass) → SameEntries (drop_missing current p) p
unfolding drop_missing
drop_missing_keeps [] p = (refl, refl, refl)
drop_missing_keeps ((k, id) ∷ current) p =
    let one = drop_one_keeps k id (contains_key k p.upstreams) p in
    let rest = drop_missing_keeps current (drop_one k id (contains_key k p.upstreams) p) in
    (rest.0 ∙ one.0, rest.1 ∙ one.1, rest.2 ∙ one.2)

retire_all-server :
    (ids : List ℕ) (heap : Heap) (i : ℕ) → (retire_all ids heap i).server ≡ (heap i).server
unfolding retire_all
retire_all-server [] heap i = refl
retire_all-server (id ∷ ids) heap i =
    retire_all-server ids (update heap id (retire (heap id))) i ∙ ground arith

retire_all-server_at :
    (ids : List ℕ) (heap : Heap) (upstreams : Map ℕ) (n : Text)
    → server_at upstreams (retire_all ids heap) n ≡ server_at upstreams heap n
unfolding server_at
retire_all-server_at ids heap upstreams n = elim (Option-cases (get n upstreams)) [
  | inl e ↦ rw (e, server_at)
  | inr (i, e) ↦ rw (e, server_at, retire_all-server ids heap i)
]

first_of-none : (o : Option Server) → first_of o none ≡ o
first_of-none none = refl
first_of-none (some s) = refl

start-server_at : (m : Manager) (n : Text) → server_at (start m).upstreams (start m).heap n ≡ none
unfolding start server_at get
start-server_at m n = refl

-- After a reload a name is served exactly if the new config has it, and by the new config's entry,
-- whether its upstream was added, kept, edited, stopped or replaced.
pub apply-server :
    (m : Manager) (servers : Map Server) (n : Text)
    → IsWf m
    → IsSorted servers
    → server (apply m servers).0 n ≡ get n servers
unfolding apply server
apply-server m servers n wf s =
    let p = visit_all m.upstreams servers (start m) in
    let (ups, heap, fresh) = drop_missing_keeps m.upstreams p in
    retire_all-server_at (pass m servers).retire (pass m servers).heap (pass m servers).upstreams n
    ∙ ap₂ (λ u h. server_at u h n) ups heap
    ∙ visit_all-server_at m wf n servers (start m) (start-Keeps m wf) s
    ∙ ap (first_of (get n servers)) (start-server_at m n)
    ∙ first_of-none (get n servers)

-- A reload keeps the manager well formed.
pub apply-IsWf : (m : Manager) (servers : Map Server) → IsWf m → IsWf (apply m servers).0
unfolding apply
apply-IsWf m servers wf =
    let p = visit_all m.upstreams servers (start m) in
    let (ups, heap, fresh) = drop_missing_keeps m.upstreams p in
    let h = visit_all-Keeps m wf servers (start m) (start-Keeps m wf) in
    record {
      distinct = λ n k id e f. h.distinct n k id (rw ups at e) (rw ups at f);
      issued = λ n id e. rw fresh (h.issued n id (rw ups at e));
      sorted = rw ups h.sorted;
    }
