-- ===== src/Upstream/Apply/Kept.antt =====
-- The fate of one entry over the whole of a reload.
use mcpgw.Base.{
  ℕ, ◌≡◌, refl, ap, sym, ◌∙◌, ◌≢◌, ◌⊎◌, inl, inr, Bool, true, false, not, ◌&&◌, Option, none, some,
  List, [], ◌∷◌, In, In-append_right, arith, Bool-cases,
}
use mcpgw.Base.Bytes.{Text, text_eq, text_eq_iff}
use mcpgw.Base.Map.{
  Map, get, contains_key, get-insert, IsSorted, Below-get, In-get, contains_key-get,
}
use mcpgw.Config.Server.{Server}
use mcpgw.Upstream.Slot.{Upstream, retire}
use mcpgw.Upstream.Apply.{
  Manager, Pass, Heap, Verdict, same, edited, stopped, replaced, compare_servers, update, visit,
  settle_verdict, visit_all, drop_one, drop_missing, retire_all, start, pass, apply, with_server,
}
use mcpgw.Upstream.Apply.Turn.{IsWf, Keeps, visit-Keeps, compare_servers_same}
use mcpgw.Upstream.Apply.Served.{start-Keeps}
use mcpgw.Upstream.Apply.Entry.{
  Listed-append, Before, After, other-heap, other-mapped, other-Listed,
}

abbrev pub InPlace : Verdict → Bool → Type 0
InPlace same false = Unit
InPlace edited false = Unit
InPlace stopped true = Unit
InPlace _ _ = ⊥

update_self : (heap : Heap) (id : ℕ) (u : Upstream) → update heap id u id ≡ u
update_self heap id u = ground arith

module _ (m : Manager) (wf : IsWf m) (n : Text) (i : ℕ) (mine : get n m.upstreams ≡ some i) where
  module _ (s : Server) where
    self_settled :
        (w : Verdict) (b : Bool) (p : Pass)
        → compare_servers (m.heap i).server s ≡ w
        → InPlace w b
        → Before m wf n i mine p
        → After m wf n i mine s b (settle_verdict n s i p w)
    self_settled same false p c h k = record {
      mapped = ground (arith, get-insert n n i p.upstreams, text_eq_iff n n);
      heap =
          k.heap ∙ ap (λ x. with_server x (m.heap i)) (compare_servers_same (m.heap i).server s c);
      listed = k.unlisted;
    }
    self_settled edited false p c h k = record {
      mapped = ground (arith, get-insert n n i p.upstreams, text_eq_iff n n);
      heap = update_self p.heap i _ ∙ ap (with_server s) k.heap;
      listed = k.unlisted;
    }
    self_settled stopped true p c h k = record {
      mapped = ground (arith, get-insert n n i p.upstreams, text_eq_iff n n);
      heap = update_self p.heap i _ ∙ ap (with_server s) k.heap;
      listed = In-append_right i p.retire (i ∷ []) (inl refl);
    }
    self_settled same true p c h k = absurd h
    self_settled edited true p c h k = absurd h
    self_settled stopped false p c h k = absurd h
    self_settled replaced b p c h k = absurd h

    start-Before : Before m wf n i mine (start m)
    unfolding start
    start-Before = record { heap = refl; unlisted = λ x. elim x [ ] }

    module _ (b : Bool) (inplace : InPlace (compare_servers (m.heap i).server s) b) where
      visit_self :
          (p : Pass) → Before m wf n i mine p → After m wf n i mine s b (visit m.upstreams n s p)
      unfolding visit
      visit_self p k =
          rw (mine, k.heap) (self_settled (compare_servers (m.heap i).server s) b p refl inplace k)

      visit-Before :
          (k : Text) (v : Server) (p : Pass)
          → Keeps m wf p
          → k ≢ n
          → Before m wf n i mine p
          → Before m wf n i mine (visit m.upstreams k v p)
      visit-Before k v p h d x = record {
        heap = other-heap m wf n i mine k v p h d ∙ x.heap;
        unlisted = other-Listed m wf n i mine k v p h d false x.unlisted;
      }

      visit-After :
          (k : Text) (v : Server) (p : Pass)
          → Keeps m wf p
          → k ≢ n
          → After m wf n i mine s b p
          → After m wf n i mine s b (visit m.upstreams k v p)
      visit-After k v p h d x = record {
        mapped = other-mapped m wf n i mine k v p h d ∙ x.mapped;
        heap = other-heap m wf n i mine k v p h d ∙ x.heap;
        listed = other-Listed m wf n i mine k v p h d b x.listed;
      }

      -- Once its own turn is over.
      rest-After :
          (servers : Map Server) (p : Pass)
          → get n servers ≡ none
          → Keeps m wf p
          → After m wf n i mine s b p
          → After m wf n i mine s b (visit_all m.upstreams servers p)
      unfolding visit_all get
      rest-After [] p e h x = x
      rest-After ((k, v) ∷ servers) p e h x = elim (Bool-cases (text_eq k n)) [
        | inl t ↦ absurd (clash v (rw t at e))
        | inr t ↦
            rest-After servers (visit m.upstreams k v p) (rw t at e) (visit-Keeps m wf k v p h)
              (visit-After k v p h (differ t) x)
      ]
        where
          clash : (w : Server) → ◌≡◌ {A = Option Server} (some w) none → ⊥
          clash w x = cc

          differ : text_eq k n ≡ false → k ≢ n
          differ t = ground (arith, text_eq_iff k n)

      all-After :
          (servers : Map Server) (p : Pass)
          → IsSorted servers
          → get n servers ≡ some s
          → Keeps m wf p
          → Before m wf n i mine p
          → After m wf n i mine s b (visit_all m.upstreams servers p)
      unfolding visit_all get
      all-After [] p o e h x = absurd (cc)
      all-After ((k, v) ∷ servers) p (below, o) e h x = elim (Bool-cases (text_eq k n)) [
        | inl t ↦ here ((text_eq_iff k n).0 t) (taken (rw t at e))
        | inr t ↦
            all-After servers (visit m.upstreams k v p) o (rw t at e) (visit-Keeps m wf k v p h)
              (visit-Before k v p h (differ t) x)
      ]
        where
          taken : ◌≡◌ {A = Option Server} (some v) (some s) → v ≡ s
          taken q = cc

          differ : text_eq k n ≡ false → k ≢ n
          differ t = ground (arith, text_eq_iff k n)

          here :
              k ≡ n
              → v ≡ s
              → After m wf n i mine s b (visit_all m.upstreams servers (visit m.upstreams k v p))
          here q w =
              rest-After servers (visit m.upstreams k v p) (rw q at (Below-get k servers below))
                (visit-Keeps m wf k v p h) (rw (q, w) (visit_self p x))

      drop-After :
          (current : Map ℕ) (p : Pass)
          → ((k : Text) (id : ℕ) → In (k, id) current → get k m.upstreams ≡ some id)
          → After m wf n i mine s b p
          → After m wf n i mine s b (drop_missing current p)
      unfolding drop_missing contains_key
      drop-After [] p c x = x
      drop-After ((k, id) ∷ current) p c x =
          drop-After current (drop_one k id (contains_key k p.upstreams) p) (λ j o q. c j o (inr q))
            (one (contains_key k p.upstreams) refl)
        where
          theirs : contains_key k p.upstreams ≡ false → id ≢ i
          theirs e q = present (
              sym (contains_key-get n i p.upstreams x.mapped)
              ∙ ap (λ y. contains_key y p.upstreams) (sym same_name)
              ∙ e)
            where
              same_name : k ≡ n
              same_name = wf.distinct k n i (c k id (inl refl) ∙ ap some q) mine

              present : ◌≡◌ {A = Bool} true false → ⊥
              present y = cc

          one :
              (d : Bool)
              → contains_key k p.upstreams ≡ d
              → After m wf n i mine s b (drop_one k id d p)
          one true e = x
          one false e = record {
            mapped = x.mapped;
            heap = x.heap;
            listed =
                Listed-append m wf n i mine id b p (drop_one k id false p) (theirs e) refl x.listed;
          }

      -- Over the whole of the two loops.
      pub pass-After :
          (servers : Map Server)
          → IsSorted servers
          → get n servers ≡ some s
          → After m wf n i mine s b (pass m servers)
      unfolding pass
      pass-After servers o e =
          drop-After m.upstreams (visit_all m.upstreams servers (start m))
            (λ k id q. In-get k id m.upstreams wf.sorted q)
            (all-After servers (start m) o e (start-Keeps m wf) start-Before)

retire_all-unlisted :
    (i : ℕ) (ids : List ℕ) (heap : Heap) → ¬ In i ids → retire_all ids heap i ≡ heap i
unfolding retire_all
retire_all-unlisted i [] heap h = refl
retire_all-unlisted i (id ∷ ids) heap h =
    retire_all-unlisted i ids (update heap id (retire (heap id))) (λ x. h (inr x))
    ∙ ground (arith, λ (e : i ≡ id). h (inl e))

retire_retire : (u : Upstream) → retire (retire u) ≡ retire u
unfolding retire
retire_retire u = refl

retire_update :
    (i id : ℕ) (heap : Heap) → retire (update heap id (retire (heap id)) i) ≡ retire (heap i)
retire_update i id heap = ground (arith, retire_retire (heap id))

retire_all-retired :
    (i : ℕ) (ids : List ℕ) (heap : Heap) (u : Upstream)
    → heap i ≡ retire u
    → retire_all ids heap i ≡ retire u
unfolding retire_all
retire_all-retired i [] heap u h = h
retire_all-retired i (id ∷ ids) heap u h =
    retire_all-retired i ids (update heap id (retire (heap id))) u (ground (arith, retire_retire u))

retire_all-listed :
    (i : ℕ) (ids : List ℕ) (heap : Heap) → In i ids → retire_all ids heap i ≡ retire (heap i)
unfolding retire_all
retire_all-listed i [] heap h = elim h [ ]
retire_all-listed i (id ∷ ids) heap (inl e) =
    retire_all-retired i ids (update heap id (retire (heap id))) (heap i) (ground arith)
retire_all-listed i (id ∷ ids) heap (inr h) =
    retire_all-listed i ids (update heap id (retire (heap id))) h ∙ retire_update i id heap

kept_verdict :
    (old s : Server)
    → old.transport ≡ s.transport
    → (old.enabled && not s.enabled) ≡ false
    → (compare_servers old s ≡ same) ⊎ (compare_servers old s ≡ edited)
unfolding compare_servers
kept_verdict old s t e = ground arith

stopped_verdict :
    (old s : Server)
    → old.transport ≡ s.transport
    → old.enabled ≡ true
    → s.enabled ≡ false
    → compare_servers old s ≡ stopped
unfolding compare_servers
stopped_verdict old s t e f = ground arith

InPlace-kept : (w : Verdict) → (w ≡ same) ⊎ (w ≡ edited) → InPlace w false
InPlace-kept w (inl e) = rw e tt
InPlace-kept w (inr e) = rw e tt

-- A server whose transport the new config leaves alone, and which it does not switch off, keeps its
-- very upstream: the connection or ladder in its slot, its call budget, its channel. Only the
-- settings are the new ones.
pub apply-kept :
    (m : Manager) (servers : Map Server) (n : Text) (i : ℕ) (s : Server)
    → IsWf m
    → IsSorted servers
    → get n m.upstreams ≡ some i
    → get n servers ≡ some s
    → (m.heap i).server.transport ≡ s.transport
    → ((m.heap i).server.enabled && not s.enabled) ≡ false
    → (get n (apply m servers).0.upstreams ≡ some i)
      × ((apply m servers).0.heap i ≡ with_server s (m.heap i))
unfolding apply
apply-kept m servers n i s wf o mine e t f =
    let place = InPlace-kept _ (kept_verdict (m.heap i).server s t f) in
    let x = pass-After m wf n i mine s false place servers o e in
    (
      x.mapped,
      retire_all-unlisted i (pass m servers).retire (pass m servers).heap x.listed ∙ x.heap,
    )

-- A server that the new config switches off is retired where it stands: the name keeps its upstream,
-- with an empty slot and the retired mark.
pub apply-stopped :
    (m : Manager) (servers : Map Server) (n : Text) (i : ℕ) (s : Server)
    → IsWf m
    → IsSorted servers
    → get n m.upstreams ≡ some i
    → get n servers ≡ some s
    → (m.heap i).server.transport ≡ s.transport
    → (m.heap i).server.enabled ≡ true
    → s.enabled ≡ false
    → (get n (apply m servers).0.upstreams ≡ some i)
      × ((apply m servers).0.heap i ≡ retire (with_server s (m.heap i)))
unfolding apply
apply-stopped m servers n i s wf o mine e t f g =
    let place : InPlace (compare_servers (m.heap i).server s) true =
      rw (stopped_verdict (m.heap i).server s t f g) tt in
    let x = pass-After m wf n i mine s true place servers o e in
    (
      x.mapped,
      retire_all-listed i (pass m servers).retire (pass m servers).heap x.listed ∙ ap retire x.heap,
    )
