-- ===== src/Upstream/Apply/Reenable.antt =====
-- A server that one reload switches off and a later one switches on again.
use mcpgw.Base.{ℕ, ◌≡◌, refl, ap, ◌∙◌, Bool, true, false, some, arith}
use mcpgw.Base.Bytes.{Text}
use mcpgw.Base.Map.{Map, get, IsSorted}
use mcpgw.Config.Server.{Server}
use mcpgw.Upstream.Slot.{Upstream, Claim, look, retire}
use mcpgw.Upstream.Slot.Ladder.{look-gone}
use mcpgw.Upstream.Apply.{Manager, apply, with_server}
use mcpgw.Upstream.Apply.Turn.{IsWf}
use mcpgw.Upstream.Apply.Served.{apply-IsWf}
use mcpgw.Upstream.Apply.Kept.{apply-kept, apply-stopped}

retired_with_server :
    (u v w : Upstream) (s : Server) → v ≡ retire u → w ≡ with_server s v → w.retired ≡ true
unfolding retire
retired_with_server u v w s e f = ground arith

server-retire : (u v : Upstream) (s : Server) → v ≡ retire (with_server s u) → v.server ≡ s
unfolding retire
server-retire u v s e = ground arith

-- A server switched off by one reload and back on by the next, its transport the same throughout, is
-- configured and enabled again, and still answers every demand as shut down.
pub reenabled-gone :
    (m : Manager) (n : Text) (i : ℕ) (off back : Server) (first second : Map Server)
    (dead : ℕ → Bool)
    → IsWf m
    → IsSorted first
    → IsSorted second
    → get n m.upstreams ≡ some i
    → get n first ≡ some off
    → get n second ≡ some back
    → (m.heap i).server.transport ≡ off.transport
    → off.transport ≡ back.transport
    → (m.heap i).server.enabled ≡ true
    → off.enabled ≡ false
    → back.enabled ≡ true
    → (get n (apply (apply m first).0 second).0.upstreams ≡ some i)
      × (((apply (apply m first).0 second).0.heap i).server ≡ back)
      × ((look dead ((apply (apply m first).0 second).0.heap i)).0 ≡ Claim.gone)
reenabled-gone m n i off back first second dead wf o q mine e f t u a b c =
    let one = apply-stopped m first n i off wf o mine e t a b in
    let old = server-retire (m.heap i) _ off one.1 in
    let two =
      apply-kept (apply m first).0 second n i back (apply-IsWf m first wf) q one.0 f
        (ap (λ (s : Server). s.transport) old ∙ u) (rw (old, b) refl) in
    (
      two.0,
      ap (λ (w : Upstream). w.server) two.1,
      look-gone _ dead (retired_with_server _ _ _ back one.1 two.1),
    )
