-- ===== src/Upstream/Slot/Step.antt =====
-- Every interleaving of the callers, ladders and reloads that share one upstream.
use mcpgw.Base.{ℕ, ◌<◌, ◌≡◌, refl, Bool, true, Option, arith}
use mcpgw.Base.Bytes.{Text}
use mcpgw.Config.Server.{Server}
use mcpgw.Upstream.Budget.{Budget}
use mcpgw.Upstream.Slot.{
  Slot, Upstream, Outcome, upstream_publishing, look, settle, drop_guard, retire, demote, release,
  shutdown,
}

-- One section of code that some task runs on the upstream. A ladder may end only while its flag is
-- up, since settling and dropping it both take the flag down.
pub data Step : Upstream → Upstream → Type 0 where
  looks : (u : Upstream) (dead : ℕ → Bool) → Step u (look dead u).1
  settles :
      (u : Upstream) (peer_info : ℕ → Option ℕ) (claim : ℕ) (outcome : Outcome)
      → u.live claim ≡ true
      → Step u (settle peer_info claim outcome u).1
  drops : (u : Upstream) (claim : ℕ) → u.live claim ≡ true → Step u (drop_guard claim u)
  retires : (u : Upstream) → Step u (retire u)
  demotes : (u : Upstream) (stale : ℕ) (message : Text) → Step u (demote stale message u)
  releases : (u : Upstream) (stale : ℕ) → Step u (release stale u)
  shuts_down : (u : Upstream) → Step u (shutdown u)
  edits : (u : Upstream) (server : Server) → Step u (record u { server = server })
  charges : (u : Upstream) (budget : Budget) → Step u (record u { budget = budget })

pub data Reach : Upstream → Type 0 where
  starts : (server : Server) (changes : ℕ) → Reach (upstream_publishing server changes)
  next : {u v : Upstream} → Reach u → Step u v → Reach v

abbrev pub Issued : ℕ → Slot → Type 0
Issued n (Slot.connecting claim) = claim < n
Issued n _ = Unit

-- A retired upstream holds nothing, and every claim in use was handed out.
pub record IsSound (u : Upstream) : Type 0 where
  pub retired_idle : u.retired ≡ true → u.slot ≡ Slot.idle
  pub issued : Issued u.next u.slot
  pub flags : (claim : ℕ) → u.live claim ≡ true → claim < u.next

module _ (u : Upstream) (h : IsSound u) where
  look_flags :
      (dead : ℕ → Bool) (claim : ℕ)
      → (look dead u).1.live claim ≡ true
      → claim < (look dead u).1.next
  unfolding look
  look_flags dead claim l = ground (arith, h.flags claim)

  look-IsSound : (dead : ℕ → Bool) → IsSound (look dead u).1
  unfolding look
  look-IsSound dead = record {
    retired_idle = ground (arith, h.retired_idle);
    issued = ground (arith, h.issued);
    flags = look_flags dead;
  }

  settle-IsSound :
      (peer_info : ℕ → Option ℕ) (claim : ℕ) (outcome : Outcome)
      → IsSound (settle peer_info claim outcome u).1
  unfolding settle
  settle-IsSound peer_info claim outcome = record {
    retired_idle = ground (arith, h.retired_idle);
    issued = ground (arith, h.issued);
    flags = λ other l. ground (arith, h.flags other);
  }

  drop_guard-IsSound : (claim : ℕ) → IsSound (drop_guard claim u)
  unfolding drop_guard
  drop_guard-IsSound claim = record {
    retired_idle = h.retired_idle;
    issued = h.issued;
    flags = λ other l. ground (arith, h.flags other);
  }

  demote-IsSound : (stale : ℕ) (message : Text) → IsSound (demote stale message u)
  unfolding demote
  demote-IsSound stale message = record {
    retired_idle = ground (arith, h.retired_idle);
    issued = ground (arith, h.issued);
    flags = ground (arith, h.flags);
  }

  release-IsSound : (stale : ℕ) → IsSound (release stale u)
  unfolding release
  release-IsSound stale = record {
    retired_idle = ground (arith, h.retired_idle);
    issued = ground (arith, h.issued);
    flags = ground (arith, h.flags);
  }

Step-IsSound : {u v : Upstream} → Step u v → IsSound u → IsSound v
unfolding retire shutdown
Step-IsSound (looks u dead) h = look-IsSound u h dead
Step-IsSound (settles u peer_info claim outcome l) h = settle-IsSound u h peer_info claim outcome
Step-IsSound (drops u claim l) h = drop_guard-IsSound u h claim
Step-IsSound (retires u) h = record { retired_idle = λ e. refl; issued = tt; flags = h.flags }
Step-IsSound (demotes u stale message) h = demote-IsSound u h stale message
Step-IsSound (releases u stale) h = release-IsSound u h stale
Step-IsSound (shuts_down u) h = record { retired_idle = λ e. refl; issued = tt; flags = h.flags }
Step-IsSound (edits u server) h = record {
  retired_idle = h.retired_idle;
  issued = h.issued;
  flags = h.flags;
}
Step-IsSound (charges u budget) h = record {
  retired_idle = h.retired_idle;
  issued = h.issued;
  flags = h.flags;
}

upstream_publishing-IsSound :
    (server : Server) (changes : ℕ) → IsSound (upstream_publishing server changes)
unfolding upstream_publishing
upstream_publishing-IsSound server changes = record {
  retired_idle = λ e. refl;
  issued = tt;
  flags = λ claim l. cc;
}

pub Reach-IsSound : {u : Upstream} → Reach u → IsSound u
Reach-IsSound (starts server changes) = upstream_publishing-IsSound server changes
Reach-IsSound (next r s) = Step-IsSound s (Reach-IsSound r)

-- Nothing takes the retired mark off again.
pub Step-retired : {u v : Upstream} → Step u v → u.retired ≡ true → v.retired ≡ true
unfolding look settle drop_guard retire demote release shutdown
Step-retired (looks u dead) h = ground arith
Step-retired (settles u peer_info claim outcome l) h = ground arith
Step-retired (drops u claim l) h = h
Step-retired (retires u) h = refl
Step-retired (demotes u stale message) h = ground arith
Step-retired (releases u stale) h = ground arith
Step-retired (shuts_down u) h = h
Step-retired (edits u server) h = h
Step-retired (charges u budget) h = h
