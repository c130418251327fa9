-- ===== src/Upstream/Slot/Ladder.antt =====
-- Who connects: one ladder at a time, no wedged slot, nothing served once retired.
use mcpgw.Base.{ℕ, ◌<◌, ◌≡◌, refl, ◌≢◌, Bool, true, false, Option, arith}
use mcpgw.Upstream.Slot.{
  Slot, Upstream, Outcome, Answer, Claim, attempts_full, is_connecting, look, settle, drop_guard,
  connected, unauthorized, broken,
}
use mcpgw.Upstream.Slot.Step.{Step, Reach, IsSound, Issued, Reach-IsSound}

module _ (u : Upstream) where
  pub look-gone : (dead : ℕ → Bool) → u.retired ≡ true → (look dead u).0 ≡ Claim.gone
  unfolding look
  look-gone dead h = ground arith

-- What a caller can still get from an upstream: nothing.
pub record ServesNothing (u : Upstream) : Type 0 where
  pub idle : u.slot ≡ Slot.idle
  pub looks : (dead : ℕ → Bool) → (look dead u).0 ≡ Claim.gone
  pub settles :
      (peer_info : ℕ → Option ℕ) (claim : ℕ) (outcome : Outcome) (service : ℕ)
      → (settle peer_info claim outcome u).0 ≢ Answer.serve service

pub record Fresh (dead : ℕ → Bool) (u : Upstream) (claim : ℕ) : Type 0 where
  pub unowned : is_connecting u.live u.slot ≡ false
  pub unused : u.live claim ≡ false
  pub unnamed : u.slot ≢ Slot.connecting claim
  pub named : (look dead u).1.slot ≡ Slot.connecting claim
  pub raised : (look dead u).1.live claim ≡ true
  pub waits : (later : ℕ → Bool) → (look later (look dead u).1).0 ≡ Claim.wait

module _ {u : Upstream} (r : Reach u) (dead : ℕ → Bool) where
  own_next : (attempts claim : ℕ) → (look dead u).0 ≡ Claim.own attempts claim → claim ≡ u.next
  unfolding look
  own_next attempts claim h = ground arith

  own_parts :
      (attempts claim : ℕ)
      → (look dead u).0 ≡ Claim.own attempts claim
      → (u.retired ≡ false)
        × (is_connecting u.live u.slot ≡ false)
        × ((look dead u).1.slot ≡ Slot.connecting claim)
        × ((look dead u).1.live claim ≡ true)
  unfolding look is_connecting
  own_parts attempts claim h = ground arith

  waits_while :
      (claim : ℕ)
      → u.retired ≡ false
      → u.slot ≡ Slot.connecting claim
      → u.live claim ≡ true
      → (look dead u).0 ≡ Claim.wait
  unfolding look
  waits_while claim h s l = ground arith

  keeps_unretired :
      (attempts claim : ℕ)
      → (look dead u).0 ≡ Claim.own attempts claim
      → (look dead u).1.retired ≡ false
  unfolding look
  keeps_unretired attempts claim h = ground arith

-- A caller runs a ladder only where no running ladder owns the slot. Its claim is one that no other
-- ladder holds, and every later caller waits while it runs.
pub own-Fresh :
    {u : Upstream} (r : Reach u) (dead : ℕ → Bool) (attempts claim : ℕ)
    → (look dead u).0 ≡ Claim.own attempts claim
    → Fresh dead u claim
own-Fresh {u} r dead attempts claim h =
    let sound = Reach-IsSound r in
    let new = own_next r dead attempts claim h in
    let (kept, unowned, named, raised) = own_parts r dead attempts claim h in
    record {
      unowned = unowned;
      unused = unused_of (u.live claim) refl (sound.flags claim) new;
      unnamed = unnamed_of u.slot sound.issued new;
      named = named;
      raised = raised;
      waits = λ later.
          waits_while (Reach.next r (Step.looks u dead)) later claim
            (keeps_unretired r dead attempts claim h) named raised;
    }
  where
    unused_of :
        (b : Bool)
        → u.live claim ≡ b
        → (u.live claim ≡ true → claim < u.next)
        → claim ≡ u.next
        → u.live claim ≡ false
    unused_of false e f n = e
    unused_of true e f n = absurd (let k = f e in omega arith)

    unnamed_of : (s : Slot) → Issued u.next s → claim ≡ u.next → s ≢ Slot.connecting claim
    unnamed_of s i n e = clash (rw e at i)
      where
        clash : claim < u.next → ⊥
        clash k = omega arith

-- What a ladder that still owns the slot leaves there, and what its caller gets.
abbrev pub settled_slot : Outcome → Slot
settled_slot (connected service) = Slot.ready service
settled_slot (unauthorized metadata) = Slot.auth_required metadata
settled_slot (broken message) = Slot.failed message

abbrev pub settled_answer : Outcome → Answer
settled_answer (connected service) = Answer.serve service
settled_answer (unauthorized metadata) = Answer.refused (unauthorized metadata)
settled_answer (broken message) = Answer.refused (broken message)

owner_unretired :
    (u : Upstream) (claim : ℕ) → IsSound u → u.slot ≡ Slot.connecting claim → u.retired ≡ false
owner_unretired u claim h s = ground (arith, h.retired_idle)

settle_owned :
    (u : Upstream) (peer_info : ℕ → Option ℕ) (claim : ℕ) (outcome : Outcome)
    → u.retired ≡ false
    → u.slot ≡ Slot.connecting claim
    → ((settle peer_info claim outcome u).0 ≡ settled_answer outcome)
      × ((settle peer_info claim outcome u).1.slot ≡ settled_slot outcome)
      × ((settle peer_info claim outcome u).1.live claim ≡ false)
unfolding settle
settle_owned u peer_info claim outcome h s = ground arith

-- A ladder that ends while the slot is its own leaves its outcome in the slot, a connection, a 401 or
-- a failure, answers its caller with the same, and takes its flag down.
settle-owner :
    {u : Upstream} (r : Reach u) (peer_info : ℕ → Option ℕ) (claim : ℕ) (outcome : Outcome)
    → u.slot ≡ Slot.connecting claim
    → ((settle peer_info claim outcome u).0 ≡ settled_answer outcome)
      × ((settle peer_info claim outcome u).1.slot ≡ settled_slot outcome)
      × ((settle peer_info claim outcome u).1.live claim ≡ false)
settle-owner {u} r peer_info claim outcome s =
    settle_owned u peer_info claim outcome (owner_unretired u claim (Reach-IsSound r) s) s

-- A ladder whose slot was taken from it changes neither the slot nor the remembered capabilities, and
-- never answers with its connection.
pub settle-stranger :
    (u : Upstream) (peer_info : ℕ → Option ℕ) (claim : ℕ) (outcome : Outcome)
    → u.slot ≢ Slot.connecting claim
    → ((settle peer_info claim outcome u).1.slot ≡ u.slot)
      × ((settle peer_info claim outcome u).1.info ≡ u.info)
      × ((service : ℕ) → (settle peer_info claim outcome u).0 ≢ Answer.serve service)
unfolding settle
settle-stranger u peer_info claim outcome n = (ground arith, ground arith, λ service. ground arith)

-- A caller waits only for a ladder that is running, and if that ladder's task is dropped, the next
-- caller takes the slot over with the full number of attempts.
pub wait-drop_guard :
    (u : Upstream) (dead later : ℕ → Bool)
    → (look dead u).0 ≡ Claim.wait
    → (claim : ℕ) × (u.slot ≡ Slot.connecting claim)
      × (u.live claim ≡ true)
      × ((look later (drop_guard claim u)).0 ≡ Claim.own attempts_full u.next)
unfolding look drop_guard
wait-drop_guard u dead later h = go u.slot refl (waiting u.slot refl)
  where
    waiting : (s : Slot) → u.slot ≡ s → (claim : ℕ) × (s ≡ Slot.connecting claim)
    waiting (Slot.connecting claim) e = (claim, refl)
    waiting Slot.idle e = absurd (ground arith)
    waiting (Slot.ready service) e = absurd (ground arith)
    waiting (Slot.failed message) e = absurd (ground arith)
    waiting (Slot.auth_required metadata) e = absurd (ground arith)

    go :
        (s : Slot)
        → u.slot ≡ s
        → (claim : ℕ) × (s ≡ Slot.connecting claim)
        → (claim : ℕ) × (u.slot ≡ Slot.connecting claim)
          × (u.live claim ≡ true)
          × ((look later (drop_guard claim u)).0 ≡ Claim.own attempts_full u.next)
    go s e (claim, c) = (claim, cc, ground arith, ground arith)
