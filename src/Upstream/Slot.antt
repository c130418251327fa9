-- ===== src/Upstream/Slot.antt =====
-- crates/core/src/upstream.rs: one `Upstream` and the state machine of its `Slot`. Connections,
-- liveness flags and channels are numbers that stand for the identity of the shared object.
-- Each function is one section that runs under the slot's lock, or one store to a flag.
pub mod Step
pub mod Ladder
use mcpgw.Base.{
  ℕ, suc, ◌+◌, Bool, true, false, not, ◌&&◌, ◌||◌, Option, none, some, ◌==◌, if◌then◌else◌,
}
use mcpgw.Base.Bytes.{Text}
use mcpgw.Config.Server.{Server}
use mcpgw.Upstream.Budget.{Budget}

pub data Slot : Type 0 where
  idle : Slot
  connecting : (claim : ℕ) → Slot
  ready : (service : ℕ) → Slot
  failed : (message : Text) → Slot
  auth_required : (metadata : Option Text) → Slot

pub record Upstream : Type 0 where
  pub server : Server
  pub retired : Bool
  pub slot : Slot
  -- The liveness flag of each claim, and the identity of the next flag.
  pub live : ℕ → Bool
  pub next : ℕ
  pub info : Option ℕ
  pub changes : ℕ
  pub budget : Budget

-- upstream_publishing
unfoldable pub upstream_publishing : Server → ℕ → Upstream
upstream_publishing server changes = record {
  server = server;
  retired = false;
  slot = idle;
  live = λ claim. false;
  next = 0;
  info = none;
  changes = changes;
  budget = none;
}

-- Slot::connecting
unfoldable pub is_connecting : (ℕ → Bool) → Slot → Bool
is_connecting live (connecting claim) = live claim
is_connecting live _ = false

pub data UpstreamStatus : Type 0 where
  idle connecting ready : UpstreamStatus
  failed : Text → UpstreamStatus
  auth_required : Option Text → UpstreamStatus

abbrev slot_status : (ℕ → Bool) → (ℕ → Bool) → Slot → UpstreamStatus
slot_status dead live (Slot.ready service) =
    if not (dead service) then UpstreamStatus.ready else UpstreamStatus.idle
slot_status dead live (Slot.connecting claim) =
    if live claim then UpstreamStatus.connecting else UpstreamStatus.idle
slot_status dead live Slot.idle = UpstreamStatus.idle
slot_status dead live (Slot.failed message) = UpstreamStatus.failed message
slot_status dead live (Slot.auth_required metadata) = UpstreamStatus.auth_required metadata

-- UpstreamManager::status, for the entry found
unfoldable pub status : (ℕ → Bool) → Upstream → UpstreamStatus
status dead u = slot_status dead u.live u.slot

abbrev pub attempts_full : ℕ
attempts_full = 3

-- `Claim`, with `gone` for the early return of a retired upstream.
pub data Claim : Type 0 where
  gone wait : Claim
  live : (service : ℕ) → Claim
  own : (attempts claim : ℕ) → Claim

abbrev pub set_flag : (ℕ → Bool) → ℕ → Bool → ℕ → Bool
set_flag flags claim value other = if claim == other then value else flags other

-- A new flag, set, which the slot now names.
abbrev take_over : ℕ → Upstream → Claim × Upstream
take_over attempts u = (
  own attempts u.next,
  record u { slot = connecting u.next; live = set_flag u.live u.next true; next = suc u.next },
)

abbrev look_slot : (ℕ → Bool) → Upstream → Slot → Claim × Upstream
look_slot dead u (Slot.ready service) =
    if not (dead service) then (Claim.live service, u) else take_over attempts_full u
look_slot dead u (Slot.connecting claim) =
    if u.live claim then (wait, u) else take_over attempts_full u
look_slot dead u Slot.idle = take_over attempts_full u
look_slot dead u (Slot.failed message) = take_over 1 u
look_slot dead u (Slot.auth_required metadata) = take_over 1 u

-- UpstreamManager::ready: one look at the slot
unfoldable pub look : (ℕ → Bool) → Upstream → Claim × Upstream
look dead u = if u.retired then (gone, u) else look_slot dead u u.slot

-- How a run of the connect ladder ends.
pub data Outcome : Type 0 where
  connected : (service : ℕ) → Outcome
  unauthorized : (metadata : Option Text) → Outcome
  broken : (message : Text) → Outcome

pub data Answer : Type 0 where
  serve : (service : ℕ) → Answer
  shut_down : Answer
  refused : Outcome → Answer

abbrev owns : ℕ → Slot → Bool
owns claim (Slot.connecting owner) = owner == claim
owns claim _ = false

unfoldable pub abandoned : ℕ → Upstream → Bool
abandoned claim u = u.retired || not (owns claim u.slot)

-- Option::or with the new snapshot first: a handshake that reported nothing keeps the old one.
abbrev remember : Option ℕ → Option ℕ → Option ℕ
remember none old = old
remember (some info) old = some info

module _ (peer_info : ℕ → Option ℕ) where
  abbrev publish : Bool → Outcome → Upstream → Answer × Upstream
  publish true (connected service) u = (shut_down, u)
  publish false (connected service) u = (
    serve service,
    record u { info = remember (peer_info service) u.info; slot = Slot.ready service },
  )
  publish true (unauthorized metadata) u = (refused (unauthorized metadata), u)
  publish false (unauthorized metadata) u =
      (refused (unauthorized metadata), record u { slot = Slot.auth_required metadata })
  publish true (broken message) u = (refused (broken message), u)
  publish false (broken message) u =
      (refused (broken message), record u { slot = Slot.failed message })

  -- UpstreamManager::ready: the outcome of a ladder is published, and its flag cleared
  unfoldable pub settle : ℕ → Outcome → Upstream → Answer × Upstream
  unfolding abandoned
  settle claim outcome u =
      let (answer, u') = publish (abandoned claim u) outcome u in
      (answer, record u' { live = set_flag u'.live claim false })

-- ConnectGuard::drop
unfoldable pub drop_guard : ℕ → Upstream → Upstream
drop_guard claim u = record u { live = set_flag u.live claim false }

-- Upstream::retire
unfoldable pub retire : Upstream → Upstream
retire u = record u { retired = true; slot = Slot.idle }

abbrev holds : ℕ → Slot → Bool
holds stale (Slot.ready service) = service == stale
holds stale _ = false

-- UpstreamManager::demote, for the entry found
unfoldable pub demote : ℕ → Text → Upstream → Upstream
demote stale message u = if holds stale u.slot then record u { slot = Slot.failed message } else u

-- UpstreamManager::release, for the entry found
unfoldable pub release : ℕ → Upstream → Upstream
release stale u = if holds stale u.slot then record u { slot = Slot.idle } else u

-- UpstreamManager::shutdown, for one entry
unfoldable pub shutdown : Upstream → Upstream
shutdown u = record u { slot = Slot.idle }
