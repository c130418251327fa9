-- ===== src/Upgrade.antt =====
-- crates/core/src/upgrade.rs: the watcher that notices the binary under the gateway being replaced.
-- A stamp is a modification time, or none where the file system reports none, and a size.
pub mod Tick
pub mod Trace
use native.Mathlib.Decide.{ℕ_discrete}
use mathlib.Core.Logic.{ite}
use mcpgw.Base.{
  ℕ, Bool, true, false, ◌&&◌, not, Option, none, some, ◌-◌, ◌/◌, ltb, if◌then◌else◌, Result, ok,
  err,
}
use mcpgw.Base.Bytes.{Text}

-- A point in time, in nanoseconds after the epoch or before it.
pub data SystemTime : Type 0 where
  since_epoch before_epoch : ℕ → SystemTime

-- What a stat of the path gives, for a file that is there.
abbrev pub Reading : Type 0
Reading = Option SystemTime × ℕ

abbrev pub Stamp : Type 0
Stamp = Option Reading

unfoldable pub Stamp-discrete : Discrete Stamp
unfolding ℕ_discrete
Stamp-discrete = hlevel ℕ_discrete

unfoldable pub same_stamp : Stamp → Stamp → Bool
unfolding Stamp-discrete
same_stamp a b = ite (Stamp-discrete a b) true false

pub record ExeStamp : Type 0 where
  pub mtime : Option ℕ
  pub len : ℕ

unfoldable pub ExeStamp-discrete : Discrete ExeStamp
unfolding ℕ_discrete
ExeStamp-discrete = hlevel ℕ_discrete

unfoldable pub same_exe : ExeStamp → ExeStamp → Bool
unfolding ExeStamp-discrete
same_exe a b = ite (ExeStamp-discrete a b) true false

pub record UpgradeRestart : Type 0 where
  pub stamp : ExeStamp
  pub at : ℕ

pub data Outcome : Type 0 where
  unchanged vanished throttled : Outcome
  unrunnable : Text → Outcome
  replaced : UpgradeRestart → Outcome

pub record Watcher : Type 0 where
  pub seen : Stamp
  pub candidate : Stamp
  pub gone : Bool
  pub throttled : Bool
  pub guard : Option UpgradeRestart

-- RESTART_COOLDOWN, in seconds
abbrev pub restart_cooldown : ℕ
restart_cooldown = 600

-- Watcher::new and Watcher::with_guard
unfoldable pub watcher : Stamp → Option UpgradeRestart → Watcher
watcher seen guard = record {
  seen = seen;
  candidate = none;
  gone = false;
  throttled = false;
  guard = guard;
}

abbrev pub nanos : ℕ
nanos = 1000000000

unfoldable pub unix_seconds : SystemTime → Option ℕ
unix_seconds (since_epoch time) = some (time / nanos)
unix_seconds (before_epoch time) = none

abbrev seconds_of : Option SystemTime → Option ℕ
seconds_of none = none
seconds_of (some time) = unix_seconds time

unfoldable pub restart_of : Reading → ℕ → UpgradeRestart
unfolding unix_seconds
restart_of (mtime, len) now = record {
  stamp = record { mtime = seconds_of mtime; len = len };
  at = now;
}

unfoldable pub refused : Option UpgradeRestart → UpgradeRestart → ℕ → Bool
unfolding same_exe
refused none restart now = false
refused (some previous) restart now =
    same_exe previous.stamp restart.stamp && ltb (now - previous.at) restart_cooldown

abbrev pub verified : UpgradeRestart → Result Text (Unit {0}) → Outcome
verified restart (ok u) = replaced restart
verified restart (err reason) = unrunnable reason

-- A change that was seen twice.
unfoldable pub confirmed : ℕ → Reading → Result Text (Unit {0}) → Watcher → Outcome × Watcher
unfolding restart_of refused
confirmed now found verify w =
    let settled = record w { gone = false; candidate = none; seen = some found } in
    if refused w.guard (restart_of found now) now
    then (if w.throttled then unchanged else Outcome.throttled, record settled { throttled = true })
    else (verified (restart_of found now) verify, settled)

-- Watcher::tick, from what the stat and the verification of this poll would say.
unfoldable pub tick : ℕ → Stamp → Result Text (Unit {0}) → Watcher → Outcome × Watcher
unfolding same_stamp confirmed
tick now none verify w =
    (if w.gone then unchanged else vanished, record w { candidate = none; gone = true })
tick now (some found) verify w =
    if same_stamp (some found) w.seen
    then (unchanged, record w { gone = false; candidate = none })
    else if not (same_stamp w.candidate (some found))
    then (unchanged, record w { gone = false; candidate = some found })
    else confirmed now found verify w
