-- ===== src/Tests/Upgrade.antt =====
-- The watcher at concrete polls.
use mcpgw.Base.{ℕ, ◌≤◌, ◌≡◌, refl, ◌↔◌, none, some, [], ◌∷◌, ok}
use mcpgw.Upgrade.{
  since_epoch, Reading, Watcher, watcher, unchanged, throttled, replaced, restart_of, tick,
}
use mcpgw.Upgrade.Tick.{tick-replaced, Ends}
use mcpgw.Upgrade.Trace.{Poll, poll, polls, throttles, polls-twice, polls-throttles}

abbrev old : Reading
old = (some (since_epoch 5000000000), 10)

abbrev new : Reading
new = (some (since_epoch 9000000000), 12)

abbrev sees : Reading → ℕ → Poll
sees reading now = record { now = now; found = some reading; verify = ok tt }

abbrev start : Watcher
start = watcher (some old) none

abbrev looped : Watcher
looped = watcher (some old) (some (restart_of new 90))

polls_run :
    polls (sees new 100 ∷ sees new 102 ∷ []) start ≡ unchanged ∷ replaced (restart_of new 102) ∷ []
unfolding polls watcher
polls_run = refl

-- A restart for that binary ten seconds ago: refused once, and after that nothing to say.
looped_run :
    polls (sees new 100 ∷ sees new 102 ∷ sees new 104 ∷ []) looped
    ≡ unchanged ∷ throttled ∷ unchanged ∷ []
unfolding polls watcher restart_of
looped_run = refl

tick-replaced_example :
    ((tick 102 (some new) (ok tt) (poll (sees new 100) start).1).0 ≡ replaced (restart_of new 102))
    ↔ Ends 102 (some new) (ok tt) (poll (sees new 100) start).1 (restart_of new 102)
tick-replaced_example =
    tick-replaced 102 (some new) (ok tt) (poll (sees new 100) start).1 (restart_of new 102)

polls-twice_example : (sees new 100).found ≡ (sees new 102).found
unfolding polls watcher tick
polls-twice_example = polls-twice (sees new 100) (sees new 102) start (restart_of new 102) refl

polls-throttles_example :
    throttles (polls (sees new 100 ∷ sees new 102 ∷ sees new 104 ∷ []) looped) ≤ 1
polls-throttles_example = polls-throttles (sees new 100 ∷ sees new 102 ∷ sees new 104 ∷ []) looped
