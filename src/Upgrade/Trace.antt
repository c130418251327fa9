-- ===== src/Upgrade/Trace.antt =====
-- The watcher over a sequence of polls.
use mcpgw.Base.{
  ℕ, suc, ◌≤◌, ◌≡◌, refl, sym, ◌∙◌, Bool, true, false, not, ◌&&◌, ◌||◌, none, some, List, [], ◌∷◌,
  if◌then◌else◌, Result, ok, err, arith,
}
use mcpgw.Base.Bytes.{Text}
use mcpgw.Upgrade.{
  Reading, Stamp, same_stamp, Watcher, Outcome, unchanged, vanished, replaced, UpgradeRestart,
  restart_of, refused, confirmed, verified, tick,
}
use mcpgw.Upgrade.Tick.{tick-replaced}

-- One poll: the time, what the stat says, and what a verification would say.
pub record Poll : Type 0 where
  pub now : ℕ
  pub found : Stamp
  pub verify : Result Text (Unit {0})

abbrev pub poll : Poll → Watcher → Outcome × Watcher
poll p w = tick p.now p.found p.verify w

-- What the polls of a sequence conclude, one after the other.
unfoldable pub polls : List Poll → Watcher → List Outcome
unfolding tick
polls [] w = []
polls (p ∷ ps) w = (poll p w).0 ∷ polls ps (poll p w).1

abbrev pub is_throttled : Outcome → Bool
is_throttled Outcome.throttled = true
is_throttled _ = false

abbrev pub throttles : List Outcome → ℕ
throttles [] = 0
throttles (o ∷ os) = if is_throttled o then suc (throttles os) else throttles os

abbrev after : Outcome × Watcher → Watcher
after x = x.1

abbrev answer : Outcome × Watcher → Outcome
answer x = x.0

-- After a poll the pending change is what that poll saw, or there is none.
candidate_of :
    (p : Poll) (w : Watcher) (r : Reading) → (poll p w).1.candidate ≡ some r → p.found ≡ some r
unfolding tick confirmed
candidate_of p w r h = cases p.found h
  where
    pending :
        (a b c : Bool) (f : Reading) (o x y : Outcome)
        → (after (
            if a
            then (o, record w { gone = false; candidate = none })
            else if b
            then (o, record w { gone = false; candidate = some f })
            else if c
            then (x, record w { gone = false; candidate = none; seen = some f; throttled = true })
            else (y, record w { gone = false; candidate = none; seen = some f }))).candidate
          ≡ some r
        → some f ≡ some r
    pending true b c f o x y h = cc
    pending false true c f o x y h = h
    pending false false true f o x y h = cc
    pending false false false f o x y h = cc

    cases : (s : Stamp) → (tick p.now s p.verify w).1.candidate ≡ some r → s ≡ some r
    cases none h = cc
    cases (some f) h =
        pending (same_stamp (some f) w.seen) (not (same_stamp w.candidate (some f)))
          (refused w.guard (restart_of f p.now) p.now) f unchanged _ _ h

-- A restart takes two polls in a row that see the same file: whatever the watcher knew before, the
-- poll before the one that ends the gateway saw the same stamp.
pub polls-twice :
    (p q : Poll) (w : Watcher) (r : UpgradeRestart)
    → (poll q (poll p w).1).0 ≡ replaced r
    → p.found ≡ q.found
polls-twice p q w r h =
    let (f, e, n, k, _, _, _) = (tick-replaced q.now q.found q.verify (poll p w).1 r).0 h in
    candidate_of p w f k ∙ sym e

-- A throttled change is said once, and remembered.
abbrev Said : Bool → Outcome × Watcher → Type 0
Said before x =
    (is_throttled x.0 ≡ (x.1.throttled && not before)) × ((before || x.1.throttled) ≡ x.1.throttled)

tick-Said :
    (now : ℕ) (found : Stamp) (verify : Result Text (Unit {0})) (w : Watcher)
    → Said w.throttled (tick now found verify w)
unfolding tick confirmed
tick-Said now none verify w = missing w.gone w.throttled
  where
    missing :
        (g b : Bool)
        → (is_throttled (if g then unchanged else vanished) ≡ (b && not b)) × ((b || b) ≡ b)
    missing true true = (refl, refl)
    missing true false = (refl, refl)
    missing false true = (refl, refl)
    missing false false = (refl, refl)
tick-Said now (some f) verify w =
    found_file (same_stamp (some f) w.seen) (not (same_stamp w.candidate (some f)))
      (refused w.guard (restart_of f now) now) w.throttled verify
  where
    found_file :
        (a b c d : Bool) (v : Result Text (Unit {0}))
        → Said d (
            if a
            then (unchanged, record w { gone = false; candidate = none; throttled = d })
            else if b
            then (unchanged, record w { gone = false; candidate = some f; throttled = d })
            else if c
            then (
              if d then unchanged else Outcome.throttled,
              record w { gone = false; candidate = none; seen = some f; throttled = true },
            )
            else (
              verified (restart_of f now) v,
              record w { gone = false; candidate = none; seen = some f; throttled = d },
            ))
    found_file true b c true v = (refl, refl)
    found_file true b c false v = (refl, refl)
    found_file false true c true v = (refl, refl)
    found_file false true c false v = (refl, refl)
    found_file false false true true v = (refl, refl)
    found_file false false true false v = (refl, refl)
    found_file false false false true (ok u) = (refl, refl)
    found_file false false false false (ok u) = (refl, refl)
    found_file false false false true (err e) = (refl, refl)
    found_file false false false false (err e) = (refl, refl)

left : Bool → ℕ
left true = 0
left false = 1

throttles-left : (ps : List Poll) (w : Watcher) → throttles (polls ps w) ≤ left w.throttled
unfolding polls left
throttles-left [] w = cases w.throttled
  where
    cases : (b : Bool) → 0 ≤ left b
    cases true = omega arith
    cases false = omega arith
throttles-left (p ∷ ps) w =
    let (s, m) = tick-Said p.now p.found p.verify w in
    count w.throttled (poll p w).1.throttled (is_throttled (poll p w).0)
      (throttles (polls ps (poll p w).1)) s m (throttles-left ps (poll p w).1)
  where
    count :
        (b c t : Bool) (n : ℕ)
        → t ≡ (c && not b)
        → (b || c) ≡ c
        → n ≤ left c
        → (if t then suc n else n) ≤ left b
    count true true true n s m h = cc
    count true true false n s m h = h
    count true false t n s m h = cc
    count false true true n s m h = omega arith
    count false true false n s m h = cc
    count false false true n s m h = cc
    count false false false n s m h = h

-- Whatever the polls see, and however many there are, a refused restart is reported at most once.
pub polls-throttles : (ps : List Poll) (w : Watcher) → throttles (polls ps w) ≤ 1
unfolding left
polls-throttles ps w = bound w.throttled (throttles-left ps w)
  where
    bound : (b : Bool) → throttles (polls ps w) ≤ left b → throttles (polls ps w) ≤ 1
    bound true h = omega arith
    bound false h = h
