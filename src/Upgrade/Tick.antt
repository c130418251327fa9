-- ===== src/Upgrade/Tick.antt =====
-- Which poll ends the gateway, and which polls it takes.
use mcpgw.Base.{
  decided, ℕ, ◌≡◌, refl, sym, ap, ◌∙◌, ◌↔◌, ◌≢◌, inl, inr, Bool, true, false, none, some,
  if◌then◌else◌, Result, ok, err, Bool-cases,
}
use mcpgw.Base.Bytes.{Text}
use mcpgw.Upgrade.{
  Reading, Stamp, Stamp-discrete, same_stamp, Watcher, Outcome, unchanged, vanished, replaced,
  UpgradeRestart, restart_of, refused, confirmed, tick, verified,
}

pub same_stamp_iff : (a b : Stamp) → (same_stamp a b ≡ true) ↔ (a ≡ b)
unfolding same_stamp
same_stamp_iff a b = decided (Stamp-discrete a b)

-- What a poll must see, and find out, to end the gateway with a restart.
abbrev pub Ends : ℕ → Stamp → Result Text (Unit {0}) → Watcher → UpgradeRestart → Type 0
Ends now found verify w r =
    (reading : Reading) × (found ≡ some reading)
    × (w.seen ≢ some reading)
    × (w.candidate ≡ some reading)
    × (refused w.guard (restart_of reading now) now ≡ false)
    × (verify ≡ ok tt)
    × (r ≡ restart_of reading now)

abbrev answer : Outcome × Watcher → Outcome
answer x = x.0

ended_iff :
    (b said : Bool) (verify : Result Text (Unit {0})) (x r : UpgradeRestart) (s t : Watcher)
    → (answer
          (if b then (if said then unchanged else Outcome.throttled, s) else (verified x verify, t))
        ≡ replaced r)
      ↔ ((b ≡ false) × (verify ≡ ok tt) × (r ≡ x))
ended_iff true true verify x r s t = (λ h. cc, λ h. cc)
ended_iff true false verify x r s t = (λ h. cc, λ h. cc)
ended_iff false said (ok u) x r s t = (λ h. (refl, refl, restarted h), λ h. ap replaced (sym h.2))
  where
    restarted : replaced x ≡ replaced r → r ≡ x
    restarted h = cc
ended_iff false said (err e) x r s t = (λ h. cc, λ h. cc)

confirmed-replaced :
    (now : ℕ) (reading : Reading) (verify : Result Text (Unit {0})) (w : Watcher)
    (r : UpgradeRestart)
    → ((confirmed now reading verify w).0 ≡ replaced r) ↔ (
        (refused w.guard (restart_of reading now) now ≡ false)
        × (verify ≡ ok tt)
        × (r ≡ restart_of reading now))
unfolding confirmed
confirmed-replaced now reading verify w r =
    ended_iff (refused w.guard (restart_of reading now) now) w.throttled verify
      (restart_of reading now) r _ _

unchanged_not : (r : UpgradeRestart) → ¬ (unchanged ≡ replaced r)
unchanged_not r h = cc

-- A poll ends the gateway exactly when it finds a file whose stamp is not the one the watcher is
-- content with, is the pending change, was not restarted for within the cooldown and runs; the
-- restart names that file and this moment.
pub tick-replaced :
    (now : ℕ) (found : Stamp) (verify : Result Text (Unit {0})) (w : Watcher) (r : UpgradeRestart)
    → ((tick now found verify w).0 ≡ replaced r) ↔ Ends now found verify w r
unfolding tick
tick-replaced now none verify w r = (λ h. missing w.gone h, λ (reading, h, _, _, _, _, _). cc)
  where
    missing :
        (b : Bool) → (if b then unchanged else vanished) ≡ replaced r → Ends now none verify w r
    missing true h = cc
    missing false h = cc
tick-replaced now (some reading) verify w r = elim (Bool-cases (same_stamp (some reading) w.seen)) [
  | inl s ↦ rw s (
    λ h. elim (unchanged_not r h) [ ],
    λ (f, e, n, _, _, _, _). elim (n (sym ((same_stamp_iff (some reading) w.seen).0 s) ∙ e)) [ ],
  )
  | inr s ↦ elim (Bool-cases (same_stamp w.candidate (some reading))) [
    | inr c ↦
        rw (s, c)
          (
            λ h. elim (unchanged_not r h) [ ],
            λ (f, e, n, k, _, _, _). elim (differ (k ∙ sym e) c) [ ],
          )
    | inl c ↦
        rw (s, c)
          (
            λ h.
                let (b, v, q) = (confirmed-replaced now reading verify w r).0 h in
                (
                  reading,
                  refl,
                  λ e. elim (fresh e s) [ ],
                  (same_stamp_iff w.candidate (some reading)).0 c,
                  b,
                  v,
                  q,
                ),
            λ (f, e, n, k, b, v, q). (confirmed-replaced now reading verify w r).1 (here f e b v q),
          )
  ]
]
  where
    differ : w.candidate ≡ some reading → ¬ (same_stamp w.candidate (some reading) ≡ false)
    differ k c = let t = (same_stamp_iff w.candidate (some reading)).1 k in cc

    fresh : w.seen ≡ some reading → ¬ (same_stamp (some reading) w.seen ≡ false)
    fresh e s = let t = (same_stamp_iff (some reading) w.seen).1 (sym e) in cc

    here :
        (f : Reading)
        → ◌≡◌ {A = Stamp} (some reading) (some f)
        → refused w.guard (restart_of f now) now ≡ false
        → verify ≡ ok tt
        → r ≡ restart_of f now
        → (refused w.guard (restart_of reading now) now ≡ false)
          × (verify ≡ ok tt)
          × (r ≡ restart_of reading now)
    here f e b v q =
        let same : reading ≡ f = cc in
        (
          ap (λ x. refused w.guard (restart_of x now) now) same ∙ b,
          v,
          q ∙ ap (λ x. restart_of x now) (sym same),
        )
