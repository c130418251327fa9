-- ===== src/Pins/Observe.antt =====
-- PinStore::observe over time: what was observed once is no news.
use mathlib.Core.Path.{subst}
use mcpgw.Base.{
  ℕ, ◌≡◌, refl, sym, ap, ◌∙◌, inl, inr, true, false, Option, none, some, List, [], ltb, Bool-cases,
  ok,
}
use mcpgw.Base.Bytes.{Text}
use mcpgw.Base.Map.{Map}
use mcpgw.Pins.{
  ToolPin, ToolFingerprint, DriftEvent, compare, pin_file, pin, write, unchanged, carry_over, Error,
  PinStore, read, observed, observe, PinFile, version,
}
use mcpgw.Pins.Compare.{compare-stamp}
use mcpgw.Pins.Carried.{unchanged-stamp, unchanged-carry_over, compare-pinned}
use mcpgw.Pins.Kept.{IsOwn, observe-read, write-read, report-write}

module _ (server : Text) (tools : List ToolFingerprint) where
  observed-unchanged :
      (fault : Option Error) (at : ℕ) (file : PinFile) (store : PinStore)
      → unchanged (compare file.tools tools at) file.drift ≡ true
      → observed fault server tools at store (ok (some file)) ≡ (ok [], store)
  unfolding observed
  observed-unchanged fault at file store h = elim (Bool-cases (ltb version file.version)) [
    | inl n ↦ rw n refl
    | inr n ↦ rw (n, h)
  ]

  unchanged-later :
      (now later : ℕ) (pinned : Map ToolPin) (drift : List DriftEvent)
      → unchanged (compare pinned tools now) drift ≡ true
      → unchanged (compare pinned tools later) drift ≡ true
  unchanged-later now later pinned drift h =
      ap (λ l. unchanged l drift) (compare-stamp pinned tools now later)
      ∙ (unchanged-stamp later (compare pinned tools now) drift ∙ h)

  observed-newer :
      (fault : Option Error) (at : ℕ) (file : PinFile) (store : PinStore)
      → ltb version file.version ≡ true
      → observed fault server tools at store (ok (some file)) ≡ (ok [], store)
  unfolding observed
  observed-newer fault at file store n = rw n refl

  observed-wrote :
      (now : ℕ) (existing : PinFile) (store : PinStore)
      → existing.server ≡ server
      → ltb version existing.version ≡ false
      → unchanged (compare existing.tools tools now) existing.drift ≡ false
      → read server (observed none server tools now store (ok (some existing))).1
        ≡ ok (
            some (record existing {
              drift = carry_over existing.drift (compare existing.tools tools now);
            }))
  unfolding observed
  observed-wrote now existing store o n h =
      rw (n, h)
        (ap (λ s. read server s) (report-write carried (write none wrote store))
          ∙ write-read server tools wrote store o)
    where
      carried : List DriftEvent
      carried = carry_over existing.drift (compare existing.tools tools now)

      wrote : PinFile
      wrote = record existing { drift = carried }

  -- Nothing is news where the file that is then there says so.
  again_from :
      (fault : Option Error) (later : ℕ) (store : PinStore) (file : PinFile)
      → read server store ≡ ok (some file)
      → observed fault server tools later store (ok (some file)) ≡ (ok [], store)
      → observe fault server tools later store ≡ (ok [], store)
  again_from fault later store file r h =
      observe-read server tools fault later store (ok (some file)) r ∙ h

  module _ (fault : Option Error) (now later : ℕ) (store : PinStore) where
    abbrev Quiet : PinStore → Type 0
    Quiet after = observe fault server tools later after ≡ (ok [], after)

    observed_file-again :
        (existing : PinFile)
        → read server store ≡ ok (some existing)
        → existing.server ≡ server
        → Quiet (observed none server tools now store (ok (some existing))).1
    observed_file-again existing r o = elim (Bool-cases (ltb version existing.version)) [
      | inl n ↦
          subst (λ x. Quiet x.1) (sym (observed-newer none now existing store n))
            (again_from fault later store existing r (observed-newer fault later existing store n))
      | inr n ↦ elim (Bool-cases (unchanged (compare existing.tools tools now) existing.drift)) [
        | inl h ↦
            subst (λ x. Quiet x.1) (sym (observed-unchanged none now existing store h))
              (again_from fault later store existing r (
                observed-unchanged fault later existing store
                  (unchanged-later now later existing.tools existing.drift h)))
        | inr h ↦
            again_from fault later (observed none server tools now store (ok (some existing))).1
              (record existing { drift = carried }) (observed-wrote now existing store o n h)
              (observed-unchanged fault later (record existing { drift = carried })
                (observed none server tools now store (ok (some existing))).1
                (unchanged-later now later existing.tools carried
                  (unchanged-carry_over existing.drift (compare existing.tools tools now))))
      ]
    ]
      where
        carried : List DriftEvent
        carried = carry_over existing.drift (compare existing.tools tools now)

    observed-none-again : Quiet (observed none server tools now store (ok none)).1
    unfolding observed pin write
    observed-none-again =
        again_from fault later (write none (pin_file server tools now) store).1
          (pin_file server tools now)
          (write-read server tools (pin_file server tools now) store refl)
          (observed-unchanged fault later (pin_file server tools now)
            (write none (pin_file server tools now) store).1
            (ap (λ l. unchanged l []) (compare-pinned server tools now later)))

    observed-again :
        (before : Option PinFile)
        → read server store ≡ ok before
        → IsOwn server before
        → Quiet (observed none server tools now store (ok before)).1
    observed-again none r o = observed-none-again
    observed-again (some existing) r o = observed_file-again existing r o

  -- Where the server's pin file is absent, or is there and names that server, a list that was observed
  -- with a successful write is no news: observing the same list again, at any later time, reports
  -- nothing and leaves the whole store. So it is after a first sight, which pins, after drift, and
  -- when the file is of a newer version.
  pub observe-again :
      (fault : Option Error) (now later : ℕ) (store : PinStore) (before : Option PinFile)
      → read server store ≡ ok before
      → IsOwn server before
      → observe fault server tools later (observe none server tools now store).1
        ≡ (ok [], (observe none server tools now store).1)
  observe-again fault now later store before r o =
      subst (λ x. Quiet fault now later store x.1)
        (sym (observe-read server tools none now store (ok before) r))
        (observed-again fault now later store before r o)
