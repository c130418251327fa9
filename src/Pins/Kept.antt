-- ===== src/Pins/Kept.antt =====
-- PinStore::write and PinStore::observe, file by file: the pins themselves are never touched, nor the
-- file of another server.
use mcpgw.Base.{
  if◌then◌else◌, ℕ, ◌≡◌, refl, sym, ap, ◌∙◌, inl, inr, false, Option, none, some, List, [], ltb,
  Bool-cases, Result, ok, err,
}
use mcpgw.Base.Bytes.{Text, text_eq, text_eq_iff}
use mcpgw.Pins.{
  ToolFingerprint, DriftEvent, compare, write, unchanged, carry_over, Error, Disk, PinStore, path,
  read, observed, observe, against, PinFile, version, report,
}

-- A file that is there, without its drift.
abbrev pub without_drift : Disk → Disk
without_drift (err e) = err e
without_drift (ok none) = ok none
without_drift (ok (some file)) = ok (some (record file { drift = [] }))

-- A pin file that is there names the server whose file it is.
abbrev pub IsOwn : Text → Option PinFile → Type 0
IsOwn server none = Unit {0}
IsOwn server (some file) = file.server ≡ server

-- A store of which at most one file differs from another store.
at_most :
    (name at : Text) (after store : PinStore)
    → (text_eq name at ≡ false → after at ≡ store at)
    → after at ≡ (if text_eq name at then after name else store at)
at_most name at after store h = elim (Bool-cases (text_eq name at)) [
  | inl t ↦ rw t (ap after (sym ((text_eq_iff name at).0 t)))
  | inr n ↦ rw n (h n)
]

pub report-write :
    (events : List DriftEvent) (o : Result Error (Unit {0}) × PinStore) → (report events o).1 ≡ o.1
report-write events (ok u, store) = refl
report-write events (err e, store) = refl

module _ (server : Text) (tools : List ToolFingerprint) where
  pub observe-read :
      (fault : Option Error) (now : ℕ) (store : PinStore) (d : Disk)
      → read server store ≡ d
      → observe fault server tools now store ≡ observed fault server tools now store d
  unfolding observe
  observe-read fault now store d h = ap (observed fault server tools now store) h

  -- A write of the server's own pins is read back, and leaves every other file.
  pub write-read :
      (file : PinFile) (store : PinStore)
      → file.server ≡ server
      → read server (write none file store).1 ≡ ok (some file)
  unfolding read write
  write-read file store h =
      ap (λ b. if b then ok (some file) else store (path server))
        ((text_eq_iff (path file.server) (path server)).1 (ap path h))

  write-other :
      (fault : Option Error) (file : PinFile) (store : PinStore) (name : Text)
      → file.server ≡ server
      → text_eq (path server) name ≡ false
      → (write fault file store).1 name ≡ store name
  unfolding write
  write-other none file store name h n =
      ap (λ p. if text_eq p name then ok (some file) else store name) (ap path h)
      ∙ ap (λ b. if b then ok (some file) else store name) n
  write-other (some e) file store name h n = refl

  against-other :
      (fault : Option Error) (existing : PinFile) (events : List DriftEvent) (store : PinStore)
      (name : Text)
      → existing.server ≡ server
      → text_eq (path server) name ≡ false
      → (against fault existing events store).1 name ≡ store name
  against-other fault existing events store name h n =
      elim (Bool-cases (unchanged events existing.drift)) [
        | inl s ↦ rw s refl
        | inr s ↦ rw s (
            ap (λ after. after name) (report-write carried (write fault wrote store))
            ∙ write-other fault wrote store name h n)
      ]
    where
      carried : List DriftEvent
      carried = carry_over existing.drift events

      wrote : PinFile
      wrote = record existing { drift = carried }

  against-without_drift :
      (fault : Option Error) (existing : PinFile) (events : List DriftEvent) (store : PinStore)
      → read server store ≡ ok (some existing)
      → existing.server ≡ server
      → without_drift (read server (against fault existing events store).1)
        ≡ without_drift (ok (some existing))
  unfolding write
  against-without_drift fault existing events store r h =
      elim (Bool-cases (unchanged events existing.drift)) [
        | inl s ↦ rw s (ap without_drift r)
        | inr s ↦ rw s (
            ap (λ after. without_drift (read server after))
              (report-write carried (write fault wrote store))
            ∙ written fault)
      ]
    where
      carried : List DriftEvent
      carried = carry_over existing.drift events

      wrote : PinFile
      wrote = record existing { drift = carried }

      written :
          (o : Option Error)
          → without_drift (read server (write o wrote store).1) ≡ without_drift (ok (some existing))
      written none = ap without_drift (write-read wrote store h)
      written (some e) = ap without_drift r

  observed-other :
      (fault : Option Error) (now : ℕ) (existing : PinFile) (store : PinStore) (name : Text)
      → existing.server ≡ server
      → text_eq (path server) name ≡ false
      → (observed fault server tools now store (ok (some existing))).1 name ≡ store name
  unfolding observed
  observed-other fault now existing store name h n =
      elim (Bool-cases (ltb version existing.version)) [
        | inl s ↦ rw s refl
        | inr s ↦
            rw s (against-other fault existing (compare existing.tools tools now) store name h n)
      ]

  observed-without_drift :
      (fault : Option Error) (now : ℕ) (existing : PinFile) (store : PinStore)
      → read server store ≡ ok (some existing)
      → existing.server ≡ server
      → without_drift (read server (observed fault server tools now store (ok (some existing))).1)
        ≡ without_drift (ok (some existing))
  unfolding observed
  observed-without_drift fault now existing store r h =
      elim (Bool-cases (ltb version existing.version)) [
        | inl s ↦ rw s (ap without_drift r)
        | inr s ↦
            rw s (against-without_drift fault existing (compare existing.tools tools now) store r h)
      ]

  -- Whatever the server lists, and whether or not the write succeeds, where the server's pin file is
  -- there and names that server: observing leaves in it the version, the server, the time of pinning
  -- and every pinned tool, so replaces at most its drift, and leaves every other file of the store.
  pub observe-without_drift :
      (fault : Option Error) (now : ℕ) (existing : PinFile) (store : PinStore) (name : Text)
      → read server store ≡ ok (some existing)
      → existing.server ≡ server
      → (without_drift (read server (observe fault server tools now store).1)
          ≡ without_drift (read server store))
        × ((observe fault server tools now store).1 name ≡ (
            if text_eq (path server) name
            then read server (observe fault server tools now store).1
            else store name))
  unfolding read
  observe-without_drift fault now existing store name r h = (
    ap (λ o. without_drift (read server o.1)) seen
        ∙ (observed-without_drift fault now existing store r h ∙ ap without_drift (sym r)),
    at_most (path server) name (observe fault server tools now store).1 store
        (λ n. ap (λ o. o.1 name) seen ∙ observed-other fault now existing store name h n),
  )
    where
      seen :
          observe fault server tools now store
          ≡ observed fault server tools now store (ok (some existing))
      seen = observe-read fault now store (ok (some existing)) r
