-- ===== src/Backup/Dir/Order.antt =====
-- The listing of a directory ends with its newest file.
use mcpgw.Base.{
  ℕ, zero, suc, ◌≡◌, ◌≤◌, ◌<◌, refl, ap, true, false, some, [], ◌∷◌, ◌++◌, All, All-append, arith,
  Bool-cases, inl, inr,
}
use mcpgw.Base.Bytes.{Text}
use mcpgw.Backup.{parse_key}
use mcpgw.Backup.Dir.{Files, precedes, place, list, last_of, key_on_disk, reversed, skip}

not_before :
    (other file : Text × Text)
    → precedes other.0 file.0 ≡ false
    → parse_key file.0 ≤ parse_key other.0
unfolding precedes
not_before other file h = ground (arith, h)

before :
    (other file : Text × Text)
    → precedes other.0 file.0 ≡ true
    → parse_key other.0 ≤ parse_key file.0
unfolding precedes
before other file h = ground (arith, h)

newer_last :
    (other file : Text × Text)
    → parse_key other.0 < parse_key file.0
    → precedes other.0 file.0 ≡ true
unfolding precedes
newer_last other file h = ground (arith, h)

-- Every file's key is at most, or below, a number.
abbrev pub UpTo : ℕ → Files → Type 0
UpTo k files = All (λ f. parse_key f.0 ≤ k) files

abbrev pub Older : ℕ → Files → Type 0
Older k files = All (λ f. parse_key f.0 < k) files

abbrev pub IsOrdered : Files → Type 0
IsOrdered [] = Unit
IsOrdered (f ∷ files) = All (λ g. parse_key f.0 ≤ parse_key g.0) files × IsOrdered files

module _ (P : Text × Text → Type 0) where
  pub place-All : (x : Text × Text) (files : Files) → P x → All P files → All P (place x files)
  unfolding place
  place-All x [] p a = (p, tt)
  place-All x (y ∷ files) p (q, a) = elim (Bool-cases (precedes y.0 x.0)) [
    | inl t ↦ rw t (q, place-All x files p a)
    | inr f ↦ rw f (p, (q, a))
  ]

  All-place : (x : Text × Text) (files : Files) → All P (place x files) → P x × All P files
  unfolding place
  All-place x [] (p, u) = (p, tt)
  All-place x (y ∷ files) a = elim (Bool-cases (precedes y.0 x.0)) [
    | inl t ↦ there (λ b. All-place x files b) (rw t at a)
    | inr f ↦ here (rw f at a)
  ]
    where
      here : All P (x ∷ y ∷ files) → P x × All P (y ∷ files)
      here (p, b) = (p, b)

      there :
          (All P (place x files) → P x × All P files)
          → All P (y ∷ place x files)
          → P x × All P (y ∷ files)
      there ih (q, b) = let (p, r) = ih b in (p, (q, r))

  pub list-All : (files : Files) → All P files → All P (list files)
  unfolding list
  list-All [] a = tt
  list-All (f ∷ files) (p, a) = place-All f (list files) p (list-All files a)

  All-list : (files : Files) → All P (list files) → All P files
  unfolding list
  All-list [] a = tt
  All-list (f ∷ files) a = let (p, b) = All-place f (list files) a in (p, All-list files b)

  pub reversed-All : (files : Files) → All P files → All P (reversed files)
  reversed-All [] a = tt
  reversed-All (f ∷ files) (p, a) =
      All-append P (reversed files) (f ∷ []) (reversed-All files a) (p, tt)

  pub skip-All : (n : ℕ) (files : Files) → All P files → All P (skip n files)
  skip-All zero files a = a
  skip-All (suc n) [] a = tt
  skip-All (suc n) (f ∷ files) (p, a) = skip-All n files a

UpTo-trans :
    (j k : ℕ) (files : Files)
    → j ≤ k
    → All (λ g. k ≤ parse_key g.0) files
    → All (λ g. j ≤ parse_key g.0) files
UpTo-trans j k [] h a = tt
UpTo-trans j k (f ∷ files) h (p, a) = (omega (arith, h, p), UpTo-trans j k files h a)

place-IsOrdered : (x : Text × Text) (files : Files) → IsOrdered files → IsOrdered (place x files)
unfolding place
place-IsOrdered x [] o = (tt, tt)
place-IsOrdered x (y ∷ files) (b, o) = elim (Bool-cases (precedes y.0 x.0)) [
  | inl t ↦ rw t (
    place-All (λ g. parse_key y.0 ≤ parse_key g.0) x files (before y x t) b,
    place-IsOrdered x files o,
  )
  | inr f ↦
      let first = not_before y x f in
      rw f ((first, UpTo-trans (parse_key x.0) (parse_key y.0) files first b), (b, o))
]

list-IsOrdered : (files : Files) → IsOrdered (list files)
unfolding list
list-IsOrdered [] = tt
list-IsOrdered (f ∷ files) = place-IsOrdered f (list files) (list-IsOrdered files)

ordered-UpTo : (files : Files) → IsOrdered files → UpTo (key_on_disk (last_of files)) files
ordered-UpTo [] o = tt
ordered-UpTo (f ∷ []) o = (omega arith, tt)
ordered-UpTo (f ∷ g ∷ files) ((p, b), o) =
    let rest = ordered-UpTo (g ∷ files) o in (omega (arith, p, rest.0), rest)

-- No file of a directory has a key above that of the last one listed.
pub list-UpTo : (files : Files) → UpTo (key_on_disk (last_of (list files))) files
list-UpTo files =
    All-list (λ f. parse_key f.0 ≤ key_on_disk (last_of (list files))) files
      (ordered-UpTo (list files) (list-IsOrdered files))

-- A file that is newer than all the others is listed after them.
pub place_newest :
    (x : Text × Text) (files : Files)
    → Older (parse_key x.0) files
    → place x files ≡ files ++ x ∷ []
unfolding place
place_newest x [] a = refl
place_newest x (y ∷ files) (p, a) = rw (newer_last y x p) (ap (λ l. y ∷ l) (place_newest x files a))

pub last_of-snoc : (x : Text × Text) (files : Files) → last_of (files ++ x ∷ []) ≡ some x
last_of-snoc x [] = refl
last_of-snoc x (y ∷ []) = refl
last_of-snoc x (y ∷ z ∷ files) = last_of-snoc x (z ∷ files)

pub reversed-snoc :
    (x : Text × Text) (files : Files) → reversed (files ++ x ∷ []) ≡ x ∷ reversed files
reversed-snoc x [] = refl
reversed-snoc x (y ∷ files) = ap (λ l. l ++ y ∷ []) (reversed-snoc x files)
