-- ===== src/Import/Slug/Laws.antt =====
-- What `slugify` makes is a name that `validate_name` accepts.
use mcpgw.Base.{
  ℕ, zero, suc, ◌≡◌, ◌≤◌, ◌<◌, refl, ap, Bool, true, false, not, ◌&&◌, [], ◌∷◌, ◌++◌, ◌==◌, all,
  is_empty, length, if◌then◌else◌, ok, arith, Bool-cases, inl, inr,
}
use mcpgw.Base.Bytes.{Text, contains, starts_with}
use mcpgw.Config.Name.{name_byte, separator, validate_name}
use mcpgw.Import.Slug.{
  to_ascii_lowercase, is_kept, slug_byte, slug_bytes, collapse_once, collapse, or_imported, slugify,
}

-- A kept byte and the dash are bytes of a name.
name_byte-is_kept : (c : ℕ) → is_kept c ≡ true → name_byte c ≡ true
unfolding name_byte
name_byte-is_kept c h = ground arith

all-append :
    (s t : Text) → all name_byte s ≡ true → all name_byte t ≡ true → all name_byte (s ++ t) ≡ true
all-append [] t hs ht = ht
all-append (c ∷ s) t hs ht = elim (Bool-cases (name_byte c)) [
  | inl m ↦ rw m (all-append s t (rw m at hs) ht)
  | inr m ↦ bad (rw m at hs)
]
  where
    bad : false ≡ true → all name_byte (c ∷ s ++ t) ≡ true
    bad x = cc

name_byte_dash : name_byte b'-' ≡ true
unfolding name_byte
name_byte_dash = refl

slug_bytes-all :
    (name out : Text) (pending : Bool)
    → all name_byte out ≡ true
    → all name_byte (slug_bytes name out pending) ≡ true
unfolding slug_bytes
slug_bytes-all [] out pending h = h
slug_bytes-all (c ∷ name) out pending h =
    next (λ next_out b. slug_bytes-all name next_out b) (is_kept (to_ascii_lowercase c)) refl
  where
    dashed : (b : Bool) → all name_byte (if b then out ++ b'-' ∷ [] else out) ≡ true
    dashed true = all-append out (b'-' ∷ []) h (ap (λ x. x && true) name_byte_dash)
    dashed false = h

    next :
        ((t : Text) (b : Bool)
          → all name_byte t ≡ true
          → all name_byte (slug_bytes name t b) ≡ true)
        → (b : Bool) → is_kept (to_ascii_lowercase c) ≡ b
        → all name_byte (
            slug_bytes name
              (slug_byte b (to_ascii_lowercase c) out pending).0
              (slug_byte b (to_ascii_lowercase c) out pending).1)
          ≡ true
    next ih true k = ih _ false (
        all-append _ (to_ascii_lowercase c ∷ []) (dashed (pending && not (is_empty out)))
          (ap (λ x. x && true) (name_byte-is_kept (to_ascii_lowercase c) k)))
    next ih false k = ih out true h

-- Replacing `__` shortens a text that holds it, and keeps the bytes.
collapse_once_le : (s : Text) → length (collapse_once s) ≤ length s
unfolding collapse_once
collapse_once_le [] = omega arith
collapse_once_le (a ∷ []) = omega arith
collapse_once_le (a ∷ b ∷ s) = ground (arith, collapse_once_le s, collapse_once_le (b ∷ s))

collapse_once_lt : (s : Text) → contains separator s ≡ true → length (collapse_once s) < length s
unfolding collapse_once contains starts_with
collapse_once_lt [] h = cc
collapse_once_lt (a ∷ []) h = ground arith
collapse_once_lt (a ∷ b ∷ s) h = ground (arith, collapse_once_le s, collapse_once_lt (b ∷ s))

all_parts :
    (c : ℕ) (s : Text)
    → all name_byte (c ∷ s) ≡ true
    → (name_byte c ≡ true) × (all name_byte s ≡ true)
all_parts c s h = elim (Bool-cases (name_byte c)) [
  | inl m ↦ (m, rw m at h)
  | inr m ↦ bad (rw m at h)
]
  where
    bad : false ≡ true → (name_byte c ≡ true) × (all name_byte s ≡ true)
    bad x = cc

name_byte_underscore : name_byte b'_' ≡ true
unfolding name_byte
name_byte_underscore = refl

collapse_once-all : (s : Text) → all name_byte s ≡ true → all name_byte (collapse_once s) ≡ true
unfolding collapse_once
collapse_once-all [] h = refl
collapse_once-all (a ∷ []) h = h
collapse_once-all (a ∷ b ∷ s) h =
    let (ha, hb) = all_parts a (b ∷ s) h in
    both (a == b'_' && b == b'_') ha (collapse_once-all s (all_parts b s hb).1)
      (collapse_once-all (b ∷ s) hb)
  where
    both :
        (t : Bool)
        → name_byte a ≡ true
        → all name_byte (collapse_once s) ≡ true
        → all name_byte (collapse_once (b ∷ s)) ≡ true
        → all name_byte (if t then b'_' ∷ collapse_once s else a ∷ collapse_once (b ∷ s)) ≡ true
    both true ha p q = rw name_byte_underscore p
    both false ha p q = rw ha q

-- The loop ends with a text that holds no `__`, given as many turns as the text is long.
pub collapse_free :
    (fuel : ℕ) (out : Text) → length out ≤ fuel → contains separator (collapse fuel out) ≡ false
unfolding collapse contains starts_with
collapse_free zero [] h = refl
collapse_free zero (c ∷ out) h = absurd (too_long h)
  where
    too_long : ¬ (length (c ∷ out) ≤ 0)
    too_long l = omega (arith, l)
collapse_free (suc fuel) out h = elim (Bool-cases (contains separator out)) [
  | inl t ↦ rw t (collapse_free fuel (collapse_once out) (shorter (collapse_once_lt out t)))
  | inr f ↦ rw f f
]
  where
    shorter : length (collapse_once out) < length out → length (collapse_once out) ≤ fuel
    shorter l = omega (arith, l, h)

collapse-all :
    (fuel : ℕ) (out : Text) → all name_byte out ≡ true → all name_byte (collapse fuel out) ≡ true
unfolding collapse
collapse-all zero out h = h
collapse-all (suc fuel) out h = elim (Bool-cases (contains separator out)) [
  | inl t ↦ rw t (collapse-all fuel (collapse_once out) (collapse_once-all out h))
  | inr f ↦ rw f h
]

valid :
    (t : Text)
    → all name_byte t ≡ true
    → contains separator t ≡ false
    → validate_name (or_imported t) ≡ ok tt
unfolding validate_name name_byte contains
valid [] a c = refl
valid (x ∷ t) a c = rw (a, c) refl

-- Whatever the client calls an entry, the name made from it is one that the config may hold.
pub validate_name-slugify : (name : Text) → validate_name (slugify name) ≡ ok tt
unfolding slugify
validate_name-slugify name =
    valid (collapse (length out) out)
      (collapse-all (length out) out (slug_bytes-all name [] false refl))
      (collapse_free (length out) out (omega arith))
  where
    out : Text
    out = slug_bytes name [] false
