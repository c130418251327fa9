-- ===== src/Config/Name/Laws.antt =====
-- Which names `validate_name` accepts.
use mcpgw.Base.{
  ◌==◌, ℕ, ◌≡◌, refl, ap, ◌∙◌, ◌↔◌, ◌≢◌, ◌⊎◌, inl, inr, true, false, [], ◌∷◌, all, is_empty, ◌≤◌,
  ok, All, Bool-cases, arith,
}
use mcpgw.Base.Bytes.{Text, contains, Contains, contains_sound, contains_complete}
use mcpgw.Config.Name.{is_ascii_digit, name_byte, separator, validate_name}

-- A lowercase letter, a digit, `-` or `_`.
abbrev pub IsNameByte : ℕ → Type 0
IsNameByte c = (b'a' ≤ c) × (c ≤ b'z') ⊎ ((b'0' ≤ c) × (c ≤ b'9') ⊎ ((c ≡ b'-') ⊎ (c ≡ b'_')))

pub record IsName (name : Text) : Type 0 where
  pub nonempty : name ≢ []
  pub bytes : All IsNameByte name
  pub unreserved : ¬ Contains separator name

name_byte_sound : (c : ℕ) → name_byte c ≡ true → IsNameByte c
unfolding name_byte
name_byte_sound c h = ground arith

name_byte_complete : (c : ℕ) → IsNameByte c → name_byte c ≡ true
unfolding name_byte
name_byte_complete c h = ground arith

all_sound : (s : Text) → all name_byte s ≡ true → All IsNameByte s
all_sound [] h = tt
all_sound (c ∷ s) h = elim (Bool-cases (name_byte c)) [
  | inl m ↦ (name_byte_sound c m, all_sound s (rw m at h))
  | inr m ↦ bad (rw m at h)
]
  where
    bad : false ≡ true → All IsNameByte (c ∷ s)
    bad x = cc

pub all_complete : (s : Text) → All IsNameByte s → all name_byte s ≡ true
all_complete [] h = refl
all_complete (c ∷ s) h = rw (name_byte_complete c h.0) (all_complete s h.1)

module _ (name : Text) where
  checks :
      validate_name name ≡ ok tt
      → (is_empty name ≡ false) × (all name_byte name ≡ true) × (contains separator name ≡ false)
  unfolding validate_name
  checks h = ground arith

  passes :
      is_empty name ≡ false
      → all name_byte name ≡ true
      → contains separator name ≡ false
      → validate_name name ≡ ok tt
  unfolding validate_name
  passes a b c = ground arith

  nonempty_sound : (s : Text) → is_empty s ≡ false → s ≢ []
  nonempty_sound [] h = λ e. cc
  nonempty_sound (c ∷ s) h = λ e. cc

  nonempty_complete : (s : Text) → s ≢ [] → is_empty s ≡ false
  nonempty_complete [] h = absurd (h refl)
  nonempty_complete (c ∷ s) h = refl

  not_contains : ¬ Contains separator name → contains separator name ≡ false
  not_contains n = elim (Bool-cases (contains separator name)) [
    | inl m ↦ absurd (n (contains_sound separator name m))
    | inr m ↦ m
  ]

  is_free : contains separator name ≡ false → ¬ Contains separator name
  is_free h (before, after, e) =
      clash (ap (contains separator) e ∙ contains_complete separator before after)
    where
      clash : contains separator name ≡ true → ⊥
      clash x = cc

-- `validate_name` accepts a name exactly when it is not empty, holds only lowercase letters, digits,
-- `-` and `_`, and nowhere holds the separator `__`.
pub validate_name_iff : (name : Text) → (validate_name name ≡ ok tt) ↔ IsName name
validate_name_iff name = (
  λ h.
      let (a, b, c) = checks name h in
      record {
        nonempty = nonempty_sound name name a;
        bytes = all_sound name b;
        unreserved = is_free name c;
      },
  λ n.
      passes name (nonempty_complete name name n.nonempty) (all_complete name n.bytes)
        (not_contains name n.unreserved),
)

-- Texts of digits.
pub digit_parts :
    (c : ℕ) (a : Text)
    → all is_ascii_digit (c ∷ a) ≡ true
    → (is_ascii_digit c ≡ true) × (all is_ascii_digit a ≡ true)
digit_parts c a h = elim (Bool-cases (is_ascii_digit c)) [
  | inl m ↦ (m, rw m at h)
  | inr m ↦ bad (rw m at h)
]
  where
    bad : false ≡ true → (is_ascii_digit c ≡ true) × (all is_ascii_digit a ≡ true)
    bad x = cc

pub no_mark :
    (c mark : ℕ) → is_ascii_digit mark ≡ false → is_ascii_digit c ≡ true → (c == mark) ≡ false
unfolding is_ascii_digit
no_mark c mark m h = ground (arith, m, h)
