-- ===== src/Backup/Key.antt =====
-- A backup's key is read back from its name.
use mcpgw.Base.{
  ℕ, zero, suc, ◌≡◌, ◌≤◌, ◌<◌, refl, ap, ◌∙◌, Bool, true, false, ◌+◌, ◌-◌, ◌*◌, ◌/◌, ◌%◌, none,
  some, [], ◌∷◌, ◌++◌, ◌==◌, ltb, leb, all, is_empty, length, length-append, if◌then◌else◌, arith,
  Bool-cases, inl, inr,
}
use mcpgw.Base.Bytes.{Text}
use mcpgw.Config.Name.{is_ascii_digit}
use mcpgw.Config.Name.Laws.{digit_parts, no_mark}
use mcpgw.Import.Suffix.{decimal}
use mcpgw.Import.Suffix.Decimal.{spelled, spelled-digits}
use mcpgw.Backup.{
  seq_span, u64_max, zeros, padded, backup_name, split_at, digits, sequence, stamp_key, stamped,
  name_key, parse_key, key_of,
}

is_digit_of : (n : ℕ) → n < 10 → is_ascii_digit (b'0' + n) ≡ true
unfolding is_ascii_digit
is_digit_of n h = ground (arith, h)

digits-all :
    (fuel n : ℕ) (text : Text)
    → all is_ascii_digit text ≡ true
    → all is_ascii_digit (mcpgw.Import.Suffix.digits fuel n text) ≡ true
unfolding mcpgw.Import.Suffix.digits
digits-all zero n text h = h
digits-all (suc fuel) n text h = elim (Bool-cases (ltb n 10)) [
  | inl t ↦ rw t (rw (is_digit_of n (ground (arith, t))) h)
  | inr f ↦ rw f (
      digits-all fuel (n / 10) ((b'0' + n % 10) ∷ text) (rw (is_digit_of (n % 10) (omega arith)) h))
]

abbrev tens : ℕ → ℕ
tens zero = 1
tens (suc k) = 10 * tens k

length-digits :
    (fuel n k : ℕ) (text : Text)
    → n < 10 * tens k
    → length (mcpgw.Import.Suffix.digits fuel n text) ≤ suc k + length text
unfolding mcpgw.Import.Suffix.digits
length-digits zero n k text h = omega arith
length-digits (suc fuel) n k text h = elim (Bool-cases (ltb n 10)) [
  | inl t ↦ rw t (omega arith)
  | inr f ↦ rw f (
      more (λ j l. length-digits fuel (n / 10) j ((b'0' + n % 10) ∷ text) l) k h
        (ground (arith, f)))
]
  where
    more :
        ((j : ℕ)
          → n / 10 < 10 * tens j
          → length (mcpgw.Import.Suffix.digits fuel (n / 10) ((b'0' + n % 10) ∷ text))
            ≤ suc j + suc (length text))
        → (k : ℕ) → n < 10 * tens k
        → 10 ≤ n
        → length (mcpgw.Import.Suffix.digits fuel (n / 10) ((b'0' + n % 10) ∷ text))
          ≤ suc k + length text
    more ih zero l g = absurd (small l)
      where
        small : ¬ (n < 10)
        small q = omega (arith, q, g)
    more ih (suc k) l g = let shorter = ih k (omega (arith, l)) in omega (arith, shorter)

zeros-all :
    (n : ℕ) (text : Text)
    → all is_ascii_digit text ≡ true
    → all is_ascii_digit (zeros n ++ text) ≡ true
unfolding is_ascii_digit
zeros-all zero text h = h
zeros-all (suc n) text h = zeros-all n text h

length-zeros : (n : ℕ) → length (zeros n) ≡ n
length-zeros zero = refl
length-zeros (suc n) = ap suc (length-zeros n)

spelled-zeros : (n : ℕ) (text : Text) → spelled 0 (zeros n ++ text) ≡ spelled 0 text
unfolding spelled
spelled-zeros zero text = refl
spelled-zeros (suc n) text = spelled-zeros n text

split_at-first :
    (mark : ℕ) (a rest : Text)
    → is_ascii_digit mark ≡ false
    → all is_ascii_digit a ≡ true
    → split_at mark (a ++ mark ∷ rest) ≡ some (a, rest)
unfolding split_at
split_at-first mark [] rest m h = ground arith
split_at-first mark (c ∷ a) rest m h =
    let (d, ds) = digit_parts c a h in
    rw (no_mark c mark m d) (rw (split_at-first mark a rest m ds) refl)

split_at-none :
    (mark : ℕ) (a : Text)
    → is_ascii_digit mark ≡ false
    → all is_ascii_digit a ≡ true
    → split_at mark a ≡ none
unfolding split_at
split_at-none mark [] m h = refl
split_at-none mark (c ∷ a) m h =
    let (d, ds) = digit_parts c a h in rw (no_mark c mark m d) (rw (split_at-none mark a m ds) refl)

no_dash : is_ascii_digit b'-' ≡ false
unfolding is_ascii_digit
no_dash = refl

no_dot : is_ascii_digit b'.' ≡ false
unfolding is_ascii_digit
no_dot = refl

padded-all : (width n : ℕ) → all is_ascii_digit (padded width n) ≡ true
unfolding padded decimal
padded-all width n =
    zeros-all (width - length (decimal n)) (decimal n) (digits-all (suc n) n [] refl)

spelled-padded : (width n : ℕ) → spelled 0 (padded width n) ≡ n
unfolding padded decimal spelled
spelled-padded width n =
    spelled-zeros (width - length (decimal n)) (decimal n)
    ∙ spelled-digits (suc n) n [] (omega arith)

length-padded : (width n k : ℕ) → n < 10 * tens k → suc k ≤ width → length (padded width n) ≡ width
unfolding padded decimal
length-padded width n k h w =
    let short = length-digits (suc n) n k [] h in
    length-append (zeros (width - length (decimal n))) (decimal n)
    ∙ (ap (λ x. x + length (decimal n)) (length-zeros (width - length (decimal n)))
        ∙ filled (length (decimal n)) short)
  where
    filled : (d : ℕ) → d ≤ suc k + 0 → (width - d) + d ≡ width
    filled d s = omega (arith, s, w)

digits-grow :
    (fuel n : ℕ) (text : Text) → length text ≤ length (mcpgw.Import.Suffix.digits fuel n text)
unfolding mcpgw.Import.Suffix.digits
digits-grow zero n text = omega arith
digits-grow (suc fuel) n text = elim (Bool-cases (ltb n 10)) [
  | inl t ↦ rw t (omega arith)
  | inr f ↦ rw f (omega (arith, digits-grow fuel (n / 10) ((b'0' + n % 10) ∷ text)))
]

length-decimal_pos : (n : ℕ) → 1 ≤ length (decimal n)
unfolding decimal mcpgw.Import.Suffix.digits
length-decimal_pos n = elim (Bool-cases (ltb n 10)) [
  | inl t ↦ rw t (omega arith)
  | inr f ↦ rw f (digits-grow n (n / 10) ((b'0' + n % 10) ∷ []))
]

length-padded_pos : (width n : ℕ) → 1 ≤ length (padded width n)
unfolding padded
length-padded_pos width n =
    omega
      (arith, length-append (zeros (width - length (decimal n))) (decimal n), length-decimal_pos n)

-- Digits within the range of a u64 are read as the number they spell.
digits-padded : (width n : ℕ) → n ≤ u64_max → digits (padded width n) ≡ some n
unfolding digits
digits-padded width n h =
    rw (nonempty, padded-all width n, spelled-padded width n)
      (by (leb n u64_max) (ground (arith, h)))
  where
    nonempty : is_empty (padded width n) ≡ false
    nonempty = filled (padded width n) (length-padded_pos width n)
      where
        filled : (t : Text) → 1 ≤ length t → is_empty t ≡ false
        filled [] q = absurd (none_long q)
          where
            none_long : ¬ (1 ≤ 0)
            none_long r = omega (arith, r)
        filled (c ∷ t) q = refl

    by : (b : Bool) → b ≡ true → (if b then some n else none) ≡ some n
    by true e = refl
    by false e = cc

four_digits : (seq : ℕ) → seq < seq_span → (length (padded 4 seq) == 4) ≡ true
four_digits seq h = rw (length-padded 4 seq 3 (omega (arith, h)) (omega arith)) refl

-- Every key within the range of a u64 is read back from the name of its backup, whatever the name of
-- the file that was backed up.
pub parse_key-backup_name :
    (key : ℕ) (name : Text) → key ≤ u64_max → parse_key (backup_name key name) ≡ key
unfolding parse_key backup_name
parse_key-backup_name key name h =
    ap name_key (split_at-first b'-' (padded 13 millis) rest no_dash (padded-all 13 millis))
    ∙ (ap (stamp_key (padded 13 millis) rest)
          (split_at-none b'.' (padded 13 millis) no_dot (padded-all 13 millis))
        ∙ (ap (λ o. stamped o rest) (digits-padded 13 millis (omega (arith, h)))
            ∙ (ap (λ o. key_of millis (sequence o))
                  (split_at-first b'-' (padded 4 seq) name no_dash (padded-all 4 seq))
                ∙ (ap (key_of millis) numbered ∙ whole))))
  where
    millis : ℕ
    millis = key / seq_span

    seq : ℕ
    seq = key % seq_span

    rest : Text
    rest = padded 4 seq ++ (b'-' ∷ name)

    numbered : sequence (some (padded 4 seq, name)) ≡ seq
    numbered = rw (four_digits seq (omega arith), digits-padded 4 seq (omega (arith, h))) refl

    whole : key_of millis seq ≡ key
    whole = omega (arith, h)
