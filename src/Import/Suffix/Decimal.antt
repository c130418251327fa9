-- ===== src/Import/Suffix/Decimal.antt =====
-- Different numbers are printed differently.
use mcpgw.Base.{
  ℕ, zero, suc, ◌≡◌, ◌≤◌, ◌<◌, sym, ap, ◌∙◌, ◌≢◌, false, ◌+◌, ◌-◌, ◌*◌, ◌/◌, ◌%◌, [], ◌∷◌, ◌++◌,
  ltb, length, length-append, arith, Bool-cases, inl, inr,
}
use mcpgw.Base.Bytes.{Text}
use mcpgw.Import.Suffix.{digits, decimal, suffixed}

-- The number that digits spell after `n`.
unfoldable pub spelled : ℕ → Text → ℕ
spelled n [] = n
spelled n (d ∷ text) = spelled (n * 10 + (d - b'0')) text

pub spelled-digits :
    (fuel n : ℕ) (text : Text) → n < fuel → spelled 0 (digits fuel n text) ≡ spelled n text
unfolding digits spelled
spelled-digits zero n text h = absurd (none_less h)
  where
    none_less : ¬ (n < 0)
    none_less l = omega (arith, l)
spelled-digits (suc fuel) n text h = elim (Bool-cases (ltb n 10)) [
  | inl t ↦ rw t (ap (λ x. spelled x text) one_digit)
  | inr f ↦ rw f (
      spelled-digits fuel (n / 10) ((b'0' + n % 10) ∷ text) (smaller f)
      ∙ ap (λ x. spelled x text) whole)
]
  where
    one_digit : 0 * 10 + ((b'0' + n) - b'0') ≡ n
    one_digit = omega arith

    whole : n / 10 * 10 + ((b'0' + n % 10) - b'0') ≡ n
    whole = omega arith

    smaller : ltb n 10 ≡ false → n / 10 < fuel
    smaller f = let big : 10 ≤ n = ground (arith, f) in omega (arith, h, big)

pub decimal_inj : (m n : ℕ) → decimal m ≡ decimal n → m ≡ n
unfolding decimal spelled
decimal_inj m n e =
    sym (spelled-digits (suc m) m [] (omega arith))
    ∙ (ap (spelled 0) e ∙ spelled-digits (suc n) n [] (omega arith))

append_inj : (base s t : Text) → base ++ s ≡ base ++ t → s ≡ t
append_inj [] s t e = e
append_inj (c ∷ base) s t e = append_inj base s t (tail e)
  where
    tail : ◌≡◌ {A = Text} (c ∷ base ++ s) (c ∷ base ++ t) → base ++ s ≡ base ++ t
    tail q = cc

pub suffixed_inj : (base : Text) (m n : ℕ) → suffixed base m ≡ suffixed base n → m ≡ n
unfolding suffixed
suffixed_inj base m n e = decimal_inj m n (tail (append_inj base _ _ e))
  where
    tail : ◌≡◌ {A = Text} (b'-' ∷ decimal m) (b'-' ∷ decimal n) → decimal m ≡ decimal n
    tail q = cc

pub suffixed_longer : (base : Text) (n : ℕ) → base ≢ suffixed base n
unfolding suffixed
suffixed_longer base n e = clash (ap length e ∙ length-append base (b'-' ∷ decimal n))
  where
    clash : ¬ (length base ≡ length base + suc (length (decimal n)))
    clash q = omega (arith, q)
