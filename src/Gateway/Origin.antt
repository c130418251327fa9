-- ===== src/Gateway/Origin.antt =====
-- crates/core/src/gateway.rs: which `Origin` a browser's request may carry.
use mcpgw.Base.{
  ℕ, ◌≡◌, refl, sym, ap, ◌∙◌, ◌↔◌, ◌⊎◌, Bool, true, false, not, ◌&&◌, ◌||◌, Option, none, some, [],
  ◌∷◌, ◌++◌, ◌==◌, ==_iff, all, is_empty, if◌then◌else◌, Bool-cases, inl, inr,
}
use mcpgw.Base.Bytes.{Text, codes, text_eq, text_eq_iff}
use mcpgw.Config.Name.{is_ascii_digit}
use mcpgw.Config.Name.Laws.{digit_parts, no_mark}
use mathlib.Core.List.{append-nil}

-- str::strip_prefix
unfoldable pub strip_prefix : Text → Text → Option Text
strip_prefix [] text = some text
strip_prefix (p ∷ prefix) [] = none
strip_prefix (p ∷ prefix) (c ∷ text) =
    let rest = strip_prefix prefix text in if p == c then rest else none

abbrev last_split : ℕ → Bool → Text → Option (Text × Text) → Option (Text × Text)
last_split c here text (some (before, after)) = some (c ∷ before, after)
last_split c true text none = some ([], text)
last_split c false text none = none

-- str::rsplit_once of one character
unfoldable pub rsplit_once : ℕ → Text → Option (Text × Text)
rsplit_once mark [] = none
rsplit_once mark (c ∷ text) = last_split c (c == mark) text (rsplit_once mark text)

abbrev pub is_port : Text → Bool
is_port port = not (is_empty port) && all is_ascii_digit port

abbrev host_part : Text → Option (Text × Text) → Text
host_part rest none = rest
host_part rest (some (host, port)) = if is_port port then host else rest

abbrev pub is_local_host : Text → Bool
is_local_host host =
    text_eq host (codes "localhost")
    || text_eq host (codes "127.0.0.1")
    || text_eq host (codes "[::1]")

abbrev after_scheme : Option Text → Option Text → Option Text
after_scheme (some rest) secure = some rest
after_scheme none secure = secure

abbrev local_rest : Option Text → Bool
local_rest none = false
local_rest (some rest) = is_local_host (host_part rest (rsplit_once b':' rest))

unfoldable pub is_local_origin : Text → Bool
unfolding strip_prefix rsplit_once text_eq is_ascii_digit
is_local_origin origin =
    local_rest (
      after_scheme (strip_prefix (codes "http://") origin) (strip_prefix (codes "https://") origin))

-- guard_origin: a request without the header passes.
unfoldable pub guard_origin : Option Text → Bool
unfolding is_local_origin
guard_origin none = true
guard_origin (some origin) = is_local_origin origin

strip_prefix-append : (p t : Text) → strip_prefix p (p ++ t) ≡ some t
unfolding strip_prefix
strip_prefix-append [] t = refl
strip_prefix-append (c ∷ p) t = rw ((==_iff c c).1 refl) (strip_prefix-append p t)

strip_prefix_sound : (p t r : Text) → strip_prefix p t ≡ some r → t ≡ p ++ r
unfolding strip_prefix
strip_prefix_sound [] t r h = cc
strip_prefix_sound (c ∷ p) [] r h = cc
strip_prefix_sound (c ∷ p) (d ∷ t) r h = elim (Bool-cases (c == d)) [
  | inl e ↦ joined ((==_iff c d).0 e) (strip_prefix_sound p t r (rw e at h))
  | inr e ↦ absurd (clash (rw e at h))
]
  where
    joined : c ≡ d → t ≡ p ++ r → (d ∷ t) ≡ c ∷ p ++ r
    joined e q = cc

    clash : ¬ (◌≡◌ {A = Option Text} none (some r))
    clash q = cc

rsplit_once_sound :
    (mark : ℕ) (t a b : Text) → rsplit_once mark t ≡ some (a, b) → t ≡ a ++ (mark ∷ b)
unfolding rsplit_once
rsplit_once_sound mark [] a b h = cc
rsplit_once_sound mark (c ∷ t) a b h =
    by (c == mark) refl (rsplit_once mark t) (λ x y e. rsplit_once_sound mark t x y e) h
  where
    by :
        (same : Bool)
        → (c == mark) ≡ same
        → (o : Option (Text × Text)) → ((x y : Text) → o ≡ some (x, y) → t ≡ x ++ (mark ∷ y))
        → last_split c same t o ≡ some (a, b)
        → (c ∷ t) ≡ a ++ (mark ∷ b)
    by same e (some (x, y)) ih q =
        let tail = ih x y refl in
        let first : (c ∷ x) ≡ a = cc in
        let second : y ≡ b = cc in rw (← first, ← second) (ap (λ l. c ∷ l) tail)
    by true e none ih q =
        let first : [] ≡ a = cc in
        let second : t ≡ b = cc in rw (← first, ← second) (ap (λ x. x ∷ t) ((==_iff c mark).0 e))
    by false e none ih q = absurd (clash q)
      where
        clash : ¬ (◌≡◌ {A = Option (Text × Text)} none (some (a, b)))
        clash r = cc

rsplit_once_digits :
    (mark : ℕ) (b : Text)
    → is_ascii_digit mark ≡ false
    → all is_ascii_digit b ≡ true
    → rsplit_once mark b ≡ none
unfolding rsplit_once
rsplit_once_digits mark [] m h = refl
rsplit_once_digits mark (c ∷ b) m h =
    let (d, ds) = digit_parts c b h in
    rw (no_mark c mark m d) (rw (rsplit_once_digits mark b m ds) refl)

rsplit_once_last :
    (mark : ℕ) (a b : Text)
    → rsplit_once mark b ≡ none
    → rsplit_once mark (a ++ (mark ∷ b)) ≡ some (a, b)
unfolding rsplit_once
rsplit_once_last mark [] b h = rw (h, (==_iff mark mark).1 refl) refl
rsplit_once_last mark (c ∷ a) b h = rw (rsplit_once_last mark a b h) refl

-- A loopback host by name or address, and nothing or a port behind it.
abbrev pub IsHost : Text → Type 0
IsHost host = (host ≡ codes "localhost") ⊎ ((host ≡ codes "127.0.0.1") ⊎ (host ≡ codes "[::1]"))

abbrev pub IsPortSuffix : Text → Type 0
IsPortSuffix suffix =
    (suffix ≡ []) ⊎ ((port : Text) × (suffix ≡ b':' ∷ port) × (is_port port ≡ true))

abbrev pub IsLocal : Text → Type 0
IsLocal rest =
    (host : Text) × (suffix : Text) × IsHost host × IsPortSuffix suffix × (rest ≡ host ++ suffix)

abbrev pub IsLocalOrigin : Text → Type 0
IsLocalOrigin origin =
    (rest : Text) × IsLocal rest
    × ((origin ≡ codes "http://" ++ rest) ⊎ (origin ≡ codes "https://" ++ rest))

is_local_host_sound : (host : Text) → is_local_host host ≡ true → IsHost host
is_local_host_sound host h = elim (Bool-cases (text_eq host (codes "localhost"))) [
  | inl t ↦ inl ((text_eq_iff host (codes "localhost")).0 t)
  | inr f ↦ inr (elim (Bool-cases (text_eq host (codes "127.0.0.1"))) [
    | inl t ↦ inl ((text_eq_iff host (codes "127.0.0.1")).0 t)
    | inr g ↦ inr ((text_eq_iff host (codes "[::1]")).0 (rw (f, g) at h))
  ])
]

is_local_host_complete : (host : Text) → IsHost host → is_local_host host ≡ true
unfolding text_eq
is_local_host_complete host (inl e) = ap is_local_host e
is_local_host_complete host (inr (inl e)) = ap is_local_host e
is_local_host_complete host (inr (inr e)) = ap is_local_host e

host_sound : (rest : Text) → local_rest (some rest) ≡ true → IsLocal rest
host_sound rest h = by (rsplit_once b':' rest) (λ x y e. rsplit_once_sound b':' rest x y e) h
  where
    whole : is_local_host rest ≡ true → IsLocal rest
    whole q = (rest, [], is_local_host_sound rest q, inl refl, sym (append-nil rest))

    by :
        (o : Option (Text × Text))
        → ((x y : Text) → o ≡ some (x, y) → rest ≡ x ++ (b':' ∷ y))
        → is_local_host (host_part rest o) ≡ true
        → IsLocal rest
    by none split q = whole q
    by (some (host, port)) split q = ported (is_port port) refl q
      where
        ported :
            (b : Bool)
            → is_port port ≡ b
            → is_local_host (if b then host else rest) ≡ true
            → IsLocal rest
        ported true e r = (
          host,
          b':' ∷ port,
          is_local_host_sound host r,
          inr (port, refl, e),
          split host port refl,
        )
        ported false e r = whole r

colon : is_ascii_digit b':' ≡ false
unfolding is_ascii_digit
colon = refl

host_complete : (rest : Text) → IsLocal rest → local_rest (some rest) ≡ true
unfolding rsplit_once text_eq is_ascii_digit
host_complete rest (host, suffix, l, inl e, q) =
    ap (λ r. local_rest (some r)) (q ∙ (ap (λ s. host ++ s) e ∙ append-nil host)) ∙ bare l
  where
    bare : IsHost host → local_rest (some host) ≡ true
    bare (inl h) = ap (λ r. local_rest (some r)) h
    bare (inr (inl h)) = ap (λ r. local_rest (some r)) h
    bare (inr (inr h)) = ap (λ r. local_rest (some r)) h
host_complete rest (host, suffix, l, inr (port, e, p), q) =
    ap (λ r. local_rest (some r)) (q ∙ ap (λ s. host ++ s) e)
    ∙ (ap (λ o. is_local_host (host_part (host ++ (b':' ∷ port)) o))
          (rsplit_once_last b':' host port
            (rsplit_once_digits b':' port colon (digits_of (is_empty port) p)))
        ∙ (ap (λ b. is_local_host (if b then host else host ++ (b':' ∷ port))) p
            ∙ is_local_host_complete host l))
  where
    digits_of :
        (b : Bool) → (not b && all is_ascii_digit port) ≡ true → all is_ascii_digit port ≡ true
    digits_of false h = h
    digits_of true h = cc

-- A browser's request passes the origin guard exactly where its `Origin` is `http://` or `https://`
-- with `localhost`, `127.0.0.1` or `[::1]`, alone or with a colon and a port of digits: a hostile name
-- that begins or ends like one of these does not pass.
pub guard_origin_iff : (origin : Text) → (guard_origin (some origin) ≡ true) ↔ IsLocalOrigin origin
unfolding guard_origin is_local_origin strip_prefix
guard_origin_iff origin = (
  λ h.
      by (strip_prefix (codes "http://") origin) refl (strip_prefix (codes "https://") origin) refl
        h,
  λ (rest, l, s). elim s [
    | inl e ↦
        ap
          (λ o.
            local_rest
              (after_scheme (strip_prefix (codes "http://") o) (strip_prefix (codes "https://") o)))
          e
        ∙ host_complete rest l
    | inr e ↦
        ap
          (λ o.
            local_rest
              (after_scheme (strip_prefix (codes "http://") o) (strip_prefix (codes "https://") o)))
          e
        ∙ host_complete rest l
  ],
)
  where
    by :
        (a : Option Text)
        → strip_prefix (codes "http://") origin ≡ a
        → (b : Option Text) → strip_prefix (codes "https://") origin ≡ b
        → local_rest (after_scheme a b) ≡ true
        → IsLocalOrigin origin
    by (some rest) e b f h =
        (rest, host_sound rest h, inl (strip_prefix_sound (codes "http://") origin rest e))
    by none e (some rest) f h =
        (rest, host_sound rest h, inr (strip_prefix_sound (codes "https://") origin rest f))
    by none e none f h = cc
