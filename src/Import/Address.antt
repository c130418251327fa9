-- ===== src/Import/Address.antt =====
-- crates/core/src/import.rs: when two definitions address the same server.
use mcpgw.Base.{
  ℕ, ◌≡◌, refl, ◌↔◌, Bool, true, false, ◌&&◌, ◌||◌, Option, none, some, List, [], ◌∷◌, ◌++◌, map,
  ◌==◌, if◌then◌else◌, zero, suc, decided,
}
use mathlib.Core.Logic.{ite}
use native.Mathlib.Decide.{ℕ_discrete}
use mcpgw.Base.Bytes.{Text, codes, text_eq, text_eq_iff, starts_with}
use mcpgw.Base.Map.{Map}
use mcpgw.Config.Rules.{strip_suffix}
use mcpgw.Config.Server.{Transport, stdio, http, Transport-discrete}
use mcpgw.Import.Slug.{to_ascii_lowercase}

abbrev drop : ℕ → Text → Text
drop zero text = text
drop (suc n) [] = []
drop (suc n) (c ∷ text) = drop n text

abbrev length_of : Text → ℕ
length_of [] = 0
length_of (c ∷ text) = suc (length_of text)

abbrev behind : ℕ → Option (Text × Text) → Option (Text × Text)
behind c none = none
behind c (some (before, after)) = some (c ∷ before, after)

-- str::split_once
unfoldable pub split_once : Text → Text → Option (Text × Text)
unfolding starts_with
split_once pattern [] = none
split_once pattern (c ∷ text) =
    let rest = behind c (split_once pattern text) in
    if starts_with pattern (c ∷ text) then some ([], drop (length_of pattern) (c ∷ text)) else rest

-- str::split_at, at the first byte of a kind or at the end
unfoldable pub split_before : (ℕ → Bool) → Text → Text × Text
split_before stop [] = ([], [])
split_before stop (c ∷ text) =
    let rest = split_before stop text in if stop c then ([], c ∷ text) else (c ∷ rest.0, rest.1)

abbrev lowercase : Text → Text
lowercase text = map to_ascii_lowercase text

abbrev lowered_host : Text → Option (Text × Text) → Text
lowered_host authority (some (userinfo, host)) = userinfo ++ b'@' ∷ lowercase host
lowered_host authority none = lowercase authority

abbrev or_whole : Text → Option Text → Text
or_whole path none = path
or_whole path (some stripped) = stripped

abbrev canonical_parts : Text → Option (Text × Text) → Text
canonical_parts url none = url
canonical_parts url (some (scheme, rest)) =
    let (authority, tail) = split_before (λ c. c == b'/' || c == b'?' || c == b'#') rest in
    let (path, query) = split_before (λ c. c == b'?' || c == b'#') tail in
    lowercase scheme
    ++ codes "://"
    ++ lowered_host authority (split_once (codes "@") authority)
    ++ or_whole path (strip_suffix b'/' path)
    ++ query

unfoldable pub canonical_url : Text → Text
unfolding to_ascii_lowercase split_once split_before strip_suffix
canonical_url url = canonical_parts url (split_once (codes "://") url)

unfoldable pub Texts-discrete : Discrete (List Text)
unfolding ℕ_discrete
Texts-discrete = hlevel ℕ_discrete

unfoldable pub Headers-discrete : Discrete (Map Text)
unfolding ℕ_discrete
Headers-discrete = hlevel ℕ_discrete

unfoldable pub same_transport : Transport → Transport → Bool
unfolding canonical_url text_eq Texts-discrete Headers-discrete Transport-discrete
same_transport (http a_url a_command a_headers a_auth) (http b_url b_command b_headers b_auth) =
    ite (Texts-discrete a_command b_command) true false
    && ite (Headers-discrete a_headers b_headers) true false
    && text_eq (canonical_url a_url) (canonical_url b_url)
same_transport a b = ite (Transport-discrete a b) true false

-- What a transport addresses: its login is not part of that, nor the spelling of the URL.
abbrev pub addressed : Transport → Transport
addressed (stdio command args env) = stdio command args env
addressed (http url command headers auth) = http (canonical_url url) command headers none

both_iff :
    {P Q : Type 0} (a b : Bool) → (a ≡ true) ↔ P → (b ≡ true) ↔ Q → ((a && b) ≡ true) ↔ (P × Q)
both_iff true true p q = (λ h. (p.0 refl, q.0 refl), λ h. refl)
both_iff true false p q = (λ h. cc, λ (x, y). q.1 y)
both_iff false b p q = (λ h. cc, λ (x, y). p.1 x)

-- Two transports count as the same server exactly when they address the same: the same process, or
-- the same URL up to the case of scheme and host and one trailing slash, with the same headers and
-- headers command.
pub same_transport_iff :
    (a b : Transport) → (same_transport a b ≡ true) ↔ (addressed a ≡ addressed b)
unfolding same_transport
same_transport_iff (stdio command args env) (stdio b_command b_args b_env) = decided _
same_transport_iff (stdio command args env) (http url helper headers auth) = (λ h. cc, λ e. cc)
same_transport_iff (http url helper headers auth) (stdio command args env) = (λ h. cc, λ e. cc)
same_transport_iff (http url helper headers auth) (http b_url b_helper b_headers b_auth) =
    let parts =
      both_iff _ _
        (both_iff _ _ (decided (Texts-discrete helper b_helper))
          (decided (Headers-discrete headers b_headers)))
        (text_eq_iff (canonical_url url) (canonical_url b_url)) in
    (λ h. joined (parts.0 h), λ e. parts.1 (apart e))
  where
    joined :
        ((helper ≡ b_helper) × (headers ≡ b_headers)) × (canonical_url url ≡ canonical_url b_url)
        → http (canonical_url url) helper headers none
          ≡ http (canonical_url b_url) b_helper b_headers none
    joined ((p, q), r) = cc

    apart :
        http (canonical_url url) helper headers none
          ≡ http (canonical_url b_url) b_helper b_headers none
        → ((helper ≡ b_helper) × (headers ≡ b_headers)) × (canonical_url url ≡ canonical_url b_url)
    apart e = ((cc, cc), cc)
