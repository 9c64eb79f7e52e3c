-- ===== src/Auth/Tokens.antt =====
-- src/auth/token.ts, `AuthTokens`: the set of tokens that are accepted. `sha256` is node:crypto's; a
-- token, a digest and a label are texts, and times are milliseconds.
pub mod Verify
pub mod Rotation
mod Tests
use mathlib.Core.List.{reverse}
use ccu_mcp.Prelude.{
  ℕ, ◌+◌, min, Bool, true, false, not, ◌&&◌, ◌||◌, Option, none, some, List, [], ◌∷◌, ◌++◌, map,
  length, any, filter, leb, text_eq, codes, after_prefix, is_some, if◌then◌else◌,
}

abbrev pub Text : Type 0
Text = List ℕ

abbrev pub Hash : Type 0
Hash = Text → Text

pub record TokenEntry : Type 0 where
  pub hash : Text
  -- `none`: it never expires.
  pub expires_at : Option ℕ
  pub label : Text

abbrev pub AuthTokens : Type 0
AuthTokens = List TokenEntry

-- `e.expiresAt === null || now <= e.expiresAt`
abbrev pub live_until : Option ℕ → ℕ → Bool
live_until none now = true
live_until (some t) now = leb now t

abbrev pub is_live : ℕ → TokenEntry → Bool
is_live now e = live_until e.expires_at now

-- `label.endsWith("-graced")`
unfoldable pub is_graced : Text → Bool
is_graced label = is_some (after_prefix (reverse (codes "-graced")) (reverse label))

-- `entries.some((o) => o.hash.equals(hash))`
abbrev pub has_hash : AuthTokens → Text → Bool
has_hash entries h = any (λ o. text_eq o.hash h) entries

-- `e.expiresAt !== null && now <= e.expiresAt`
abbrev pub expires_later : Option ℕ → ℕ → Bool
expires_later none now = false
expires_later (some t) now = leb now t

-- The filter of `replaceWith`.
abbrev pub keeps_grace : AuthTokens → ℕ → TokenEntry → Bool
keeps_grace other now e =
    is_graced e.label && (expires_later e.expires_at now && not (has_hash other e.hash))

-- `replaceWith`
pub replace_with : AuthTokens → AuthTokens → ℕ → AuthTokens
replace_with entries other now = other ++ filter (keeps_grace other now) entries

abbrev pub capped : Option ℕ → ℕ → ℕ
capped none cutoff = cutoff
capped (some t) cutoff = min t cutoff

-- The entry with its life cut to the grace, and marked.
abbrev pub grace : ℕ → TokenEntry → TokenEntry
grace cutoff e = record {
  hash = e.hash;
  expires_at = some (capped e.expires_at cutoff);
  label = if is_graced e.label then e.label else e.label ++ codes "-graced";
}

abbrev pub is_new : AuthTokens → TokenEntry → Bool
is_new other e = not (has_hash other e.hash)

-- `adoptWithGrace`
pub adopt_with_grace : AuthTokens → AuthTokens → (grace_ms now : ℕ) → AuthTokens
adopt_with_grace entries other grace_ms now =
    other ++ map (grace (now + grace_ms)) (filter (is_new other) (filter (is_live now) entries))

-- The loop of `verify`: it looks at every entry, and `found` is its `ok`.
unfoldable pub verify_from : Text → ℕ → Bool → AuthTokens → Bool
verify_from ph now found [] = found
verify_from ph now found (e ∷ es) =
    verify_from ph now (found || (text_eq ph e.hash && is_live now e)) es

-- `verify`
unfoldable pub verify : Hash → AuthTokens → Text → ℕ → Bool
verify sha256 entries [] now = false
verify sha256 entries (c ∷ presented) now = verify_from (sha256 (c ∷ presented)) now false entries

-- `liveCount`
pub live_count : AuthTokens → ℕ → ℕ
live_count entries now = length (filter (is_live now) entries)
