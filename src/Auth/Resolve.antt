-- ===== src/Auth/Resolve.antt =====
-- src/auth/token.ts: `resolveAuthTokens`, `persist`, `announce` and the tick of `startAutoRotation`.
-- The token file is its text, `none` if it cannot be read; `writable` says whether it can be written,
-- and `fresh` is the token that `randomBytes` gives. The interval, the logger and the words of the
-- announcement are left out. A tick reads and writes the file with nothing in between.
mod Outcomes
mod Lifetime
mod Restart
mod Ticks
mod Tests
use ccu_mcp.Prelude.{
  usable, ℕ, ◌+◌, max, Bool, true, false, not, ◌&&◌, ◌||◌, Option, none, some, List, [], ◌∷◌, ◌++◌,
  ltb, leb, codes, if◌then◌else◌,
}
use ccu_mcp.Auth.Tokens.{Text, Hash, TokenEntry, AuthTokens, replace_with, adopt_with_grace}
use ccu_mcp.Auth.File.{PersistedToken, nothing_persisted, token_text, parse_persisted, new_content}

-- `ResolveAuthTokensOptions`; the data directory is the file's.
pub record ResolveAuthTokensOptions : Type 0 where
  pub env_token : Option Text
  pub env_previous_token : Option Text
  pub ttl_ms : Option ℕ
  pub grace_ms : ℕ
  pub announce_unpersisted : Bool

abbrev pub entry : Text → Option ℕ → Text → TokenEntry
entry hash life label = record { hash = hash; expires_at = life; label = label }

abbrev pub env_previous_entries : Hash → Option Text → AuthTokens
env_previous_entries sha256 previous =
    if usable previous
    then entry (sha256 (token_text previous)) none (codes "env-previous") ∷ []
    else []

-- The set for the tokens of the environment.
abbrev pub env_entries : Hash → ResolveAuthTokensOptions → AuthTokens
env_entries sha256 opts =
    entry (sha256 (token_text opts.env_token)) none (codes "env")
    ∷ env_previous_entries sha256 opts.env_previous_token

-- The variables of `resolveAuthTokens` from `let changed` on.
pub record Draft : Type 0 where
  pub state : PersistedToken
  pub changed : Bool
  pub minted : Bool
  pub rotated : Bool

abbrev pub untouched : PersistedToken → Draft
untouched s = record { state = s; changed = false; minted = false; rotated = false }

abbrev pub generated : Text → ℕ → Draft
generated fresh now = record {
  state = record {
    token = some fresh;
    issued = some now;
    previous = none;
    previous_expires = none;
  };
  changed = true;
  minted = true;
  rotated = false;
}

abbrev pub rotate : PersistedToken → (issued ttl grace_ms : ℕ) → Text → (now : ℕ) → Draft
rotate s issued ttl grace_ms fresh now = record {
  state = record {
    token = some fresh;
    issued = some now;
    previous = s.token;
    previous_expires = some (max (now + grace_ms) (issued + ttl));
  };
  changed = true;
  minted = true;
  rotated = true;
}

abbrev pub stamped : PersistedToken → ℕ → Draft
stamped s now = record {
  state = record {
    token = s.token;
    issued = some now;
    previous = s.previous;
    previous_expires = s.previous_expires;
  };
  changed = true;
  minted = false;
  rotated = false;
}

-- `now + lookaheadMs - state.issued >= ttlMs`, without the subtraction.
abbrev pub is_due : (issued ttl now lookahead : ℕ) → Bool
is_due issued ttl now lookahead = leb (issued + ttl) (now + lookahead)

abbrev pub aged : Option ℕ → Option ℕ → PersistedToken → ℕ → Text → (now lookahead : ℕ) → Draft
aged none issued s grace_ms fresh now lookahead = untouched s
aged (some ttl) none s grace_ms fresh now lookahead = stamped s now
aged (some ttl) (some issued) s grace_ms fresh now lookahead =
    if is_due issued ttl now lookahead then rotate s issued ttl grace_ms fresh now else untouched s

-- Generate, rotate, stamp, or leave the state.
pub draft : ResolveAuthTokensOptions → PersistedToken → Text → (now lookahead : ℕ) → Draft
draft opts s fresh now lookahead =
    if usable s.token
    then aged opts.ttl_ms s.issued s opts.grace_ms fresh now lookahead
    else generated fresh now

-- A previous token whose grace is over.
abbrev pub is_over : Option Text → Option ℕ → ℕ → Bool
is_over none expires now = false
is_over (some t) none now = false
is_over (some t) (some expires) now = ltb expires now

abbrev pub without_previous : Draft → Draft
without_previous d = record {
  state = record {
    token = d.state.token;
    issued = d.state.issued;
    previous = none;
    previous_expires = none;
  };
  changed = true;
  minted = d.minted;
  rotated = d.rotated;
}

pub prune : ℕ → Draft → Draft
prune now d =
    if is_over d.state.previous d.state.previous_expires now then without_previous d else d

-- `persist`: the file after it, if it can be written.
abbrev pub persist : Bool → PersistedToken → Option Text → Option Text
persist writable s file = if writable then some (new_content s file) else file

-- What `announce` says, and whether it shows the token.
pub record Announcement : Type 0 where
  pub shown : Option Text
  pub rotation : Bool

-- `announce`
abbrev pub announce : Text → (rotated saved : Bool) → Announcement
announce token rotated saved = record {
  shown = if saved then none else some token;
  rotation = rotated;
}

abbrev pub generated_expiry : Option ℕ → Option ℕ → Option ℕ
generated_expiry none issued = none
generated_expiry (some ttl) none = none
generated_expiry (some ttl) (some issued) = some (issued + ttl)

abbrev pub previous_entries : Hash → Option Text → Option ℕ → AuthTokens
previous_entries sha256 none expires = []
previous_entries sha256 (some t) none = []
previous_entries sha256 (some t) (some e) = entry (sha256 t) (some e) (codes "rotated-out") ∷ []

-- The set for the token of the file.
abbrev pub file_entries : Hash → Option ℕ → PersistedToken → AuthTokens
file_entries sha256 ttl s =
    entry (sha256 (token_text s.token)) (generated_expiry ttl s.issued) (codes "generated")
    ∷ previous_entries sha256 s.previous s.previous_expires

-- What `resolveAuthTokens` gives, the file after it and what was announced.
pub record Resolved : Type 0 where
  pub tokens : AuthTokens
  pub file : Option Text
  pub announced : Option Announcement

-- From `let saved = true` on, of a draft that changed.
abbrev pub saved_draft : (writable : Bool) → PersistedToken → Draft → Draft
saved_draft writable before d =
    if not writable && d.rotated
    then record { state = before; changed = d.changed; minted = false; rotated = false }
    else d

pub finish :
    Hash
    → ResolveAuthTokensOptions
    → Option Text
    → (writable : Bool) → PersistedToken
    → Draft
    → Resolved
finish sha256 opts file writable before d =
    let saved = not d.changed || writable in
    let kept = if d.changed then saved_draft writable before d else d in
    record {
      tokens = file_entries sha256 opts.ttl_ms kept.state;
      file = if d.changed then persist writable d.state file else file;
      announced =
          if kept.minted && (saved || opts.announce_unpersisted)
          then some (announce (token_text kept.state.token) kept.rotated saved)
          else none;
    }

-- The state of the file, nothing if it cannot be read.
abbrev pub file_state : (Text → Option ℕ) → Option Text → PersistedToken
file_state other_number none = nothing_persisted
file_state other_number (some content) = parse_persisted other_number content

pub resolve_file :
    Hash
    → ResolveAuthTokensOptions
    → Option Text
    → (writable : Bool) → PersistedToken
    → Text
    → (now lookahead : ℕ) → Resolved
resolve_file sha256 opts file writable s fresh now lookahead =
    finish sha256 opts file writable s (prune now (draft opts s fresh now lookahead))

-- `resolveAuthTokens`
pub resolve :
    (Text → Option ℕ)
    → Hash
    → ResolveAuthTokensOptions
    → Option Text
    → (writable : Bool) → Text
    → (now lookahead : ℕ) → Resolved
resolve other_number sha256 opts file writable fresh now lookahead =
    let s = file_state other_number file in
    if usable opts.env_token
    then record { tokens = env_entries sha256 opts; file = file; announced = none }
    else resolve_file sha256 opts file writable s fresh now lookahead

abbrev pub quietly : ResolveAuthTokensOptions → ResolveAuthTokensOptions
quietly opts = record {
  env_token = opts.env_token;
  env_previous_token = opts.env_previous_token;
  ttl_ms = opts.ttl_ms;
  grace_ms = opts.grace_ms;
  announce_unpersisted = false;
}

-- `hasPersistedToken`
abbrev pub has_persisted : (Text → Option ℕ) → Option Text → Bool
has_persisted other_number file = usable (file_state other_number file).token

-- The sets a running server goes through at a tick.
abbrev pub adopted : (had has : Bool) → AuthTokens → AuthTokens → (grace_ms now : ℕ) → AuthTokens
adopted true has tokens new grace_ms now = replace_with tokens new now
adopted false true tokens new grace_ms now = adopt_with_grace tokens new grace_ms now
adopted false false tokens new grace_ms now = tokens

-- `tick` of `startAutoRotation`
pub tick :
    (Text → Option ℕ)
    → Hash
    → ResolveAuthTokensOptions
    → AuthTokens
    → Option Text
    → (writable : Bool) → Text
    → (now interval : ℕ) → Resolved
tick other_number sha256 opts tokens file writable fresh now interval =
    let new = resolve other_number sha256 (quietly opts) file writable fresh now interval in
    record {
      tokens =
          adopted (has_persisted other_number file) (has_persisted other_number new.file) tokens
            new.tokens opts.grace_ms now;
      file = new.file;
      announced = new.announced;
    }
