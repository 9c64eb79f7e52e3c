-- ===== src/Auth/Resolve/Restart.antt =====
-- `resolveAuthTokens` of src/auth/token.ts, run again on the file that it wrote: nothing changes.
use ccu_mcp.Prelude.{
  usable, ℕ, ◌<◌, ◌≡◌, refl, sym, ◌∙◌, Bool, true, false, inl, inr, Option, none, some, ◌∷◌, arith,
  All, Bool-cases,
}
use ccu_mcp.Auth.Tokens.{Text, Hash}
use ccu_mcp.Auth.File.{PersistedToken, foreign_lines}
use ccu_mcp.Auth.File.Lines.{IsPlain, OneLine}
use ccu_mcp.Auth.File.RoundTrip.{IsSound, IsComplete, parse_persisted-new_content}
use ccu_mcp.Auth.Resolve.{
  ResolveAuthTokensOptions, Draft, generated, untouched, aged, is_due, is_over, draft, prune,
  finish, file_entries, file_state, resolve_file, resolve,
}

-- The age asks for nothing.
abbrev AgeSettled : Option ℕ → Option ℕ → (now lookahead : ℕ) → Type 0
AgeSettled none issued now lookahead = Unit
AgeSettled (some ttl) none now lookahead = ⊥
AgeSettled (some ttl) (some issued) now lookahead = is_due issued ttl now lookahead ≡ false

-- There is a lifetime only if it is longer than the lookahead.
abbrev pub Exceeds : Option ℕ → ℕ → Type 0
Exceeds none lookahead = Unit
Exceeds (some ttl) lookahead = lookahead < ttl

aged-settled :
    (ttl issued : Option ℕ) (s : PersistedToken) (grace_ms : ℕ) (fresh : Text) (now lookahead : ℕ)
    → AgeSettled ttl issued now lookahead
    → aged ttl issued s grace_ms fresh now lookahead ≡ untouched s
aged-settled none issued s grace_ms fresh now lookahead h = refl
aged-settled (some ttl) none s grace_ms fresh now lookahead h = absurd h
aged-settled (some ttl) (some issued) s grace_ms fresh now lookahead h = simp h refl

usable-IsComplete :
    (token : Option Text) (expires : Option ℕ) → usable token ≡ true → IsComplete token expires
usable-IsComplete none expires u = absurd cc
usable-IsComplete (some t) expires u = tt

aged-unchanged :
    (ttl issued : Option ℕ) (s : PersistedToken) (grace_ms : ℕ) (fresh : Text) (now lookahead : ℕ)
    → (aged ttl issued s grace_ms fresh now lookahead).changed ≡ false
    → (aged ttl issued s grace_ms fresh now lookahead).state ≡ s
aged-unchanged none issued s grace_ms fresh now lookahead = λ h. refl
aged-unchanged (some ttl) none s grace_ms fresh now lookahead = λ h. absurd cc
aged-unchanged (some ttl) (some issued) s grace_ms fresh now lookahead =
    elim (Bool-cases (is_due issued ttl now lookahead)) [
      | inl due ↦ simp due (λ h. absurd cc)
      | inr young ↦ simp young (λ h. refl)
    ]

module _ (opts : ResolveAuthTokensOptions) (now lookahead : ℕ) where
  record Settled (s : PersistedToken) : Type 0 where
    has_token : usable s.token ≡ true
    age : AgeSettled opts.ttl_ms s.issued now lookahead
    grace : is_over s.previous s.previous_expires now ≡ false

  settled :
      (s : PersistedToken) (fresh : Text)
      → Settled s
      → prune now (draft opts s fresh now lookahead) ≡ untouched s
  unfolding prune draft
  settled s fresh h = simp h.has_token (
      rw (aged-settled opts.ttl_ms s.issued s opts.grace_ms fresh now lookahead h.age)
        (simp h.grace refl))

  age-now : (ttl : Option ℕ) → Exceeds ttl lookahead → AgeSettled ttl (some now) now lookahead
  age-now none h = tt
  age-now (some ttl) h = ground arith

  -- What a state has after the draft.
  record Drafted (s : PersistedToken) : Type 0 where
    drafted_token : usable s.token ≡ true
    drafted_age : AgeSettled opts.ttl_ms s.issued now lookahead
    drafted_sound : IsSound s

  module _ (c : ℕ) (p : Text) (plain : IsPlain (c ∷ p)) (long : Exceeds opts.ttl_ms lookahead) where
    generated-Drafted : Drafted (generated (c ∷ p) now).state
    generated-Drafted = record {
      drafted_token = refl;
      drafted_age = age-now opts.ttl_ms long;
      drafted_sound = record {
        has_token = λ e. cc;
        token_value = (λ e. cc, plain);
        previous_value = tt;
        complete = tt;
      };
    }

    aged-Drafted :
        (ttl issued : Option ℕ) (s : PersistedToken)
        → opts.ttl_ms ≡ ttl
        → s.issued ≡ issued
        → usable s.token ≡ true
        → IsSound s
        → Drafted (aged ttl issued s opts.grace_ms (c ∷ p) now lookahead).state
    aged-Drafted none issued s et ei u h = record {
      drafted_token = u;
      drafted_age = rw et tt;
      drafted_sound = h;
    }
    aged-Drafted (some ttl) none s et ei u h = record {
      drafted_token = u;
      drafted_age = age-now opts.ttl_ms long;
      drafted_sound = record {
        has_token = h.has_token;
        token_value = h.token_value;
        previous_value = h.previous_value;
        complete = h.complete;
      };
    }
    aged-Drafted (some ttl) (some issued) s et ei u h =
        elim (Bool-cases (is_due issued ttl now lookahead)) [
          | inl due ↦ simp due (record {
            drafted_token = refl;
            drafted_age = age-now opts.ttl_ms long;
            drafted_sound = record {
              has_token = λ e. cc;
              token_value = (λ e. cc, plain);
              previous_value = h.token_value;
              complete = usable-IsComplete s.token _ u;
            };
          })
          | inr young ↦
              simp young
                (record { drafted_token = u; drafted_age = rw et (rw ei young); drafted_sound = h })
        ]

    draft-Drafted :
        (s : PersistedToken)
        → (usable s.token ≡ true → IsSound s)
        → Drafted (draft opts s (c ∷ p) now lookahead).state
    unfolding draft
    draft-Drafted s h = elim (Bool-cases (usable s.token)) [
      | inl u ↦ simp u (aged-Drafted opts.ttl_ms s.issued s refl refl u (h u))
      | inr n ↦ simp n generated-Drafted
    ]

  prune-Settled :
      (d : Draft) → Drafted d.state → Settled (prune now d).state × IsSound (prune now d).state
  unfolding prune
  prune-Settled d h = elim (Bool-cases (is_over d.state.previous d.state.previous_expires now)) [
    | inl over ↦ simp over (
      record { has_token = h.drafted_token; age = h.drafted_age; grace = refl },
      record {
        has_token = h.drafted_sound.has_token;
        token_value = h.drafted_sound.token_value;
        previous_value = tt;
        complete = tt;
      },
    )
    | inr kept ↦
        simp kept (
          record { has_token = h.drafted_token; age = h.drafted_age; grace = kept },
          h.drafted_sound,
        )
  ]

  draft-unchanged :
      (s : PersistedToken) (fresh : Text)
      → (draft opts s fresh now lookahead).changed ≡ false
      → (draft opts s fresh now lookahead).state ≡ s
  unfolding draft
  draft-unchanged s fresh = elim (Bool-cases (usable s.token)) [
    | inl u ↦ simp u (aged-unchanged opts.ttl_ms s.issued s opts.grace_ms fresh now lookahead)
    | inr n ↦ simp n (λ h. absurd cc)
  ]

  prune-unchanged :
      (d : Draft)
      → (prune now d).changed ≡ false
      → (d.changed ≡ false) × ((prune now d).state ≡ d.state)
  unfolding prune
  prune-unchanged d = elim (Bool-cases (is_over d.state.previous d.state.previous_expires now)) [
    | inl over ↦ simp over (λ h. absurd cc)
    | inr kept ↦ simp kept (λ h. (h, refl))
  ]

  module _ (other_number : Text → Option ℕ) (sha256 : Hash) (file : Option Text)
      (one : All OneLine (foreign_lines file)) where
    -- The file after `finish` holds the state of the draft.
    file_state-finish :
        (s : PersistedToken) (d : Draft)
        → IsSound d.state
        → (d.changed ≡ false → file_state other_number file ≡ d.state)
        → file_state other_number (finish sha256 opts file true s d).file ≡ d.state
    unfolding finish
    file_state-finish s d h u = elim (Bool-cases d.changed) [
      | inl y ↦ simp y (parse_persisted-new_content other_number d.state file h one)
      | inr n ↦ simp n (u n)
    ]

    tokens-finish :
        (s : PersistedToken) (d : Draft)
        → (finish sha256 opts file true s d).tokens ≡ file_entries sha256 opts.ttl_ms d.state
    unfolding finish
    tokens-finish s d = elim (Bool-cases d.changed) [ inl y ↦ simp y refl | inr n ↦ simp n refl ]

  finish-untouched :
      (sha256 : Hash) (file : Option Text) (writable : Bool) (before s : PersistedToken)
      → finish sha256 opts file writable before (untouched s)
        ≡ record { tokens = file_entries sha256 opts.ttl_ms s; file = file; announced = none }
  unfolding finish
  finish-untouched sha256 file writable before s = refl

resolve-file :
    (other_number : Text → Option ℕ) (sha256 : Hash) (opts : ResolveAuthTokensOptions)
    (file : Option Text) (writable : Bool) (fresh : Text) (now lookahead : ℕ)
    → usable opts.env_token ≡ false
    → resolve other_number sha256 opts file writable fresh now lookahead
      ≡ finish sha256 opts file writable
          (file_state other_number file)
          (prune now (draft opts (file_state other_number file) fresh now lookahead))
unfolding resolve resolve_file
resolve-file other_number sha256 opts file writable fresh now lookahead ev = simp ev refl

-- `resolveAuthTokens`, run a second time on the file that the first run could write, whatever else it
-- is given then, keeps the set and the file and announces nothing. The clock and the lookahead are the
-- same, a lifetime is longer than the lookahead, the token that `randomBytes` gave the first run is a
-- plain text, the state of a file that holds a token is sound, no line of the operator has a line end
-- inside it, and the environment has no token.
pub resolve-again :
    (other_number : Text → Option ℕ) (sha256 : Hash) (opts : ResolveAuthTokensOptions)
    (file : Option Text) (c : ℕ) (p : Text) (now lookahead : ℕ) (writable : Bool) (fresh : Text)
    → usable opts.env_token ≡ false
    → Exceeds opts.ttl_ms lookahead
    → IsPlain (c ∷ p)
    → (usable (file_state other_number file).token ≡ true → IsSound (file_state other_number file))
    → All OneLine (foreign_lines file)
    → let first = resolve other_number sha256 opts file true (c ∷ p) now lookahead in
      resolve other_number sha256 opts first.file writable fresh now lookahead
      ≡ record { tokens = first.tokens; file = first.file; announced = none }
resolve-again other_number sha256 opts file c p now lookahead writable fresh ev long plain sound
      one =
    let s = file_state other_number file in
    let d = prune now (draft opts s (c ∷ p) now lookahead) in
    let good =
      prune-Settled opts now lookahead (draft opts s (c ∷ p) now lookahead)
        (draft-Drafted opts now lookahead c p plain long s sound) in
    let same : file_state other_number (finish sha256 opts file true s d).file ≡ d.state =
      file_state-finish opts now lookahead other_number sha256 file one s d good.1 (λ n.
        let u = prune-unchanged opts now lookahead (draft opts s (c ∷ p) now lookahead) n in
        sym (u.1 ∙ draft-unchanged opts now lookahead s (c ∷ p) u.0)) in
    rw (resolve-file other_number sha256 opts file true (c ∷ p) now lookahead ev) (
      rw
        (resolve-file other_number sha256 opts (finish sha256 opts file true s d).file writable
          fresh now lookahead ev)
        (rw same (
          rw (settled opts now lookahead d.state fresh good.0) (
            rw (tokens-finish opts now lookahead other_number sha256 file one s d)
              (finish-untouched opts now lookahead sha256 _ writable d.state d.state)))))
