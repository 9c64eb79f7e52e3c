-- ===== src/Auth/Resolve/Tests.antt =====
-- `resolveAuthTokens` and a tick of src/auth/token.ts on one file; the digest of a token stands for itself.
use ccu_mcp.Prelude.{◌≡◌, refl, true, none, some, [], ◌∷◌, codes, arith}
use ccu_mcp.Auth.Tokens.{Hash, verify}
use ccu_mcp.Auth.File.Tests.{no_number, token_file, token_state, token_file_lem, operator_line}
use ccu_mcp.Auth.File.RoundTrip.{IsSound}
use ccu_mcp.Auth.Resolve.{ResolveAuthTokensOptions, resolve}
use ccu_mcp.Auth.Resolve.Lifetime.{verify-resolve}
use ccu_mcp.Auth.Resolve.Restart.{resolve-again}

abbrev plain_hash : Hash
plain_hash t = t

abbrev hour_opts : ResolveAuthTokensOptions
hour_opts = record {
  env_token = none;
  env_previous_token = none;
  ttl_ms = some 3600;
  grace_ms = 60;
  announce_unpersisted = true;
}

token_state-IsSound : IsSound token_state
token_state-IsSound = record {
  has_token = ground arith;
  token_value = (ground arith, ground arith);
  previous_value = tt;
  complete = tt;
}

verify-resolve_example :
    verify plain_hash
      (resolve no_number plain_hash hour_opts token_file true (codes "cd") 4500 300).tokens
      (codes "ab")
      4600
    ≡ true
verify-resolve_example =
    verify-resolve no_number plain_hash hour_opts token_file true (codes "cd") 4500 300 97 (98 ∷ [])
      3600 1000 4600 refl refl (rw token_file_lem refl) (rw token_file_lem refl) (omega arith)

resolve-again_example :
    resolve no_number plain_hash hour_opts
      (resolve no_number plain_hash hour_opts token_file true (codes "cd") 4500 300).file
      true
      (codes "ef")
      4500
      300
    ≡ record {
      tokens =
          (resolve no_number plain_hash hour_opts token_file true (codes "cd") 4500 300).tokens;
      file = (resolve no_number plain_hash hour_opts token_file true (codes "cd") 4500 300).file;
      announced = none;
    }
resolve-again_example =
    resolve-again no_number plain_hash hour_opts token_file 99 (100 ∷ []) 4500 300 true (codes "ef")
      refl (omega arith) (omega arith) (λ u. rw token_file_lem token_state-IsSound)
      (rw operator_line (ground arith))
