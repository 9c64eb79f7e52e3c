-- ===== src/Utils/Tests.antt =====
-- src/utils.ts on concrete texts.
use ccu_mcp.Prelude.{ℕ, ◌≡◌, refl, Option, some, List, codes}
use ccu_mcp.Utils.{normalize_client_ip}

abbrev addresses : Option (List ℕ)
addresses = some (codes "::ffff:127.0.0.1")

mapped_address : normalize_client_ip addresses ≡ codes "127.0.0.1"
unfolding normalize_client_ip
mapped_address = refl

-- The prefix alone, which the fuzzer found.
bare_prefix : normalize_client_ip (some (codes "::ffff:")) ≡ codes "unknown"
unfolding normalize_client_ip
bare_prefix = refl
