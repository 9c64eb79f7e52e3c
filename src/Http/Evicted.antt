-- ===== src/Http/Evicted.antt =====
-- src/index.ts: which MCP sessions an eviction reclaims.
use ccu_mcp.Prelude.{
  ℕ, ◌≤◌, String, Bool, false, Bool-cases, inl, inr, ◌&&◌, ◌≡◌, refl, Option, none, some, [], ◌∷◌,
  ◌===◌, any, length, arith, eq_iff, if◌then◌else◌,
}
use ccu_mcp.Prelude.Dict.{
  Dict, get, remove, get-remove, Distinct, remove-Distinct, length-remove-le,
}
use ccu_mcp.Http.Sessions.{McpSession, is_idle, evict_from}

abbrev reclaims : ℕ → String → String × McpSession → Bool
reclaims now sid e = e.0 === sid && is_idle now e.1

get-evict_from :
    (now : ℕ) (l m : Dict McpSession) (sid : String)
    → get (evict_from now l m) sid ≡ (if any (reclaims now sid) l then none else get m sid)
unfolding evict_from
get-evict_from now [] m sid = refl
get-evict_from now ((k, s) ∷ l) m sid =
    ground (
      arith,
      get-evict_from now l (if is_idle now s then remove m k else m) sid,
      get-remove m k sid,
    )

abbrev pub idle_if : ℕ → Option McpSession → Bool
idle_if now none = false
idle_if now (some s) = is_idle now s

any-reclaims :
    (now : ℕ) (m : Dict McpSession) (sid : String)
    → Distinct m
    → any (reclaims now sid) m ≡ idle_if now (get m sid)
unfolding get
any-reclaims now [] sid h = refl
any-reclaims now ((k, s) ∷ m) sid h = ground (arith, h.0, any-reclaims now m sid h.1, eq_iff k sid)

-- What a lookup finds after an eviction.
pub get-evict :
    (now : ℕ) (m : Dict McpSession) (sid : String)
    → Distinct m
    → get (evict_from now m m) sid ≡ (if idle_if now (get m sid) then none else get m sid)
get-evict now m sid h = ground (arith, get-evict_from now m m sid, any-reclaims now m sid h)

pub evict_from-Distinct :
    (now : ℕ) (l m : Dict McpSession) → Distinct m → Distinct (evict_from now l m)
unfolding evict_from
evict_from-Distinct now [] m h = h
evict_from-Distinct now ((k, s) ∷ l) (m) h = elim (Bool-cases (is_idle now s)) [
  | inl idle ↦ rw idle (evict_from-Distinct now l (remove m k) (remove-Distinct m k h))
  | inr busy ↦ rw busy (evict_from-Distinct now l m h)
]

pub length-evict_from-le :
    (now : ℕ) (l m : Dict McpSession) → length (evict_from now l m) ≤ length m
unfolding evict_from
length-evict_from-le now [] m = omega arith
length-evict_from-le now ((k, s) ∷ l) m = ground (
  arith,
  length-evict_from-le now l m,
  length-evict_from-le now l (remove m k),
  length-remove-le m k,
)
