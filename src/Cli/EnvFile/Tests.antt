-- ===== src/Cli/EnvFile/Tests.antt =====
-- src/cli/env-writer.ts on a file with a line of the operator.
use ccu_mcp.Prelude.{
  ◌≡◌, refl, true, false, none, some, List, [], ◌∷◌, ◌++◌, filter, codes, arith, text_eq_iff, any,
}
use ccu_mcp.Prelude.Decimal.{show, show_from}
use ccu_mcp.Auth.File.{rows, unlines, trim, is_eol}
use ccu_mcp.Auth.File.Lines.{OneLine}
use ccu_mcp.Config.{good}
use ccu_mcp.Cli.EnvFile.{
  Text, WizardProfile, is_managed, is_foreign, quote_env_value, emit, merge_env_content,
  replaced_lines, replace_env_key,
}
use ccu_mcp.Cli.EnvFile.Merged.{foreign_of, managed_of, merge_env_content_lines}
use ccu_mcp.Cli.EnvFile.Replaced.{values_of, after_first, values_of-replace_env_key}

abbrev old : Text
old =
    codes "CCU_HOST=a"
    ++ 13 ∷ 10 ∷ codes "LOG_LEVEL=debug"
    ++ 10 ∷ codes "CCU_A_B_PORT=1"
    ++ 10 ∷ []

abbrev block : List Text
block = codes "# mine" ∷ codes "CCU_HOST=b" ∷ []

abbrev profile : WizardProfile
profile = record {
  name = codes "p";
  host = codes "h";
  port = 80;
  https = false;
  tls_fingerprint = none;
  user = codes "Admin";
  password = some [];
  protected = true;
  readonly = false;
}

single : (t : Text) → any is_eol t ≡ false → OneLine t
single [] h = tt
single (c ∷ t) h = (ground arith, single t (ground arith))

writes :
    (quote_env_value (codes "a b\"") ≡ good (39 ∷ codes "a b\"" ++ 39 ∷ []))
    × (quote_env_value (codes "abc") ≡ good (codes "abc"))
    × (merge_env_content old (unlines block) ≡ (
      unlines (codes "# mine" ∷ codes "CCU_HOST=b" ∷ [] ∷ codes "LOG_LEVEL=debug" ∷ []),
      codes "CCU_HOST" ∷ codes "CCU_A_B_PORT" ∷ [],
    ))
    × (emit [] profile
        ≡ good (
            codes "CCU_HOST=h"
            ∷ codes "CCU_PORT=80"
            ∷ codes "CCU_HTTPS=false"
            ∷ codes "CCU_USER=Admin"
            ∷ codes "CCU_PASSWORD=\"\""
            ∷ codes "CCU_PROTECTED=true"
            ∷ []))
    × (replace_env_key (codes "X=1") (codes "Y") (codes "2")
        ≡ unlines (codes "X=1" ∷ codes "Y=2" ∷ []))
unfolding quote_env_value merge_env_content emit replace_env_key replaced_lines is_managed rows
    unlines trim show show_from
writes = (refl, refl, refl, refl, refl)

merge_env_content_lines_example :
    (managed_of (merge_env_content old (unlines block)).0 ≡ filter is_managed block)
    × (foreign_of (merge_env_content old (unlines block)).0
        ≡ filter is_foreign block ++ foreign_of old)
unfolding is_managed rows trim
merge_env_content_lines_example =
    merge_env_content_lines old block
      (single (codes "# mine") refl, (single (codes "CCU_HOST=b") refl, tt))
      (single (codes "LOG_LEVEL=debug") refl, tt)

-- A key that stands twice: a reader that takes the last value, as Node's does, still finds the old one.
kept_duplicate :
    values_of (codes "X") (replace_env_key (codes "X=1\nX=2") (codes "X") (codes "3"))
    ≡ codes "3" ∷ codes "2" ∷ []
unfolding rows replace_env_key replaced_lines
kept_duplicate = refl

values_of-replace_env_key_example :
    (values_of (codes "Y") (replace_env_key (codes "X=1") (codes "Y") (codes "2"))
      ≡ codes "2" ∷ after_first (values_of (codes "Y") (codes "X=1")))
    × (values_of (codes "X") (replace_env_key (codes "X=1") (codes "Y") (codes "2"))
        ≡ values_of (codes "X") (codes "X=1"))
unfolding rows
values_of-replace_env_key_example =
    values_of-replace_env_key (codes "X=1") (codes "Y") (codes "2") (codes "X") (refl, tt)
      (refl, tt) (λ e. ground (arith, text_eq_iff (codes "X") (codes "Y"), e))
      (single (codes "X=1") refl, tt) (single (codes "Y=2") refl)
