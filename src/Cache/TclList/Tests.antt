-- ===== src/Cache/TclList/Tests.antt =====
-- `parseTclList` of src/cache/device-type-cache.ts on the list of its comment.
use ccu_mcp.Prelude.{◌≡◌, refl, List, [], ◌∷◌, codes, arith}
use ccu_mcp.Cache.TclList.{Text, parse_tcl_list, tcl_from, braced, word}
use ccu_mcp.Cache.TclList.RoundTrip.{joined, parse_tcl_list-joined}

abbrev labels : List Text
labels = codes "Party Mode" ∷ codes "Off" ∷ []

parse_tcl_list-joined_example : parse_tcl_list (joined labels) ≡ labels
parse_tcl_list-joined_example = parse_tcl_list-joined labels (ground arith)

comment_list : parse_tcl_list (codes "{Party Mode} Off") ≡ labels
unfolding parse_tcl_list tcl_from braced word
comment_list = refl
