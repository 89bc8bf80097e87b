-- ===== src/Host/Logging.antt =====
-- `print` and the `log` table of `install_api` (crates/sni-lua-api/src/lib.rs).
use sni_lua.Common.{List, [], ◌∷◌, ◌++◌, map, Str, str, ◌≡◌, refl}
use sni_lua.Host.{Console, push}

-- an argument: a string, read as UTF-8 with replacements, or what `{:?}` prints of another value
pub data Argument : Type 0 where
  string printed : Str → Argument

unfoldable pub part : Argument → Str
part (string s) = s
part (printed s) = s

-- `join("\t")`
unfoldable pub join_tab : List Str → Str
join_tab [] = []
join_tab (s ∷ []) = s
join_tab (s ∷ t ∷ ts) = s ++ 9 ∷ join_tab (t ∷ ts)

unfoldable pub print : List Argument → Console → Console
unfolding part join_tab
print args c = push (join_tab (map part args)) c

pub data Level : Type 0 where
  info warn error : Level

abbrev pub prefix : Level → Str
prefix info = []
prefix warn = str "[warn] "
prefix error = str "[error] "

-- the functions of the `log` table
unfoldable pub log_line : Level → List Argument → Console → Console
unfolding part join_tab
log_line l args c = push (prefix l ++ join_tab (map part args)) c

-- `print` is `log.info`.
pub print-log_line : (args : List Argument) (c : Console) → print args c ≡ log_line info args c
unfolding print log_line
print-log_line args c = refl
