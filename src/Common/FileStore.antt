-- ===== src/Common/FileStore.antt =====
-- The files of a machine by their paths, as far as the program reads and writes whole files.
use Prim.Native.String.{String}
use text.Mathlib.Text.{◌==◌ as str_eq}
use mathlib.Core.Option.{Option, none, some}
use zero_config_ha_cluster.Common.Tests.{if◌then◌else◌}

abbrev pub Files : Type 0
Files = String → Option String

-- A file with a new content, a file that is removed, and a file that takes the place of another.
abbrev pub put : String → String → Files → Files
put path content files q = if str_eq q path then some content else files q

abbrev pub remove : String → Files → Files
remove path files q = if str_eq q path then none else files q

abbrev pub rename : String → String → Files → Files
rename from to files q = if str_eq q to then files from else if str_eq q from then none else files q
