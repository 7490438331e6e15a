-- ===== src/Path/Equality.antt =====
-- Names and paths can be keys of maps and sets.
use net_device_mapping.Path.{OsString, Component, PathBuf}
use net_device_mapping.Prelude.{Key, ℕ_discrete}

unfoldable pub OsString-discrete : Discrete OsString
OsString-discrete = hlevel ℕ_discrete

unfoldable pub Component-discrete : Discrete Component
Component-discrete = hlevel (ℕ_discrete, OsString-discrete)

unfoldable pub PathBuf-discrete : Discrete PathBuf
unfolding OsString-discrete Component-discrete
PathBuf-discrete = hlevel (ℕ_discrete, Component-discrete)

instance abbrev pub path_key : Key PathBuf
path_key = record { dec = PathBuf-discrete }
