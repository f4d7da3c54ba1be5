-- ===== src/Plugins/CacheFile/Lost.antt =====
-- The cache directory of sitter/sitter.cpp as the plugins cpu and reboot meet it where it can be made.
use sitter.Base.{◌≡◌, ℤ, pos, Bool, false, Text, codes, List, [], ◌∷◌, none}
use sitter.Env.{Env}
use sitter.Server.{get_cache_path}
use sitter.Plugins.CacheFile.{State, asked_path}
use sitter.Plugins.CacheFile.Since.{Watcher, runs}

-- The directory can be made, so that `mkdir_p` returns 0; no file without a name can be written.
abbrev pub IsMade : Env → (Text → ℤ) → (Text → Bool) → Type 0
IsMade env mkdir_p write_all =
    (mkdir_p (env.get_string (codes "cache_path")) ≡ pos 0) × (write_all [] ≡ false)

-- No path is known yet, and there is no file without a name.
abbrev pub IsLost : State → Type 0
IsLost s = (s.server.cache_path ≡ []) × (s.files [] ≡ none)

pub asked_path-IsLost :
    (mkdir_p : Text → ℤ) (env : Env) (filename : Text) (s : State)
    → mkdir_p (env.get_string (codes "cache_path")) ≡ pos 0
    → s.server.cache_path ≡ []
    → asked_path mkdir_p env filename s
      ≡ (record s { server = record s.server { cache_path = [] } }, [])
unfolding asked_path get_cache_path
asked_path-IsLost mkdir_p env filename s made unknown = rw (unknown, made)

abbrev pub AllGiven : {H : Type 0} → (H → Type 0) → List H → Type 0
AllGiven IsGiven [] = Unit {0}
AllGiven IsGiven (host ∷ hosts) = IsGiven host × AllGiven IsGiven hosts

-- Whatever one run keeps, any number of runs keeps.
pub runs-keep :
    {H : Type 0} (w : Watcher H) (IsGiven : H → Type 0) (P : State → Type 0)
    → ((host : H) (s : State) → IsGiven host → P s → P (w.run host s).0)
    → (hosts : List H) (s : State) → AllGiven IsGiven hosts
    → P s
    → P (runs w hosts s)
runs-keep w IsGiven P step [] s given holds = holds
runs-keep w IsGiven P step (host ∷ hosts) s (given, all_given) holds =
    runs-keep w IsGiven P step hosts (w.run host s).0 all_given (step host s given holds)
