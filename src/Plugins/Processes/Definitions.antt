-- ===== src/Plugins/Processes/Definitions.antt =====
-- The loading of the process definitions of plugins/sitter_processes/processes.cpp.
use sitter.Base.{
  Bool, true, false, not, ◌||◌, if◌then◌else◌, Text, codes, text_eq, is_empty, List, [], ◌∷◌, ◌++◌,
  Option, none, some, Result, ok, err, invalid_name, ◌>>=◌,
}
use sitter.Env.{ConfFile}
use sitter.Server.{get_server_parameter}
use sitter.Plugins.Processes.{
  Process, Host, new_process, set_mandatory, set_command, set_service, set_match,
}

-- The flags of a definition: `is_true` of the parameter, and false without it.
unfoldable pub flag : Host → ConfFile → Text → Bool
flag host conf name =
    if conf.has_parameter name then host.is_true (conf.get_parameter name) else false

unfoldable pub keep_first : Process → Option (List Process) → Option (List Process)
keep_first p none = none
keep_first p (some ps) = some (p ∷ ps)

-- The search for a definition of the same name: none, or the list with that one made mandatory if the
-- new one is; it throws unless both allow duplicates.
unfoldable pub merge_duplicate : Text → Bool → Bool → List Process → Result (Option (List Process))
unfolding set_mandatory keep_first
merge_duplicate name mandatory allow_duplicates [] = ok none
merge_duplicate name mandatory allow_duplicates (p ∷ ps) =
    let rest = merge_duplicate name mandatory allow_duplicates ps in
    if text_eq name p.name
    then (if not allow_duplicates || not p.allow_duplicates
        then err invalid_name
        else ok (some ((if mandatory then set_mandatory true p else p) ∷ ps)))
    else rest >>= (λ found. ok (keep_first p found))

unfoldable pub command_from : ConfFile → Process → Process
unfolding set_command
command_from conf p =
    if conf.has_parameter (codes "command")
    then set_command (conf.get_parameter (codes "command")) p
    else p

unfoldable pub service_from : Host → ConfFile → Process → Process
unfolding set_service flag
service_from host conf p =
    if conf.has_parameter (codes "service")
    then set_service host (conf.get_parameter (codes "service")) (flag host conf (codes "backend"))
        p
    else p

unfoldable pub match_from : Host → ConfFile → Process → Result Process
unfolding set_match
match_from host conf p =
    if conf.has_parameter (codes "match")
    then set_match host (conf.get_parameter (codes "match")) p
    else ok p

-- A duplicate leaves the list as the search made it; any other definition is added at the end.
unfoldable pub add_process :
    Host → ConfFile → Process → List Process → Option (List Process) → Result (List Process)
unfolding command_from service_from match_from
add_process host conf wp processes (some merged) = ok merged
add_process host conf wp processes none =
    match_from host conf (service_from host conf (command_from conf wp))
    >>= (λ p. ok (processes ++ p ∷ []))

unfoldable pub load_process : Host → ConfFile → List Process → Result (List Process)
unfolding flag merge_duplicate add_process new_process
load_process host conf processes =
    let name = conf.get_parameter (codes "name") in
    let mandatory = flag host conf (codes "mandatory") in
    let allow_duplicates = flag host conf (codes "allow_duplicates") in
    if conf.has_parameter (codes "name")
    then (merge_duplicate name mandatory allow_duplicates processes
        >>= add_process host conf (new_process name mandatory allow_duplicates) processes)
    else ok processes

unfoldable pub load_files : Host → List Text → List Process → Result (List Process)
unfolding load_process
load_files host [] processes = ok processes
load_files host (file ∷ files) processes =
    load_process host (host.conf_file file) processes >>= load_files host files

-- The definitions that a throw leaves loaded are not kept: the next run starts by clearing them.
unfoldable pub load_processes : Host → Result (List Process)
unfolding load_files
load_processes host =
    let asked = get_server_parameter host.env (codes "sitter_processes_path") in
    let path = if is_empty asked then codes "/usr/share/sitter/processes" else asked in
    load_files host (host.glob (path ++ codes "/*.conf")) []
