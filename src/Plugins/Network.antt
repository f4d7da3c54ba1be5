-- ===== src/Plugins/Network.antt =====
-- The network plugin, plugins/sitter_network/network.cpp: the communicator daemon must run and be connected.
-- The firewall plugin, plugins/sitter_firewall/firewall.cpp, makes the same check of one process.
pub mod Reports
use sitter.Base.{
  ℤ, pos, ◌-ℤ◌, ltb_ℤ, eqb_ℤ, Bool, true, false, if◌then◌else◌, Text, codes, List, [], ◌∷◌, ◌++◌,
  Option, Result, ok,
}
use sitter.Json.{Key, Value, put, Doc, ◌/+◌}
use sitter.Report.{append_error, ProcessInfo, output_process}
use sitter.Action.{Action, pure, write, ◌>>=◌, ◌>>◌}
use sitter.Connection.{Link, get_communicatord_is_connected}

-- What a run calls outside this repository: the processes by name, the clock in nanoseconds, and the text
-- of a time.
pub record Host : Type 0 where
  pub list_find : Text → Option ProcessInfo
  pub now : ℤ
  pub show_seconds : ℤ → Text

abbrev pub network_ref : List Key
network_ref = [] /+ codes "network"

abbrev pub firewall_ref : List Key
firewall_ref = [] /+ codes "firewall"

unfoldable pub find_communicatord : Host → Action Bool
find_communicatord host =
    output_process (codes "network") network_ref (host.list_find (codes "communicatord"))
      (codes "communicatord") (pos 99)

abbrev one_minute : ℤ
one_minute = pos 60_000_000_000

abbrev pub five_minutes : ℤ
five_minutes = pos 300_000_000_000

abbrev fifteen_minutes : ℤ
fifteen_minutes = pos 900_000_000_000

unfoldable pub lost_priority : ℤ → ℤ
lost_priority duration =
    if ltb_ℤ fifteen_minutes duration
    then pos 100
    else if ltb_ℤ five_minutes duration
    then pos 65
    else if ltb_ℤ one_minute duration
    then pos 30
    else pos 15

abbrev pub unconnected_doc : Doc
unconnected_doc =
    put (network_ref /+ codes "service" /+ codes "name") (Value.text (codes "communicatord"))
    ∷ put (network_ref /+ codes "service" /+ codes "error") (Value.text (codes "not connected"))
    ∷ []

abbrev pub unconnected_message : Host → ℤ → Text
unconnected_message host duration =
    codes
      "found the \"communicatord\" process but somehow sitter is not connected, has not been for "
    ++ host.show_seconds duration
    ++ codes " seconds."

unfoldable pub report_unconnected : Host → ℤ → Action Bool
unfolding lost_priority
report_unconnected host duration =
    append_error network_ref (codes "network") (unconnected_message host duration)
      (lost_priority duration)
    >> pure false

-- A daemon that was never connected gets five minutes to start.
unfoldable pub check_duration : Host → Link → Action Bool
unfolding report_unconnected
check_duration host l =
    let since_start = host.now -ℤ l.communicatord_disconnected in
    if eqb_ℤ l.communicatord_connected (pos 0)
    then (if ltb_ℤ since_start five_minutes
        then pure false
        else report_unconnected host (since_start -ℤ five_minutes))
    else report_unconnected host (host.now -ℤ l.communicatord_connected)

unfoldable pub verify_communicatord_connection : Host → Link → Action Bool
unfolding check_duration
verify_communicatord_connection host l =
    if get_communicatord_is_connected l
    then pure true
    else (write unconnected_doc >> check_duration host l)

-- What the answers are used for is left to do in the source.
unfoldable pub check_network : Host → Link → Bool → Action (Unit {0})
unfolding verify_communicatord_connection
check_network host l true = verify_communicatord_connection host l >>= λ _. pure tt
check_network host l false = pure tt

unfoldable pub watch_network : Host → Link → Action (Unit {0})
unfolding find_communicatord check_network
watch_network host l = find_communicatord host >>= check_network host l

unfoldable pub watch_firewall : Host → Action (Unit {0})
watch_firewall host =
    output_process (codes "firewall") firewall_ref (host.list_find (codes "ipwall"))
      (codes "ipwall") (pos 95)
    >>= λ _. pure tt
