-- ===== src/Plugins/Network/Reports.antt =====
-- What plugins/sitter_network/network.cpp and plugins/sitter_firewall/firewall.cpp report.
use sitter.Base.{
  ◌≡◌, refl, ap, err, ℤ, pos, ◌-ℤ◌, ◌<ℤ◌, ltb_ℤ, leb_ℤ, eqb_ℤ, Bool, true, false, ◌&&◌, ◌||◌,
  if◌then◌else◌, Text, codes, List, [], ◌∷◌, ◌++◌, Option, none, some, Result, ok, arith,
  Bool-cases, inl, inr, append-nil, all, subst,
}
use sitter.Json.{Key, Value, append_item, put, newest, ◌/+◌}
use sitter.Report.{Report, append_error, ProcessInfo, output_process, missing_message}
use sitter.Report.Laws.{InRange, Issue}
use sitter.Report.Adds.{Adds, Adds-pure, Adds-write, Adds-bind, Adds-report, Adds-as}
use sitter.Action.{pure, write, ◌>>=◌}
use sitter.Connection.{
  Link, new_link, ready, after_ready, set_communicatord_connected, get_communicatord_is_connected,
}
use sitter.Plugins.Network.{
  Host, network_ref, firewall_ref, find_communicatord, five_minutes, lost_priority, unconnected_doc,
  unconnected_message, report_unconnected, check_duration, verify_communicatord_connection,
  check_network, watch_network, watch_firewall,
}

-- Whether a process was found, and the error of the priority if not.
abbrev is_found : Option ProcessInfo → Bool
is_found none = false
is_found (some info) = true

abbrev process_problems : Text → Option ProcessInfo → ℤ → List Issue
process_problems name none priority = (missing_message name, priority) ∷ []
process_problems name (some info) priority = []

pub output_process-Adds :
    (plugin_name : Text) (ref : List Key) (info : Option ProcessInfo) (name : Text) (priority : ℤ)
    (r : Report)
    → InRange priority
    → Adds
        (output_process plugin_name ref info name priority)
        r
        (is_found info)
        (process_problems name info priority)
unfolding output_process
output_process-Adds plugin_name ref none name priority r range =
    let process = newest (ref /+ codes "process") in
    let marked = record r {
      doc =
          (r.doc
            ++ (append_item (ref /+ codes "process")
                ∷ put (process /+ codes "name") (Value.text name)
                ∷ []))
          ++ put (process /+ codes "error") (Value.text (codes "missing")) ∷ [];
    } in
    let (done, count, highest, issues) =
      Adds-report true ref plugin_name (missing_message name) priority marked range in
    (
      ap (λ (thrown : Result (Unit {0})). (elim thrown [ ok _ ↦ ok false | err e ↦ err e ])) done,
      count,
      highest,
      issues,
    )
output_process-Adds plugin_name ref (some info) name priority r range =
    let (done, count, highest, issues) = Adds-pure true r in (refl, count, highest, issues)

-- How long the daemon has not been connected: since the last connection, or, if there was none, since the
-- server was made and five minutes more.
abbrev lost_for : Host → Link → ℤ
lost_for host l =
    if eqb_ℤ l.communicatord_connected (pos 0)
    then (host.now -ℤ l.communicatord_disconnected) -ℤ pos 300_000_000_000
    else host.now -ℤ l.communicatord_connected

-- The first five minutes of a server that was never connected.
abbrev is_starting : Host → Link → Bool
is_starting host l =
    eqb_ℤ l.communicatord_connected (pos 0)
    && ltb_ℤ (host.now -ℤ l.communicatord_disconnected) (pos 300_000_000_000)

-- By minutes in nanoseconds: up to one, up to five, up to fifteen, and more.
abbrev pub lost_level : ℤ → ℤ
lost_level time =
    if leb_ℤ time (pos 60_000_000_000)
    then pos 15
    else if leb_ℤ time (pos 300_000_000_000)
    then pos 30
    else if leb_ℤ time (pos 900_000_000_000)
    then pos 65
    else pos 100

lost_priority-Is : (time : ℤ) → lost_priority time ≡ lost_level time
unfolding lost_priority
lost_priority-Is time = ground arith

abbrev link_problems : Host → Link → List Issue
link_problems host l =
    if get_communicatord_is_connected l || is_starting host l
    then []
    else (unconnected_message host (lost_for host l), lost_level (lost_for host l)) ∷ []

abbrev pub network_problems : Host → Link → Option ProcessInfo → List Issue
network_problems host l none = (missing_message (codes "communicatord"), pos 99) ∷ []
network_problems host l (some info) = link_problems host l

lost_priority-InRange : (duration : ℤ) → InRange (lost_priority duration)
unfolding lost_priority
lost_priority-InRange duration = ground arith

report_unconnected-Adds :
    (host : Host) (duration : ℤ) (r : Report)
    → Adds
        (report_unconnected host duration)
        r
        false
        ((unconnected_message host duration, lost_level duration) ∷ [])
unfolding report_unconnected
report_unconnected-Adds host duration r =
    let in_range : InRange (lost_level duration) =
      subst InRange (lost_priority-Is duration) (lost_priority-InRange duration) in
    let report =
      append_error network_ref (codes "network") (unconnected_message host duration)
        (lost_level duration) in
    rw (lost_priority-Is duration) (
      Adds-bind report (λ _. pure false) r tt false
        ((unconnected_message host duration, lost_level duration) ∷ []) []
        (Adds-report true network_ref (codes "network") (unconnected_message host duration)
          (lost_level duration) r in_range)
        (Adds-pure false (report r).0))

check_duration-Adds :
    (host : Host) (l : Link) (r : Report)
    → Adds (check_duration host l) r false (
        if is_starting host l
        then []
        else (unconnected_message host (lost_for host l), lost_level (lost_for host l)) ∷ [])
unfolding check_duration
check_duration-Adds host l r = elim (Bool-cases (eqb_ℤ l.communicatord_connected (pos 0))) [
  | inl never ↦ elim (Bool-cases (ltb_ℤ (host.now -ℤ l.communicatord_disconnected) five_minutes)) [
    | inl early ↦ rw (never, early) (Adds-pure false r)
    | inr late ↦
        rw (never, late)
          (report_unconnected-Adds host ((host.now -ℤ l.communicatord_disconnected) -ℤ five_minutes)
            r)
  ]
  | inr once ↦ rw once (report_unconnected-Adds host (host.now -ℤ l.communicatord_connected) r)
]

verify-Adds :
    (host : Host) (l : Link) (r : Report)
    → Adds
        (verify_communicatord_connection host l)
        r
        (get_communicatord_is_connected l)
        (link_problems host l)
unfolding verify_communicatord_connection
verify-Adds host l r = elim (Bool-cases (get_communicatord_is_connected l)) [
  | inl connected ↦ rw connected (Adds-pure true r)
  | inr lost ↦ rw lost (
      Adds-bind (write unconnected_doc) (λ _. check_duration host l) r tt false []
        (if is_starting host l
          then []
          else (unconnected_message host (lost_for host l), lost_level (lost_for host l)) ∷ [])
        (Adds-write unconnected_doc r) (check_duration-Adds host l (write unconnected_doc r).0))
]

check_network-Adds :
    (host : Host) (l : Link) (info : Option ProcessInfo) (r : Report)
    → Adds
        (output_process (codes "network") network_ref info (codes "communicatord") (pos 99)
          >>= check_network host l)
        r
        tt
        (network_problems host l info)
unfolding check_network
check_network-Adds host l none r =
    let find = output_process (codes "network") network_ref none (codes "communicatord") (pos 99) in
    Adds-bind find (check_network host l) r false tt
      ((missing_message (codes "communicatord"), pos 99) ∷ []) []
      (output_process-Adds (codes "network") network_ref none (codes "communicatord") (pos 99) r
        (omega arith, omega arith))
      (Adds-pure tt (find r).0)
check_network-Adds host l (some info) r =
    let find =
      output_process (codes "network") network_ref (some info) (codes "communicatord") (pos 99) in
    let r' = (find r).0 in
    let verify = verify_communicatord_connection host l in
    Adds-bind find (check_network host l) r true tt [] (link_problems host l)
      (output_process-Adds (codes "network") network_ref (some info) (codes "communicatord")
        (pos 99) r (omega arith, omega arith))
      (Adds-as (verify >>= λ _. pure tt) r' tt tt (link_problems host l ++ [])
        (link_problems host l) refl (append-nil (link_problems host l))
        (Adds-bind verify (λ _. pure tt) r' (get_communicatord_is_connected l) tt
          (link_problems host l) [] (verify-Adds host l r') (Adds-pure tt (verify r').0)))

pub network-Report :
    (host : Host) (l : Link) (r : Report)
    → Adds
        (watch_network host l)
        r
        tt
        (network_problems host l (host.list_find (codes "communicatord")))
unfolding watch_network find_communicatord
network-Report host l r = check_network-Adds host l (host.list_find (codes "communicatord")) r

stays_connected :
    (start : ℤ) (ts : List ℤ) (l : Link)
    → all (λ t. ltb_ℤ start t) ts ≡ true
    → l.communicatord_disconnected ≡ start
    → start <ℤ l.communicatord_connected
    → get_communicatord_is_connected (after_ready ts l) ≡ true
unfolding get_communicatord_is_connected ready set_communicatord_connected
stays_connected start [] l later made connected = ground arith
stays_connected start (t ∷ ts) l later made connected =
    ground (arith, stays_connected start ts (ready t l))

connected_after :
    (start t : ℤ) (ts : List ℤ)
    → all (λ u. ltb_ℤ start u) (t ∷ ts) ≡ true
    → get_communicatord_is_connected (after_ready (t ∷ ts) (new_link start)) ≡ true
unfolding ready set_communicatord_connected new_link
connected_after start t ts later =
    stays_connected start ts (ready t (new_link start)) (ground arith) refl (ground arith)

-- Once a READY message has come, after the server was made, the network plugin never reports a lost
-- connection: whatever time has passed since, a run adds no error while the daemon runs, because nothing
-- tells the server that the connection was lost.
pub lost_connection_unreported :
    (host : Host) (start t : ℤ) (ts : List ℤ) (info : ProcessInfo) (r : Report)
    → all (λ u. ltb_ℤ start u) (t ∷ ts) ≡ true
    → host.list_find (codes "communicatord") ≡ some info
    → Adds (watch_network host (after_ready (t ∷ ts) (new_link start))) r tt []
lost_connection_unreported host start t ts info r later found =
    let l = after_ready (t ∷ ts) (new_link start) in
    Adds-as (watch_network host l) r tt tt
      (network_problems host l (host.list_find (codes "communicatord"))) [] refl
      (rw (found, connected_after start t ts later) refl) (network-Report host l r)

-- A run of the firewall plugin throws nothing and reports one error, of priority 95, exactly if no process
-- named ipwall runs.
firewall-Report :
    (host : Host) (r : Report)
    → Adds
        (watch_firewall host)
        r
        tt
        (process_problems (codes "ipwall") (host.list_find (codes "ipwall")) (pos 95))
unfolding watch_firewall
firewall-Report host r =
    let info = host.list_find (codes "ipwall") in
    let ps = process_problems (codes "ipwall") info (pos 95) in
    let find = output_process (codes "firewall") firewall_ref info (codes "ipwall") (pos 95) in
    Adds-as (find >>= λ _. pure tt) r tt tt (ps ++ []) ps refl (append-nil ps) (
      Adds-bind find (λ _. pure tt) r (is_found info) tt ps []
        (output_process-Adds (codes "firewall") firewall_ref info (codes "ipwall") (pos 95) r
          (omega arith, omega arith))
        (Adds-pure tt (find r).0))
