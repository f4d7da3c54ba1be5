-- ===== src/Report.antt =====
-- The errors of one run of the plugins: `f_error_count`, `f_max_error_priority` and the functions
-- `clear_errors`, `append_error` and `output_process` of sitter/sitter.cpp. The log keeps the
-- severity, the plugin, the message and the priority of each error; the ends of line that the logger's
-- text replaces in a message are left in it.
pub mod Laws
pub mod Adds
pub mod Gives
use sitter.Base.{
  ℤ, pos, negsuc, ◌+ℤ◌, ltb_ℤ, leb_ℤ, Bool, true, false, ◌||◌, if◌then◌else◌, Text, codes,
  to_string, List, [], ◌∷◌, ◌++◌, Option, none, some, Result, ok, err, invalid_parameter,
}
use sitter.Json.{Key, Value, Call, append_item, put, Doc, ◌/+◌, newest}

-- The levels of snaplogger that `append_error` uses, lowest first.
pub data Severity : Type 0 where
  important minor warning major error severe : Severity

pub record LogEntry : Type 0 where
  pub severity : Severity
  pub plugin_name : Text
  pub message : Text
  pub priority : ℤ

pub record Report : Type 0 where
  pub error_count : ℤ
  pub max_error_priority : ℤ
  pub log : List LogEntry
  pub doc : Doc

unfoldable pub clear_errors : Report → Report
clear_errors r = record r { error_count = pos 0; max_error_priority = pos 0 }

-- The ladder of the severities by priority.
unfoldable pub severity_for : ℤ → Severity
severity_for priority =
    if leb_ℤ (pos 90) priority
    then Severity.severe
    else if leb_ℤ (pos 70) priority
    then Severity.error
    else if leb_ℤ (pos 50) priority
    then Severity.major
    else if leb_ℤ (pos 35) priority
    then Severity.warning
    else if leb_ℤ (pos 10) priority
    then Severity.minor
    else Severity.important

-- The calls on the document for one error under `ref`.
abbrev pub error_item : List Key → Text → Text → ℤ → Doc
error_item ref plugin_name message priority =
    let err = ref /+ codes "error" in
    append_item err
    ∷ put (newest err /+ codes "plugin_name") (Value.text plugin_name)
    ∷ put (newest err /+ codes "message") (Value.text message)
    ∷ put (newest err /+ codes "priority") (Value.number priority)
    ∷ []

-- The count, the maximum and the log change before the priority is checked.
unfoldable pub append_error : List Key → Text → Text → ℤ → Report → Report × Result (Unit {0})
unfolding severity_for
append_error ref plugin_name message priority r =
    let entry : LogEntry = record {
      severity = severity_for priority;
      plugin_name = plugin_name;
      message = message;
      priority = priority;
    } in
    let counted = record r {
      max_error_priority =
          if ltb_ℤ r.max_error_priority priority then priority else r.max_error_priority;
      error_count = r.error_count +ℤ pos 1;
      log = r.log ++ entry ∷ [];
    } in
    if ltb_ℤ priority (pos 0) || ltb_ℤ (pos 100) priority
    then (counted, err invalid_parameter)
    else (record counted { doc = r.doc ++ error_item ref plugin_name message priority }, ok tt)

-- What cppprocess tells of a running process.
pub record ProcessInfo : Type 0 where
  pub name : Text
  pub command : Text
  pub args : List Text
  pub cpu_percent : Text
  pub total_size : ℤ
  pub rss_size : ℤ
  pub tty_major : ℤ
  pub tty_minor : ℤ
  pub utime : ℤ
  pub stime : ℤ
  pub cutime : ℤ
  pub cstime : ℤ

process_item : List Key → ProcessInfo → Doc
process_item process info =
    put (process /+ codes "cmdline") (Value.text info.command)
    ∷ put (process /+ codes "pcpu") (Value.real info.cpu_percent)
    ∷ put (process /+ codes "total_size") (Value.number info.total_size)
    ∷ put (process /+ codes "resident") (Value.number info.rss_size)
    ∷ put (process /+ codes "tty")
        (Value.text (to_string info.tty_major ++ codes "," ++ to_string info.tty_minor))
    ∷ put (process /+ codes "utime") (Value.text (to_string info.utime))
    ∷ put (process /+ codes "stime") (Value.text (to_string info.stime))
    ∷ put (process /+ codes "cutime") (Value.text (to_string info.cutime))
    ∷ put (process /+ codes "cstime") (Value.text (to_string info.cstime))
    ∷ []

abbrev pub missing_message : Text → Text
missing_message process_name =
    codes "can't find mandatory processs \""
    ++ process_name
    ++ codes "\" in the list of processes. network health is not available."

-- The Boolean answer tells whether the process was found; `append_error` may throw.
unfoldable pub output_process :
    Text → List Key → Option ProcessInfo → Text → ℤ → Report → Report × Result Bool
unfolding process_item
output_process plugin_name json info process_name priority r =
    let process = newest (json /+ codes "process") in
    let named = record r {
      doc =
          r.doc
          ++ (append_item (json /+ codes "process")
              ∷ put (process /+ codes "name") (Value.text process_name)
              ∷ []);
    } in
    elim info [
      | none ↦
          let marked = record named {
            doc = named.doc ++ put (process /+ codes "error") (Value.text (codes "missing")) ∷ [];
          } in
          let (r', thrown) =
            append_error json plugin_name (missing_message process_name) priority marked in
          (r', elim thrown [ ok _ ↦ ok false | err e ↦ err e ])
      | some info ↦ (record named { doc = named.doc ++ process_item process info }, ok true)
    ]
