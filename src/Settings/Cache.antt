-- ===== src/Settings/Cache.antt =====
-- `server::clear_cache` of sitter/sitter.cpp, which the messenger calls when fluid-settings reports a
-- new value.
pub mod Reload
use sitter.Base.{Text, codes, text_eq, List, [], ◌∷◌, ◌==◌, if◌then◌else◌}
use sitter.Settings.{Settings, minus_one}

-- `case 'e'`
clear_error_report : Text → Settings → Settings
clear_error_report name s =
    if text_eq name (codes "error-report-settle-time")
    then record s { error_report_settle_time = minus_one }
    else if text_eq name (codes "error-report-low-priority")
    then record s { low_priority = minus_one; low_span = minus_one }
    else if text_eq name (codes "error-report-medium-priority")
    then record s { medium_priority = minus_one; medium_span = minus_one }
    else if text_eq name (codes "error-report-critical-priority")
    then record s { critical_priority = minus_one; critical_span = minus_one }
    else s

-- `case 's'`
clear_statistics : Text → Settings → Settings
clear_statistics name s =
    if text_eq name (codes "statistics-frequency")
    then record s { statistics_frequency = minus_one }
    else if text_eq name (codes "statistics-period")
    then record s { statistics_period = minus_one; statistics_ttl = minus_one }
    else if text_eq name (codes "statistics-ttl")
    then record s { statistics_ttl = minus_one }
    else s

unfoldable pub clear_cache : Text → Settings → Settings
unfolding clear_error_report clear_statistics text_eq
clear_cache [] s = s
clear_cache (c ∷ rest) s =
    if c == b'e'
    then clear_error_report (c ∷ rest) s
    else if c == b's'
    then clear_statistics (c ∷ rest) s
    else s
