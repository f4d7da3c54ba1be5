-- ===== src/Rusage.antt =====
-- `server::record_usage` of sitter/sitter.cpp: what an RUSAGE message leaves on the disk.
use sitter.Base.{
  ℕ, ◌/◌, ◌%◌, ◌-◌, ◌<◌, ◌≡◌, refl, ℤ, pos, negsuc, ◌/ℤ◌, ◌%ℤ◌, eqb_ℤ, Bool, true, false,
  if◌then◌else◌, Text, codes, is_empty, List, [], ◌∷◌, ◌++◌, Option, none, some, arith,
}
use sitter.Env.{Env}
use sitter.Json.{Key, Value, put, Doc, ◌/+◌}
use sitter.Server.{get_server_parameter}

-- What the function calls outside this repository: the parameters of the message, the clock, the creation
-- of a directory, the success of `write_all` by the name of the file, and the text of a document.
pub record Host : Type 0 where
  pub env : Env
  pub get_parameter : Text → Text
  pub now : ℤ
  pub mkdir_p : Text → ℤ
  pub write_all : Text → Bool
  to_json : Doc → Text

abbrev rusage_ref : List Key
rusage_ref = [] /+ codes "rusage"

-- One member of the object, copied from the message.
abbrev copied : Host → Text → Doc
copied host name = put (rusage_ref /+ name) (Value.text (host.get_parameter name)) ∷ []

unfoldable usage_doc : Host → Doc
usage_doc host =
    copied host (codes "process_name")
    ++ copied host (codes "pid")
    ++ copied host (codes "user_time")
    ++ copied host (codes "system_time")
    ++ copied host (codes "maxrss")
    ++ copied host (codes "minor_page_fault")
    ++ copied host (codes "major_page_fault")
    ++ copied host (codes "in_block")
    ++ copied host (codes "out_block")
    ++ copied host (codes "volontary_context_switches")
    ++ copied host (codes "involontary_context_switches")
    ++ put (rusage_ref /+ codes "date") (Value.number host.now) ∷ []

-- `filename += n` appends the number as one character.
unfoldable to_char : ℤ → ℕ
to_char (pos n) = n % 256
to_char (negsuc n) = 255 - n % 256

unfoldable usage_directory : Text → Text
usage_directory data_path = data_path ++ codes "/rusage/"

unfoldable usage_filename : Host → Text → Text
unfolding to_char
usage_filename host data_path =
    usage_directory data_path
    ++ host.get_parameter (codes "process_name")
    ++ codes "-"
    ++ to_char ((host.now /ℤ 3600) %ℤ 24) ∷ codes ".json"

-- The name and the contents of the file that is written, if one is.
unfoldable record_usage : Host → Option (Text × Text)
record_usage host =
    let data_path = get_server_parameter host.env (codes "data_path") in
    let filename = usage_filename host data_path in
    if is_empty data_path
    then none
    else if eqb_ℤ (host.mkdir_p (usage_directory data_path)) (pos 0)
    then (if host.write_all filename then some (filename, host.to_json (usage_doc host)) else none)
    else none

hour_of : (n : ℕ) → to_char ((pos n /ℤ 3600) %ℤ 24) ≡ n / 3600 % 24
unfolding to_char ◌/ℤ◌ ◌%ℤ◌
hour_of n = ground arith

filename-Is :
    (host : Host) (n : ℕ)
    → let data_path = get_server_parameter host.env (codes "data_path") in
      host.now ≡ pos n
      → usage_filename host data_path
        ≡ usage_directory data_path
          ++ host.get_parameter (codes "process_name")
          ++ codes "-"
          ++ (n / 3600 % 24) ∷ codes ".json"
unfolding usage_filename
filename-Is host n at_n = rw at_n (rw (hour_of n) refl)

-- A message that is saved goes to a file whose name does not hold the hour in digits: the hour is the one
-- character before `.json`, with a code below 24.
usage_hour_is_no_digit :
    (host : Host) (n : ℕ)
    → let data_path = get_server_parameter host.env (codes "data_path") in
      host.now ≡ pos n
      → is_empty data_path ≡ false
      → host.mkdir_p (usage_directory data_path) ≡ pos 0
      → host.write_all (usage_filename host data_path) ≡ true
      → (record_usage host
          ≡ some (
            usage_directory data_path
                ++ host.get_parameter (codes "process_name")
                ++ codes "-"
                ++ (n / 3600 % 24) ∷ codes ".json",
            host.to_json (usage_doc host),
          ))
        × (n / 3600 % 24 < 24)
unfolding record_usage
usage_hour_is_no_digit host n at_n some_path made written =
    (rw (some_path, made, written, filename-Is host n at_n) refl, omega arith)
