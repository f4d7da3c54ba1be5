-- ===== src/Connection.antt =====
-- The link to the communicator daemon, as `sitter::server` of sitter/sitter.cpp keeps it: when it was last
-- seen connected and disconnected. A `timespec_ex` is its number of nanoseconds.
use sitter.Base.{ℤ, pos, ltb_ℤ, Bool, true, false, List, [], ◌∷◌}

pub record Link : Type 0 where
  pub communicatord_connected : ℤ
  pub communicatord_disconnected : ℤ

-- The members of a new server, constructed at a time.
unfoldable pub new_link : ℤ → Link
new_link now = record { communicatord_connected = pos 0; communicatord_disconnected = now }

unfoldable pub set_communicatord_connected : Bool → ℤ → Link → Link
set_communicatord_connected true now l = record l { communicatord_connected = now }
set_communicatord_connected false now l = record l { communicatord_disconnected = now }

unfoldable pub get_communicatord_is_connected : Link → Bool
get_communicatord_is_connected l = ltb_ℤ l.communicatord_disconnected l.communicatord_connected

-- `ready`, the only caller of `set_communicatord_connected`, at the time of the READY message.
unfoldable pub ready : ℤ → Link → Link
unfolding set_communicatord_connected
ready now l = set_communicatord_connected true now l

-- The READY messages of the life of a server, in order.
abbrev pub after_ready : List ℤ → Link → Link
after_ready [] l = l
after_ready (t ∷ ts) l = after_ready ts (ready t l)
