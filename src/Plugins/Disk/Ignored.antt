-- ===== src/Plugins/Disk/Ignored.antt =====
-- The partitions that plugins/sitter_disk/disk.cpp means to ignore.
use sitter.Base.{
  ◌≡◌, ◌≢◌, refl, subst, sym, ◌∙◌, ◌==◌, true, false, Text, codes, text_eq, [], ◌∷◌, ◌++◌, some, ok,
}
use sitter.Double.{Double}
use sitter.Report.Gives.{reports, ending, reported}
use sitter.Report.{Report}
use sitter.Report.Adds.{Adds, Gives}
use sitter.Plugins.Disk.Alarm.{StatFs}
use sitter.Plugins.Disk.{Host, any_match, disk_ignore_patterns, check_partition}
use sitter.Plugins.Disk.Reports.{
  any_match-first, full_issue, used, mount_verdict, mount_verdict-Gives,
}

below_snap_core :
    (name : Text) → name ≢ [] → text_eq (codes "/snap/core/" ++ name) (codes "/snap/core/") ≡ false
unfolding text_eq
below_snap_core [] named = absurd (named refl)
below_snap_core (c ∷ cs) named = refl

module _ (D : Type 0) ⦃d : Double D⦄ where
  snap_core-verdict :
      (host : Host) (name : Text) (s : StatFs)
      → ((dir : Text)
          → host.regex_match dir (codes "^/snap/core/") ≡ ok (text_eq dir (codes "/snap/core/")))
      → name ≢ []
      → any_match (host.regex_match (codes "/snap/core/" ++ name)) (disk_ignore_patterns host.env)
        ≡ ok false
      → (s.blocks == 0) ≡ false
      → d.le (d.decimal 9 1) (used D s) ≡ true
      → mount_verdict D host (codes "/snap/core/" ++ name) (some s)
        ≡ reports (full_issue D host (codes "/snap/core/" ++ name) (used D s))
  unfolding any_match
  snap_core-verdict host name s whole named user blocks full =
      let dir = codes "/snap/core/" ++ name in
      rw
        (
          blocks,
          full,
          whole dir,
          below_snap_core name named,
          sym (any_match-first (host.regex_match dir) (disk_ignore_patterns host.env)) ∙ user,
        )
        refl

  -- Let `std::regex_match` match `^/snap/core/` with the text `/snap/core/` only, since it matches whole
  -- texts. Then a partition mounted at any directory below /snap/core/ that has blocks and is at least 90%
  -- full is reported like any other, if no pattern of the user matches it: the pattern of the plugin ignores
  -- none of them.
  pub snap_core_is_reported :
      (host : Host) (name : Text) (s : StatFs) (r : Report)
      → ((dir : Text)
          → host.regex_match dir (codes "^/snap/core/") ≡ ok (text_eq dir (codes "/snap/core/")))
      → name ≢ []
      → any_match (host.regex_match (codes "/snap/core/" ++ name)) (disk_ignore_patterns host.env)
        ≡ ok false
      → (s.blocks == 0) ≡ false
      → d.le (d.decimal 9 1) (used D s) ≡ true
      → Adds
          (check_partition D host (codes "/snap/core/" ++ name) (some s))
          r
          tt
          (full_issue D host (codes "/snap/core/" ++ name) (used D s) ∷ [])
  snap_core_is_reported host name s r whole named user blocks full =
      let dir = codes "/snap/core/" ++ name in
      subst (λ v. Gives (check_partition D host dir (some s)) r (ending v) (reported v))
        (snap_core-verdict host name s whole named user blocks full)
        (mount_verdict-Gives D host dir (some s) r)
