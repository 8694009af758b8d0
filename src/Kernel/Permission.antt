-- ===== src/Kernel/Permission.antt =====
-- kernel/src/permission.rs: the matching of permission tokens that policy and plugins share.
pub mod Covers
use text.Mathlib.Text.{starts_with}
use ckos.Base.{String, Bool, true, false, ◌||◌, Option, none, some, ◌==◌, string_eq, strip_suffix}

-- `granted.strip_suffix('*').is_some_and(|prefix| required.starts_with(prefix))`
unfoldable pub wildcard_covers : Option String → String → Bool
wildcard_covers none required = false
wildcard_covers (some prefix) required = starts_with required prefix

unfoldable pub permission_matches : String → String → Bool
unfolding wildcard_covers
permission_matches granted required =
    granted == required || wildcard_covers (strip_suffix "*" granted) required
