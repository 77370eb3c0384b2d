-- ===== src/EnvConfig.antt =====
-- flexo/src/mirror_config.rs: lists in environment variables. Which characters are white space is a
-- parameter.
pub mod CustomRepos
pub mod Load
use flexo.Base.{
  ℕ, zero, suc, ◌==◌, Bool, true, false, not, List, [], ◌∷◌, ◌++◌, map, Option, none, some, keep_if,
  if◌then◌else◌,
}
use flexo.Base.Text.{Text, split}
use flexo.Config.{CustomRepo}

abbrev pub is_nonempty : Text → Bool
is_nonempty [] = false
is_nonempty (c ∷ s) = true

module _ (is_whitespace : ℕ → Bool) where
  unfoldable pub trim_start : Text → Text
  trim_start [] = []
  trim_start (c ∷ s) = let rest = trim_start s in if is_whitespace c then rest else c ∷ s

  abbrev keep_unless_blank : ℕ → Text → Text
  keep_unless_blank c [] = if is_whitespace c then [] else c ∷ []
  keep_unless_blank c (d ∷ t) = c ∷ d ∷ t

  unfoldable pub trim_end : Text → Text
  trim_end [] = []
  trim_end (c ∷ s) = keep_unless_blank c (trim_end s)

  -- A comma is 44.
  unfoldable pub comma_separated_to_vec : Text → List Text
  unfolding trim_start trim_end
  comma_separated_to_vec comma_separated =
      map (λ s. trim_end (trim_start s)) (keep_if is_nonempty (split 44 comma_separated))

abbrev pub behind : ℕ → Option (Text × Text) → Option (Text × Text)
behind x none = none
behind x (some (s, t)) = some (x ∷ s, t)

unfoldable pub split_once : ℕ → Text → Option (Text × Text)
split_once c [] = none
split_once c (x ∷ s) = let rest = split_once c s in if x == c then some ([], s) else behind x rest

-- A name and a URL with an at sign, 64, in between.
unfoldable pub repo_of : Option (Text × Text) → Option CustomRepo
repo_of none = none
repo_of (some (name, url)) = some (record { name = name; url = url })

abbrev pub cons_option : Option CustomRepo → Option (List CustomRepo) → Option (List CustomRepo)
cons_option none rs = none
cons_option (some r) none = none
cons_option (some r) (some rs) = some (r ∷ rs)

-- All of them, or `none` if one is malformed.
unfoldable pub collect_repos : List Text → Option (List CustomRepo)
unfolding repo_of split_once
collect_repos [] = some []
collect_repos (s ∷ ss) = cons_option (repo_of (split_once 64 s)) (collect_repos ss)

unfoldable pub custom_repos_from_env : Option Text → Option (List CustomRepo)
unfolding collect_repos split
custom_repos_from_env none = none
custom_repos_from_env (some cr) = collect_repos (split 32 cr)
