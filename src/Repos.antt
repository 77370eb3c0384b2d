-- ===== src/Repos.antt =====
-- flexo/src/main.rs: requests for the packages of a custom repository, which have their own provider.
use flexo.Base.{List, [], ◌∷◌, Option, none, some, if◌then◌else◌}
use flexo.Base.Text.{Text, codes, text_eq}
use flexo.Paths.{
  StrPath, from_path_buf, Component, root_dir, cur_dir, parent_dir, normal, components, join,
}
use flexo.Scores.{MirrorResults}
use flexo.Request.{Request}
use flexo.Config.{CustomRepo}
use flexo.Download.{DownloadProvider}

abbrev os_str : Component → Text
os_str root_dir = codes "/"
os_str cur_dir = codes "."
os_str parent_dir = codes ".."
os_str (normal s) = s

-- Components collected into a path.
unfoldable pub push_all : Text → List Component → Text
unfolding join
push_all path [] = path
push_all path (c ∷ cs) = push_all (join path (os_str c)) cs

unfoldable pub named_repo : Text → List Component → Option StrPath → Option (Text × StrPath)
named_repo repo_name rest none = none
named_repo repo_name rest (some path) = some (repo_name, path)

unfoldable pub repo_and_path : List Component → Option (Text × StrPath)
unfolding push_all named_repo
repo_and_path [] = none
repo_and_path (c ∷ []) = none
repo_and_path (c ∷ repo ∷ rest) =
    if text_eq (os_str c) (codes "custom_repo")
    then named_repo (os_str repo) rest (from_path_buf (push_all [] rest))
    else none

unfoldable pub repo_name_from_get_request : Request → Option (Text × StrPath)
unfolding repo_and_path
repo_name_from_get_request r = repo_and_path (components r.path.inner)

unfoldable pub find_repo : Text → List CustomRepo → Option CustomRepo
find_repo name [] = none
find_repo name (r ∷ rs) =
    let rest = find_repo name rs in if text_eq r.name name then some r else rest

abbrev pub default_results : MirrorResults
default_results = record {
  total_time = 0;
  namelookup_duration = 0;
  connect_duration = 0;
  pretransfer_time = 0;
  starttransfer_time = 0;
}

abbrev repo_provider : CustomRepo → DownloadProvider
repo_provider repo = record {
  uri = repo.url;
  name = repo.name;
  mirror_results = default_results;
  country_code = codes "Unknown";
}

unfoldable pub with_repo : Request → StrPath → Option CustomRepo → Option DownloadProvider × Request
with_repo r path none = (none, r)
with_repo r path (some repo) = (some (repo_provider repo), record r { path = path })

unfoldable pub custom_provider_from_request :
    Request → List CustomRepo → Option DownloadProvider × Request
unfolding with_repo find_repo
custom_provider_from_request r custom_repos = elim (repo_name_from_get_request r) [
  | none ↦ (none, r)
  | some found ↦ with_repo r found.1 (find_repo found.0 custom_repos)
]
