-- ===== src/Paths.antt =====
-- flexo/src/str_path.rs, and what flexo/src/main.rs and flexo/src/mirror_flexo.rs do with paths. A path
-- is its text; `components` is that of the standard library on Unix.
pub mod Inside
pub mod Files
use flexo.Base.{
  ℕ, zero, suc, ◌+◌, ◌≡◌, Bool, true, false, ◌&&◌, ◌||◌, not, List, [], ◌∷◌, ◌++◌, Option, none,
  some, ◌==◌, all, if◌then◌else◌,
}
use flexo.Base.Text.{Text, codes, text_eq, ends_with, split}

abbrev pub slash : ℕ
slash = 47

pub data Component : Type 0 where
  root_dir cur_dir parent_dir : Component
  normal : Text → Component

-- The component that a part between two slashes stands for.
unfoldable pub component_of : Text → List Component
component_of [] = []
component_of (x ∷ xs) =
    if text_eq (x ∷ xs) (codes ".")
    then []
    else (if text_eq (x ∷ xs) (codes "..") then parent_dir ∷ [] else normal (x ∷ xs) ∷ [])

unfoldable pub body : List Text → List Component
unfolding component_of
body [] = []
body (part ∷ parts) = component_of part ++ body parts

-- A dot counts only as the first part.
unfoldable pub relative_body : List Text → List Component
unfolding body
relative_body [] = []
relative_body (part ∷ parts) =
    if text_eq part (codes ".") then cur_dir ∷ body parts else body (part ∷ parts)

unfoldable pub is_absolute : Text → Bool
is_absolute [] = false
is_absolute (x ∷ xs) = x == slash

-- `Path::components`
unfoldable pub components : Text → List Component
unfolding relative_body is_absolute split
components s =
    if is_absolute s then root_dir ∷ body (split slash s) else relative_body (split slash s)

unfoldable pub ends_in_slash : Text → Bool
ends_in_slash [] = false
ends_in_slash (x ∷ []) = x == slash
ends_in_slash (x ∷ y ∷ ys) = ends_in_slash (y ∷ ys)

-- `Path::join`
unfoldable pub join : Text → Text → Text
unfolding is_absolute ends_in_slash
join [] path = path
join (x ∷ base) path =
    if is_absolute path
    then path
    else (if ends_in_slash (x ∷ base) then x ∷ base ++ path else x ∷ base ++ slash ∷ path)

-- the last component, and whether there is one
unfoldable pub last_component : List Component → Option Component
last_component [] = none
last_component (c ∷ []) = some c
last_component (c ∷ d ∷ ds) = last_component (d ∷ ds)

-- The fields are the same text: `path_buf` is `Path::new(&s)`.
pub record StrPath : Type 0 where
  pub inner : Text

-- `StrPath::new` takes one slash away.
unfoldable pub new_str_path : Text → StrPath
new_str_path [] = record { inner = [] }
new_str_path (x ∷ s) = if x == slash then record { inner = s } else record { inner = x ∷ s }

-- `StrPath::from_path_buf`; every path here is valid UTF-8.
unfoldable pub from_path_buf : Text → Option StrPath
unfolding new_str_path
from_path_buf path_buf = some (new_str_path path_buf)

abbrev pub is_permitted : Component → Bool
is_permitted root_dir = true
is_permitted (normal s) = true
is_permitted cur_dir = false
is_permitted parent_dir = false

unfoldable pub permitted_path : Text → Bool
permitted_path path = all is_permitted (components path)

abbrev pub is_normal : Option Component → Bool
is_normal (some (normal s)) = true
is_normal (some root_dir) = false
is_normal (some cur_dir) = false
is_normal (some parent_dir) = false
is_normal none = false

unfoldable pub valid_path : Text → Bool
unfolding last_component
valid_path path = is_normal (last_component (components path))

pub data Cacheability : Type 0 where
  non_cacheable : Text → Cacheability
  cacheable : Cacheability

pub record DownloadOrder : Type 0 where
  pub requested_path : StrPath
  pub cacheability : Cacheability

unfoldable pub is_cacheable_path : StrPath → Bool
is_cacheable_path path = not (
    ends_with (codes ".db") path.inner
    || ends_with (codes ".db.sig") path.inner
    || ends_with (codes ".files") path.inner
    || ends_with (codes ".files.sig") path.inner)

-- `DownloadOrder::new`, with the answer of `Uuid::new_v4`.
unfoldable pub new_order : Text → StrPath → DownloadOrder
new_order uuid requested_path =
    if is_cacheable_path requested_path
    then record { requested_path = requested_path; cacheability = cacheable }
    else record { requested_path = requested_path; cacheability = non_cacheable uuid }

unfoldable pub is_cacheable : DownloadOrder → Bool
is_cacheable order = elim order.cacheability [ non_cacheable u ↦ false | cacheable ↦ true ]

unfoldable pub retryable : DownloadOrder → Bool
retryable order = not (
    ends_with (codes ".db.sig") order.requested_path.inner
    || ends_with (codes ".files.sig") order.requested_path.inner)

abbrev pub uncacheable_directory : Text
uncacheable_directory = codes "/tmp/flexo/uncacheable"

-- `DownloadOrder::filepath`, in a cache directory.
unfoldable pub filepath : Text → DownloadOrder → Text
unfolding join
filepath cache_directory order = elim order.cacheability [
  | cacheable ↦ join cache_directory order.requested_path.inner
  | non_cacheable unique_id ↦
      join uncacheable_directory (order.requested_path.inner ++ codes "-" ++ unique_id)
]
