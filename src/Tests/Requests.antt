-- ===== src/Tests/Requests.antt =====
-- The theorems on requests and files, applied where their hypotheses hold.
use native.Mathlib.Decide.{ℕ_discrete}
use flexo.Base.{
  Bool, ℕ, zero, suc, ◌^◌, ◌≤◌, ◌<◌, ◌≡◌, ap, ◌≢◌, refl, true, false, [], ◌∷◌, ◌++◌, all, Option,
  none, some, arith, length,
}
use flexo.Base.Text.{Text, codes, Text-discrete, text_eq, ends_with, split}
use flexo.Base.Decimal.{to_decimal}
use flexo.Base.Map.{get}
use flexo.Job.{Result, ok, err}
use flexo.Paths.{
  StrPath, cacheable, DownloadOrder, is_cacheable, slash, is_absolute, permitted_path, valid_path,
  is_cacheable_path, components, filepath, new_order, new_str_path, component_of, body,
  relative_body, last_component,
}
use flexo.Paths.Files.{is_name, filepath-new_order_inside, filepath-new_str_path_absolute}
use flexo.Cache.{
  FilePath, FilePath-discrete, Node, readable, unreadable, Files, Creation, written,
  create_cfs_file, get_complete_size_from_cfs_file, cfs_path_from_pkg_path, state, cached_item,
  persist_and_get_cache_state, state_of, size_in,
}
use flexo.Cache.Sizes.{get_complete_size-create_cfs_file}
use flexo.Cache.State.{IsSettled, persist_and_get_cache_state-IsSettled}
use flexo.Request.{parse_range_header_value, Status, partial, read_client_header}
use flexo.Request.Range.{parse_range_header_value-to_decimal}
use flexo.Request.Limits.{Ends, read_client_header-Ends}
use flexo.Growing.{IoError}
use flexo.Transfer.{on_header, on_write, DownloadState, transfer}
use flexo.Config.{configured_by_user}
use flexo.Download.{DownloadProvider, DownloadJob, DownloadProperties, new_job, new_download_state}
use flexo.Transfer.Body.{IsSized, transfer-IsSized}
use flexo.Headers.{cache, reply_header}
use flexo.Headers.Declared.{declared_length, declared_start, reply_header-declared}
use flexo.Tests.{answer_ok, append_all, text_length, fresh_download}

abbrev some_package : StrPath
some_package = record { inner = codes "core/a.pkg" }

package_permitted : permitted_path some_package.inner ≡ true
unfolding permitted_path components split relative_body component_of is_absolute text_eq body
package_permitted = refl

package_cacheable : is_cacheable_path some_package ≡ true
unfolding is_cacheable_path ends_with
package_cacheable = refl

package_relative : is_absolute some_package.inner ≡ false
unfolding is_absolute
package_relative = refl

filepath-new_order_inside_example :
    (components (filepath (slash ∷ codes "var") (new_order (codes "u") some_package))
      ≡ components (slash ∷ codes "var") ++ components some_package.inner)
    × (all is_name (components some_package.inner) ≡ true)
filepath-new_order_inside_example =
    filepath-new_order_inside slash (codes "var") (codes "u") some_package package_relative
      package_permitted package_cacheable

passwd_permitted : permitted_path (slash ∷ codes "etc/passwd") ≡ true
unfolding permitted_path components split component_of is_absolute text_eq body
passwd_permitted = refl

passwd_valid : valid_path (slash ∷ codes "etc/passwd") ≡ true
unfolding valid_path components split component_of is_absolute text_eq body last_component
passwd_valid = refl

passwd_cacheable : is_cacheable_path (record { inner = slash ∷ codes "etc/passwd" }) ≡ true
unfolding is_cacheable_path ends_with
passwd_cacheable = refl

abbrev two_slashes : StrPath
two_slashes = new_str_path (slash ∷ slash ∷ codes "etc/passwd")

filepath-new_str_path_absolute_example :
    (permitted_path two_slashes.inner ≡ true)
    × (valid_path two_slashes.inner ≡ true)
    × (filepath (codes "/var/cache") (new_order (codes "u") two_slashes)
        ≡ slash ∷ codes "etc/passwd")
filepath-new_str_path_absolute_example =
    filepath-new_str_path_absolute (codes "/var/cache") (codes "u") (codes "etc/passwd")
      passwd_permitted passwd_valid passwd_cacheable

abbrev package_path : FilePath
package_path = record { directory = codes "/var"; file_name = codes "a.pkg" }

abbrev good_disk : FilePath → Creation
good_disk path = written

get_complete_size-create_cfs_file_example :
    (get_complete_size_from_cfs_file package_path (create_cfs_file good_disk package_path 1234 [])
      ≡ some 1234)
    × ((other : FilePath)
        → other ≢ cfs_path_from_pkg_path package_path
        → get FilePath-discrete other (create_cfs_file good_disk package_path 1234 [])
          ≡ get FilePath-discrete other [])
get_complete_size-create_cfs_file_example =
    get_complete_size-create_cfs_file good_disk package_path 1234 [] refl (omega arith)

abbrev removable : FilePath → Bool
removable path = true

abbrev one_file : Files
one_file = (package_path, readable (codes "abc")) ∷ []

abbrev node_size : Option Node → ℕ
node_size (some (readable s)) = length s
node_size (some unreadable) = 0
node_size none = 0

file_is_small :
    (content : Text)
    → get FilePath-discrete package_path one_file ≡ some (readable content)
    → length content < 2 ^ 64
unfolding get FilePath-discrete Text-discrete ℕ_discrete
file_is_small content h = let same : 3 ≡ length content = ap node_size h in omega (arith, same)

settled :
    persist_and_get_cache_state good_disk removable package_path one_file
    ≡ state (some (cached_item 3 3)) (create_cfs_file good_disk package_path 3 one_file)
unfolding persist_and_get_cache_state get FilePath-discrete Text-discrete ℕ_discrete state_of
    get_complete_size_from_cfs_file cfs_path_from_pkg_path size_in
settled = refl

persist_and_get_cache_state-IsSettled_example :
    IsSettled good_disk removable package_path
      (some (cached_item 3 3))
      (create_cfs_file good_disk package_path 3 one_file)
persist_and_get_cache_state-IsSettled_example =
    persist_and_get_cache_state-IsSettled good_disk removable package_path one_file
      (some (cached_item 3 3)) (create_cfs_file good_disk package_path 3 one_file) refl
      file_is_small settled

parse_range_header_value-to_decimal_example :
    parse_range_header_value (codes "bytes=" ++ (to_decimal 500 ++ 45 ∷ codes "999")) ≡ ok 500
parse_range_header_value-to_decimal_example =
    parse_range_header_value-to_decimal 500 (codes "999") (omega arith)

-- a client that sends one byte at a time, and nothing that can be parsed
abbrev slowly : ℕ → ℕ → Result Text IoError
slowly n zero = ok []
slowly n (suc capacity) = ok (65 ∷ [])

abbrev result_length : Result Text IoError → ℕ
result_length (ok s) = length s
result_length (err e) = 0

slowly_fits :
    (n capacity : ℕ) (bytes : Text) → slowly n capacity ≡ ok bytes → length bytes ≤ capacity
slowly_fits n zero bytes h = let same : 0 ≡ length bytes = ap result_length h in omega (arith, same)
slowly_fits n (suc capacity) bytes h =
    let same : 1 ≡ length bytes = ap result_length h in omega (arith, same)

abbrev never : Text → Status
never buf = partial

read_client_header-Ends_example :
    Ends never (λ s. true) slowly (read_client_header never (λ s. true) slowly)
read_client_header-Ends_example = read_client_header-Ends never (λ s. true) slowly slowly_fits

abbrev package_order : DownloadOrder
package_order = record { requested_path = some_package; cacheability = cacheable }

abbrev some_provider : DownloadProvider
some_provider = record {
  uri = codes "https://mirror/";
  name = codes "m";
  mirror_results = record {
    total_time = 9;
    namelookup_duration = 2;
    connect_duration = 3;
    pretransfer_time = 4;
    starttransfer_time = 5;
  };
  country_code = codes "de";
}

abbrev some_job : DownloadJob
some_job = new_job some_provider package_order

abbrev some_properties : DownloadProperties
some_properties = record {
  connect_timeout = none;
  low_speed_limit = configured_by_user 1;
  low_speed_time_secs = configured_by_user 5;
  max_speed_limit = none;
}

abbrev half_loaded : DownloadState
half_loaded = record fresh_download { file = codes "abc"; size_written = 3 }

reopened : new_download_state package_order false (ok (codes "abc")) ≡ ok half_loaded
unfolding new_download_state is_cacheable
reopened = refl

half_loaded-IsSized : IsSized half_loaded
half_loaded-IsSized = refl

transfer-IsSized_example : IsSized (
    transfer answer_ok append_all text_length
      (on_header (codes "x") ∷ on_write (codes "de") ∷ [])
      half_loaded)
transfer-IsSized_example =
    transfer-IsSized answer_ok append_all text_length
      (on_header (codes "x") ∷ on_write (codes "de") ∷ []) half_loaded (λ file data'. refl)
      half_loaded-IsSized

reply_header-declared_example :
    (declared_length (reply_header (codes "206 Partial Content") 7 (some 3) cache (codes "today"))
      ≡ some 7)
    × (declared_start (reply_header (codes "206 Partial Content") 7 (some 3) cache (codes "today"))
        ≡ some 3)
reply_header-declared_example =
    reply_header-declared (codes "206 Partial Content") 7 (some 3) cache (codes "today") refl refl
      (omega arith) (omega arith)
