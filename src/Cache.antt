-- ===== src/Cache.antt =====
-- flexo/src/mirror_flexo.rs: files in the cache, and the hidden `.cfs` files beside them, which hold the
-- size that each file has when it is complete. No other process changes the files meanwhile.
pub mod Sizes
pub mod State
use flexo.Base.{
  ℕ, zero, suc, ◌+◌, ◌≡◌, refl, Bool, true, false, List, [], ◌∷◌, ◌++◌, Option, none, some, ◌==◌,
  all, length, if◌then◌else◌,
}
use flexo.Base.Text.{Text, Text-discrete, codes}
use flexo.Base.Decimal.{is_ascii_digit, parse_u64, to_decimal}
use flexo.Base.Map.{HashMap, get, insert, remove}
use flexo.Job.{CachedItem}

-- A path, by its directory and by its file name.
pub record FilePath : Type 0 where
  pub directory : Text
  pub file_name : Text

unfoldable pub FilePath-discrete : Discrete FilePath
unfolding Text-discrete
FilePath-discrete p q = elim (Text-discrete p.directory q.directory) [
  | no d ↦ no (λ e. d (λ i. (e i).directory))
  | yes d ↦ elim (Text-discrete p.file_name q.file_name) [
    | no n ↦ no (λ e. n (λ i. (e i).file_name))
    | yes n ↦ yes (λ i. record { directory = d i; file_name = n i })
  ]
]

-- A file with its bytes, or one that cannot be read.
pub data Node : Type 0 where
  readable : Text → Node
  unreadable : Node

abbrev pub Files : Type 0
Files = HashMap FilePath Node

-- What comes of creating and writing a file: it may fail before or after the file is there.
pub data Creation : Type 0 where
  written not_created not_written : Creation

unfoldable pub cfs_path_from_pkg_path : FilePath → FilePath
cfs_path_from_pkg_path path = record {
  directory = path.directory;
  file_name = codes "." ++ path.file_name ++ codes ".cfs";
}

abbrev pub newline : ℕ
newline = 10

-- the content of a `.cfs` file
unfoldable pub cfs_content : ℕ → Text
cfs_content complete_filesize = to_decimal complete_filesize ++ newline ∷ []

unfoldable pub create_cfs_file : (FilePath → Creation) → FilePath → ℕ → Files → Files
create_cfs_file disk path complete_filesize files =
    let cfs_path = cfs_path_from_pkg_path path in
    elim (disk cfs_path) [
      | not_created ↦ files
      | not_written ↦ insert FilePath-discrete cfs_path (readable []) files
      | written ↦ insert FilePath-discrete cfs_path (readable (cfs_content complete_filesize)) files
    ]

-- a text without its newline at the end
unfoldable pub without_newline : Text → Option Text
without_newline [] = none
without_newline (c ∷ []) = if c == newline then some [] else none
without_newline (c ∷ d ∷ s) = elim (without_newline (d ∷ s)) [ none ↦ none | some t ↦ some (c ∷ t) ]

unfoldable pub parse_line : Option Text → Option ℕ
parse_line none = none
parse_line (some t) = if all is_ascii_digit t then parse_u64 t else none

-- A single line of digits.
unfoldable pub parse_cfs : Text → Option ℕ
unfolding without_newline parse_line
parse_cfs s = parse_line (without_newline s)

unfoldable pub size_in : Option Node → Option ℕ
unfolding parse_cfs
size_in none = none
size_in (some unreadable) = none
size_in (some (readable s)) = parse_cfs s

unfoldable pub get_complete_size_from_cfs_file : FilePath → Files → Option ℕ
unfolding size_in
get_complete_size_from_cfs_file path files =
    size_in (get FilePath-discrete (cfs_path_from_pkg_path path) files)

-- A panic, or the state of the file and the files afterwards.
pub data CacheState : Type 0 where
  panicked : CacheState
  state : Option CachedItem → Files → CacheState

abbrev pub cached_item : ℕ → ℕ → CachedItem
cached_item complete_size cached_size = record {
  complete_size = some complete_size;
  cached_size = cached_size;
}

-- `remove_file`, whose error is ignored
unfoldable pub remove_if : Bool → FilePath → Files → Files
remove_if false path files = files
remove_if true path files = remove FilePath-discrete path files

-- what follows when the file was opened
unfoldable pub state_of :
    (FilePath → Creation) → (FilePath → Bool) → FilePath → ℕ → Files → CacheState
unfolding remove_if
state_of disk can_remove path file_size files = elim (get_complete_size_from_cfs_file path files) [
  | some s ↦ state (some (cached_item s file_size)) files
  | none ↦
      if file_size == 0
      then state none (remove_if (can_remove path) path files)
      else state (some (cached_item file_size file_size))
          (create_cfs_file disk path file_size files)
]

unfoldable pub persist_and_get_cache_state :
    (FilePath → Creation) → (FilePath → Bool) → FilePath → Files → CacheState
persist_and_get_cache_state disk can_remove path files = elim (get FilePath-discrete path files) [
  | none ↦ state none files
  | some file ↦ elim file [
    | unreadable ↦ panicked
    | readable content ↦ state_of disk can_remove path (length content) files
  ]
]

-- What `inspect_and_initialize_cache` sums up: sizes and number of files.
pub record Inspection : Type 0 where
  pub sum_size : ℕ
  pub count_cache_items : ℕ
  pub files : Files

abbrev is_hidden : Text → Bool
is_hidden [] = false
is_hidden (c ∷ s) = c == 46

abbrev add_item : Option CachedItem → Inspection → Inspection
add_item none i = i
add_item (some item) i = record i {
  sum_size = i.sum_size + item.cached_size;
  count_cache_items = i.count_cache_items + 1;
}

-- The walk over the files of the cache directory; `none` is a panic.
unfoldable pub inspect :
    (FilePath → Creation) → (FilePath → Bool) → List FilePath → Inspection → Option Inspection
inspect disk can_remove [] i = some i
inspect disk can_remove (path ∷ paths) i = elim (is_hidden path.file_name) [
  | true ↦ inspect disk can_remove paths i
  | false ↦ elim (persist_and_get_cache_state disk can_remove path i.files) [
    | panicked ↦ none
    | state item files ↦ inspect disk can_remove paths (add_item item (record i { files = files }))
  ]
]

unfoldable pub inspect_and_initialize_cache :
    (FilePath → Creation) → (FilePath → Bool) → List FilePath → Files → Option Inspection
unfolding inspect
inspect_and_initialize_cache disk can_remove paths files =
    inspect disk can_remove paths (record { sum_size = 0; count_cache_items = 0; files = files })
