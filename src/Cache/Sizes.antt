-- ===== src/Cache/Sizes.antt =====
-- The size in a `.cfs` file, written and read.
use flexo.Base.{ℕ, ◌^◌, ◌<◌, ◌≡◌, ◌≢◌, refl, ap, [], ◌∷◌, ◌++◌, some, arith, length, length-append}
use flexo.Base.Text.{Text, codes}
use flexo.Base.Decimal.{to_decimal, parse_u64-to_decimal, all-digits-to_decimal}
use flexo.Base.Map.{get, insert, get-insert}
use flexo.Cache.{
  FilePath, FilePath-discrete, readable, Files, Creation, written, cfs_path_from_pkg_path, newline,
  cfs_content, create_cfs_file, without_newline, parse_line, parse_cfs, size_in,
  get_complete_size_from_cfs_file,
}

pub without_newline-append : (s : Text) → without_newline (s ++ newline ∷ []) ≡ some s
unfolding without_newline
without_newline-append [] = refl
without_newline-append (c ∷ []) = refl
without_newline-append (c ∷ d ∷ s) = rw (without_newline-append (d ∷ s)) refl

-- What is written for a size of 64 bits is read as that size.
pub parse_cfs-cfs_content : (n : ℕ) → n < 2 ^ 64 → parse_cfs (cfs_content n) ≡ some n
unfolding parse_cfs cfs_content parse_line
parse_cfs-cfs_content n h =
    rw (without_newline-append (to_decimal n), all-digits-to_decimal n) (parse_u64-to_decimal n h)

-- The `.cfs` file has another name than its file.
pub cfs_path_ne : (path : FilePath) → path ≢ cfs_path_from_pkg_path path
unfolding cfs_path_from_pkg_path
cfs_path_ne path e =
    let same : length path.file_name ≡ length (codes "." ++ path.file_name ++ codes ".cfs") =
      ap (λ (p : FilePath). length p.file_name) e in
    omega (arith, same, length-append (codes "." ++ path.file_name) (codes ".cfs"))

pub create_cfs_file_written :
    (disk : FilePath → Creation) (path : FilePath) (n : ℕ) (files : Files)
    → disk (cfs_path_from_pkg_path path) ≡ written
    → create_cfs_file disk path n files
      ≡ insert FilePath-discrete (cfs_path_from_pkg_path path) (readable (cfs_content n)) files
unfolding create_cfs_file
create_cfs_file_written disk path n files ok = rw (ok, create_cfs_file) refl

-- A `.cfs` file that could be written gives back the size of 64 bits that it was created with, and the
-- other files are as they were.
pub get_complete_size-create_cfs_file :
    (disk : FilePath → Creation) (path : FilePath) (n : ℕ) (files : Files)
    → disk (cfs_path_from_pkg_path path) ≡ written
    → n < 2 ^ 64
    → (get_complete_size_from_cfs_file path (create_cfs_file disk path n files) ≡ some n)
      × ((other : FilePath)
          → other ≢ cfs_path_from_pkg_path path
          → get FilePath-discrete other (create_cfs_file disk path n files)
            ≡ get FilePath-discrete other files)
unfolding get_complete_size_from_cfs_file size_in
get_complete_size-create_cfs_file disk path n files ok small =
    let cfs = cfs_path_from_pkg_path path in
    let value = readable (cfs_content n) in
    rw (create_cfs_file_written disk path n files ok) (
      ground
          (arith, get-insert FilePath-discrete cfs cfs value files, parse_cfs-cfs_content n small),
      λ other ne. ground (arith, get-insert FilePath-discrete other cfs value files),
    )
