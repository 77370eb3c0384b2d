-- ===== src/Paths/Files.antt =====
-- Which file is served for a path that a client asks for.
use flexo.Base.{
  ℕ, ◌≡◌, refl, Bool, true, false, List, [], ◌∷◌, ◌++◌, some, arith, all, Bool-cases, inl, inr,
}
use flexo.Base.Text.{Text, codes, text_eq, split}
use flexo.Paths.{
  slash, Component, component_of, body, is_absolute, components, join, StrPath, new_str_path,
  is_permitted, permitted_path, is_normal, valid_path, is_cacheable_path, new_order, filepath,
}
use flexo.Paths.Inside.{components_permitted, components-join}

abbrev pub is_name : Component → Bool
is_name c = is_normal (some c)

all-append_true :
    (f : Component → Bool) (cs ds : List Component)
    → all f (cs ++ ds) ≡ true
    → (all f cs ≡ true) × (all f ds ≡ true)
all-append_true f [] ds h = (refl, h)
all-append_true f (c ∷ cs) ds h = ground (arith, all-append_true f cs ds)

all-append_of :
    (f : Component → Bool) (cs ds : List Component)
    → all f cs ≡ true
    → all f ds ≡ true
    → all f (cs ++ ds) ≡ true
all-append_of f [] ds h k = k
all-append_of f (c ∷ cs) ds h k = ground (arith, all-append_of f cs ds)

-- A part between slashes that is permitted is a name.
component_of_names :
    (part : Text)
    → all is_permitted (component_of part) ≡ true
    → all is_name (component_of part) ≡ true
unfolding component_of
component_of_names [] h = refl
component_of_names (x ∷ xs) h = elim (Bool-cases (text_eq (x ∷ xs) (codes "."))) [
  | inl dot ↦ rw dot refl
  | inr other ↦ elim (Bool-cases (text_eq (x ∷ xs) (codes ".."))) [
    | inl dots ↦ cc (rw (other, dots) at h)
    | inr name ↦ rw (other, name) refl
  ]
]

body_names : (ps : List Text) → all is_permitted (body ps) ≡ true → all is_name (body ps) ≡ true
unfolding body
body_names [] h = refl
body_names (p ∷ ps) h =
    let (here, there) = all-append_true is_permitted (component_of p) (body ps) h in
    all-append_of is_name (component_of p) (body ps) (component_of_names p here)
      (body_names ps there)

-- The file of a cacheable order for a permitted path that is not absolute lies in the cache directory:
-- its components are those of the directory, and behind them only names.
pub filepath-new_order_inside :
    (x : ℕ) (base uuid : Text) (path : StrPath)
    → is_absolute path.inner ≡ false
    → permitted_path path.inner ≡ true
    → is_cacheable_path path ≡ true
    → (components (filepath (x ∷ base) (new_order uuid path))
        ≡ components (x ∷ base) ++ components path.inner)
      × (all is_name (components path.inner) ≡ true)
unfolding filepath new_order permitted_path
filepath-new_order_inside x base uuid path rel ok can =
    let e = components_permitted path.inner rel ok in
    rw (can, e)
      (components-join x base path.inner rel, body_names (split slash path.inner) (rw e at ok))

-- A path with two slashes in front passes the same tests as the absolute path behind the first of them,
-- and its file is that of the absolute path, wherever the cache directory is.
pub filepath-new_str_path_absolute :
    (cache_directory uuid s : Text)
    → permitted_path (slash ∷ s) ≡ true
    → valid_path (slash ∷ s) ≡ true
    → is_cacheable_path (record { inner = slash ∷ s }) ≡ true
    → (permitted_path (new_str_path (slash ∷ slash ∷ s)).inner ≡ true)
      × (valid_path (new_str_path (slash ∷ slash ∷ s)).inner ≡ true)
      × (filepath cache_directory (new_order uuid (new_str_path (slash ∷ slash ∷ s))) ≡ slash ∷ s)
unfolding filepath new_order new_str_path join is_absolute
filepath-new_str_path_absolute [] uuid s ok valid can = (ok, valid, rw can refl)
filepath-new_str_path_absolute (x ∷ base) uuid s ok valid can = (ok, valid, rw can refl)
