-- ===== src/Cache/State.antt =====
-- The state of a cached file.
use flexo.Base.{
  ℕ, ◌^◌, ◌<◌, ◌≡◌, refl, ap, subst, ◌∙◌, Bool, false, Option, none, some, arith, length, ◌==◌,
  Bool-cases, Option-cases, inl, inr, ◌⊎◌,
}
use flexo.Base.Text.{Text}
use flexo.Base.Map.{get, get-remove}
use flexo.Job.{CachedItem}
use flexo.Cache.{
  FilePath, FilePath-discrete, Node, readable, unreadable, Files, Creation, written,
  cfs_path_from_pkg_path, get_complete_size_from_cfs_file, CacheState, panicked, state, cached_item,
  state_of, remove_if, persist_and_get_cache_state,
}
use flexo.Cache.Sizes.{cfs_path_ne, get_complete_size-create_cfs_file}

-- What the state of a file says: with an item, the file is there with the size given and its complete
-- size is known; without one, there is no such file afterwards, or an empty one that cannot be removed.
abbrev pub Describes : (FilePath → Bool) → FilePath → Option CachedItem → Files → Type 0
Describes can_remove path none files =
    (get FilePath-discrete path files ≡ none)
    ⊎ ((can_remove path ≡ false)
        × ((content : Text) × (length content ≡ 0)
            × (get FilePath-discrete path files ≡ some (readable content))))
Describes can_remove path (some item) files =
    (content : Text) × (complete : ℕ) × (get FilePath-discrete path files ≡ some (readable content))
    × (item ≡ cached_item complete (length content))

module _ (disk : FilePath → Creation) (can_remove : FilePath → Bool) (path : FilePath) where
  -- The answer, with what it says and with what a second call answers.
  pub record IsSettled (item : Option CachedItem) (files : Files) : Type 0 where
    pub describes : Describes can_remove path item files
    pub again : persist_and_get_cache_state disk can_remove path files ≡ state item files

  abbrev SettledOut : CacheState → Type 0
  SettledOut panicked = Unit
  SettledOut (state item files) = IsSettled item files

  known-IsSettled :
      (content : Text) (files : Files) (complete : ℕ)
      → get FilePath-discrete path files ≡ some (readable content)
      → get_complete_size_from_cfs_file path files ≡ some complete
      → IsSettled (some (cached_item complete (length content))) files
  unfolding persist_and_get_cache_state state_of
  known-IsSettled content files complete here known = record {
    describes = (content, complete, here, refl);
    again = rw (here, persist_and_get_cache_state) (rw (known, state_of) refl);
  }

  absent-IsSettled :
      (files : Files) → get FilePath-discrete path files ≡ none → IsSettled none files
  unfolding persist_and_get_cache_state
  absent-IsSettled files absent = record {
    describes = inl absent;
    again = rw (absent, persist_and_get_cache_state) refl;
  }

  kept-IsSettled :
      (content : Text) (files : Files)
      → can_remove path ≡ false
      → length content ≡ 0
      → get FilePath-discrete path files ≡ some (readable content)
      → get_complete_size_from_cfs_file path files ≡ none
      → IsSettled none files
  unfolding persist_and_get_cache_state state_of remove_if
  kept-IsSettled content files kept empty here unknown = record {
    describes = inr (kept, (content, empty, here));
    again = rw (here, persist_and_get_cache_state) (rw (unknown, empty, kept, state_of) refl);
  }

  removed-SettledOut :
      (content : Text) (files : Files)
      → length content ≡ 0
      → get FilePath-discrete path files ≡ some (readable content)
      → get_complete_size_from_cfs_file path files ≡ none
      → IsSettled none (remove_if (can_remove path) path files)
  unfolding remove_if
  removed-SettledOut content files empty here unknown = elim (Bool-cases (can_remove path)) [
    | inl gone ↦
        rw gone (absent-IsSettled _ (ground (arith, get-remove FilePath-discrete path path files)))
    | inr kept ↦ rw kept (kept-IsSettled content files kept empty here unknown)
  ]

  state_of-SettledOut :
      (content : Text) (files : Files)
      → disk (cfs_path_from_pkg_path path) ≡ written
      → get FilePath-discrete path files ≡ some (readable content)
      → length content < 2 ^ 64
      → SettledOut (state_of disk can_remove path (length content) files)
  unfolding state_of
  state_of-SettledOut content files ok here small =
      elim (Option-cases (get_complete_size_from_cfs_file path files)) [
        | inr (c, known) ↦ rw (known, state_of) (known-IsSettled content files c here known)
        | inl unknown ↦
            rw (unknown, state_of)
              (elim (Bool-cases (length content == 0)) [
                | inl empty ↦
                    rw empty (removed-SettledOut content files (ground arith) here unknown)
                | inr full ↦
                    (let (size, others) =
                        get_complete_size-create_cfs_file disk path (length content) files ok
                          small in
                      rw full (
                        known-IsSettled content _ (length content)
                          (others path (cfs_path_ne path) ∙ here) size))
              ])
      ]

  node-SettledOut :
      (node : Node) (files : Files)
      → disk (cfs_path_from_pkg_path path) ≡ written
      → get FilePath-discrete path files ≡ some node
      → ((content : Text) → node ≡ readable content → length content < 2 ^ 64)
      → SettledOut (persist_and_get_cache_state disk can_remove path files)
  unfolding persist_and_get_cache_state
  node-SettledOut unreadable files ok here small = rw (here, persist_and_get_cache_state) tt
  node-SettledOut (readable content) files ok here small =
      rw (here, persist_and_get_cache_state)
        (state_of-SettledOut content files ok here (small content refl))

  -- With a file below 2 ^ 64 bytes, and a disk that takes its `.cfs` file: an item says what is there, and no
  -- item that the file is not there any more, or is empty and cannot be removed; asking again gives the
  -- same answer and changes nothing.
  pub persist_and_get_cache_state-IsSettled :
      (files : Files) (item : Option CachedItem) (files' : Files)
      → disk (cfs_path_from_pkg_path path) ≡ written
      → ((content : Text)
          → get FilePath-discrete path files ≡ some (readable content)
          → length content < 2 ^ 64)
      → persist_and_get_cache_state disk can_remove path files ≡ state item files'
      → IsSettled item files'
  unfolding persist_and_get_cache_state
  persist_and_get_cache_state-IsSettled files item files' ok small e =
      subst SettledOut e (elim (Option-cases (get FilePath-discrete path files)) [
        | inl absent ↦ rw (absent, persist_and_get_cache_state) (absent-IsSettled files absent)
        | inr (node, here) ↦
            node-SettledOut node files ok here (λ content same. small content (here ∙ ap some same))
      ])
