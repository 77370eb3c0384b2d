-- ===== src/EnvConfig/CustomRepos.antt =====
-- Custom repositories, written and read.
use flexo.Base.{
  ℕ, ◌==◌, ◌≡◌, refl, ap, ◌∙◌, Bool, true, false, not, List, [], ◌∷◌, ◌++◌, some, arith, all, All,
}
use flexo.Base.Text.{Text, split, split-append, split_without}
use flexo.Config.{CustomRepo}
use flexo.EnvConfig.{split_once, repo_of, collect_repos, custom_repos_from_env}

-- How a repository is written, and several of them with spaces in between.
abbrev pub repo_text : CustomRepo → Text
repo_text r = r.name ++ 64 ∷ r.url

abbrev pub repos_text : CustomRepo → List CustomRepo → Text
repos_text r [] = repo_text r
repos_text r (s ∷ rs) = repo_text r ++ 32 ∷ repos_text s rs

-- No space in a text.
abbrev pub is_word : Text → Bool
is_word = all (λ x. not (x == 32))

-- A repository whose name has no at sign, and that has no space.
pub record IsWritable (r : CustomRepo) : Type 0 where
  pub no_at : all (λ x. not (x == 64)) r.name ≡ true
  pub name_word : is_word r.name ≡ true
  pub url_word : is_word r.url ≡ true

split_once-append :
    (c : ℕ) (s t : Text)
    → all (λ x. not (x == c)) s ≡ true
    → split_once c (s ++ c ∷ t) ≡ some (s, t)
unfolding split_once
split_once-append c [] t h = let same : (c == c) ≡ true = ground arith in rw same refl
split_once-append c (x ∷ s) t h =
    let (first, rest) : ((x == c) ≡ false) × (all (λ y. not (y == c)) s ≡ true) = ground arith in
    rw (first, split_once-append c s t rest) refl

word_append : (s t : Text) → is_word s ≡ true → is_word t ≡ true → is_word (s ++ 64 ∷ t) ≡ true
word_append [] t h k = k
word_append (c ∷ s) t h k = ground (arith, word_append s t)

repo_back : (r : CustomRepo) → IsWritable r → repo_of (split_once 64 (repo_text r)) ≡ some r
unfolding repo_of
repo_back r h = rw (split_once-append 64 r.name r.url h.no_at) refl

split-repos_text :
    (r : CustomRepo) (rs : List CustomRepo)
    → IsWritable r
    → All IsWritable rs
    → collect_repos (split 32 (repos_text r rs)) ≡ some (r ∷ rs)
unfolding collect_repos
split-repos_text r [] h hs =
    rw
      (
        split_without 32 (repo_text r) (word_append r.name r.url h.name_word h.url_word),
        repo_back r h,
      )
      refl
split-repos_text r (s ∷ rs) h (k, ks) =
    let word = word_append r.name r.url h.name_word h.url_word in
    let parts =
      split-append 32 (repo_text r) (repos_text s rs)
      ∙ ap (λ ps. ps ++ split 32 (repos_text s rs)) (split_without 32 (repo_text r) word) in
    ap collect_repos parts ∙ rw (repo_back r h, split-repos_text s rs k ks) refl

-- Repositories without spaces, whose names have no at sign, are read from their text as they are: names and
-- URLs with at signs in between, one behind the other with spaces in between.
pub custom_repos_from_env-repos_text :
    (r : CustomRepo) (rs : List CustomRepo)
    → IsWritable r
    → All IsWritable rs
    → custom_repos_from_env (some (repos_text r rs)) ≡ some (r ∷ rs)
unfolding custom_repos_from_env
custom_repos_from_env-repos_text r rs h hs = split-repos_text r rs h hs
