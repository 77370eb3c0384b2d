-- ===== src/Startup/Settings.antt =====
-- The start with settings from environment variables.
use flexo.Base.{
  ℕ, ◌≡◌, ◌≢◌, refl, sym, subst, ◌∙◌, Bool, true, List, Option, none, some, Option-cases, inl, inr,
}
use flexo.Base.Text.{Text}
use flexo.Mirrors.{MirrorsAutoConfig}
use flexo.Config.{MirrorConfig, MirrorSelectionMethod, auto, predefined}
use flexo.EnvConfig.Load.{
  ◌>>=◌, TomlParser, mirrors_auto_config_from_env, mirrors_auto_for, mirror_config_from_env,
  load_config, any_flexo,
}
use flexo.Startup.{auto_selection, selection_by, mirror_selection}

-- What holds of every result.
abbrev Ensures : {A : Type 0} → (A → Type 0) → Option A → Type 0
Ensures {A} P o = (a : A) → o ≡ some a → P a

>>=-Ensures :
    {A B : Type 0} (P : B → Type 0) (m : Option A) (f : A → Option B)
    → ((a : A) → m ≡ some a → Ensures P (f a))
    → Ensures P (m >>= f)
unfolding ◌>>=◌
>>=-Ensures P none f h b e = cc
>>=-Ensures P (some a) f h b e = h a refl b e

-- The result of a read is not looked at.
read :
    {A B : Type 0} {P : B → Type 0} (m : Option A) (f : A → Option B)
    → ((a : A) → Ensures P (f a))
    → Ensures P (m >>= f)
read {P} m f h = >>=-Ensures P m f (λ a e. h a)

some_path : {A : Type 0} {a b : A} → some a ≡ some b → a ≡ b
some_path h = cc

module _ {F : Type 0} (is_whitespace : ℕ → Bool) (toml : TomlParser F)
    (var : Text → Option Text) where
  -- The automatic choice has its settings, the other choice has none.
  pub record IsComplete (c : MirrorConfig F) : Type 0 where
    pub automatic :
        c.mirror_selection_method ≡ auto
        → (s : MirrorsAutoConfig F) × (c.mirrors_auto ≡ some s)
          × (mirrors_auto_config_from_env is_whitespace toml var ≡ some s)
    pub listed : c.mirror_selection_method ≡ predefined → c.mirrors_auto ≡ none

  mirrors_auto_for-IsComplete :
      (method : MirrorSelectionMethod) (settings : Option (MirrorsAutoConfig F))
      (c : MirrorConfig F)
      → mirrors_auto_for is_whitespace toml var method ≡ some settings
      → c.mirror_selection_method ≡ method
      → c.mirrors_auto ≡ settings
      → IsComplete c
  unfolding mirrors_auto_for
  mirrors_auto_for-IsComplete predefined settings c h method same = record {
    automatic = λ e. cc;
    listed = λ e. cc;
  }
  mirrors_auto_for-IsComplete auto settings c h method same =
      elim (Option-cases (mirrors_auto_config_from_env is_whitespace toml var)) [
        | inl failed ↦ cc (rw (failed, mirrors_auto_for) at h)
        | inr (s, read) ↦
            let found : some s ≡ settings = cc (rw (read, mirrors_auto_for) at h) in
            record { automatic = λ e. (s, same ∙ sym found, read); listed = λ e. cc }
      ]

  -- The settings that are read from the variables are complete.
  mirror_config_from_env-IsComplete :
      Ensures IsComplete (mirror_config_from_env is_whitespace toml var)
  unfolding mirror_config_from_env
  mirror_config_from_env-IsComplete = read _ _ λ directory. read _ _ λ fallback. read _ _ λ results.
      read _ _ λ address. read _ _ λ port. read _ _ λ method. read _ _ λ mirrors.
        read _ _ λ timeout. read _ _ λ limit. read _ _ λ formatted. read _ _ λ time.
          read _ _ λ speed. read _ _ λ refresh. read _ _ λ repos. read _ _ λ versions.
            >>=-Ensures IsComplete (mirrors_auto_for is_whitespace toml var method) _
              λ settings found c e.
                subst IsComplete (some_path e)
                  (mirrors_auto_for-IsComplete method settings _ found refl refl)

  complete_selection :
      (c : MirrorConfig F) (method : MirrorSelectionMethod)
      → c.mirror_selection_method ≡ method
      → IsComplete c
      → mirror_selection c ≢ none
  unfolding mirror_selection selection_by auto_selection
  complete_selection c predefined same k h = cc (rw same at h)
  complete_selection c auto same k h =
      let (s, there, _) = k.automatic same in cc (rw (same, there) at h)

  -- Settings that are loaded from environment variables, whatever the parser makes of them, and that have
  -- not made the start panic themselves: the automatic choice finds the settings that it unwraps, read
  -- from their own variables, and the choice of predefined mirrors has none.
  pub load_config-IsComplete :
      (keys : List Text) (from_toml : Option (MirrorConfig F)) (c : MirrorConfig F)
      → any_flexo keys ≡ true
      → load_config is_whitespace toml var keys from_toml ≡ some c
      → IsComplete c × (mirror_selection c ≢ none)
  unfolding load_config
  load_config-IsComplete keys from_toml c flexo h =
      let k = mirror_config_from_env-IsComplete c (rw flexo at h) in
      (k, complete_selection c c.mirror_selection_method refl k)
