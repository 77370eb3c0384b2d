-- ===== src/Guards/Choice.antt =====
-- Which guard `get_provider_guard` hands out.
use flexo.Base.{
  ℕ, zero, suc, ◌+◌, ◌-◌, ◌≤◌, ◌<◌, ◌≡◌, refl, sym, ap, subst, ◌↔◌, ◌⊎◌, inl, inr, true, false,
  List, [], ◌∷◌, none, some, length, arith, All, Any, Any-All, get_elem?, Bool-cases,
}
use flexo.Guards.{
  Ord, ProviderChoice, include, exclude, ProviderGuard, Scored, Selected, guards_with_scores,
  better, min_from, clone_at, hand_out, pick, get_provider_guard,
}

module _ {P O : Type 0} (mirror_score : P → ℕ → ProviderChoice O) where
  abbrev pub choice : ProviderGuard P → ProviderChoice O
  choice g = mirror_score g.guarded_provider g.strong_count

  -- a scored entry stands in the vector, from place `k` on
  abbrev Stands : ℕ → List (ProviderGuard P) → Scored P O → Type 0
  Stands k gs s =
      (k ≤ s.index)
      × (get_elem? gs (s.index - k) ≡ some s.guard)
      × (choice s.guard ≡ include s.score)

  Stands-suc :
      (k : ℕ) (g : ProviderGuard P) (gs : List (ProviderGuard P)) (s : Scored P O)
      → Stands (suc k) gs s
      → Stands k (g ∷ gs) s
  Stands-suc k g gs s (h, e, c) = (omega arith, at, c)
    where
      at : get_elem? (g ∷ gs) (s.index - k) ≡ some s.guard
      at = let next : s.index - k ≡ suc (s.index - suc k) = omega arith in rw next e

  All-Stands-suc :
      (k : ℕ) (g : ProviderGuard P) (gs : List (ProviderGuard P)) (ss : List (Scored P O))
      → All (Stands (suc k) gs) ss
      → All (Stands k (g ∷ gs)) ss
  All-Stands-suc k g gs [] h = tt
  All-Stands-suc k g gs (s ∷ ss) (p, h) = (Stands-suc k g gs s p, All-Stands-suc k g gs ss h)

  choice_cases : (c : ProviderChoice O) → ((t : O) × (c ≡ include t)) ⊎ (c ≡ exclude)
  choice_cases (include t) = inl (t, refl)
  choice_cases exclude = inr refl

  here :
      (k : ℕ) (g : ProviderGuard P) (gs : List (ProviderGuard P))
      → get_elem? (g ∷ gs) (k - k) ≡ some g
  here k g gs = let e : k - k ≡ zero = omega arith in rw e

  scored_sound :
      (k : ℕ) (gs : List (ProviderGuard P))
      → All (Stands k gs) (guards_with_scores mirror_score k gs)
  unfolding guards_with_scores
  scored_sound k [] = tt
  scored_sound k (g ∷ gs) = elim (choice_cases (choice g)) [
    | inl (t, e) ↦
        rw (e, guards_with_scores)
          ((omega arith, here k g gs, e), All-Stands-suc k g gs _ (scored_sound (suc k) gs))
    | inr e ↦ rw (e, guards_with_scores) (All-Stands-suc k g gs _ (scored_sound (suc k) gs))
  ]

  -- every eligible guard is scored, at its place
  scored_complete :
      (k j n : ℕ) (gs : List (ProviderGuard P)) (g : ProviderGuard P) (t : O)
      → n ≡ k + j
      → get_elem? gs j ≡ some g
      → choice g ≡ include t
      → Any
          (λ (s : Scored P O). (s.index ≡ n) × (s.score ≡ t))
          (guards_with_scores mirror_score k gs)
  unfolding guards_with_scores
  scored_complete k j n [] g t at e c = cc
  scored_complete k zero n (h ∷ gs) g t at e c =
      let same : h ≡ g = cc in
      let c' : choice h ≡ include t = rw same c in
      rw (c', guards_with_scores) (inl (omega arith, refl))
  scored_complete k (suc j) n (h ∷ gs) g t at e c =
      let later = scored_complete (suc k) j n gs g t (omega arith) e c in
      elim (choice_cases (choice h)) [
        | inl (u, d) ↦ rw (d, guards_with_scores) (inr later)
        | inr d ↦ rw (d, guards_with_scores) later
      ]

  -- the places of the scored entries rise
  abbrev Ascending : List (Scored P O) → Type 0
  Ascending [] = Unit
  Ascending (s ∷ ss) = All (λ (r : Scored P O). s.index < r.index) ss × Ascending ss

  scored_above :
      (i k : ℕ) (gs : List (ProviderGuard P))
      → i < k
      → All (λ (r : Scored P O). i < r.index) (guards_with_scores mirror_score k gs)
  unfolding guards_with_scores
  scored_above i k [] h = tt
  scored_above i k (g ∷ gs) h = ground (arith, scored_above i (suc k) gs)

  scored-Ascending :
      (k : ℕ) (gs : List (ProviderGuard P)) → Ascending (guards_with_scores mirror_score k gs)
  unfolding guards_with_scores
  scored-Ascending k [] = tt
  scored-Ascending k (g ∷ gs) =
      ground (arith, scored_above k (suc k) gs (omega arith), scored-Ascending (suc k) gs)

  module _ ⦃o : Ord O⦄ where
    le_refl : (a : O) → o.le a a ≡ true
    le_refl a = elim (Bool-cases (o.le a a)) [ inl h ↦ h | inr h ↦ o.le_total a a h ]

    better-le :
        (best x : Scored P O)
        → (o.le (better best x).score best.score ≡ true)
          × (o.le (better best x).score x.score ≡ true)
    unfolding better
    better-le best x = elim (Bool-cases (o.le best.score x.score)) [
      | inl h ↦ rw h (le_refl best.score, h)
      | inr h ↦ rw h (o.le_total _ _ h, le_refl x.score)
    ]

    -- the result scores no worse than the start or any entry
    min_from-le :
        (best : Scored P O) (xs : List (Scored P O))
        → (o.le (min_from best xs).score best.score ≡ true)
          × All (λ (x : Scored P O). o.le (min_from best xs).score x.score ≡ true) xs
    unfolding min_from
    min_from-le best [] = (le_refl best.score, tt)
    min_from-le best (x ∷ xs) =
        let (to_start, rest) = min_from-le (better best x) xs in
        let (l, r) = better-le best x in
        (o.le_trans _ _ _ to_start l, (o.le_trans _ _ _ to_start r, rest))

    -- what holds of the start and of every entry holds of the result
    min_from-All :
        (Q : Scored P O → Type 0) (best : Scored P O) (xs : List (Scored P O))
        → Q best
        → All Q xs
        → Q (min_from best xs)
    unfolding min_from better
    min_from-All Q best [] h k = h
    min_from-All Q best (x ∷ xs) h (q, k) = elim (Bool-cases (o.le best.score x.score)) [
      | inl e ↦ rw e (min_from-All Q best xs h k)
      | inr e ↦ rw e (min_from-All Q x xs q k)
    ]

    -- an entry that stands before the result is strictly worse
    abbrev Worse : Scored P O → Scored P O → Type 0
    Worse r x = x.index < r.index → o.le x.score r.score ≡ false

    not_le-left : (a b c : O) → o.le a b ≡ false → o.le c b ≡ true → o.le a c ≡ false
    not_le-left a b c h k = elim (Bool-cases (o.le a c)) [
      | inl e ↦ cc (o.le_trans a c b e k)
      | inr e ↦ e
    ]

    not_le-right : (a b c : O) → o.le a b ≡ false → o.le a c ≡ true → o.le c b ≡ false
    not_le-right a b c h k = elim (Bool-cases (o.le c b)) [
      | inl e ↦ cc (o.le_trans a c b k e)
      | inr e ↦ e
    ]

    min_from_keep :
        (best x : Scored P O) (xs : List (Scored P O))
        → o.le best.score x.score ≡ true
        → min_from best (x ∷ xs) ≡ min_from best xs
    unfolding min_from better
    min_from_keep best x xs e = rw (e, min_from)

    min_from_swap :
        (best x : Scored P O) (xs : List (Scored P O))
        → o.le best.score x.score ≡ false
        → min_from best (x ∷ xs) ≡ min_from x xs
    unfolding min_from better
    min_from_swap best x xs e = rw (e, min_from)

    AllWorse : Scored P O → List (Scored P O) → Scored P O → Type 0
    AllWorse best xs r = Worse r best × All (Worse r) xs

    min_from-Worse :
        (best : Scored P O) (xs : List (Scored P O))
        → Ascending (best ∷ xs)
        → AllWorse best xs (min_from best xs)
    unfolding min_from AllWorse
    min_from-Worse best [] a = (λ h. absurd (omega arith), tt)
    min_from-Worse best (x ∷ xs) ((lt, above), (up, a)) =
        elim (Bool-cases (o.le best.score x.score)) [
          | inl e ↦
              let (first, rest) = min_from-Worse best xs (above, a) in
              subst (AllWorse best (x ∷ xs)) (sym (min_from_keep best x xs e))
                (first, (λ h. not_le-right _ _ _ (first (omega arith)) e, rest))
          | inr e ↦
              let (first, rest) = min_from-Worse x xs (up, a) in
              subst (AllWorse best (x ∷ xs)) (sym (min_from_swap best x xs e))
                (λ h. not_le-left _ _ _ e (min_from-le x xs).0, (first, rest))
        ]

    -- What the choice of place `i` with score `t` promises: it is eligible, no eligible provider
    -- scores less, and the eligible ones before it score more.
    pub record IsBest (gs : List (ProviderGuard P)) (i : ℕ) (p : P) : Type 0 where
      pub guard : ProviderGuard P
      pub score : O
      pub stands : get_elem? gs i ≡ some guard
      pub provider : guard.guarded_provider ≡ p
      pub eligible : choice guard ≡ include score
      pub least :
          (j : ℕ) (g : ProviderGuard P) (t : O)
          → get_elem? gs j ≡ some g
          → choice g ≡ include t
          → o.le score t ≡ true
      pub first :
          (j : ℕ) (g : ProviderGuard P) (t : O)
          → get_elem? gs j ≡ some g
          → choice g ≡ include t
          → j < i
          → o.le t score ≡ false

    min_from-IsBest :
        (gs : List (ProviderGuard P)) (x : Scored P O) (xs : List (Scored P O))
        → guards_with_scores mirror_score 0 gs ≡ x ∷ xs
        → IsBest gs (min_from x xs).index (min_from x xs).guard.guarded_provider
    unfolding AllWorse
    min_from-IsBest gs x xs e =
        let sound : All (Stands 0 gs) (x ∷ xs) = subst (All (Stands 0 gs)) e (scored_sound 0 gs) in
        let rising : Ascending (x ∷ xs) = subst Ascending e (scored-Ascending 0 gs) in
        let here = min_from-All (Stands 0 gs) x xs sound.0 sound.1 in
        let (to_start, to_rest) = min_from-le x xs in
        let (worse, worse_rest) = min_from-Worse x xs rising in
        let same : (min_from x xs).index - 0 ≡ (min_from x xs).index = omega arith in
        record {
          guard = (min_from x xs).guard;
          score = (min_from x xs).score;
          stands = rw same at here.1;
          provider = refl;
          eligible = here.2;
          least = λ j g t at c.
              Any-All (x ∷ xs) (scored_at j g t at c) (to_start, to_rest)
                (λ s (_, u) le. rw u at le);
          first = λ j g t at c before.
              Any-All (x ∷ xs) (scored_at j g t at c) (worse, worse_rest)
                (λ s (i, u) w. rw u at (w (rw i before)));
        }
      where
        scored_at :
            (j : ℕ) (g : ProviderGuard P) (t : O)
            → get_elem? gs j ≡ some g
            → choice g ≡ include t
            → Any (λ (s : Scored P O). (s.index ≡ j) × (s.score ≡ t)) (x ∷ xs)
        scored_at j g t at c =
            subst (Any (λ (s : Scored P O). (s.index ≡ j) × (s.score ≡ t))) e
              (scored_complete 0 j j gs g t (omega arith) at c)

    pick-eq-some :
        (gs : List (ProviderGuard P)) (ss : List (Scored P O)) {s : Selected P}
        → pick gs ss ≡ some s
        → (x : Scored P O) × (xs : List (Scored P O)) × (ss ≡ x ∷ xs)
          × (hand_out gs (length ss) (min_from x xs) ≡ s)
    unfolding pick
    pick-eq-some gs [] h = cc
    pick-eq-some gs (x ∷ xs) h = (x, xs, refl, cc)

    -- An inversion: a guard is handed out from a scored entry.
    pub get_provider_guard-eq-some :
        (gs : List (ProviderGuard P)) {s : Selected P}
        → get_provider_guard mirror_score gs ≡ some s
        → (x : Scored P O) × (xs : List (Scored P O)) × (guards_with_scores mirror_score 0 gs
            ≡ x ∷ xs)
          × (hand_out gs (length (guards_with_scores mirror_score 0 gs)) (min_from x xs) ≡ s)
    unfolding get_provider_guard
    get_provider_guard-eq-some gs h = pick-eq-some gs (guards_with_scores mirror_score 0 gs) h

    -- The guard handed out is the first of those with the least score among the eligible ones.
    pub get_provider_guard-IsBest :
        (gs : List (ProviderGuard P)) (s : Selected P)
        → get_provider_guard mirror_score gs ≡ some s
        → IsBest gs s.index s.provider
    get_provider_guard-IsBest gs s h =
        let (x, xs, e, same) = get_provider_guard-eq-some gs h in
        subst (λ (t : Selected P). IsBest gs t.index t.provider) same (min_from-IsBest gs x xs e)

    -- the vector afterwards, and the count of eligible providers
    pub get_provider_guard-clone_at :
        (gs : List (ProviderGuard P)) (s : Selected P)
        → get_provider_guard mirror_score gs ≡ some s
        → (s.guards ≡ clone_at s.index gs)
          × (s.num_remaining ≡ length (guards_with_scores mirror_score 0 gs))
    get_provider_guard-clone_at gs s h =
        let (x, xs, e, same) = get_provider_guard-eq-some gs h in
        subst
          (λ (t : Selected P).
            (t.guards ≡ clone_at t.index gs)
            × (t.num_remaining ≡ length (guards_with_scores mirror_score 0 gs)))
          same (refl, refl)

    pick-eq-none_iff :
        (gs : List (ProviderGuard P)) (ss : List (Scored P O)) → (pick gs ss ≡ none) ↔ (ss ≡ [])
    unfolding pick
    pick-eq-none_iff gs [] = ((λ _. refl), (λ _. refl))
    pick-eq-none_iff gs (x ∷ xs) = ((λ h. cc), (λ h. cc))

    pub length-scored_of_none :
        (gs : List (ProviderGuard P))
        → get_provider_guard mirror_score gs ≡ none
        → length (guards_with_scores mirror_score 0 gs) ≡ 0
    unfolding get_provider_guard
    length-scored_of_none gs h = ap length ((pick-eq-none_iff gs _).0 h)

    scored-eq-nil_iff :
        (k : ℕ) (gs : List (ProviderGuard P))
        → (guards_with_scores mirror_score k gs ≡ []) ↔ All (λ g. choice g ≡ exclude) gs
    unfolding guards_with_scores
    scored-eq-nil_iff k [] = ((λ _. tt), (λ _. refl))
    scored-eq-nil_iff k (g ∷ gs) = elim (choice_cases (choice g)) [
      | inl (t, e) ↦ rw (e, guards_with_scores) ((λ h. cc), (λ h. cc (h.0)))
      | inr e ↦
          rw (e, guards_with_scores)
            let (to, from) = scored-eq-nil_iff (suc k) gs in ((λ h. (refl, to h)), (λ h. from h.1))
    ]

    -- There is no guard to hand out, and the source panics, exactly when every provider is excluded.
    pub get_provider_guard-eq-none_iff :
        (gs : List (ProviderGuard P))
        → (get_provider_guard mirror_score gs ≡ none) ↔ All (λ g. choice g ≡ exclude) gs
    unfolding get_provider_guard
    get_provider_guard-eq-none_iff gs =
        let (a, b) = pick-eq-none_iff gs (guards_with_scores mirror_score 0 gs) in
        let (c, d) = scored-eq-nil_iff 0 gs in ((λ h. c (a h)), (λ h. b (d h)))
