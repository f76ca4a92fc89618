-- ===== src/Recovery/Cache.antt =====
-- The cache of the partitions that `RecoveryBundle::new_builder` shares (src/recovery.rs).
use bytewax.Prelude.{
  ℕ, ◌==◌, ==_iff, ◌≡◌, refl, sym, Bool, ap, subst, ◌∙◌, true, false, none, some, List, [], ◌∷◌,
  arith, All, All-map, Pairs, Bool-cases, Option-cases, inl, inr,
}
use bytewax.Prelude.Order.Ord.{ℕ_ord}
use bytewax.Prelude.Order.Map.{lookup, insert, lookup-insert}
use bytewax.Recovery.Bundle.{Bundle, build_part, build_parts}

self : (k : ℕ) → (k == k) ≡ true
self k = (==_iff k k).1 refl

module _ {F : Type 0} where
  -- What is built is opened at its path; each partition was opened once.
  pub record IsCached (b : Bundle F) : Type 0 where
    pub known : (k : ℕ) (f : F) → lookup k b.built_parts ≡ some f → lookup k b.paths ≡ some f
    pub built : All (λ k. (f : F) × (lookup k b.built_parts ≡ some f)) b.opened
    pub once : Pairs (λ j k. (j == k) ≡ false) b.opened

  -- The handles are those of the paths.
  abbrev pub IsOpenedAt : List (ℕ × F) → List ℕ → List F → Type 0
  IsOpenedAt paths [] [] = Unit
  IsOpenedAt paths [] (f ∷ fs) = ⊥
  IsOpenedAt paths (k ∷ ks) [] = ⊥
  IsOpenedAt paths (k ∷ ks) (f ∷ fs) = (lookup k paths ≡ some f) × IsOpenedAt paths ks fs

  abbrev IsBuilt : List (ℕ × F) → ℕ → Type 0
  IsBuilt m k = (f : F) × (lookup k m ≡ some f)

  IsBuilt-insert :
      (k : ℕ) (f : F) (m : List (ℕ × F)) (ks : List ℕ)
      → All (IsBuilt m) ks
      → All (IsBuilt (insert k f m)) ks
  IsBuilt-insert k f m = All-map (IsBuilt m) λ j (g, found). elim (Bool-cases (k == j)) [
    | inl same ↦ (f, rw (lookup-insert k j f m, same) refl)
    | inr other ↦ (g, rw (lookup-insert k j f m, other) found)
  ]

  apart :
      (k : ℕ) (m : List (ℕ × F)) (ks : List ℕ)
      → lookup k m ≡ none
      → All (IsBuilt m) ks
      → All (λ j. (k == j) ≡ false) ks
  apart k m ks absent =
      All-map (IsBuilt m)
        (λ j (g, found). elim (Bool-cases (k == j)) [
          | inl same ↦
              let e = ap (λ i. lookup i m) ((==_iff k j).0 same) in absurd (cc (absent, e, found))
          | inr other ↦ other
        ])
        ks

module _ {F : Type 0} (opens : F → Bool) where
  build_part-IsCached :
      (k : ℕ) (b : Bundle F) (f : F)
      → IsCached b
      → lookup k b.paths ≡ some f
      → opens f ≡ true
      → (b' : Bundle F) × (build_part opens k b ≡ some (f, b')) × IsCached b' × (b'.paths ≡ b.paths)
  unfolding build_part
  build_part-IsCached k b f c path opened = elim (Option-cases (lookup k b.built_parts)) [
    | inr (g, e) ↦
        let same : some g ≡ some f = sym (c.known k g e) ∙ path in
        (b, rw (e, build_part) (cc same), c, refl)
    | inl e ↦ (
      record b { built_parts = insert k f b.built_parts; opened = k ∷ b.opened },
      rw (e, build_part, path, opened) refl,
      record {
        known = λ j h found. ground (
          arith,
          lookup-insert k j f b.built_parts,
          c.known j h,
          (==_iff k j).0,
          ap (λ i. lookup i b.paths),
          path,
        );
        built = (
          (f, rw (lookup-insert k k f b.built_parts, self k) refl),
          IsBuilt-insert k f b.built_parts b.opened c.built,
        );
        once = (apart k b.built_parts b.opened e c.built, c.once);
      },
      refl,
    )
  ]

  build_parts-IsCached :
      (ks : List ℕ) (b : Bundle F)
      → IsCached b
      → All (λ k. (f : F) × (lookup k b.paths ≡ some f) × (opens f ≡ true)) ks
      → (fs : List F) × (b' : Bundle F) × (build_parts opens ks b ≡ some (fs, b'))
        × IsCached b'
        × IsOpenedAt b.paths ks fs
  unfolding build_parts
  build_parts-IsCached [] b c h = ([], b, refl, c, tt)
  build_parts-IsCached (k ∷ ks) b c ((f, path, here), h) =
      let (b₁, runs, c₁, same) = build_part-IsCached k b f c path here in
      let (fs, b₂, later, c₂, opened) = build_parts-IsCached ks b₁ c₁ (
        subst (λ paths. All (λ k. (f : F) × (lookup k paths ≡ some f) × (opens f ≡ true)) ks)
          (sym same) h) in
      (
        f ∷ fs,
        b₂,
        rw (runs, later) refl,
        c₂,
        (path, subst (λ paths. IsOpenedAt paths ks fs) same opened),
      )

  -- However often and in whatever order partitions are requested whose paths are known and whose
  -- databases can be opened, nothing panics, each request yields the partition at its path, and no partition is opened twice.
  pub build_parts-once :
      (paths : List (ℕ × F)) (ks : List ℕ)
      → All (λ k. (f : F) × (lookup k paths ≡ some f) × (opens f ≡ true)) ks
      → (fs : List F) × (b : Bundle F) × (build_parts opens ks
            (record { paths = paths; built_parts = []; opened = [] })
          ≡ some (fs, b))
        × IsOpenedAt paths ks fs
        × Pairs (λ j k. (j == k) ≡ false) b.opened
  unfolding lookup
  build_parts-once paths ks h =
      let (fs, b, runs, c, opened) =
        build_parts-IsCached ks (record { paths = paths; built_parts = []; opened = [] })
          (record { known = λ k f e. absurd (cc e); built = tt; once = tt }) h in
      (fs, b, runs, opened, c.once)
