-- ===== src/Recovery/Progress.antt =====
-- The progress of the workers that `resume_from` (src/recovery.rs) goes by: where the least of it comes
-- from.
use mathlib.Core.Bool.{false≢true}
use bytewax.Prelude.{
  ℕ, zero, suc, ◌+◌, ◌≤◌, ◌<◌, ◌≡◌, refl, sym, ap, ◌∙◌, ◌⊎◌, ◌==◌, ==_iff, Bool, true, false, some,
  List, [], ◌∷◌, ◌++◌, map, filter, if◌then◌else◌, arith, Any, Any-map, Any-filter,
  Any-append_right, Bool-cases, Option-cases, inl, inr,
}
use bytewax.Recovery.Tables.{ExecutionMeta, FrontierMeta}
use bytewax.Recovery.Resume.{
  has, distinct, count_from, min_ℕ, find_ex, progress, max_progress, min_progress,
}
use bytewax.Recovery.Extremes.{maximum-member}
use bytewax.Recovery.Rows.{Any-unmap, Any-unfilter, maximum_of}

pub has-Any : (n : ℕ) (ns : List ℕ) → has n ns ≡ true → Any (λ m. m ≡ n) ns
unfolding has
has-Any n [] h = absurd (false≢true h)
has-Any n (m ∷ ms) h = elim (Bool-cases (n == m)) [
  | inl same ↦ inl (sym ((==_iff n m).0 same))
  | inr other ↦ inr (has-Any n ms (ground (arith, h, other)))
]

pub distinct-Any : (n : ℕ) (ns : List ℕ) → Any (λ m. m ≡ n) ns → Any (λ m. m ≡ n) (distinct ns)
unfolding distinct
distinct-Any n [] at = elim at [ ]
distinct-Any n (m ∷ ms) (inl here) = elim (Bool-cases (has m ms)) [
  | inl again ↦ rw (again, distinct) (distinct-Any n ms (rw (← here) (has-Any m ms again)))
  | inr first ↦ rw (first, distinct) (inl here)
]
distinct-Any n (m ∷ ms) (inr there) = elim (Bool-cases (has m ms)) [
  | inl again ↦ rw (again, distinct) (distinct-Any n ms there)
  | inr first ↦ rw (first, distinct) (inr (distinct-Any n ms there))
]

-- The least progress is at or before that of each worker, and there is one where a worker has some.
min_progress-le :
    (rows : List (ℕ × ℕ)) (ws : List ℕ) (w m : ℕ)
    → Any (λ x. x ≡ w) ws
    → max_progress rows w ≡ some m
    → (l : ℕ) × (min_progress rows ws ≡ some l) × (l ≤ m)
unfolding min_progress
min_progress-le rows [] w m at e = elim at [ ]
min_progress-le rows (v ∷ vs) w m (inl here) e =
    let found = ap (max_progress rows) here ∙ e in
    elim (Option-cases (min_progress rows vs)) [
      | inl nil ↦ (m, rw (min_progress, found, nil) refl, omega arith)
      | inr (l, f) ↦ (min_ℕ m l, rw (min_progress, found, f) refl, ground arith)
    ]
min_progress-le rows (v ∷ vs) w m (inr there) e =
    let (l, f, le) = min_progress-le rows vs w m there e in
    elim (Option-cases (max_progress rows v)) [
      | inl nil ↦ (l, rw (min_progress, nil, f) refl, le)
      | inr (k, g) ↦ (min_ℕ k l, rw (min_progress, g, f) refl, ground (arith, le))
    ]

max_progress-Any :
    (rows : List (ℕ × ℕ)) (w m : ℕ)
    → max_progress rows w ≡ some m
    → Any (λ r. (r.1 ≡ m) × (r.0 ≡ w)) rows
unfolding max_progress
max_progress-Any rows w m e =
    Any-map (λ (r : ℕ × ℕ). (r.1 ≡ m) × ((r.0 == w) ≡ true)) (λ r h. (h.0, (==_iff r.0 w).0 h.1))
      rows
      (Any-unfilter (λ r. r.0 == w) (λ r. r.1 ≡ m) rows
        (Any-unmap (λ r. r.1) m _ (maximum-member _ m e)))

max_progress-some :
    (rows : List (ℕ × ℕ)) (w n : ℕ)
    → Any (λ r. r ≡ (w, n)) rows
    → (m : ℕ) × (max_progress rows w ≡ some m)
unfolding max_progress
max_progress-some rows w n at =
    maximum_of (λ r. r ≡ (w, n)) (λ r. r.1) (filter (λ r. r.0 == w) rows)
      (Any-filter (λ r. r.0 == w) (λ r. r ≡ (w, n)) rows
        (Any-map (λ r. r ≡ (w, n)) (λ r h. ((==_iff r.0 w).1 (ap (λ x. x.0) h), h)) rows at))

pub count_from-Any : (i n j : ℕ) → i ≤ j → j < i + n → Any (λ k. k ≡ j) (count_from i n)
unfolding count_from
count_from-Any i zero j le lt = absurd (omega (arith, le, lt))
count_from-Any i (suc n) j le lt = elim (Bool-cases (i == j)) [
  | inl same ↦ inl ((==_iff i j).0 same)
  | inr other ↦ inr (count_from-Any (suc i) n j (ground (arith, other)) (omega (arith, lt)))
]

module _ {A : Type 0} where
  Any-append_cases : (P : A → Type 0) (xs ys : List A) → Any P (xs ++ ys) → Any P xs ⊎ Any P ys
  Any-append_cases P [] ys at = inr at
  Any-append_cases P (x ∷ xs) ys (inl here) = inl (inl here)
  Any-append_cases P (x ∷ xs) ys (inr there) = elim (Any-append_cases P xs ys there) [
    | inl left ↦ inl (inr left)
    | inr right ↦ inr right
  ]

  pub Any-of_map :
      {B : Type 0} (P : B → Type 0) (f : A → B) (xs : List A)
      → Any P (map f xs)
      → Any (λ x. P (f x)) xs
  Any-of_map P f [] at = elim at [ ]
  Any-of_map P f (x ∷ xs) (inl here) = inl here
  Any-of_map P f (x ∷ xs) (inr there) = inr (Any-of_map P f xs there)

  Any-elim : {P : A → Type 0} {C : Type 0} → ((x : A) → P x → C) → (xs : List A) → Any P xs → C
  Any-elim h [] at = elim at [ ]
  Any-elim h (x ∷ xs) (inl here) = h x here
  Any-elim h (x ∷ xs) (inr there) = Any-elim h xs there

pub map-Any :
    {A B : Type 0} (f : A → B) (a : A) (xs : List A)
    → Any (λ x. x ≡ a) xs
    → Any (λ y. y ≡ f a) (map f xs)
map-Any f a [] at = elim at [ ]
map-Any f a (x ∷ xs) (inl here) = inl (ap f here)
map-Any f a (x ∷ xs) (inr there) = inr (map-Any f a xs there)

pub find_ex-Any :
    (n : ℕ) (es : List ExecutionMeta) (e : ExecutionMeta)
    → find_ex n es ≡ some e
    → Any (λ x. x ≡ e) es × (e.ex_num ≡ n)
unfolding find_ex
find_ex-Any n [] e found = cc found
find_ex-Any n (x ∷ xs) e found = go (x.ex_num == n) refl (find_ex-Any n xs e) found
  where
    go :
        (b : Bool)
        → (x.ex_num == n) ≡ b
        → (find_ex n xs ≡ some e → Any (λ y. y ≡ e) xs × (e.ex_num ≡ n))
        → (if b then some x else find_ex n xs) ≡ some e
        → Any (λ y. y ≡ e) (x ∷ xs) × (e.ex_num ≡ n)
    go true same ih f =
        let x_e : x ≡ e = cc f in
        (inl x_e, ap (λ (y : ExecutionMeta). y.ex_num) (sym x_e) ∙ (==_iff x.ex_num n).0 same)
    go false other ih f = let (at, eq) = ih f in (inr at, eq)

default-row :
    (e : ExecutionMeta) (fronts : List FrontierMeta) (w : ℕ)
    → w < e.worker_count
    → Any (λ r. r ≡ (w, e.resume_epoch)) (progress e fronts)
unfolding progress
default-row e fronts w lt =
    Any-append_right (λ r. r ≡ (w, e.resume_epoch)) _ _
      (map-Any (λ i. (i, e.resume_epoch)) w (count_from 0 e.worker_count)
        (count_from-Any 0 e.worker_count w (omega arith) (omega (arith, lt))))

-- Where the worker's progress comes from: its frontier of the execution, or the resume epoch.
max_progress-source :
    (e : ExecutionMeta) (fronts : List FrontierMeta) (w m : ℕ)
    → max_progress (progress e fronts) w ≡ some m
    → (m ≡ e.resume_epoch)
      ⊎ Any (λ f. (f.ex_num ≡ e.ex_num) × (f.worker_index ≡ w) × (f.worker_frontier ≡ m)) fronts
unfolding progress
max_progress-source e fronts w m found =
    elim (Any-append_cases (λ (r : ℕ × ℕ). (r.1 ≡ m) × (r.0 ≡ w)) _ _
      (max_progress-Any (progress e fronts) w m found)) [
        | inl explicit ↦ inr (
            Any-map _ (λ f h. ((==_iff f.ex_num e.ex_num).0 h.1, h.0.1, h.0.0)) fronts
              (Any-unfilter (λ f. f.ex_num == e.ex_num)
                (λ f. (f.worker_frontier ≡ m) × (f.worker_index ≡ w)) fronts
                (Any-of_map (λ (r : ℕ × ℕ). (r.1 ≡ m) × (r.0 ≡ w))
                  (λ (f : FrontierMeta). (f.worker_index, f.worker_frontier)) _ explicit)))
        | inr default ↦ inl (
            Any-elim (λ i h. sym h.0) (count_from 0 e.worker_count)
              (Any-of_map (λ (r : ℕ × ℕ). (r.1 ≡ m) × (r.0 ≡ w)) (λ i. (i, e.resume_epoch)) _
                default))
      ]

-- The resume epoch is at or before the progress of each worker of the execution.
pub min_progress-worker :
    (e : ExecutionMeta) (fronts : List FrontierMeta) (w : ℕ)
    → w < e.worker_count
    → (l : ℕ) × (min_progress (progress e fronts) (distinct (map (λ r. r.0) (progress e fronts)))
        ≡ some l)
      × ((l ≤ e.resume_epoch)
          ⊎ Any
              (λ f. (f.ex_num ≡ e.ex_num) × (f.worker_index ≡ w) × (l ≤ f.worker_frontier))
              fronts)
min_progress-worker e fronts w lt =
    let rows = progress e fronts in
    let at = default-row e fronts w lt in
    let (m, found) = max_progress-some rows w e.resume_epoch at in
    let (l, least, le) =
      min_progress-le rows (distinct (map (λ r. r.0) rows)) w m
        (distinct-Any w _ (map-Any (λ r. r.0) (w, e.resume_epoch) rows at)) found in
    (
      l,
      least,
      elim (max_progress-source e fronts w m found) [
        | inl at_resume ↦ inl (omega (arith, at_resume, le))
        | inr at_front ↦ inr (Any-map _ (λ f h. (h.0, h.1, omega (arith, h.2, le))) fronts at_front)
      ],
    )
