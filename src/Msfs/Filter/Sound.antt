-- ===== src/Msfs/Filter/Sound.antt =====
-- The directory filter against a matching relation.
use adr_bubble_booter_oss.Prelude.{
  ℕ, zero, suc, ◌≡◌, arith, List, [], ◌∷◌, true, ◌||◌, ◌==◌, length, Bool-cases, inl, inr, ◌⊎◌,
  subst,
}
use adr_bubble_booter_oss.Msfs.Filter.{skip_wild, head, seek, filter_loop, is_end, directory_filter}

-- A star stands for any bytes, a question mark for one byte or none, another byte for itself.
pub data Matches : List ℕ → List ℕ → Type 0 where
  end : Matches [] []
  same : {p q : List ℕ} (c : ℕ) → Matches p q → Matches (c ∷ p) (c ∷ q)
  one : {p q : List ℕ} (c d : ℕ) → d ≡ b'?' → Matches p q → Matches (c ∷ p) (d ∷ q)
  nothing : {p q : List ℕ} (d : ℕ) → (d ≡ b'?') ⊎ (d ≡ b'*') → Matches p q → Matches p (d ∷ q)
  more : {p q : List ℕ} (c d : ℕ) → d ≡ b'*' → Matches p (d ∷ q) → Matches (c ∷ p) (d ∷ q)

skip_wild-Matches : (p q : List ℕ) → Matches p (skip_wild q) → Matches p q
unfolding skip_wild
skip_wild-Matches p [] h = h
skip_wild-Matches p (y ∷ q) h = elim (Bool-cases (y == b'*' || y == b'?')) [
  | inl e ↦ nothing y (ground arith) (skip_wild-Matches p q (rw e at h))
  | inr e ↦ rw e at h
]

-- what a star steps over
seek-Matches :
    (p : List ℕ) (c d : ℕ) (q : List ℕ) → d ≡ b'*' → Matches (seek p c) (d ∷ q) → Matches p (d ∷ q)
unfolding seek
seek-Matches [] c d q e h = h
seek-Matches (x ∷ p) c d q e h = elim (Bool-cases (x == c)) [
  | inl t ↦ rw t at h
  | inr t ↦ more x d e (seek-Matches p c d q e (rw t at h))
]

abbrev Accepts : List ℕ × List ℕ → Type 0
Accepts r = (is_end r.0 ≡ true) × (is_end (skip_wild r.1) ≡ true)

Accepts-Matches : (p q : List ℕ) → Accepts (p, q) → Matches p q
unfolding is_end
Accepts-Matches [] q h = skip_wild-Matches [] q (nil (skip_wild q) h.1)
  where
    nil : (s : List ℕ) → is_end s ≡ true → Matches [] s
    nil [] e = end
    nil (x ∷ s) e = cc
Accepts-Matches (x ∷ p) q h = cc

filter_loop-Matches : (fuel : ℕ) (p q : List ℕ) → Accepts (filter_loop fuel p q) → Matches p q
unfolding filter_loop is_end
filter_loop-Matches zero p q h = Accepts-Matches p q h
filter_loop-Matches (suc fuel) [] q h = Accepts-Matches [] q h
filter_loop-Matches (suc fuel) (x ∷ p) [] h = Accepts-Matches (x ∷ p) [] h
filter_loop-Matches (suc fuel) (x ∷ p) (y ∷ q) h = elim (Bool-cases (x == y || y == b'?')) [
  | inl e ↦ step (filter_loop-Matches fuel p q (rw (filter_loop, e) at h)) e
  | inr e ↦ elim (Bool-cases (y == b'*')) [
    | inl t ↦
        let p' = seek (x ∷ p) (head (skip_wild q)) in
        let star : Matches p' (skip_wild q) = elim (Bool-cases (head p' == head (skip_wild q))) [
          | inl u ↦ filter_loop-Matches fuel p' (skip_wild q) (rw (filter_loop, e, t, u) at h)
          | inr u ↦ Accepts-Matches p' (skip_wild q) (rw (filter_loop, e, t, u) at h)
        ] in
        seek-Matches (x ∷ p) (head (skip_wild q)) y q (ground arith)
          (nothing y (ground arith) (skip_wild-Matches p' q star))
    | inr t ↦ Accepts-Matches (x ∷ p) (y ∷ q) (rw (filter_loop, e, t) at h)
  ]
]
  where
    step : Matches p q → (x == y || y == b'?') ≡ true → Matches (x ∷ p) (y ∷ q)
    step m e = elim (Bool-cases (x == y)) [
      | inl u ↦ subst (λ k. Matches (x ∷ p) (k ∷ q)) (ground arith) (same x m)
      | inr u ↦ one x y (ground arith) m
    ]

-- A name that the directory filter accepts matches the filter: each star stands for some bytes, each
-- question mark for one byte or none, and each other byte for itself.
pub directory_filter-Matches :
    (name filter : List ℕ) → directory_filter name filter ≡ true → Matches name filter
unfolding directory_filter
directory_filter-Matches name filter h =
    filter_loop-Matches (length filter) name filter (ground arith)
