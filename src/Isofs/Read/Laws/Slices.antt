-- ===== src/Isofs/Read/Laws/Slices.antt =====
-- The bytes that stand at a place of a disc.
use adr_bubble_booter_oss.Prelude.{
  ℕ, zero, suc, ◌+◌, ◌-◌, ◌≤◌, ◌≡◌, refl, ap, ◌∙◌, arith, List, [], ◌∷◌, ◌++◌, take, drop,
}

-- the bytes of a disc from `at` on
unfoldable pub slice : (ℕ → ℕ) → ℕ → ℕ → List ℕ
slice disc at zero = []
slice disc at (suc n) = disc at ∷ slice disc (suc at) n

pub slice-append :
    (disc : ℕ → ℕ) (at n k : ℕ) → slice disc at n ++ slice disc (at + n) k ≡ slice disc at (n + k)
unfolding slice
slice-append disc at zero k =
    let e : at + 0 ≡ at = omega arith in
    let z : k ≡ zero + k = omega arith in ap (λ x. slice disc x k) e ∙ ap (slice disc at) z
slice-append disc at (suc n) k =
    let e : at + suc n ≡ suc at + n = omega arith in
    let z : suc (n + k) ≡ suc n + k = omega arith in
    ap (λ x. slice disc at (suc n) ++ slice disc x k) e
    ∙ (ap (◌∷◌ (disc at)) (slice-append disc (suc at) n k) ∙ ap (slice disc at) z)

pub take-slice :
    (disc : ℕ → ℕ) (at n k : ℕ) (rest : List ℕ)
    → k ≤ n
    → take k (slice disc at n ++ rest) ≡ slice disc at k
unfolding slice
take-slice disc at n zero rest h = refl
take-slice disc at zero (suc k) rest h = absurd (omega arith)
take-slice disc at (suc n) (suc k) rest h =
    ap (◌∷◌ (disc at)) (take-slice disc (suc at) n k rest (omega arith))

pub drop-slice :
    (disc : ℕ → ℕ) (at n k : ℕ) (rest : List ℕ)
    → k ≤ n
    → drop k (slice disc at n ++ rest) ≡ slice disc (at + k) (n - k) ++ rest
unfolding slice
drop-slice disc at n zero rest h =
    let e : at ≡ at + zero = omega arith in
    let z : n ≡ n - zero = omega arith in
    ap (λ x. slice disc x n ++ rest) e ∙ ap (λ k. slice disc (at + zero) k ++ rest) z
drop-slice disc at zero (suc k) rest h = absurd (omega arith)
drop-slice disc at (suc n) (suc k) rest h =
    let e : suc at + k ≡ at + suc k = omega arith in
    let z : n - k ≡ suc n - suc k = omega arith in
    drop-slice disc (suc at) n k rest (omega arith)
    ∙ (ap (λ x. slice disc x (n - k) ++ rest) e ∙ ap (λ i. slice disc (at + suc k) i ++ rest) z)
