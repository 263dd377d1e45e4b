-- ===== src/Minilibc/Strings/Compare.antt =====
-- strcmp and strncmp of src/vita/common/minilibc.c, and strcasecmp.c.
use mathlib.Core.List.{map}
use adr_bubble_booter_oss.Prelude.{
  ℕ, zero, suc, ◌+◌, ◌<◌, ◌≤◌, ◌≡◌, sym, ap₂, ◌∙◌, ◌⊎◌, inl, inr, Bool-cases, leb, ◌&&◌, ◌≢◌, refl,
  arith, List, [], ◌∷◌, some, length, ◌==◌, if◌then◌else◌, ℤ, pos, sub_ℕ, take, ◌↔◌,
}
use adr_bubble_booter_oss.Memory.{Mem, StrAt}
use adr_bubble_booter_oss.Minilibc.Strings.{strcmp, strncmp, strcasecmp, fold_case}

-- The difference of the first bytes that differ, the end of a string counting as zero.
unfoldable pub compare_bytes : List ℕ → List ℕ → ℤ
compare_bytes [] [] = pos 0
compare_bytes [] (y ∷ ys) = sub_ℕ 0 y
compare_bytes (x ∷ xs) [] = pos x
compare_bytes (x ∷ xs) (y ∷ ys) = if x == y then compare_bytes xs ys else sub_ℕ x y

pub strcmp-compare_bytes :
    (fuel : ℕ) (m : Mem) (a b : ℕ) (s t : List ℕ)
    → StrAt m a s
    → StrAt m b t
    → length s < fuel
    → strcmp fuel m a b ≡ some (compare_bytes s t)
unfolding strcmp compare_bytes
strcmp-compare_bytes zero m a b s t h k lt = absurd (omega arith)
strcmp-compare_bytes (suc f) m a b [] [] h k lt = ground arith
strcmp-compare_bytes (suc f) m a b [] (y ∷ t) h (e, nz, k) lt = ground arith
strcmp-compare_bytes (suc f) m a b (x ∷ s) [] (e, nz, h) k lt = ground arith
strcmp-compare_bytes (suc f) m a b (x ∷ s) (y ∷ t) (e, nz, h) (e', nz', k) lt =
    ground (arith, strcmp-compare_bytes f m (a + 1) (b + 1) s t h k (omega arith))

abbrev NonZero : List ℕ → Type 0
NonZero [] = Unit
NonZero (x ∷ xs) = (x ≢ 0) × NonZero xs

StrAt-NonZero : (m : Mem) (p : ℕ) (s : List ℕ) → StrAt m p s → NonZero s
StrAt-NonZero m p [] h = tt
StrAt-NonZero m p (c ∷ s) (e, nz, h) = (nz, StrAt-NonZero m (p + 1) s h)

compare_bytes_refl : (s : List ℕ) → compare_bytes s s ≡ pos 0
unfolding compare_bytes
compare_bytes_refl [] = refl
compare_bytes_refl (x ∷ s) = ground (arith, compare_bytes_refl s)

compare_bytes_eq : (s t : List ℕ) → NonZero s → NonZero t → compare_bytes s t ≡ pos 0 → s ≡ t
unfolding compare_bytes
compare_bytes_eq [] [] h k e = refl
compare_bytes_eq [] (y ∷ t) h k e = ground arith
compare_bytes_eq (x ∷ s) [] h k e = ground arith
compare_bytes_eq (x ∷ s) (y ∷ t) h k e = ground (arith, compare_bytes_eq s t h.1 k.1)

-- With fuel for the left string strcmp returns, and returns zero exactly for equal strings.
pub strcmp_iff :
    (fuel : ℕ) (m : Mem) (left right : ℕ) (s t : List ℕ)
    → StrAt m left s
    → StrAt m right t
    → length s < fuel
    → (r : ℤ) × (strcmp fuel m left right ≡ some r) × ((r ≡ pos 0) ↔ (s ≡ t))
strcmp_iff f m a b s t h k lt = (
  compare_bytes s t,
  strcmp-compare_bytes f m a b s t h k lt,
  (
    compare_bytes_eq s t (StrAt-NonZero m a s h) (StrAt-NonZero m b t k),
    λ e. rw (← e) (compare_bytes_refl s),
  ),
)

-- The result of strncmp is the difference of the first two bytes that differ among the first size
-- bytes of the strings, the end of a string counting as zero, and zero where none differ.
pub strncmp_lem :
    (size : ℕ) (m : Mem) (left right : ℕ) (s t : List ℕ)
    → StrAt m left s
    → StrAt m right t
    → strncmp m left right size ≡ compare_bytes (take size s) (take size t)
unfolding strncmp compare_bytes
strncmp_lem zero m a b s t h k = refl
strncmp_lem (suc n) m a b [] [] h k = ground arith
strncmp_lem (suc n) m a b [] (y ∷ t) h (e, nz, k) = ground arith
strncmp_lem (suc n) m a b (x ∷ s) [] (e, nz, h) k = ground arith
strncmp_lem (suc n) m a b (x ∷ s) (y ∷ t) (e, nz, h) (e', nz', k) =
    ground (arith, strncmp_lem n m (a + 1) (b + 1) s t h k)

fold_case_zero : (c : ℕ) → (fold_case c ≡ 0) ↔ (c ≡ 0)
unfolding fold_case
fold_case_zero c = ground arith

strcasecmp-fold_case :
    (fuel : ℕ) (m : Mem) (left right : ℕ) (s t : List ℕ)
    → StrAt m left s
    → StrAt m right t
    → length s < fuel
    → strcasecmp fuel m left right ≡ some (compare_bytes (map fold_case s) (map fold_case t))
unfolding strcasecmp compare_bytes
strcasecmp-fold_case zero m a b s t h k lt = absurd (omega arith)
strcasecmp-fold_case (suc f) m a b [] [] h k lt = unfold fold_case in ground arith
strcasecmp-fold_case (suc f) m a b [] (y ∷ t) h (e, nz, k) lt = unfold fold_case in ground arith
strcasecmp-fold_case (suc f) m a b (x ∷ s) [] (e, nz, h) k lt = unfold fold_case in ground arith
strcasecmp-fold_case (suc f) m a b (x ∷ s) (y ∷ t) (e, nz, h) (e', nz', k) lt =
    ground (arith, strcasecmp-fold_case f m (a + 1) (b + 1) s t h k (omega arith))

map-fold_case :
    (lower : ℕ → ℕ) (s : List ℕ) → ((c : ℕ) → fold_case c ≡ lower c) → map fold_case s ≡ map lower s
map-fold_case lower [] h = refl
map-fold_case lower (c ∷ s) h = ap₂ (◌∷◌) (h c) (map-fold_case lower s h)

-- Let `lower` add 32 to the bytes from 'A' to 'Z', both included, and leave every other byte. With
-- fuel for the left string strcasecmp returns, and its result is that of comparing the two strings
-- with `lower` applied to their bytes.
pub strcasecmp_lem :
    (fuel : ℕ) (m : Mem) (left right : ℕ) (s t : List ℕ) (lower : ℕ → ℕ)
    → ((c : ℕ) → b'A' ≤ c → c ≤ b'Z' → lower c ≡ c + 32)
    → ((c : ℕ) → (c < b'A') ⊎ (b'Z' < c) → lower c ≡ c)
    → StrAt m left s
    → StrAt m right t
    → length s < fuel
    → strcasecmp fuel m left right ≡ some (compare_bytes (map lower s) (map lower t))
unfolding fold_case
strcasecmp_lem fuel m left right s t lower upper rest h k lt =
    strcasecmp-fold_case fuel m left right s t h k lt
    ∙ ap₂ (λ a b. some (compare_bytes a b)) (map-fold_case lower s same)
        (map-fold_case lower t same)
  where
    same : (c : ℕ) → fold_case c ≡ lower c
    same c = elim (Bool-cases (leb b'A' c && leb c b'Z')) [
      | inl a ↦ rw a (sym (upper c (ground arith) (ground arith)))
      | inr a ↦ rw a (sym (rest c (ground arith)))
    ]
