-- ===== src/Memory.antt =====
-- The byte memory that the C library routines of src/vita/common work on: an address holds a byte,
-- and a C string is the bytes from an address up to the first zero byte. Addresses are numbers and
-- are taken not to wrap round the end of the address space.
use adr_bubble_booter_oss.Prelude.{
  ℕ, zero, suc, ◌+◌, ◌≤◌, ◌<◌, ◌≡◌, ◌≢◌, List, [], ◌∷◌, arith, ◌==◌, if◌then◌else◌, length, take,
  drop, ◌⊎◌, sym, subst,
}

abbrev pub Mem : Type 0
Mem = ℕ → ℕ

-- `*p = v`
abbrev pub store : Mem → ℕ → ℕ → Mem
store m p v q = if q == p then v else m q

-- The bytes `s`, none of them zero, stand from `p` on, with a zero byte behind them.
abbrev pub StrAt : Mem → ℕ → List ℕ → Type 0
StrAt m p [] = m p ≡ 0
StrAt m p (c ∷ s) = (m p ≡ c) × (c ≢ 0) × StrAt m (p + 1) s

-- The memories agree on the `n` bytes from `p` on.
abbrev pub AgreeOn : Mem → Mem → ℕ → ℕ → Type 0
AgreeOn m m' p n = (q : ℕ) → p ≤ q → q < p + n → m' q ≡ m q

-- The memories agree outside the `n` bytes from `p` on.
abbrev pub AgreeOff : Mem → Mem → ℕ → ℕ → Type 0
AgreeOff m m' p n = (q : ℕ) → (q < p) ⊎ (p + n ≤ q) → m' q ≡ m q

pub StrAt-agree :
    (m m' : Mem) (p : ℕ) (s : List ℕ) → StrAt m p s → AgreeOn m m' p (length s + 1) → StrAt m' p s
StrAt-agree m m' p [] h a = omega (arith, a p (omega arith) (omega arith))
StrAt-agree m m' p (c ∷ s) (e, nz, h) a = (
  omega (arith, a p (omega arith) (omega arith)),
  nz,
  StrAt-agree m m' (p + 1) s h (λ q lo hi. a q (omega arith) (omega arith)),
)

-- A string has a string at each of its places.
pub StrAt-drop :
    (m : Mem) (p i : ℕ) (s : List ℕ) → StrAt m p s → i ≤ length s → StrAt m (p + i) (drop i s)
StrAt-drop m p zero s h le = let e : p + 0 ≡ p = omega arith in rw e h
StrAt-drop m p (suc i) [] h le = absurd (omega arith)
StrAt-drop m p (suc i) (c ∷ s) (e, nz, h) le =
    let a : p + suc i ≡ p + 1 + i = omega arith in rw a (StrAt-drop m (p + 1) i s h (omega arith))

-- A zero byte stored inside a string cuts it there.
pub StrAt-cut :
    (m : Mem) (p i : ℕ) (s : List ℕ)
    → StrAt m p s
    → i ≤ length s
    → StrAt (store m (p + i) 0) p (take i s)
StrAt-cut m p zero s h le = ground arith
StrAt-cut m p (suc i) [] h le = absurd (omega arith)
StrAt-cut m p (suc i) (c ∷ s) (e, nz, h) le =
    let a : p + suc i ≡ p + 1 + i = omega arith in
    (
      ground arith,
      nz,
      subst (λ k. StrAt (store m k 0) (p + 1) (take i s)) (sym a)
          (StrAt-cut m (p + 1) i s h (omega arith)),
    )
