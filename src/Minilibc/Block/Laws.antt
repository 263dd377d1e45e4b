-- ===== src/Minilibc/Block/Laws.antt =====
-- What memset and memcpy of src/vita/common/minilibc.c leave at each address.
use adr_bubble_booter_oss.Prelude.{
  ℕ, zero, suc, ◌+◌, ◌%◌, ◌≤◌, ◌<◌, ◌≡◌, arith, ltb, leb, ◌&&◌, if◌then◌else◌, ◌⊎◌, ◌∙◌,
}
use adr_bubble_booter_oss.Memory.{Mem, store, AgreeOff}
use adr_bubble_booter_oss.Minilibc.Block.{memset, memcpy}

-- memset leaves the low byte of the value at each of the size addresses, and every other byte as
-- it was.
pub memset_lem :
    (m : Mem) (destination value size q : ℕ)
    → memset m destination value size q
      ≡ (if leb destination q && ltb q (destination + size) then value % 256 else m q)
unfolding memset
memset_lem m d v zero q = ground arith
memset_lem m d v (suc n) q = ground (arith, memset_lem (store m d (v % 256)) (d + 1) v n q)

pub memcpy-AgreeOff : (m : Mem) (d s size : ℕ) → AgreeOff m (memcpy m d s size) d size
unfolding memcpy
memcpy-AgreeOff m d s zero q h = ground arith
memcpy-AgreeOff m d s (suc n) q h =
    ground (arith, memcpy-AgreeOff (store m d (m s)) (d + 1) (s + 1) n q (omega arith))

memcpy_copies :
    (m : Mem) (d s size k : ℕ)
    → (d ≤ s) ⊎ (s + size ≤ d)
    → k < size
    → memcpy m d s size (d + k) ≡ m (s + k)
unfolding memcpy
memcpy_copies m d s zero k h lt = absurd (omega arith)
memcpy_copies m d s (suc n) zero h lt =
    let a : d + 0 ≡ d = omega arith in
    let b : s + 0 ≡ s = omega arith in
    rw (a, b) (ground (arith, memcpy-AgreeOff (store m d (m s)) (d + 1) (s + 1) n d (omega arith)))
memcpy_copies m d s (suc n) (suc k) h lt =
    let a : d + suc k ≡ d + 1 + k = omega arith in
    let b : s + suc k ≡ s + 1 + k = omega arith in
    rw (a, b)
      (memcpy_copies (store m d (m s)) (d + 1) (s + 1) n k (omega arith) (omega arith)
        ∙ ground arith)

-- memcpy leaves the source's bytes at the destination, when that does not start inside the source
-- range, and changes no byte outside the size bytes at the destination.
pub memcpy_lem :
    (m : Mem) (destination source size : ℕ)
    → (destination ≤ source) ⊎ (source + size ≤ destination)
    → ((k : ℕ) → k < size → memcpy m destination source size (destination + k) ≡ m (source + k))
      × AgreeOff m (memcpy m destination source size) destination size
memcpy_lem m d s size h = (λ k lt. memcpy_copies m d s size k h lt, memcpy-AgreeOff m d s size)
