-- ===== src/Booter/Paths.antt =====
-- The path that src/psp/booter/main.c makes of the Vita path in boot.bin.
use adr_bubble_booter_oss.Prelude.{
  ℕ, zero, suc, ◌+◌, ◌-◌, ◌≤◌, ◌≡◌, refl, List, [], ◌∷◌, ◌++◌, length, drop, arith, some, ltb, true,
  length-append, append_assoc, drop-append_exact, subst,
}
use adr_bubble_booter_oss.Text.{codes, c_string, strncpy}
use adr_bubble_booter_oss.Text.Buffer.{NonZero, c_string-NonZero, c_string-drop, c_string-strncpy}
use adr_bubble_booter_oss.Bubble.Location.{Free, strrchr-append}
use adr_bubble_booter_oss.BootInfo.{BootInfo}
use adr_bubble_booter_oss.Booter.{path_after_pspemu_device, rebase_path}

NonZero-drop : (n : ℕ) (s : List ℕ) → NonZero s → NonZero (drop n s)
NonZero-drop zero s h = h
NonZero-drop (suc n) [] h = h
NonZero-drop (suc n) (x ∷ s) h = NonZero-drop n s h.1

abbrev pub pspemu_path : List ℕ → List ℕ → List ℕ
pspemu_path device rest = device ++ (b':' ∷ (codes "pspemu" ++ rest))

Free-pspemu : (rest : List ℕ) → Free b':' rest → Free b':' (codes "pspemu" ++ rest)
Free-pspemu rest h =
    (omega arith, (omega arith, (omega arith, (omega arith, (omega arith, (omega arith, h))))))

drop_pspemu : (device rest : List ℕ) → drop (length device + 7) (pspemu_path device rest) ≡ rest
drop_pspemu device rest =
    let e : pspemu_path device rest ≡ (device ++ codes ":pspemu") ++ rest =
      rw (append_assoc device (codes ":pspemu") rest) refl in
    rw e (
      drop-append_exact (device ++ codes ":pspemu") rest (length device + 7)
        (length-append device (codes ":pspemu")))

path_after-device :
    (buffer device rest : List ℕ)
    → Free b':' rest
    → c_string buffer ≡ some (pspemu_path device rest)
    → path_after_pspemu_device buffer ≡ some rest
unfolding path_after_pspemu_device
path_after-device buffer device rest free e =
    let len : length (pspemu_path device rest) ≡ length device + 7 + length rest =
      omega (arith, length-append device (b':' ∷ (codes "pspemu" ++ rest))) in
    let n : length (pspemu_path device rest) - length (b':' ∷ (codes "pspemu" ++ rest)) + 7
        ≡ length device + 7 =
      omega (arith, len) in
    rw
      (
        path_after_pspemu_device,
        e,
        strrchr-append b':' device (codes "pspemu" ++ rest) (Free-pspemu rest free),
        n,
        c_string-drop (length device + 7) buffer e (omega (arith, len)),
        drop_pspemu device rest,
      )
      refl

-- For a boot record whose path is device:pspemu and a rest without a colon, of at most 250 bytes, the
-- booter's path is ms0: and that rest, and the record differs in its path alone.
pub rebase_path_lem :
    (b : BootInfo) (device rest : List ℕ)
    → Free b':' rest
    → length rest ≤ 250
    → c_string b.file_path ≡ some (pspemu_path device rest)
    → (file_path : List ℕ) × (rebase_path b
        ≡ some (record b { file_path = file_path }, codes "ms0:" ++ rest))
      × (c_string file_path ≡ some (codes "ms0:" ++ rest))
unfolding rebase_path
rebase_path_lem b device rest free short e =
    let path = codes "ms0:" ++ rest in
    let buffer = strncpy 255 path ++ drop 255 b.file_path in
    let nz : NonZero rest = subst NonZero (drop_pspemu device rest) (
      NonZero-drop (length device + 7) (pspemu_path device rest)
        (c_string-NonZero b.file_path e)) in
    let fits : ltb (length path) 256 ≡ true = ground arith in
    let ends : c_string buffer ≡ some path =
      c_string-strncpy 255 path (drop 255 b.file_path)
        (omega arith, (omega arith, (omega arith, (omega arith, nz)))) (omega arith) in
    (
      buffer,
      rw (rebase_path, path_after-device b.file_path device rest free e, fits, ends) refl,
      ends,
    )
