-- ===== src/Msfs/Serve/Size.antt =====
-- Every request keeps the size of the descriptor table.
use adr_bubble_booter_oss.Prelude.{
  ℕ, suc, ◌≡◌, refl, List, [], ◌∷◌, ℤ, pos, negsuc, is_neg, ltb, Bool, true, false, not, ◌&&◌,
  if◌then◌else◌, ◌==◌, length, length-set, length-replicate, Option, none, some, Bool-cases,
  Option-cases, inl, inr,
}
use adr_bubble_booter_oss.Msfs.Table.{
  Descriptor, Table, empty, describe, find_free, add_descriptor, get_descriptor, remove_descriptor,
}
use adr_bubble_booter_oss.Msfs.Transfer.{
  Kernel, read, write, lseek, transfer, read_piece, write_piece, seek_file, sought,
  mark_first_write,
}
use adr_bubble_booter_oss.Msfs.Files.{
  path_of, trunc_path, set_aside, finish_open, open_file, truncate_fix, finish_close, close_file,
}
use adr_bubble_booter_oss.Msfs.Folders.{Host, Dirent, dopen, dclose, put, dread_loop, dread}
use adr_bubble_booter_oss.Msfs.Requests.{Device, close_all, ioctl}
use adr_bubble_booter_oss.Msfs.Serve.{
  Request, map_served, serve, kermit_init, kermit_exit, kermit_open, kermit_close, kermit_read,
  kermit_write, kermit_lseek, kermit_ioctl, kermit_remove, kermit_mkdir, kermit_rmdir, kermit_dopen,
  kermit_dclose, kermit_dread, kermit_getstat, kermit_chstat, kermit_rename, kermit_chdir,
  kermit_devctl,
}

-- a result, if there is one, has a table of `n` descriptors
abbrev pub HasSize {ℓ} : {A : Type ℓ} → (A → Table) → ℕ → Option A → Type 0
HasSize f n none = Unit
HasSize f n (some a) = length (f a) ≡ n

if-HasSize {ℓ} :
    {A : Type ℓ} (f : A → Table) (n : ℕ) (b : Bool) (x y : Option A)
    → HasSize f n x
    → HasSize f n y
    → HasSize f n (if b then x else y)
if-HasSize f n true x y h k = h
if-HasSize f n false x y h k = k

length-add_descriptor :
    (fd : ℤ) (path : List ℕ) (flags : ℕ) (trunc folder : Bool) (t : Table)
    → length (add_descriptor fd path flags trunc folder t).1 ≡ length t
unfolding add_descriptor
length-add_descriptor fd path flags trunc folder t = elim (Bool-cases (find_free t == length t)) [
  | inl e ↦ rw (add_descriptor, e) refl
  | inr e ↦
      rw (add_descriptor, e) (length-set t (find_free t) (describe fd path flags trunc folder))
]

length-remove_descriptor : (fd : ℤ) (t : Table) → length (remove_descriptor fd t).1 ≡ length t
unfolding remove_descriptor
length-remove_descriptor (negsuc i) t = refl
length-remove_descriptor (pos i) t = elim (Bool-cases (ltb i (length t))) [
  | inl e ↦ rw (remove_descriptor, e) (length-set t i empty)
  | inr e ↦ rw (remove_descriptor, e) refl
]

length-if : (b : Bool) (s t : Table) → length s ≡ length t → length (if b then t else s) ≡ length t
length-if true s t h = refl
length-if false s t h = h

module _ (k : Kernel) (h : Host k.World) (v : Device k.World) where
  length-put : (fd : ℤ) (d : Descriptor) (t : Table) → length (put k h fd d t) ≡ length t
  length-put (negsuc i) d t = refl
  length-put (pos i) d t = length-set t i d

  length-finish_open :
      (file : List ℕ) (flags : ℕ) (t : Table) (r : Bool × k.World)
      → length (finish_open k file flags t r).1 ≡ length t
  unfolding finish_open
  length-finish_open file flags t (trunc, w) =
      let fd = (k.io_open (path_of k file) flags w).0 in
      let e = length-add_descriptor fd file flags trunc false t in
      elim (Bool-cases (is_neg fd)) [
        | inl b ↦ rw (finish_open, b) refl
        | inr b ↦ rw (finish_open, b) e
      ]

  open_file-HasSize :
      (file : List ℕ) (flags : ℕ) (t : Table) (w : k.World)
      → HasSize (λ r. r.1) (length t) (open_file k file flags t w)
  unfolding open_file
  open_file-HasSize [] flags t w = refl
  open_file-HasSize (c ∷ file) flags t w =
      let path = path_of k (c ∷ file) in
      elim (Bool-cases (k.truncates flags)) [
        | inr b ↦ rw (open_file, b) (length-finish_open (c ∷ file) flags t (false, w))
        | inl b ↦ elim (Option-cases (trunc_path path)) [
          | inl n ↦ rw (open_file, b, n) tt
          | inr (aside, e) ↦
              rw (open_file, b, e)
                (length-finish_open (c ∷ file) flags t (set_aside k path aside w))
        ]
      ]

  length-finish_close :
      (fd : ℤ) (d : Descriptor) (t : Table) (w : k.World)
      → length (finish_close k fd d t w).1 ≡ length t
  unfolding finish_close
  length-finish_close fd d t w =
      length-if _ (remove_descriptor fd t).1 t (length-remove_descriptor fd t)

  close_file-HasSize :
      (fd : ℤ) (t : Table) (w : k.World) → HasSize (λ r. r.1) (length t) (close_file k fd t w)
  unfolding close_file
  close_file-HasSize fd t w = elim (Option-cases (get_descriptor fd t)) [
    | inl n ↦ rw (close_file, n) refl
    | inr (d, e) ↦
        rw (close_file, e)
          (if-HasSize (λ r. r.1) (length t) d.trunc _ _ (fixed d (truncate_fix k d w))
            (length-finish_close fd d t w))
  ]
    where
      fixed :
          (d : Descriptor) (o : Option (ℤ × k.World))
          → HasSize
              (λ r. r.1)
              (length t)
              (elim o as (λ _. Option (ℤ × Table × k.World)) [
                | none ↦ none
                | some (res, w) ↦
                    if is_neg res then some (res, t, w) else some (finish_close k fd d t w)
              ])
      fixed d none = tt
      fixed d (some (res, w)) =
          if-HasSize (λ r. r.1) (length t) (is_neg res) (some (res, t, w))
            (some (finish_close k fd d t w)) refl (length-finish_close fd d t w)

  read-HasSize :
      (fd : ℤ) (size : ℕ) (t : Table) (w : k.World)
      → HasSize (λ r. r.2) (length t) (read k fd size t w)
  unfolding read
  read-HasSize fd size t w = elim (Option-cases (get_descriptor fd t)) [
    | inl n ↦ rw (read, n) refl
    | inr (d, e) ↦ elim (Option-cases (transfer k (read_piece k) (suc size) size 0 (d, [], w))) [
      | inl n ↦ rw (read, e, n) tt
      | inr ((res, (d', got, w')), q) ↦ rw (read, e, q) (length-put fd d' t)
    ]
  ]

  write-HasSize :
      (fd : ℤ) (buffer : List ℕ) (size : ℕ) (t : Table) (w : k.World)
      → HasSize (λ r. r.1) (length t) (write k fd buffer size t w)
  unfolding write
  write-HasSize fd buffer size t w = elim (Option-cases (get_descriptor fd t)) [
    | inl n ↦ rw (write, n) refl
    | inr (d, e) ↦
        elim (Option-cases (
          transfer k (write_piece k buffer) (suc size) size 0 (mark_first_write k size d, [], w))) [
            | inl n ↦ rw (write, e, n) tt
            | inr ((res, (d', got, w')), q) ↦ rw (write, e, q) (length-put fd d' t)
          ]
  ]

  length-lseek :
      (fd offset : ℤ) (whence : ℕ) (t : Table) (w : k.World)
      → length (lseek k fd offset whence t w).1 ≡ length t
  unfolding lseek
  length-lseek fd offset whence t w = elim (Option-cases (get_descriptor fd t)) [
    | inl n ↦ rw (lseek, n) refl
    | inr (d, e) ↦
        let r = seek_file k offset whence d w in rw (lseek, e) (length-put fd (sought k r.0 r.1) t)
  ]

  ioctl-HasSize :
      (fd : ℤ) (cmd : ℕ) (name : Option (List ℕ)) (inlen : ℕ) (t : Table)
      → HasSize (λ r. r.1) (length t) (ioctl k h v fd cmd name inlen t)
  unfolding ioctl
  ioctl-HasSize fd cmd name inlen t = elim (Option-cases (get_descriptor fd t)) [
    | inl n ↦ rw (ioctl, n) refl
    | inr (d, e) ↦ elim (Option-cases name) [
      | inl n ↦ rw (ioctl, e, n) refl
      | inr (filter, q) ↦
          rw (ioctl, e, q)
            (if-HasSize (λ r. r.1) (length t) (not (cmd == 0x02415050 && inlen == 4))
              (some (k.einval, t)) _ refl
              (if-HasSize (λ r. r.1) (length t) (ltb (length filter) v.filter_size)
                (some (pos 0, put k h fd (record d { filter = filter }) t)) none
                (length-put fd (record d { filter = filter }) t) tt))
    ]
  ]

  length-dopen :
      (dirname : List ℕ) (t : Table) (w : k.World) → length (dopen k h dirname t w).1 ≡ length t
  unfolding dopen
  length-dopen dirname t w =
      let fd = (k.io_dopen (path_of k dirname) w).0 in
      let e = length-add_descriptor fd dirname 0 false true t in
      elim (Bool-cases (is_neg fd)) [ inl b ↦ rw (dopen, b) refl | inr b ↦ rw (dopen, b) e ]

  length-dclose : (fd : ℤ) (t : Table) (w : k.World) → length (dclose k h fd t w).1 ≡ length t
  unfolding dclose
  length-dclose fd t w = elim (Option-cases (get_descriptor fd t)) [
    | inl n ↦ rw (dclose, n) refl
    | inr (d, e) ↦
        rw (dclose, e) (length-if _ (remove_descriptor fd t).1 t (length-remove_descriptor fd t))
  ]

  dread-HasSize :
      (fuel : ℕ) (fd : ℤ) (dir : Dirent) (t : Table) (w : k.World)
      → HasSize (λ r. r.2) (length t) (dread k h fuel fd dir t w)
  unfolding dread
  dread-HasSize fuel fd dir t w = elim (Option-cases (get_descriptor fd t)) [
    | inl n ↦ rw (dread, n) refl
    | inr (d, e) ↦ elim (Option-cases (dread_loop k h fuel d dir w)) [
      | inl n ↦ rw (dread, e, n) tt
      | inr ((res, d', dir', w'), q) ↦ rw (dread, e, q) (length-put fd d' t)
    ]
  ]

  length-close_all : (t : Table) (w : k.World) → length (close_all k h v t w).0 ≡ length t
  unfolding close_all
  length-close_all t w = length-replicate (length t) empty

  map_served-HasSize :
      (n : ℕ) (o : Option (ℤ × Table × k.World))
      → HasSize (λ r. r.1) n o
      → HasSize (λ r. r.2) n (map_served k h v o)
  map_served-HasSize n none e = e
  map_served-HasSize n (some r) e = e

  -- Every request, whatever the kernel's calls answer, leaves a table with as many descriptors as
  -- before, unless C leaves it undefined or the loop of a listing is out of fuel.
  pub serve-HasSize :
      (fuel : ℕ) (request : Request) (t : Table) (w : k.World)
      → HasSize (λ r. r.2) (length t) (serve k h v fuel request t w)
  unfolding serve
  serve-HasSize fuel kermit_init t w = length-close_all t w
  serve-HasSize fuel kermit_exit t w = length-close_all t w
  serve-HasSize fuel (kermit_open file flags) t w =
      map_served-HasSize (length t) (open_file k file flags t w) (open_file-HasSize file flags t w)
  serve-HasSize fuel (kermit_close fd) t w =
      map_served-HasSize (length t) (close_file k fd t w) (close_file-HasSize fd t w)
  serve-HasSize fuel (kermit_read fd size) t w =
      let r = read-HasSize fd size t w in
      elim (Option-cases (read k fd size t w)) [
        | inl n ↦ rw (serve, n) tt
        | inr ((res, bytes, t', w'), e) ↦ rw (serve, e) (rw e at r)
      ]
  serve-HasSize fuel (kermit_write fd buffer size) t w =
      map_served-HasSize (length t) (write k fd buffer size t w) (write-HasSize fd buffer size t w)
  serve-HasSize fuel (kermit_lseek fd offset whence) t w = length-lseek fd offset whence t w
  serve-HasSize fuel (kermit_ioctl fd cmd name inlen) t w =
      let r = ioctl-HasSize fd cmd name inlen t in
      elim (Option-cases (ioctl k h v fd cmd name inlen t)) [
        | inl n ↦ rw (serve, n) tt
        | inr ((res, t'), e) ↦ rw (serve, e) (rw e at r)
      ]
  serve-HasSize fuel (kermit_remove file) t w = refl
  serve-HasSize fuel (kermit_mkdir dir) t w = refl
  serve-HasSize fuel (kermit_rmdir path) t w = refl
  serve-HasSize fuel (kermit_dopen dirname) t w = length-dopen dirname t w
  serve-HasSize fuel (kermit_dclose fd) t w = length-dclose fd t w
  serve-HasSize fuel (kermit_dread fd dir) t w =
      let r = dread-HasSize fuel fd dir t w in
      elim (Option-cases (dread k h fuel fd dir t w)) [
        | inl n ↦ rw (serve, n) tt
        | inr ((res, dir', t', w'), e) ↦ rw (serve, e) (rw e at r)
      ]
  serve-HasSize fuel (kermit_getstat file s) t w = refl
  serve-HasSize fuel (kermit_chstat file s bits) t w = refl
  serve-HasSize fuel (kermit_rename oldname newname) t w = refl
  serve-HasSize fuel (kermit_chdir path) t w = refl
  serve-HasSize fuel (kermit_devctl cmd has_outdata outlen) t w = refl
