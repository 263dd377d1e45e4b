-- ===== src/Msfs/Files/Handles.antt =====
-- A handle from open to close.
use adr_bubble_booter_oss.Prelude.{
  ℕ, ◌≡◌, List, [], ◌∷◌, ℤ, pos, negsuc, is_neg, Bool, true, false, some, Bool-cases, Option-cases,
  inl, inr, ap, ◌∙◌,
}
use adr_bubble_booter_oss.Msfs.Table.{Table, describe, add_descriptor}
use adr_bubble_booter_oss.Msfs.Table.Laws.{
  IsValid, remove_descriptor-add_descriptor, get_descriptor-add_descriptor,
}
use adr_bubble_booter_oss.Msfs.Transfer.{Kernel}
use adr_bubble_booter_oss.Msfs.Files.{
  trunc_path, path_of, finish_open, set_aside, open_file, close_file,
}
use adr_bubble_booter_oss.Msfs.Files.Laws.{close_file_lem}

module _ (k : Kernel) where
  -- the handle is one that adding a descriptor gave
  abbrev Added : List ℕ → ℕ → Table → ℕ → Table → Type 0
  Added file flags t i t' =
      (fd : ℤ) × (trunc : Bool) × (add_descriptor fd file flags trunc false t ≡ (pos i, t'))

  not_pos : (z : ℤ) (i : ℕ) → is_neg z ≡ true → z ≡ pos i → ⊥
  not_pos (pos n) i h e = cc
  not_pos (negsuc n) i h e = cc

  finish_open-Added :
      (file : List ℕ) (flags : ℕ) (t : Table) (r : Bool × k.World) (i : ℕ) (t' : Table)
      (w : k.World)
      → finish_open k file flags t r ≡ (pos i, t', w)
      → Added file flags t i t'
  unfolding finish_open
  finish_open-Added file flags t (trunc, w₀) i t' w h =
      let o = k.io_open (path_of k file) flags w₀ in
      elim (Bool-cases (is_neg o.0)) [
        | inl e ↦ absurd (not_pos o.0 i e (ap (λ x. x.0) (rw (finish_open, e) at h)))
        | inr e ↦ (o.0, trunc, ap (λ x. (x.0, x.1)) (rw (finish_open, e) at h))
      ]

  open_file-Added :
      (file : List ℕ) (flags : ℕ) (t : Table) (w w' : k.World) (i : ℕ) (t' : Table)
      → is_neg k.einval ≡ true
      → open_file k file flags t w ≡ some (pos i, t', w')
      → Added file flags t i t'
  unfolding open_file
  open_file-Added [] flags t w w' i t' neg h = absurd (not_pos k.einval i neg (cc h))
  open_file-Added (c ∷ file) flags t w w' i t' neg h =
      let path = path_of k (c ∷ file) in
      elim (Bool-cases (k.truncates flags)) [
        | inl e ↦ elim (Option-cases (trunc_path path)) [
          | inl a ↦ absurd (cc (rw (open_file, e, a) at h))
          | inr (aside, a) ↦
              finish_open-Added (c ∷ file) flags t (set_aside k path aside w) i t' w'
                (cc (rw (open_file, e, a) at h))
        ]
        | inr e ↦
            finish_open-Added (c ∷ file) flags t (false, w) i t' w' (cc (rw (open_file, e) at h))
      ]

  -- When EINVAL is negative, the table is valid, the path has a place for the suffix of the file set
  -- aside, and an open gave a handle, then closing that handle in any later world ends, and a result
  -- that is not negative restores the table from before the open. A negative one leaves the handle.
  pub close_file-open_file :
      (file : List ℕ) (flags : ℕ) (t : Table) (w w' later : k.World) (i : ℕ) (t' : Table)
      (aside : List ℕ)
      → is_neg k.einval ≡ true
      → IsValid t
      → trunc_path (path_of k file) ≡ some aside
      → open_file k file flags t w ≡ some (pos i, t', w')
      → (q : ℤ × Table × k.World) × (close_file k (pos i) t' later ≡ some q)
        × (is_neg q.0 ≡ true → q.1 ≡ t')
        × (is_neg q.0 ≡ false → q.1 ≡ t)
  unfolding describe
  close_file-open_file file flags t w w' later i t' aside neg v a h =
      let (fd, trunc, added) = open_file-Added file flags t w w' i t' neg h in
      let found = get_descriptor-add_descriptor fd file flags trunc false t i t' added in
      let closed =
        close_file_lem k (pos i) t' later (describe fd file flags trunc false) aside found a in
      let restored = remove_descriptor-add_descriptor fd file flags trunc false t i t' v added in
      (closed.0, closed.1, closed.2.0, (λ q. closed.2.1 q ∙ ap (λ x. x.1) restored))
