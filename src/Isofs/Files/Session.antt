-- ===== src/Isofs/Files/Session.antt =====
-- What is true of the handle table whatever the driver's caller does.
use adr_bubble_booter_oss.Prelude.{
  ℕ, ◌+◌, ◌≡◌, refl, List, ℤ, pos, is_neg, Bool, true, false, ltb, length, Option, none, some,
  Bool-cases, Option-cases, inl, inr, take,
}
use adr_bubble_booter_oss.Isofs.{Image, Driver, done}
use adr_bubble_booter_oss.Isofs.Ends.{Ends, bind-Ends}
use adr_bubble_booter_oss.Isofs.Search.{same_text}
use adr_bubble_booter_oss.Text.{codes}
use adr_bubble_booter_oss.Isofs.Names.{strip_slash}
use adr_bubble_booter_oss.Isofs.Search.Laws.{AllNegative}
use adr_bubble_booter_oss.Isofs.Files.{
  cleared, isofs_exit, isofs_reset, isofs_fastinit, isofs_init, isofs_open, isofs_close, isofs_read,
  isofs_lseek, isofs_getstat, Reply, locate,
}
use adr_bubble_booter_oss.Isofs.Files.Calls.{
  IsSound, set-IsSoundTable, close-IsSound, read-IsSound, lseek-IsSound, init-IsSound,
  fastinit-IsSound,
}
use adr_bubble_booter_oss.Isofs.Files.Table.{Opens, locate-Located}
use adr_bubble_booter_oss.Isofs.Files.Opened.{isofs_open-Opens}

-- one call of the driver that returns
pub data Step (m : Image) : Driver → Driver → Type 0 where
  opens :
      (file : Option (List ℕ)) (flags : ℕ) (d : Driver) (w : m.World) (r : Reply m)
      → isofs_open m file flags d w ≡ done r
      → Step m d r.1
  closes : (fd : ℤ) (d : Driver) (w : m.World) → Step m d (isofs_close m fd d w).1
  reads :
      (fd len : ℤ) (d : Driver) (w : m.World) (r : ℤ × List ℕ × Driver × m.World)
      → isofs_read m fd len d w ≡ done r
      → Step m d r.2
  seeks :
      (fd ofs whence : ℤ) (d : Driver) (w : m.World) (r : Reply m)
      → isofs_lseek m fd ofs whence d w ≡ done r
      → Step m d r.1
  stats :
      (file : Option (List ℕ)) (has_stat : Bool) (d : Driver) (w : m.World)
      (r : Option (ℤ × ℤ) × ℤ × Driver × m.World)
      → isofs_getstat m file has_stat d w ≡ done r
      → Step m d r.2
  exits : (d : Driver) → Step m d (isofs_exit d).1
  resets : (d : Driver) → Step m d (isofs_reset d).1
  fastinits : (d : Driver) (w : m.World) → Step m d (isofs_fastinit m d w).1
  inits : (d : Driver) (w : m.World) → Step m d (isofs_init m d w).1

-- the globals of a program that starts
abbrev pub initial : Driver
initial = record (cleared none) { last_lba = pos 0 }

-- the driver's states, whatever is called
pub data Reaches (m : Image) : Driver → Type 0 where
  starts : Reaches m initial
  goes_on : (d e : Driver) → Reaches m d → Step m d e → Reaches m e

module _ (m : Image) (neg : AllNegative m.errors) where
  open-IsSound : (d : Driver) (r : Reply m) → IsSound d → Opens m d.handlers r → IsSound r.1
  open-IsSound d (res, d', w') s (inl (n, same)) = rw same s
  open-IsSound d (res, d', w') s (inr (i, lba, size, e, le, lt, free, same)) =
      rw same (set-IsSoundTable d.handlers i _ s le)

  stat-IsSound :
      (file : Option (List ℕ)) (has_stat : Bool) (d : Driver) (w : m.World)
      → IsSound d
      → Ends (λ r. IsSound r.2) (isofs_getstat m file has_stat d w)
  unfolding isofs_getstat
  stat-IsSound none has_stat d w s = s
  stat-IsSound (some file) false d w s = s
  stat-IsSound (some file) true d w s = elim (Bool-cases (ltb 256 (length file + 1))) [
    | inl a ↦ rw (isofs_getstat, a) s
    | inr a ↦ elim (Option-cases (strip_slash file)) [
      | inl n ↦ rw (isofs_getstat, a, n) tt
      | inr (fullpath, q) ↦ elim (Bool-cases (same_text (take 8 fullpath) (codes "/sce_lbn"))) [
        | inl c ↦ rw (isofs_getstat, a, q, c) s
        | inr c ↦
            rw (isofs_getstat, a, q, c)
              (bind-Ends (λ r. IsSound r.2) (locate m fullpath d w) _
                (locate-Located m neg fullpath d w)
                λ (lba, e, d', w') (same, st). elim (Option-cases e) [
                  | inl n ↦ rw (n, same) s
                  | inr (e', o) ↦ elim (Bool-cases (is_neg lba)) [
                    | inl b ↦ rw (o, b, same) s
                    | inr b ↦ rw (o, b, same) s
                  ]
                ])
      ]
    ]
  ]

  Step-IsSound : (d e : Driver) → IsSound d → Step m d e → IsSound e
  Step-IsSound d e s (opens file flags _ w r q) =
      let o : Opens m d.handlers r = rw q at (isofs_open-Opens m neg file flags d w) in
      open-IsSound d r s o
  Step-IsSound d e s (closes fd _ w) = close-IsSound m fd d w s
  Step-IsSound d e s (reads fd len _ w r q) = rw q at (read-IsSound m fd len d w s)
  Step-IsSound d e s (seeks fd ofs whence _ w r q) = rw q at (lseek-IsSound m fd ofs whence d w s)
  Step-IsSound d e s (stats file has_stat _ w r q) = rw q at (stat-IsSound file has_stat d w s)
  Step-IsSound d e s (exits _) = s
  Step-IsSound d e s (resets _) = (refl, refl)
  Step-IsSound d e s (fastinits _ w) = fastinit-IsSound m d w s
  Step-IsSound d e s (inits _ w) = init-IsSound m d w s

  -- Where the errors are negative: whatever calls of isofs_init, isofs_fastinit, isofs_exit,
  -- isofs_reset, isofs_open, isofs_close, isofs_read, isofs_lseek and isofs_getstat have returned since
  -- the program's start, with whatever arguments and whatever the image held, the table has 32 handles,
  -- and handle 0 is not open.
  pub Reaches-IsSound : (d : Driver) → Reaches m d → IsSound d
  Reaches-IsSound d starts = (refl, refl)
  Reaches-IsSound d (goes_on c _ r step) = Step-IsSound c d (Reaches-IsSound c r) step
