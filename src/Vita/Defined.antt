-- ===== src/Vita/Defined.antt =====
-- Runs of the monad of Vita that do not leave C's defined behaviour.
use adr_bubble_booter_oss.Prelude.{
  ℕ, ◌≤◌, ◌<◌, ◌≡◌, refl, List, ◌++◌, length, drop, arith, Option, some, ℤ, Bool, true, false,
  if◌then◌else◌, leb, ltb, is_neg, length-append, length-drop, inl, inr, Bool-cases, Option-cases,
}
use adr_bubble_booter_oss.Vita.{Vita, read_only, M, pure, ◌>>=◌, call, need, require, sprintf_into}
use adr_bubble_booter_oss.Minilibc.Format.{Arg}
use adr_bubble_booter_oss.Text.{to_int32, sprintf}
use adr_bubble_booter_oss.Vita.Files.{check_file, get_file_size, read_file, write_file}

-- The run from this world has a result.
pub record Defined {W A : Type 0} (m : M W A) (w : W) : Type 0 where
  pub result : A
  pub after : W
  pub runs : m w ≡ some (result, after)

module _ {W A : Type 0} where
  pub Defined-pure : (a : A) (w : W) → Defined (pure a) w
  Defined-pure a w = record { result = a; after = w; runs = refl }

  pub Defined-call : (f : W → A × W) (w : W) → Defined (call f) w
  Defined-call f w = record { result = (f w).0; after = (f w).1; runs = refl }

  pub Defined-need : (o : Option A) (a : A) (w : W) → o ≡ some a → Defined (need o) w
  Defined-need o a w e = record { result = a; after = w; runs = rw e refl }

  pub Defined-if :
      (b : Bool) (m n : M W A) (w : W) → Defined m w → Defined n w → Defined (if b then m else n) w
  Defined-if true m n w d e = d
  Defined-if false m n w d e = e

module _ {W A B : Type 0} where
  pub Defined-bind :
      (m : M W A) (f : A → M W B) (w : W)
      → Defined m w
      → ((a : A) (w' : W) → m w ≡ some (a, w') → Defined (f a) w')
      → Defined (m >>= f) w
  Defined-bind m f w d k =
      let e = k d.result d.after d.runs in
      record { result = e.result; after = e.after; runs = rw (d.runs, ◌>>=◌) e.runs }

-- The run has a result with the property.
pub record Ensures {W A : Type 0} (P : A → Type 0) (m : M W A) (w : W) : Type 0 where
  pub result : A
  pub after : W
  pub runs : m w ≡ some (result, after)
  pub holds : P result

module _ {W A : Type 0} (P : A → Type 0) where
  pub Ensures-pure : (a : A) (w : W) → P a → Ensures P (pure a) w
  Ensures-pure a w h = record { result = a; after = w; runs = refl; holds = h }

  pub Ensures-if :
      (b : Bool) (m n : M W A) (w : W)
      → Ensures P m w
      → Ensures P n w
      → Ensures P (if b then m else n) w
  Ensures-if true m n w d e = d
  Ensures-if false m n w d e = e

module _ {W A B : Type 0} (P : B → Type 0) where
  pub Ensures-bind :
      (m : M W A) (f : A → M W B) (w : W)
      → Defined m w
      → ((a : A) (w' : W) → m w ≡ some (a, w') → Ensures P (f a) w')
      → Ensures P (m >>= f) w
  Ensures-bind m f w d k =
      let e = k d.result d.after d.runs in
      record {
        result = e.result;
        after = e.after;
        runs = rw (d.runs, ◌>>=◌) e.runs;
        holds = e.holds;
      }

  -- the same, with what the first part ensures
  pub Ensures-then :
      (Q : A → Type 0) (m : M W A) (f : A → M W B) (w : W)
      → Ensures Q m w
      → ((a : A) (w' : W) → Q a → Ensures P (f a) w')
      → Ensures P (m >>= f) w
  Ensures-then Q m f w d k =
      let e = k d.result d.after d.holds in
      record {
        result = e.result;
        after = e.after;
        runs = rw (d.runs, ◌>>=◌) e.runs;
        holds = e.holds;
      }

pub Defined-require : {W : Type 0} (b : Bool) (w : W) → b ≡ true → Defined (require b) w
Defined-require b w e = record { result = tt; after = w; runs = rw e refl }

pub Defined-sprintf_into :
    {W : Type 0} (size : ℕ) (fmt : List ℕ) (args : List Arg) (s : List ℕ) (w : W)
    → sprintf fmt args ≡ some s
    → length s < size
    → Defined (sprintf_into size fmt args) w
Defined-sprintf_into size fmt args s w e lt =
    let fits : ltb (length s) size ≡ true = ground arith in
    record { result = s; after = w; runs = rw (e, fits) refl }

-- the text that stands in the array
pub sprintf_into-text :
    {W : Type 0} (size : ℕ) (fmt : List ℕ) (args : List Arg) (s text : List ℕ) (w w' : W)
    → sprintf fmt args ≡ some s
    → sprintf_into size fmt args w ≡ some (text, w')
    → s ≡ text
sprintf_into-text size fmt args s text w w' e h = elim (Bool-cases (ltb (length s) size)) [
  | inl b ↦ let h' = rw (e, b) at h in cc
  | inr b ↦ let h' = rw (e, b) at h in cc
]

-- Inversion of a run.
module _ {W A B : Type 0} where
  pub bind-eq-some :
      (m : M W A) (f : A → M W B) (w : W) {r : B × W}
      → (m >>= f) w ≡ some r
      → (a : A) × (w' : W) × (m w ≡ some (a, w')) × (f a w' ≡ some r)
  bind-eq-some m f w h = elim (Option-cases (m w)) [
    | inl e ↦ let h' = rw (e, ◌>>=◌) at h in cc
    | inr ((a, w'), e) ↦ (a, w', e, rw (e, ◌>>=◌) at h)
  ]

pub require-eq-some :
    {W : Type 0} (b : Bool) (w : W) {r : Unit {0} × W} → require b w ≡ some r → b ≡ true
require-eq-some true w h = refl
require-eq-some false w h = cc

-- sceIoRead delivers at most the bytes asked for.
abbrev pub ReadsWithin : Vita → Type 0
ReadsWithin v = (fd : ℤ) (size : ℕ) (w : v.World) → length (v.io_read fd size w).0.1 ≤ size

module _ (v : Vita) where
  pub check_file-Defined : (path : List ℕ) (w : v.World) → Defined (check_file v path) w
  unfolding check_file
  check_file-Defined path w = Defined-call (v.io_getstat path) w

  pub get_file_size-Defined : (path : List ℕ) (w : v.World) → Defined (get_file_size v path) w
  unfolding get_file_size
  get_file_size-Defined path w =
      Defined-bind _ _ w (Defined-call (v.io_open path read_only) w) (λ fd w' e.
        Defined-if (is_neg fd) _ _ w' (Defined-pure fd w') (
          Defined-bind _ _ w' (Defined-call (v.io_lseek_end fd) w') (λ size w'' e'.
            Defined-bind _ _ w'' (Defined-call (v.io_close fd) w'')
              (λ r w₃ e₃. Defined-pure (to_int32 size) w₃))))

  pub write_file-Defined : (path bytes : List ℕ) (w : v.World) → Defined (write_file v path bytes) w
  unfolding write_file
  write_file-Defined path bytes w =
      Defined-bind _ _ w (Defined-call (v.io_open path _) w) (λ fd w' e.
        Defined-if (is_neg fd) _ _ w' (Defined-pure fd w') (
          Defined-bind _ _ w' (Defined-call (v.io_write fd bytes) w') (λ n w'' e'.
            Defined-bind _ _ w'' (Defined-call (v.io_close fd) w'')
              (λ r w₃ e₃. Defined-pure n w₃))))

  pub read_file-Defined :
      (path buffer : List ℕ) (size : ℕ) (w : v.World)
      → ReadsWithin v
      → size ≤ length buffer
      → Defined (read_file v path buffer size) w
  unfolding read_file
  read_file-Defined path buffer size w within le =
      Defined-bind _ _ w (Defined-call (v.io_open path _) w) (λ fd w' e.
        Defined-if (is_neg fd) _ _ w' (Defined-pure (fd, buffer) w') (
          Defined-bind _ _ w' (Defined-call (v.io_read fd size) w') (λ r w'' e'.
            let fits : leb (length r.1) (length buffer) ≡ true =
              ground (arith, within fd size w', e') in
            Defined-bind _ _ w'' (Defined-require _ w'' fits) (λ u w₃ e₃.
              Defined-bind _ _ w₃ (Defined-call (v.io_close fd) w₃)
                (λ c w₄ e₄. Defined-pure (r.0, r.1 ++ drop (length r.1) buffer) w₄)))))

  -- the buffer keeps its size
  pub read_file-length :
      (path buffer : List ℕ) (size : ℕ) (w w' : v.World) (r : ℤ × List ℕ)
      → read_file v path buffer size w ≡ some (r, w')
      → length r.1 ≡ length buffer
  unfolding read_file
  read_file-length path buffer size w w' r h =
      let (fd, w₁) = v.io_open path read_only w in
      let ((n, bytes), w₂) = v.io_read fd size w₁ in
      ground
        (arith, length-append bytes (drop (length bytes) buffer), length-drop (length bytes) buffer)
