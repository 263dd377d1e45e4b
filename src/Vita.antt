-- ===== src/Vita.antt =====
-- What the Vita modules call and do not implement: the kernel's file and process calls and taiHEN,
-- as functions on an abstract world, and a monad for the modules. `none` in the monad says that the
-- C program has left its defined behaviour: a write outside a buffer, a NULL or an unterminated
-- string read.
pub mod Files
pub mod Defined
use adr_bubble_booter_oss.Prelude.{ℕ, List, ℤ, Option, none, some, Bool, true, false, ltb, length}
use adr_bubble_booter_oss.Minilibc.Format.{Arg}
use adr_bubble_booter_oss.Text.{sprintf}

-- SCE_O_RDONLY, and SCE_O_WRONLY | SCE_O_CREAT | SCE_O_TRUNC
pub data OpenMode : Type 0 where
  read_only create_truncate : OpenMode

pub record Vita : Type 1 where
  pub World : Type 0
  -- taiGetModuleInfo("ScePspemu", ·)
  pub tai_get_module_info : World → ℤ × World
  -- sceAppMgrGetNameById(sceKernelGetProcessId(), ·), with the bytes left in the buffer
  pub app_mgr_get_name : World → List ℕ × World
  pub exit_process : ℤ → World → ℤ × World
  pub io_getstat : List ℕ → World → ℤ × World
  pub io_open : List ℕ → OpenMode → World → ℤ × World
  -- sceIoLseek(fd, 0, SCE_SEEK_END)
  pub io_lseek_end : ℤ → World → ℤ × World
  -- sceIoRead, with the bytes read
  pub io_read : ℤ → ℕ → World → (ℤ × List ℕ) × World
  pub io_write : ℤ → List ℕ → World → ℤ × World
  pub io_close : ℤ → World → ℤ × World
  pub io_remove : List ℕ → World → ℤ × World

abbrev pub M : Type 0 → Type 0 → Type 0
M W A = W → Option (A × W)

abbrev pub pure : {W A : Type 0} → A → M W A
pure a w = some (a, w)

infixl 5 ◌>>=◌ ◌>>◌
abbrev pub ◌>>=◌ : {W A B : Type 0} → M W A → (A → M W B) → M W B
◌>>=◌ m f w = elim (m w) [ none ↦ none | some (a, w') ↦ f a w' ]

abbrev pub ◌>>◌ : {W A B : Type 0} → M W A → M W B → M W B
m >> k = m >>= λ _. k

-- a call of the system
abbrev pub call : {W A : Type 0} → (W → A × W) → M W A
call f w = some (f w)

-- a value that C has only if it is defined
abbrev pub need : {W A : Type 0} → Option A → M W A
need none w = none
need (some a) w = some (a, w)

-- undefined unless the test holds
abbrev pub require : {W : Type 0} → Bool → M W (Unit {0})
require true w = some (tt, w)
require false w = none

module _ {W : Type 0} where
  -- sprintf into an array of `size` bytes
  abbrev pub sprintf_into : ℕ → List ℕ → List Arg → M W (List ℕ)
  sprintf_into size fmt args = do s ← need (sprintf fmt args); require (ltb (length s) size); pure s
