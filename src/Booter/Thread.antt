-- ===== src/Booter/Thread.antt =====
-- The booter thread of src/psp/booter/main.c: its file reads, the detection of the content, and the
-- launch. What the PSP's kernel does is a parameter.
use adr_bubble_booter_oss.Prelude.{
  ℕ, List, [], ◌∷◌, ◌++◌, ℤ, negsuc, is_neg, eqb_ℤ, Bool, true, false, ◌&&◌, ◌||◌, if◌then◌else◌,
  leb, ◌==◌, length, drop,
}
use adr_bubble_booter_oss.Vita.{M, pure, ◌>>=◌, ◌>>◌, call, need, require}
use adr_bubble_booter_oss.Text.{codes}
use adr_bubble_booter_oss.BootInfo.{
  BootInfo, load_boot_info, store_boot_info, zero_boot_info, boot_info_size,
}
use adr_bubble_booter_oss.Booter.{
  content_unknown, content_iso, content_psp_pbp, content_npdrm_pbp, content_ps1_pbp, Request,
  LoadExec, launch_content, rebase_path,
}

pub record Psp : Type 1 where
  pub World : Type 0
  pub io_open : List ℕ → World → ℤ × World
  pub io_read : ℤ → ℕ → World → (ℤ × List ℕ) × World
  -- sceIoLseek(fd, offset, PSP_SEEK_SET)
  pub io_lseek : ℤ → ℕ → World → Unit {0} × World
  pub io_close : ℤ → World → Unit {0} × World
  pub io_getstat : List ℕ → World → ℤ × World
  pub flush_caches : World → Unit {0} × World
  -- sceKernelSetParamSfo and the SystemCtrl calls, and the final call
  pub request : Request → World → Unit {0} × World
  pub load_exec_vsh : LoadExec → World → ℤ × World
  -- sizeof(PBPHeader) and its field psar_offset, of the SDK's pspextratypes.h
  pub pbp_header_size : ℕ
  pub psar_offset : List ℕ → ℕ

-- `memcmp(header, text, n) == 0` for the n bytes of the text
unfoldable pub begins_with : List ℕ → List ℕ → Bool
begins_with header [] = true
begins_with [] (c ∷ text) = false
begins_with (h ∷ header) (c ∷ text) = h == c && begins_with header text

abbrev pub pbp_magic : List ℕ
pbp_magic = 0 ∷ codes "PBP"

-- what the sixteen bytes at the PSAR offset say
unfoldable pub psar_type : List ℕ → ℤ
unfolding begins_with content_ps1_pbp content_npdrm_pbp content_psp_pbp
psar_type header =
    if begins_with header (codes "PSISOIMG0000") || begins_with header (codes "PSTITLEIMG000000")
    then content_ps1_pbp
    else if begins_with header (codes "NPUMDIMG")
    then content_npdrm_pbp
    else content_psp_pbp

module _ (p : Psp) where
  open p use {
    World, io_open, io_read, io_lseek, io_close, io_getstat, flush_caches, request, load_exec_vsh,
    pbp_header_size, psar_offset,
  }

  unfoldable pub read_file : List ℕ → List ℕ → ℕ → M World (ℤ × List ℕ)
  read_file path buffer size = do
    fd ← call (io_open path)
    if is_neg fd then pure (fd, buffer) else do
      (result, bytes) ← call (io_read fd size)
      require (leb (length bytes) (length buffer))
      _ ← call (io_close fd)
      pure (result, bytes ++ drop (length bytes) buffer)

  unfoldable pub check_file : List ℕ → M World ℤ
  check_file path = call (io_getstat path)

  -- sceIoRead over the front of a buffer
  unfoldable pub read_into : ℤ → List ℕ → ℕ → M World (List ℕ)
  read_into fd buffer size = do
    (_, bytes) ← call (io_read fd size)
    require (leb (length bytes) (length buffer))
    pure (bytes ++ drop (length bytes) buffer)

  -- `ps1_title_id` is read from 0x130 for PS1 content, and kept otherwise
  unfoldable pub read_title : ℤ → ℤ → List ℕ → M World (List ℕ)
  unfolding read_into content_ps1_pbp
  read_title fd type ps1_title_id =
      if eqb_ℤ type content_ps1_pbp
      then (do _ ← call (io_lseek fd 0x130); read_into fd ps1_title_id 9)
      else pure ps1_title_id

  -- behind the first header, for a PBP
  unfoldable pub detect_pbp : ℤ → List ℕ → List ℕ → List ℕ → M World (ℤ × List ℕ)
  unfolding read_into psar_type read_title
  detect_pbp fd pbp_header header ps1_title_id = do
    _ ← call (io_lseek fd (psar_offset pbp_header))
    psar ← read_into fd header 16
    title ← read_title fd (psar_type psar) ps1_title_id
    pure (psar_type psar, title)

  -- The type and `ps1_title_id`. The two header arrays are not initialised: `pbp_header` and
  -- `header` are what the stack holds.
  unfoldable pub detect_content_type : List ℕ → List ℕ → List ℕ → List ℕ → M World (ℤ × List ℕ)
  unfolding read_into detect_pbp begins_with content_iso
  detect_content_type path pbp_header header ps1_title_id = do
    fd ← call (io_open path)
    if is_neg fd then pure (fd, ps1_title_id) else do
      pbp_header' ← read_into fd pbp_header pbp_header_size
      _ ← call (io_lseek fd 0)
      header' ← read_into fd header 16
      (type, title) ←
          (if begins_with header' pbp_magic
            then detect_pbp fd pbp_header' header' ps1_title_id
            else pure (content_iso, ps1_title_id))
      _ ← call (io_close fd)
      _ ← call flush_caches
      pure (type, title)

  unfoldable pub perform : List Request → M World (Unit {0})
  perform [] = pure tt
  perform (r ∷ rs) = call (request r) >> perform rs

  -- what the thread does with a boot record whose path is on ms0:
  unfoldable pub boot_content : Bool → BootInfo → List ℕ → List ℕ → List ℕ → List ℕ → M World ℤ
  unfolding check_file content_unknown
  boot_content isage boot_info file_path pbp_header header ps1_title_id = do
    found ← check_file file_path
    if is_neg found then pure (negsuc 0) else do
      (type, title) ← detect_content_type file_path pbp_header header ps1_title_id
      if eqb_ℤ type content_unknown then pure (negsuc 0) else do
        (requests, exec) ← need (launch_content isage boot_info file_path title type)
        _ ← perform requests
        call (load_exec_vsh exec)

  unfoldable pub booter_thread : Bool → List ℕ → List ℕ → List ℕ → M World ℤ
  unfolding read_file boot_content rebase_path
  booter_thread isage pbp_header header ps1_title_id = do
    (result, bytes) ←
        read_file (codes "ms0:/__APPID__/data/boot.bin") (store_boot_info zero_boot_info)
          boot_info_size
    if is_neg result then pure (negsuc 0) else do
      (boot_info, file_path) ← need (rebase_path (load_boot_info bytes))
      boot_content isage boot_info file_path pbp_header header ps1_title_id
