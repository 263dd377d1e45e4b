-- ===== src/Booter/Launch.antt =====
-- When src/psp/booter/main.c starts the content of a boot record, and when it goes astray.
use adr_bubble_booter_oss.Prelude.{
  ℕ, zero, suc, arith, ◌≡◌, refl, List, [], ◌∷◌, ℤ, pos, negsuc, Bool, true, false, none, some,
  if◌then◌else◌, eqb_ℤ, is_neg, ◌∙◌,
}
use adr_bubble_booter_oss.Vita.{◌>>=◌}
use adr_bubble_booter_oss.Vita.Defined.{Defined, Defined-pure, Defined-call, Defined-bind}
use adr_bubble_booter_oss.BootInfo.{BootInfo}
use adr_bubble_booter_oss.Booter.{Request, LoadExec, launch_content, content_unknown}
use adr_bubble_booter_oss.Booter.Thread.{Psp, perform, detect_content_type, boot_content}
use adr_bubble_booter_oss.Booter.Kinds.{IsKind, launch_content_iff, Relied, opened, opened-Ensures}

module _ (p : Psp) where
  perform-Defined : (rs : List Request) (w : p.World) → Defined (perform p rs) w
  unfolding perform
  perform-Defined [] w = Defined-pure tt w
  perform-Defined (r ∷ rs) w =
      Defined-bind _ _ w (Defined-call (p.request r) w) (λ u w' e. perform-Defined rs w')

  -- a successful open, and what is done behind it
  detect-open :
      (path pbp_header header title : List ℕ) (w : p.World)
      → is_neg (p.io_open path w).0 ≡ false
      → (relied : Relied p pbp_header header title)
      → detect_content_type p path pbp_header header title w
        ≡ opened p pbp_header header title relied (p.io_open path w).0 (p.io_open path w).1
  unfolding detect_content_type
  detect-open path pbp_header header title w e relied = rw e refl

  detect-closed :
      (path pbp_header header title : List ℕ) (w : p.World)
      → is_neg (p.io_open path w).0 ≡ true
      → detect_content_type p path pbp_header header title w
        ≡ some (((p.io_open path w).0, title), (p.io_open path w).1)
  unfolding detect_content_type
  detect-closed path pbp_header header title w e = rw e refl

not-IsKind : (type : ℤ) → is_neg type ≡ true → ¬ (IsKind type)
not-IsKind (pos n) h k = cc
not-IsKind (negsuc n) h k = k

is_neg-not_zero : (type : ℤ) → is_neg type ≡ true → eqb_ℤ type (pos 0) ≡ false
is_neg-not_zero (pos n) h = cc
is_neg-not_zero (negsuc n) h = refl

IsKind-not_zero : (type : ℤ) → IsKind type → eqb_ℤ type (pos 0) ≡ false
IsKind-not_zero (pos zero) k = absurd (omega arith)
IsKind-not_zero (pos (suc n)) k = ground arith
IsKind-not_zero (negsuc n) k = absurd k

-- A run to the final call: the detected kind, the calls made for it in order, and the final call, whose
-- result is the booter's.
pub record Launched (p : Psp) (isage : Bool) (b : BootInfo) (path pbp_header header title : List ℕ)
    (w : p.World) : Type 0 where
  pub type : ℤ
  pub new_title : List ℕ
  pub requests : List Request
  pub exec : LoadExec
  pub after_detect : p.World
  pub after_requests : p.World
  pub detects :
      detect_content_type p path pbp_header header title (p.io_getstat path w).1
      ≡ some ((type, new_title), after_detect)
  pub is_kind : IsKind type
  pub launches : launch_content isage b path new_title type ≡ some (requests, exec)
  pub performs : perform p requests after_detect ≡ some (tt, after_requests)
  pub runs :
      boot_content p isage b path pbp_header header title w
      ≡ some (p.load_exec_vsh exec after_requests)

-- Where reads deliver at most the bytes asked for and the arrays have their sizes: for content whose
-- status is found and that can be opened, the detected type is one of the four kinds, launch_content
-- has requests and a final call for it, and the booter makes those requests and then that call, whose
-- result it returns. A failed open is passed on as the type, and launch_content then reads a NULL
-- string.
pub boot_content_iff :
    (p : Psp) (isage : Bool) (b : BootInfo) (path pbp_header header title : List ℕ) (w : p.World)
    → Relied p pbp_header header title
    → is_neg (p.io_getstat path w).0 ≡ false
    → (is_neg (p.io_open path (p.io_getstat path w).1).0 ≡ false
        → Launched p isage b path pbp_header header title w)
      × (is_neg (p.io_open path (p.io_getstat path w).1).0 ≡ true
          → boot_content p isage b path pbp_header header title w ≡ none)
unfolding boot_content content_unknown
boot_content_iff p isage b path pbp_header header title w relied found =
    let w₁ = (p.io_getstat path w).1 in
    let (fd, w₂) = p.io_open path w₁ in
    (
      λ open'.
          let d = opened-Ensures p pbp_header header title relied fd w₂ in
          let runs = detect-open p path pbp_header header title w₁ open' relied ∙ d.runs in
          let (r, launches) = (launch_content_iff isage b path d.result.1 d.result.0).0 d.holds in
          let known = IsKind-not_zero d.result.0 d.holds in
          let done = perform-Defined p r.0 d.after in
          record {
            type = d.result.0;
            new_title = d.result.1;
            requests = r.0;
            exec = r.1;
            after_detect = d.after;
            after_requests = done.after;
            detects = runs;
            is_kind = d.holds;
            launches = launches;
            performs = done.runs;
            runs = rw (found, if◌then◌else◌, ◌>>=◌, runs, known, launches, done.runs) refl;
          },
      λ closed.
          let runs = detect-closed p path pbp_header header title w₁ closed in
          let lost = (launch_content_iff isage b path title fd).1 (λ k. not-IsKind fd closed k) in
          let known = is_neg-not_zero fd closed in
          rw (found, if◌then◌else◌, ◌>>=◌, runs, known, lost) refl,
    )
