-- ===== src/Tests/Screens.antt =====
-- The text screen of the ebooter at the end of its last line.
use adr_bubble_booter_oss.Prelude.{
  ℕ, ◌+◌, ◌*◌, ◌-◌, ◌/◌, ◌%◌, ◌^◌, ◌<◌, ◌≡◌, ◌==◌, if◌then◌else◌, arith,
}
use adr_bubble_booter_oss.Text.{codes}
use adr_bubble_booter_oss.Ebooter.{Screen, print_text}
use adr_bubble_booter_oss.Ebooter.Pixels.{AgreeBehind, print_text-inside}
use adr_bubble_booter_oss.Ebooter.Line.{IsBeside, print_text-line}

abbrev last_line : Screen
last_line = record { x = 944; y = 536; fg = 0xFFFFFFFF; bg = 0; vram = λ q. 5 }

print_text-inside_example : AgreeBehind last_line (print_text (λ i. 0x7E) (codes "ABC") last_line)
print_text-inside_example = print_text-inside (λ i. 0x7E) (codes "ABC") last_line

print_text-line_example :
    ((k i j : ℕ)
      → k < 1
      → i < 8
      → j < 8
      → (print_text (λ i. 0x7E) (codes "A") last_line).vram (944 + 8 * k + j + (536 + i) * 960)
        ≡ (if 0x7E / 2 ^ (7 - j) % 2 == 1 then 0xFFFFFFFF else 0))
    × ((c r : ℕ)
        → c < 960
        → IsBeside 944 536 8 c r
        → (print_text (λ i. 0x7E) (codes "A") last_line).vram (c + r * 960) ≡ 5)
    × ((print_text (λ i. 0x7E) (codes "A") last_line).x ≡ 952)
    × ((print_text (λ i. 0x7E) (codes "A") last_line).y ≡ 536)
print_text-line_example =
    print_text-line (λ i. 0x7E) (codes "A") last_line ((λ e. cc), (λ e. cc), tt) (omega arith)
      (omega arith)
