-- ===== src/Thumb.antt =====
-- encode_movw, encode_movt and encode_bl of integration/adrenaline-v7/overlay/user/utils.c.
use Prim.Native.Nat.{bit_or, bit_xor}
use adr_bubble_booter_oss.Prelude.{ℕ, ◌+◌, ◌-◌, ◌*◌, ◌/◌, ◌%◌, ◌^◌}

-- `(n >> shift) & (2^width - 1)`
abbrev pub bits : ℕ → ℕ → ℕ → ℕ
bits n shift width = n / 2 ^ shift % 2 ^ width

-- `n << shift`, of a field that stays below 2^32
abbrev pub shifted : ℕ → ℕ → ℕ
shifted n shift = n * 2 ^ shift

-- THUMB_SHUFFLE
unfoldable pub thumb_shuffle : ℕ → ℕ
thumb_shuffle x = bit_or (bits x 16 16) (shifted (bits x 0 16) 16)

-- the immediate of a move, by its opcode
unfoldable pub encode_mov : ℕ → ℕ → ℕ → ℕ
unfolding thumb_shuffle
encode_mov opcode rd imm16 =
    let imm4 = bits imm16 12 4 in
    let i = bits imm16 11 1 in
    let imm3 = bits imm16 8 3 in
    let imm8 = bits imm16 0 8 in
    thumb_shuffle (
      bit_or
        (bit_or (bit_or (bit_or (bit_or opcode (shifted rd 8)) (shifted i 26)) (shifted imm4 16))
          (shifted imm3 12))
        imm8)

unfoldable pub encode_movw : ℕ → ℕ → ℕ
unfolding encode_mov
encode_movw rd imm16 = encode_mov 0xF2400000 rd imm16

unfoldable pub encode_movt : ℕ → ℕ → ℕ
unfolding encode_mov
encode_movt rd imm16 = encode_mov 0xF2C00000 rd imm16

-- `target_offset - (patch_offset & ~0x1) - 4`, which wraps at 32 bits
unfoldable pub displacement : ℕ → ℕ → ℕ
displacement patch_offset target_offset =
    (target_offset + 2 ^ 33 - (patch_offset - patch_offset % 2) - 4) % 2 ^ 32

unfoldable pub encode_bl : ℕ → ℕ → ℕ
unfolding thumb_shuffle displacement
encode_bl patch_offset target_offset =
    let d = displacement patch_offset target_offset in
    let signbit = bits d 31 1 in
    let j1 = bit_xor (bits d 23 1) (bit_xor signbit 1) in
    let j2 = bit_xor (bits d 22 1) (bit_xor signbit 1) in
    let imm10 = bits d 12 10 in
    let imm11 = bits d 1 11 in
    let value =
      bit_or
        (bit_or (bit_or (bit_or (shifted signbit 26) (shifted j1 13)) (shifted j2 11))
          (shifted imm10 16))
        imm11 in
    thumb_shuffle (bit_or value 0xF000D000)
