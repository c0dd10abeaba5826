-- ===== src/Battery/Registers/Bytes.antt =====
-- Registers that were written into a block are read back.
use device_manager.Common.{
  ℕ, ◌+◌, ◌*◌, ◌/◌, ◌%◌, ◌^◌, ◌<◌, List, [], ◌∷◌, ◌++◌, ◌≡◌, refl, ap, ◌∙◌, arith, length, bit_or,
  sym, append_assoc, length-append, get_or-at, bit_or_low,
}
use device_manager.Battery.Registers.{decode_block_u16, decode_block_u32}

-- A word, low byte first; a double word, low word first.
abbrev pub u16_bytes : ℕ → List ℕ
u16_bytes n = (n % 2 ^ 8) ∷ (n / 2 ^ 8) ∷ []

abbrev pub u32_bytes : ℕ → List ℕ
u32_bytes n = u16_bytes (n % 2 ^ 16) ++ u16_bytes (n / 2 ^ 16)

word : (n : ℕ) → n < 2 ^ 16 → bit_or (n % 2 ^ 8) (n / 2 ^ 8 * 2 ^ 8 % 2 ^ 16) ≡ n
word n h =
    let high : n / 2 ^ 8 * 2 ^ 8 % 2 ^ 16 ≡ n / 2 ^ 8 * 2 ^ 8 = omega arith in
    ap (bit_or (n % 2 ^ 8)) high ∙ omega (arith, bit_or_low 8 (n % 2 ^ 8) (n / 2 ^ 8))

decode_u16_at :
    (offset n : ℕ) (before after : List ℕ)
    → n < 2 ^ 16
    → offset ≡ length before
    → decode_block_u16 (before ++ ((n % 2 ^ 8) ∷ (n / 2 ^ 8) ∷ after)) offset ≡ n
unfolding decode_block_u16
decode_u16_at offset n before after h e =
    let rest : List ℕ = (n % 2 ^ 8) ∷ (n / 2 ^ 8) ∷ after in
    rw
      (
        get_or-at offset before 0 rest 0 (omega arith),
        get_or-at (offset + 1) before 1 rest 0 (omega arith),
      )
      (word n h)

-- A double word that was written into a block is read back, whatever stands before and after it.
decode_block_u32-u32_bytes :
    (n : ℕ) (before after : List ℕ)
    → n < 2 ^ 32
    → decode_block_u32 (before ++ (u32_bytes n ++ after)) (length before) ≡ n
unfolding decode_block_u32
decode_block_u32-u32_bytes n before after h =
    let lo = n % 2 ^ 16 in
    let hi = n / 2 ^ 16 in
    let low = decode_u16_at (length before) lo before (u16_bytes hi ++ after) (omega arith) refl in
    let high =
      ap (λ bs. decode_block_u16 bs (length before + 2))
        (sym (append_assoc before (u16_bytes lo) (u16_bytes hi ++ after)))
      ∙ decode_u16_at (length before + 2) hi (before ++ u16_bytes lo) after (omega arith)
          (omega (arith, length-append before (u16_bytes lo))) in
    ap
      (λ w.
        bit_or w (decode_block_u16 (before ++ (u32_bytes n ++ after)) (length before + 2) * 2 ^ 16))
      low
    ∙ ap (λ w. bit_or lo (w * 2 ^ 16)) high
    ∙ omega (arith, bit_or_low 16 lo hi)
