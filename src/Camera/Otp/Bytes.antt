-- ===== src/Camera/Otp/Bytes.antt =====
-- Little-endian numbers that are read where they were written.
use native.Mathlib.Nat.{pow-suc, pow-le-pow_right, mul-le-mul, mul-le-mul_right}
use device_manager.Common.{
  ℕ, zero, suc, ◌+◌, ◌*◌, ◌/◌, ◌%◌, ◌^◌, ◌≤◌, ◌<◌, List, [], ◌∷◌, ◌++◌, ◌≡◌, refl, sym, ap, ◌∙◌,
  arith, append_assoc, bit_or, bit_or_low, length, length-append, get_or, get_or-at, All,
}
use device_manager.Camera.Otp.{read_le_u16, read_le_u32, or_bytes, raw_double}

abbrev pub le_bytes : ℕ → ℕ → List ℕ
le_bytes zero v = []
le_bytes (suc n) v = v % 256 ∷ le_bytes n (v / 256)

abbrev pub words : List ℕ → List ℕ
words [] = []
words (d ∷ ds) = le_bytes 8 d ++ words ds

-- From an index on, the bytes are those of a number.
abbrev Holds : (ℕ → ℕ) → ℕ → ℕ → ℕ → Type 0
Holds byte i zero v = v ≡ 0
Holds byte i (suc n) v = (byte i ≡ v % 256) × Holds byte (i + 1) n (v / 256)

le_bytes-Holds :
    (n i v offset : ℕ) (pre post otp : List ℕ)
    → v < 256 ^ n
    → offset + i ≡ length pre
    → otp ≡ pre ++ (le_bytes n v ++ post)
    → Holds (λ j. get_or otp (offset + j) 0) i n v
le_bytes-Holds zero i v offset pre post otp lt e s = omega arith
le_bytes-Holds (suc n) i v offset pre post otp lt e s =
    let rest = le_bytes n (v / 256) ++ post in
    let t : otp ≡ pre ++ v % 256 ∷ rest = s in
    (
      ap (λ ds. get_or ds (offset + i) 0) t
          ∙ get_or-at (offset + i) pre 0 (v % 256 ∷ rest) 0 (omega arith),
      le_bytes-Holds n (i + 1) (v / 256) offset (pre ++ v % 256 ∷ []) post otp
          (omega (arith, pow-suc 256 n)) (omega (arith, length-append pre (v % 256 ∷ [])))
          (t ∙ sym (append_assoc pre (v % 256 ∷ []) rest)),
    )

-- The next byte of a 64-bit number.
next_power : (i : ℕ) → 2 ^ ((i + 1) * 8) ≡ 2 ^ (i * 8) * 256
next_power i =
    let e : (i + 1) * 8 ≡ suc (suc (suc (suc (suc (suc (suc (suc (i * 8)))))))) = omega arith in
    ap (λ k. 2 ^ k) e ∙ simp pow-suc (omega arith)

byte_shift : (b i : ℕ) → b < 256 → i ≤ 7 → b * 2 ^ (i * 8) ≤ 255 * 2 ^ 56
byte_shift b i h le =
    mul-le-mul {n₂ = 255} (omega arith)
      (pow-le-pow_right {n = 2} (omega arith) {i = i * 8} {j = 56} (omega arith))

-- The two parts of what is left of a number behind a byte.
split_number : (v p : ℕ) → v * p ≡ v % 256 * p + v / 256 * (p * 256)
split_number v p =
    let e : v ≡ v % 256 + v / 256 * 256 = omega arith in ap (λ n. n * p) e ∙ grind arith

or_bytes-Holds :
    (byte : ℕ → ℕ) (n i v acc : ℕ)
    → i + n ≤ 8
    → acc < 2 ^ (i * 8)
    → Holds byte i n v
    → or_bytes byte n i acc ≡ acc + v * 2 ^ (i * 8)
unfolding or_bytes
or_bytes-Holds byte zero i v acc le lt h = rw h (omega arith)
or_bytes-Holds byte (suc n) i v acc le lt (b, h) =
    let p = next_power i in
    let small = byte_shift (v % 256) i (omega arith) (omega arith) in
    let whole : byte i * 2 ^ (i * 8) % 2 ^ 64 ≡ v % 256 * 2 ^ (i * 8) =
      rw b (omega (arith, small)) in
    let fits : v % 256 * 2 ^ (i * 8) ≤ 255 * 2 ^ (i * 8) =
      mul-le-mul_right (2 ^ (i * 8)) (omega arith) in
    let here = ap (bit_or acc) whole ∙ bit_or_low (i * 8) acc (v % 256) lt in
    ap (or_bytes byte n (i + 1)) here
    ∙ or_bytes-Holds byte n (i + 1) (v / 256) (acc + v % 256 * 2 ^ (i * 8)) (omega arith)
        (omega (arith, p, fits, lt)) h
    ∙ rw p (omega (arith, split_number v (2 ^ (i * 8))))

raw_double-le_bytes :
    (d : ℕ) (offset : ℕ) (pre post otp : List ℕ)
    → d < 2 ^ 64
    → offset ≡ length pre
    → otp ≡ pre ++ (le_bytes 8 d ++ post)
    → raw_double otp offset ≡ d
unfolding raw_double
raw_double-le_bytes d offset pre post otp lt e s =
    or_bytes-Holds (λ j. get_or otp (offset + j) 0) 8 0 d 0 (omega arith) (omega arith)
      (le_bytes-Holds 8 0 d offset pre post otp lt (omega arith) s)
    ∙ omega arith

pub read_le_u16-le_bytes :
    (v offset : ℕ) (pre post otp : List ℕ)
    → v < 2 ^ 16
    → offset ≡ length pre
    → otp ≡ pre ++ (le_bytes 2 v ++ post)
    → read_le_u16 otp offset ≡ v
unfolding read_le_u16
read_le_u16-le_bytes v offset pre post otp lt e s =
    let (b0, b1) = le_bytes-Holds 2 0 v offset pre post otp lt (omega arith) s in
    let first : get_or otp offset 0 ≡ v % 256 = ap (λ i. get_or otp i 0) (omega arith) ∙ b0 in
    let second : get_or otp (offset + 1) 0 * 2 ^ 8 % 2 ^ 16 ≡ v / 256 * 2 ^ 8 =
      rw b1.0 (omega arith) in
    ap (λ x. bit_or x (get_or otp (offset + 1) 0 * 2 ^ 8 % 2 ^ 16)) first
    ∙ ap (bit_or (v % 256)) second
    ∙ bit_or_low 8 (v % 256) (v / 256) (omega arith)
    ∙ omega arith

-- Three `|` on the parts of a number.
or_four :
    (a b c d : ℕ)
    → a < 256
    → b < 256
    → c < 256
    → bit_or (bit_or (bit_or a (b * 2 ^ 8)) (c * 2 ^ 16)) (d * 2 ^ 24)
      ≡ a + b * 2 ^ 8 + c * 2 ^ 16 + d * 2 ^ 24
or_four a b c d ha hb hc =
    ap (λ x. bit_or (bit_or x (c * 2 ^ 16)) (d * 2 ^ 24)) (bit_or_low 8 a b (omega arith))
    ∙ ap (λ x. bit_or x (d * 2 ^ 24)) (bit_or_low 16 (a + b * 2 ^ 8) c (omega arith))
    ∙ bit_or_low 24 (a + b * 2 ^ 8 + c * 2 ^ 16) d (omega arith)

pub read_le_u32-le_bytes :
    (v offset : ℕ) (pre post otp : List ℕ)
    → v < 2 ^ 32
    → offset ≡ length pre
    → otp ≡ pre ++ (le_bytes 4 v ++ post)
    → read_le_u32 otp offset ≡ v
unfolding read_le_u32
read_le_u32-le_bytes v offset pre post otp lt e s =
    let (b0, rest) = le_bytes-Holds 4 0 v offset pre post otp lt (omega arith) s in
    let first : get_or otp offset 0 ≡ v % 256 = ap (λ i. get_or otp i 0) (omega arith) ∙ b0 in
    let second : get_or otp (offset + 1) 0 * 2 ^ 8 % 2 ^ 32 ≡ v / 256 % 256 * 2 ^ 8 =
      rw rest.0 (omega arith) in
    let third : get_or otp (offset + 2) 0 * 2 ^ 16 % 2 ^ 32 ≡ v / 256 / 256 % 256 * 2 ^ 16 =
      rw rest.1.0 (omega arith) in
    let fourth : get_or otp (offset + 3) 0 * 2 ^ 24 % 2 ^ 32 ≡ v / 256 / 256 / 256 % 256 * 2 ^ 24 =
      rw rest.1.1.0 (omega arith) in
    rw (first, second, third, fourth)
      (or_four (v % 256) (v / 256 % 256) (v / 256 / 256 % 256) (v / 256 / 256 / 256 % 256)
          (omega arith) (omega arith) (omega arith)
        ∙ omega arith)

pub length-le_bytes : (n v : ℕ) → length (le_bytes n v) ≡ n
length-le_bytes zero v = refl
length-le_bytes (suc n) v = ap suc (length-le_bytes n (v / 256))

pub length-words : (ds : List ℕ) → length (words ds) ≡ 8 * length ds
length-words [] = omega arith
length-words (d ∷ ds) =
    omega (arith, length-append (le_bytes 8 d) (words ds), length-words ds, length-le_bytes 8 d)

-- A number among others that were written one after the other.
pub raw_double-words :
    (ds : List ℕ) (i offset : ℕ) (pre post otp : List ℕ)
    → All (λ d. d < 2 ^ 64) ds
    → i < length ds
    → offset ≡ length pre + 8 * i
    → otp ≡ pre ++ (words ds ++ post)
    → raw_double otp offset ≡ get_or ds i 0
raw_double-words [] i offset pre post otp fit lt e s = absurd (omega arith)
raw_double-words (d ∷ ds) zero offset pre post otp fit lt e s =
    raw_double-le_bytes d offset pre (words ds ++ post) otp fit.0 (omega arith)
      (s ∙ ap (λ xs. pre ++ xs) (append_assoc (le_bytes 8 d) (words ds) post))
raw_double-words (d ∷ ds) (suc i) offset pre post otp fit lt e s =
    raw_double-words ds i offset (pre ++ le_bytes 8 d) post otp fit.1 (omega arith)
      (omega (arith, length-append pre (le_bytes 8 d), length-le_bytes 8 d))
      (s
        ∙ ap (λ xs. pre ++ xs) (append_assoc (le_bytes 8 d) (words ds) post)
        ∙ sym (append_assoc pre (le_bytes 8 d) (words ds ++ post)))
