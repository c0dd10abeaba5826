-- ===== src/Battery/Can/Response.antt =====
-- A well-formed response passes the checks of `read_holding_registers`.
use device_manager.Common.{
  ℕ, ◌+◌, ◌-◌, ◌*◌, ◌%◌, ◌/◌, ◌^◌, ◌≤◌, true, List, [], ◌∷◌, ◌++◌, ◌≡◌, refl, sym, ap, ◌∙◌, arith,
  length, length-append, take, drop, get_or, take-length_of, get_or-at, bit_or, bit_or_low,
  if-false, ltb, ==_iff,
}
use device_manager.Pager.Crc.{crc16-lt}
use device_manager.Battery.Driver.{bytes}
use device_manager.Battery.Can.{crc16, append_crc, validate_crc, accept_data, accept_response}

-- The response of a device to a read of registers that hold `values`.
abbrev pub response_of : ℕ → List ℕ → List ℕ
response_of device values = append_crc (device ∷ 3 ∷ length values ∷ values)

abbrev pub checksum : List ℕ → List ℕ
checksum bs = crc16 bs % 256 ∷ crc16 bs / 256 % 256 ∷ []

pub validate_crc-append_crc : (bs : List ℕ) → 2 ≤ length bs → validate_crc (append_crc bs) ≡ true
unfolding validate_crc append_crc
validate_crc-append_crc bs h =
    let r = bs ++ checksum bs in
    let crc = crc16 bs in
    let n = length-append bs (checksum bs) in
    let body : take (length r - 2) r ≡ bs = take-length_of _ bs (checksum bs) (omega (arith, n)) in
    let low : get_or r (length r - 2) 0 ≡ crc % 256 =
      get_or-at _ bs 0 (checksum bs) 0 (omega (arith, n)) in
    let high : get_or r (length r - 1) 0 ≡ crc / 256 % 256 =
      get_or-at _ bs 1 (checksum bs) 0 (omega (arith, n)) in
    let whole : bit_or (crc % 256) (crc / 256 % 256 * 2 ^ 8) ≡ crc =
      bit_or_low 8 (crc % 256) (crc / 256 % 256) (omega arith) ∙ omega (arith, crc16-lt bs) in
    let word : bit_or (get_or r (length r - 2) 0) (get_or r (length r - 1) 0 * 2 ^ 8) ≡ crc =
      ap (λ (t : ℕ). bit_or t (get_or r (length r - 1) 0 * 2 ^ 8)) low
      ∙ ap (λ (t : ℕ). bit_or (crc % 256) (t * 2 ^ 8)) high
      ∙ whole in
    if-false (ltb (length r) 4) _ _ (ground (arith, n)) ∙ (==_iff _ _).1 (ap crc16 body ∙ sym word)

accept_data-bytes :
    (device count : ℕ) (r : List ℕ)
    → length r ≡ count * 2 + 5
    → get_or r 0 0 ≡ device
    → get_or r 1 0 ≡ 3
    → get_or r 2 0 ≡ count * 2
    → accept_data device count r ≡ bytes (take (count * 2) (drop 3 r))
unfolding accept_data
accept_data-bytes device count r n a b c = ground arith

accept_response-valid :
    (device count : ℕ) (r : List ℕ)
    → validate_crc r ≡ true
    → get_or r 1 0 ≡ 3
    → accept_response device count r ≡ accept_data device count r
unfolding accept_response
accept_response-valid device count r v b = ground arith

pub accept_response-response_of :
    (device count : ℕ) (values : List ℕ)
    → length values ≡ count * 2
    → accept_response device count (response_of device values) ≡ bytes values
unfolding append_crc
accept_response-response_of device count values h =
    let head = device ∷ 3 ∷ length values ∷ values in
    let r = response_of device values in
    let valid = validate_crc-append_crc head (omega arith) in
    accept_response-valid device count r valid refl
    ∙ accept_data-bytes device count r (omega (arith, length-append head (checksum head))) refl refl
        h
    ∙ ap bytes (take-length_of _ values (checksum head) (sym h))
