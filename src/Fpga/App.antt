-- ===== src/Fpga/App.antt =====
-- The application's device, and its name as `svec_fpga_app_id_build` of
-- software/kernel/svec-core-fpga.c builds it from the application's metadata.
use svec.Base.{
  ℕ, ◌+◌, ◌-◌, ◌/◌, ◌%◌, ◌^◌, ◌≡◌, List, [], ◌∷◌, ◌++◌, if◌then◌else◌, ltb, take, byte0, byte1,
  byte2, byte3, bswap32, word_of_bytes, arith,
}
use svec.Fpga.Resources.{Resource}

-- The arguments of `platform_device_register_resndata` that are kept, the name as its characters.
pub record AppDevice : Type 0 where
  pub name : List ℕ
  pub resources : List Resource

-- The character of a hexadecimal digit.
abbrev pub digit : ℕ → ℕ
digit n = if ltb n 10 then 48 + n else 87 + n

-- The format `%4phN` shows four bytes of memory, the lowest address first.
abbrev pub ph_n : ℕ → List ℕ
ph_n w =
    digit (byte0 w / 16)
    ∷ digit (byte0 w % 16)
    ∷ digit (byte1 w / 16)
    ∷ digit (byte1 w % 16)
    ∷ digit (byte2 w / 16)
    ∷ digit (byte2 w % 16)
    ∷ digit (byte3 w / 16)
    ∷ digit (byte3 w % 16)
    ∷ []

-- `snprintf` leaves out what does not fit before the zero at the end.
abbrev pub snprintf : (size : ℕ) → List ℕ → List ℕ
snprintf size text = take (size - 1) text

abbrev pub app_name_max : ℕ
app_name_max = 47

-- "id:", and the vendor and the device as `ioread32` reads them.
unfoldable pub app_name : (size vendor device : ℕ) → List ℕ
app_name size vendor device = snprintf size (105 ∷ 100 ∷ 58 ∷ [] ++ (ph_n vendor ++ ph_n device))

-- The digits of a word, the highest first.
abbrev pub hex_digits : ℕ → List ℕ
hex_digits w =
    digit (w / 16 ^ 7 % 16)
    ∷ digit (w / 16 ^ 6 % 16)
    ∷ digit (w / 16 ^ 5 % 16)
    ∷ digit (w / 16 ^ 4 % 16)
    ∷ digit (w / 16 ^ 3 % 16)
    ∷ digit (w / 16 ^ 2 % 16)
    ∷ digit (w / 16 % 16)
    ∷ digit (w % 16)
    ∷ []

bytes-bswap32 :
    (w : ℕ)
    → (byte0 (bswap32 w) ≡ byte3 w)
      × (byte1 (bswap32 w) ≡ byte2 w)
      × (byte2 (bswap32 w) ≡ byte1 w)
      × (byte3 (bswap32 w) ≡ byte0 w)
unfolding byte0 byte1 byte2 byte3 bswap32 word_of_bytes
bytes-bswap32 w = omega arith

ph_n-bswap32 : (w : ℕ) → ph_n (bswap32 w) ≡ hex_digits w
unfolding byte0 byte1 byte2 byte3
ph_n-bswap32 w =
    let e = bytes-bswap32 w in
    let d7 : byte3 w / 16 ≡ w / 16 ^ 7 % 16 = omega arith in
    let d6 : byte3 w % 16 ≡ w / 16 ^ 6 % 16 = omega arith in
    let d5 : byte2 w / 16 ≡ w / 16 ^ 5 % 16 = omega arith in
    let d4 : byte2 w % 16 ≡ w / 16 ^ 4 % 16 = omega arith in
    let d3 : byte1 w / 16 ≡ w / 16 ^ 3 % 16 = omega arith in
    let d2 : byte1 w % 16 ≡ w / 16 ^ 2 % 16 = omega arith in
    let d1 : byte0 w / 16 ≡ w / 16 % 16 = omega arith in
    let d0 : byte0 w % 16 ≡ w % 16 = omega arith in
    rw (e.0, e.1, e.2, e.3)
      (λ i.
        digit (d7 i)
        ∷ digit (d6 i)
        ∷ digit (d5 i)
        ∷ digit (d4 i)
        ∷ digit (d3 i)
        ∷ digit (d2 i)
        ∷ digit (d1 i)
        ∷ digit (d0 i)
        ∷ [])

-- The name shows the words of the metadata with the highest digit first, and the whole of them.
pub app_name-bswap32 :
    (vendor device : ℕ)
    → app_name app_name_max (bswap32 vendor) (bswap32 device)
      ≡ 105 ∷ 100 ∷ 58 ∷ [] ++ (hex_digits vendor ++ hex_digits device)
unfolding app_name
app_name-bswap32 vendor device i =
    snprintf app_name_max (105 ∷ 100 ∷ 58 ∷ [] ++ (ph_n-bswap32 vendor i ++ ph_n-bswap32 device i))
