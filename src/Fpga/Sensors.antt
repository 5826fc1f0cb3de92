-- ===== src/Fpga/Sensors.antt =====
-- What the thermometer's attribute and the presence of mezzanines in
-- software/kernel/svec-core-fpga.c say of their registers.
use svec.Base.{
  ℕ, zero, suc, ◌+◌, ◌-◌, ◌*◌, ◌/◌, ◌%◌, ◌^◌, ◌<◌, ◌≤◌, ◌≡◌, refl, ◌↔◌, Bool, true, false, ◌==◌,
  flag, bit_and, bit_and-mask, bit_and_above, bit_and_two, arith, [], ◌∷◌,
}
use svec.Bus.{Hardware, Returns, returns}
use svec.Text.{Output, str, dec}
use svec.Fpga.{RegMap, svec_meta_cap_therm}
use svec.Fpga.Board.{Board}
use svec.Fpga.Attributes.{
  fraction, therm_temp, temperature_show, csr_fmc_present, svec_fmc_is_present,
}

-- Whether a mezzanine sits in a slot, by the register's bits: bit 0 is the first slot's.
abbrev pub in_slot : ℕ → ℕ → Bool
in_slot word zero = false
in_slot word (suc zero) = word % 2 == 1
in_slot word (suc (suc zero)) = word / 2 % 2 == 1
in_slot word (suc (suc (suc n))) = false

presence_mask : (w : ℕ) → bit_and (w % 2 ^ 8) 3 ≡ w % 4
presence_mask w = omega (arith, bit_and-mask 2 (w % 2 ^ 8))

flag-in_slot : (w lun : ℕ) → 1 ≤ lun → flag (bit_and (w % 2 ^ 8) 3) (2 ^ (lun - 1)) ≡ in_slot w lun
unfolding flag
flag-in_slot w zero h = absurd (omega arith)
flag-in_slot w (suc zero) h = rw (presence_mask w) (ground (arith, bit_and-mask 1 (w % 4)))
flag-in_slot w (suc (suc zero)) h = rw (presence_mask w) (ground (arith, bit_and_two (w % 4)))
flag-in_slot w (suc (suc (suc n))) h =
    let e : suc (suc (suc n)) - 1 ≡ suc (suc n) = omega arith in
    rw (presence_mask w, e) (ground (arith, bit_and_above (w % 4) n))

-- For every slot number from 1 on, `svec_fmc_is_present` returns the bit of its slot in the register,
-- and says no for a slot that the carrier does not have, whatever the other bits are.
pub svec_fmc_is_present_lem :
    (hw : Hardware) (regs : RegMap) (lun : ℕ) (b : Board)
    → 1 ≤ lun
    → Returns
        (λ p b'. p ≡ in_slot (hw.answer b.bus (regs.csr + csr_fmc_present)) lun)
        (svec_fmc_is_present hw regs lun b)
unfolding svec_fmc_is_present
svec_fmc_is_present_lem hw regs lun b h =
    returns _ _ (flag-in_slot (hw.answer b.bus (regs.csr + csr_fmc_present)) lun h)

-- The output of the thermometer's attribute for a register's value.
abbrev pub Shown : ℕ → Output → Type 0
Shown temp out =
    (whole : ℕ) × (part : ℕ) × (out ≡ dec whole ∷ str "." ∷ dec part ∷ str " C\n" ∷ [])
    × (1000 * whole + part ≡ 1000 * temp / 16)
    × (part < 1000)
    × ((part < 100) ↔ (temp % 16 ≤ 1))

-- On a card with a thermometer, `temperature_show` prints two numbers with a point between: the whole
-- degrees, and the thousandths, rounded down, of a register in sixteenths of a degree. The thousandths
-- have fewer than three digits exactly for no sixteenth and for one.
pub temperature_show_lem :
    (hw : Hardware) (regs : RegMap) (b : Board)
    → flag b.meta.cap svec_meta_cap_therm ≡ true
    → Returns
        (λ out b'. Shown (hw.answer b.bus (regs.therm_id + therm_temp)) out)
        (temperature_show hw regs b)
unfolding temperature_show fraction
temperature_show_lem hw regs b available =
    let temp = hw.answer b.bus (regs.therm_id + therm_temp) in
    rw available (
      returns _ _ (
        temp / 16,
        bit_and temp 0xf * 1000 / 16,
        refl,
        omega (arith, bit_and-mask 4 temp),
        omega (arith, bit_and-mask 4 temp),
        ((λ h. omega (arith, bit_and-mask 4 temp)), λ h. omega (arith, bit_and-mask 4 temp)),
      ))
