-- ===== src/Fpga/Buses.antt =====
-- Which I2C buses the slots get in software/kernel/svec-core-fpga.c, for the kernel's walk over a list
-- of devices.
use svec.Base.{
  arith, ℕ, zero, suc, ◌-◌, ◌≤◌, ◌≡◌, refl, ap, ◌∙◌, inl, inr, Bool, true, false, Bool-cases, List,
  [], ◌∷◌, ltb, ◌==◌, if◌then◌else◌, Option, Option-cases, some, none,
}
use svec.Fpga.{svec_fmc_slots}
use svec.Fpga.Resources.{Slot}
use svec.Fpga.I2c.{I2cDev, ForEach, svec_i2c_find_adapter, svec_i2c_get_bus}
use svec.Fpga.Board.{Kernel}
use svec.Fpga.Parts.{fill_slots}

-- The walk over a list of devices: it stops at the first result that is not zero.
abbrev pub continue_with : ℕ → ℕ → ℕ
continue_with zero rest = rest
continue_with (suc n) rest = suc n

abbrev pub walk : List I2cDev → ForEach
walk [] f s = 0
walk (d ∷ ds) f s = continue_with (f s d).0 (walk ds f (f s d).1)

-- The adapter is muxed on the card whose device is `fpga`.
abbrev pub is_on : ℕ → I2cDev → Bool
is_on fpga d =
    if d.is_adapter then elim d.mux_of [ none ↦ false | some above ↦ fpga == above ] else false

-- The numbers of the card's adapters, in the order of the walk.
abbrev pub buses : ℕ → List I2cDev → List ℕ
buses fpga [] = []
buses fpga (d ∷ ds) = let rest = buses fpga ds in if is_on fpga d then d.nr ∷ rest else rest

-- The first number from position `n` on that is not zero, or zero.
abbrev pub first_from : ℕ → List ℕ → ℕ
first_from n [] = 0
first_from zero (b ∷ bs) = continue_with b (first_from zero bs)
first_from (suc n) (b ∷ bs) = first_from n bs

module _ (fpga : ℕ) where
  find_adapter-off :
      (n : ℕ) (d : I2cDev) → is_on fpga d ≡ false → svec_i2c_find_adapter fpga n d ≡ (0, n)
  unfolding svec_i2c_find_adapter
  find_adapter-off n d off = elim (Bool-cases d.is_adapter) [
    | inr e ↦ simp e refl
    | inl e ↦ elim (Option-cases d.mux_of) [
      | inl e' ↦ simp (e, e') refl
      | inr (above, e') ↦ let differs = simp (e, e') at off in simp (e, e', differs) refl
    ]
  ]

  find_adapter-on :
      (n : ℕ) (d : I2cDev)
      → is_on fpga d ≡ true
      → svec_i2c_find_adapter fpga n d ≡ (if ltb 0 n then (0, n - 1) else (d.nr, n))
  unfolding svec_i2c_find_adapter
  find_adapter-on n d on = elim (Bool-cases d.is_adapter) [
    | inr e ↦ let no : false ≡ true = simp e at on in absurd (ground (arith, no))
    | inl e ↦ elim (Option-cases d.mux_of) [
      | inl e' ↦ let no : false ≡ true = simp (e, e') at on in absurd (ground (arith, no))
      | inr (above, e') ↦
          let same : (fpga == above) ≡ true = simp (e, e') at on in simp (e, e', same) refl
    ]
  ]

  -- What the filter does with an adapter of the card: count down, or take its number.
  abbrev taken : ℕ → I2cDev → ℕ × ℕ
  taken zero d = (d.nr, zero)
  taken (suc n) d = (0, n)

  find_adapter-taken :
      (n : ℕ) (d : I2cDev) → is_on fpga d ≡ true → svec_i2c_find_adapter fpga n d ≡ taken n d
  find_adapter-taken zero d on = find_adapter-on zero d on
  find_adapter-taken (suc n) d on =
      let positive : ltb 0 (suc n) ≡ true = ground arith in
      let less : suc n - 1 ≡ n = omega arith in
      find_adapter-on (suc n) d on ∙ rw (positive, less) refl

  walk-first_from :
      (devs : List I2cDev) (n : ℕ)
      → walk devs (svec_i2c_find_adapter fpga) n ≡ first_from n (buses fpga devs)
  walk-first_from [] zero = refl
  walk-first_from [] (suc n) = refl
  walk-first_from (d ∷ ds) zero = elim (Bool-cases (is_on fpga d)) [
    | inr off ↦ rw (off, find_adapter-off zero d off) (walk-first_from ds zero)
    | inl on ↦
        rw (on, find_adapter-taken zero d on) (ap (continue_with d.nr) (walk-first_from ds zero))
  ]
  walk-first_from (d ∷ ds) (suc n) = elim (Bool-cases (is_on fpga d)) [
    | inr off ↦ rw (off, find_adapter-off (suc n) d off) (walk-first_from ds (suc n))
    | inl on ↦ rw (on, find_adapter-taken (suc n) d on) (walk-first_from ds n)
  ]

  -- If the kernel walks over the devices in a given order and stops at the first result that is not
  -- zero, the bus of a slot is that of the card's own adapter at the slot's position in that order, and
  -- the next if that number is zero. It is zero if the card has too few adapters.
  pub svec_i2c_get_bus_lem :
      (for_each : ForEach) (devs : List I2cDev) (slot_nr : ℕ)
      → ((f : ℕ → I2cDev → ℕ × ℕ) (s : ℕ) → for_each f s ≡ walk devs f s)
      → svec_i2c_get_bus for_each fpga slot_nr ≡ first_from slot_nr (buses fpga devs)
  unfolding svec_i2c_get_bus
  svec_i2c_get_bus_lem for_each devs slot_nr walks =
      walks (svec_i2c_find_adapter fpga) slot_nr ∙ walk-first_from devs slot_nr

abbrev pub AllPositive : List ℕ → Type 0
AllPositive [] = Unit
AllPositive (b ∷ bs) = (1 ≤ b) × AllPositive bs

-- The slots with the two first of the buses.
abbrev pub two_slots : List ℕ → Option (List Slot)
two_slots (b0 ∷ b1 ∷ rest) =
    some (
      record { i2c_bus_nr = b0; ga = 0; lun = 1 }
      ∷ record { i2c_bus_nr = b1; ga = 1; lun = 2 }
      ∷ [])
two_slots other = none

module _ (k : Kernel) (devs : List I2cDev)
    (walks : (f : ℕ → I2cDev → ℕ × ℕ) (s : ℕ) → k.i2c_for_each_dev f s ≡ walk devs f s) where
  suc_not_zero : (n : ℕ) → (suc n == 0) ≡ false
  suc_not_zero n = ground arith

  fill_two :
      (bs : List ℕ)
      → AllPositive bs
      → svec_i2c_get_bus k.i2c_for_each_dev k.fpga_dev 0 ≡ first_from 0 bs
      → svec_i2c_get_bus k.i2c_for_each_dev k.fpga_dev 1 ≡ first_from 1 bs
      → fill_slots k svec_fmc_slots 0 ≡ two_slots bs
  unfolding fill_slots
  fill_two [] p e0 e1 = rw e0 refl
  fill_two (suc b0 ∷ []) p e0 e1 = rw (e0, e1, suc_not_zero b0) refl
  fill_two (suc b0 ∷ suc b1 ∷ bs) p e0 e1 = rw (e0, e1, suc_not_zero b0, suc_not_zero b1) refl
  fill_two (zero ∷ bs) p e0 e1 = absurd (omega (arith, p.0))
  fill_two (suc b0 ∷ zero ∷ bs) p e0 e1 = absurd (omega (arith, p.1.0))

  -- If the kernel walks over the devices in a given order and no adapter of the card has the number
  -- zero, the carrier's slots are filled exactly if the card has two adapters or more: the first slot
  -- with the first adapter of the card, and the second with the second.
  pub fill_slots-buses :
      AllPositive (buses k.fpga_dev devs)
      → fill_slots k svec_fmc_slots 0 ≡ two_slots (buses k.fpga_dev devs)
  fill_slots-buses positive =
      fill_two (buses k.fpga_dev devs) positive
        (svec_i2c_get_bus_lem k.fpga_dev k.i2c_for_each_dev devs 0 walks)
        (svec_i2c_get_bus_lem k.fpga_dev k.i2c_for_each_dev devs 1 walks)
