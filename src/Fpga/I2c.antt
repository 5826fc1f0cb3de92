-- ===== src/Fpga/I2c.antt =====
-- The choice of an I2C bus for a slot in software/kernel/svec-core-fpga.c. The kernel's walk over the
-- devices of the I2C bus is a parameter: it calls a function for each, with a filter that the function
-- may change, and stops where the function returns another number than zero.
use svec.Base.{ℕ, ◌-◌, Bool, not, ltb, ◌==◌, if◌then◌else◌, Option, some, none}

-- What the driver looks at in a device of the I2C bus.
pub record I2cDev : Type 0 where
  -- its type is that of an adapter
  pub is_adapter : Bool
  -- `i2c_parent_is_i2c_adapter`: the device two levels above the adapter that it is muxed from
  pub mux_of : Option ℕ
  -- `i2c_adapter_id`
  pub nr : ℕ

-- `i2c_for_each_dev`: its function takes `slot_nr` of the filter and a device, and gives its result
-- and `slot_nr` after the call.
abbrev pub ForEach : Type 0
ForEach = (ℕ → I2cDev → ℕ × ℕ) → ℕ → ℕ

-- `svec_fpga` is the card's device.
unfoldable pub svec_i2c_find_adapter : (svec_fpga : ℕ) → (slot_nr : ℕ) → I2cDev → ℕ × ℕ
svec_i2c_find_adapter svec_fpga slot_nr dev =
    if not dev.is_adapter then (0, slot_nr) else elim dev.mux_of [
      | none ↦ (0, slot_nr)
      | some above ↦
          if not (svec_fpga == above)
          then (0, slot_nr)
          else if ltb 0 slot_nr
          then (0, slot_nr - 1)
          else (dev.nr, slot_nr)
    ]

unfoldable pub svec_i2c_get_bus : ForEach → (svec_fpga slot_nr : ℕ) → ℕ
svec_i2c_get_bus i2c_for_each_dev svec_fpga slot_nr =
    i2c_for_each_dev (svec_i2c_find_adapter svec_fpga) slot_nr
