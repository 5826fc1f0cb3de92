-- ===== src/Fpga/Files.antt =====
-- The tables of the files that software/kernel/svec-core-fpga.c gives the FPGA device in sysfs, and
-- what a read or a write of any of them can do.
use Prim.Native.String.{String}
use svec.Base.{
  ℕ, zero, suc, ◌+◌, ◌-◌, ◌/◌, ◌≡◌, refl, sym, ◌∙◌, ◌⊎◌, inl, inr, Bool, Bool-cases, List, [], ◌∷◌,
  ◌++◌, append_assoc, Option, some, none, flag,
}
use svec.Base.Errors.{Errno}
use svec.Bus.{rd, wr, wait, clock, History, Hardware, Returns, returns, bind}
use svec.Text.{Output}
use svec.Fpga.{RegMap, svec_meta_cap_therm, svec_meta_cap_bld}
use svec.Fpga.Board.{Board, Drv, csr_resets, svec_fpga_app_reset}
use svec.Fpga.Attributes.{
  word_chars, bld_info_loop, svec_fpga_dbg_bld_info, temperature_show, serial_number_show,
  pcb_rev_show, application_offset_show, reset_app_show, reset_app_store, store_number,
}

-- `struct device_attribute`: `none` is a function that is not there.
pub record DeviceAttribute : Type 0 where
  pub name : String
  pub show : Option (Drv Output)
  pub store : Option ((buf : List ℕ) (count : ℕ) → Drv (Errno ⊎ ℕ))

abbrev device_attr_ro : String → Drv Output → DeviceAttribute
device_attr_ro name show = record { name = name; show = some show; store = none }

abbrev device_attr_rw : String → Drv Output → (List ℕ → ℕ → Drv (Errno ⊎ ℕ)) → DeviceAttribute
device_attr_rw name show store = record { name = name; show = some show; store = some store }

-- `struct attribute_group`: without a name the files stand in the device's directory.
pub record AttributeGroup : Type 0 where
  pub name : Option String
  pub attrs : List DeviceAttribute

module _ (hw : Hardware) (regs : RegMap) (kstrtol : List ℕ → Errno ⊎ Bool) where
  abbrev pub svec_fpga_therm_group : AttributeGroup
  svec_fpga_therm_group = record {
    name = some "thermometer";
    attrs =
        device_attr_ro "serial_number" (serial_number_show hw regs)
        ∷ device_attr_ro "temperature" (temperature_show hw regs)
        ∷ [];
  }

  abbrev pub svec_fpga_csr_group : AttributeGroup
  svec_fpga_csr_group = record {
    name = none;
    attrs =
        device_attr_ro "pcb_rev" (pcb_rev_show hw regs)
        ∷ device_attr_ro "application_offset" (application_offset_show hw regs)
        ∷ device_attr_rw "reset_app" (reset_app_show hw regs) (reset_app_store hw regs kstrtol)
        ∷ [];
  }

  abbrev pub svec_fpga_groups : List AttributeGroup
  svec_fpga_groups = svec_fpga_therm_group ∷ svec_fpga_csr_group ∷ []

-- Accesses that are reads, or writes to one register.
abbrev pub OnlyReads : History → Type 0
OnlyReads [] = Unit {0}
OnlyReads (rd a v ∷ h) = OnlyReads h
OnlyReads (other ∷ h) = ⊥

abbrev pub WritesTo : (reg : ℕ) → History → Type 0
WritesTo reg [] = Unit {0}
WritesTo reg (rd a v ∷ h) = WritesTo reg h
WritesTo reg (wr a v ∷ h) = (a ≡ reg) × WritesTo reg h
WritesTo reg (other ∷ h) = ⊥

-- A run that returns, and changes nothing but its accesses, which are as `P` says.
abbrev pub Accesses : {A : Type 0} → (History → Type 0) → Drv A → Type 0
Accesses P run =
    (b : Board)
    → Returns (λ a b'. (new : History) × P new × (b' ≡ record b { bus = new ++ b.bus })) (run b)

abbrev ShowOf : Option (Drv Output) → Type 0
ShowOf none = Unit {0}
ShowOf (some show) = Accesses OnlyReads show

abbrev StoreOf : (reg : ℕ) → Option (List ℕ → ℕ → Drv (Errno ⊎ ℕ)) → Type 0
StoreOf reg none = Unit {0}
StoreOf reg (some store) = (buf : List ℕ) (count : ℕ) → Accesses (WritesTo reg) (store buf count)

abbrev pub FilesOf : (reg : ℕ) → List DeviceAttribute → Type 0
FilesOf reg [] = Unit {0}
FilesOf reg (a ∷ attrs) = ShowOf a.show × StoreOf reg a.store × FilesOf reg attrs

abbrev pub GroupsOf : (reg : ℕ) → List AttributeGroup → Type 0
GroupsOf reg [] = Unit {0}
GroupsOf reg (g ∷ groups) = FilesOf reg g.attrs × GroupsOf reg groups

module _ (hw : Hardware) (regs : RegMap) where
  temperature_show-OnlyReads : Accesses OnlyReads (temperature_show hw regs)
  unfolding temperature_show
  temperature_show-OnlyReads b = elim (Bool-cases (flag b.meta.cap svec_meta_cap_therm)) [
    | inl e ↦ simp e (returns _ _ (rd _ _ ∷ [], tt, refl))
    | inr e ↦ simp e (returns _ _ ([], tt, refl))
  ]

  serial_number_show-OnlyReads : Accesses OnlyReads (serial_number_show hw regs)
  unfolding serial_number_show
  serial_number_show-OnlyReads b = elim (Bool-cases (flag b.meta.cap svec_meta_cap_therm)) [
    | inl e ↦ simp e (returns _ _ (rd _ _ ∷ rd _ _ ∷ [], tt, refl))
    | inr e ↦ simp e (returns _ _ ([], tt, refl))
  ]

  pcb_rev_show-OnlyReads : Accesses OnlyReads (pcb_rev_show hw regs)
  unfolding pcb_rev_show
  pcb_rev_show-OnlyReads b = returns _ _ (rd _ _ ∷ [], tt, refl)

  application_offset_show-OnlyReads : Accesses OnlyReads (application_offset_show hw regs)
  unfolding application_offset_show
  application_offset_show-OnlyReads b = returns _ _ (rd _ _ ∷ [], tt, refl)

  reset_app_show-OnlyReads : Accesses OnlyReads (reset_app_show hw regs)
  unfolding reset_app_show
  reset_app_show-OnlyReads b = returns _ _ (rd _ _ ∷ [], tt, refl)

  store_number-WritesTo :
      (r : Errno ⊎ Bool) (count : ℕ)
      → Accesses (WritesTo (regs.csr + csr_resets)) (store_number hw regs r count)
  unfolding store_number svec_fpga_app_reset
  store_number-WritesTo (inl e) count b = returns _ _ ([], tt, refl)
  store_number-WritesTo (inr val) count b = returns _ _ (wr _ _ ∷ rd _ _ ∷ [], (refl, tt), refl)

  OnlyReads-append : (new old : History) → OnlyReads new → OnlyReads old → OnlyReads (new ++ old)
  OnlyReads-append [] old p q = q
  OnlyReads-append (rd a v ∷ new) old p q = OnlyReads-append new old p q
  OnlyReads-append (wr a v ∷ new) old p q = absurd p
  OnlyReads-append (wait us ∷ new) old p q = absurd p
  OnlyReads-append (clock t ∷ new) old p q = absurd p

  -- A word of the build information, and what the rest of the loop adds.
  bld_info_loop-OnlyReads : (n off : ℕ) → Accesses OnlyReads (bld_info_loop hw regs n off)
  unfolding bld_info_loop
  bld_info_loop-OnlyReads zero off b = returns _ _ ([], tt, refl)
  bld_info_loop-OnlyReads (suc n) off b =
      let v = hw.answer b.bus off in
      elim (Bool-cases (word_chars v).1) [
        | inl ended ↦ rw ended (returns _ _ (rd off v ∷ [], tt, refl))
        | inr more ↦ rw more (
            bind (bld_info_loop-OnlyReads n (off + 4) (record b { bus = rd off v ∷ b.bus }))
              (λ cs b' (new, reads, e). returns _ _ (
                new ++ rd off v ∷ [],
                OnlyReads-append new (rd off v ∷ []) reads tt,
                e ∙ (λ i. record b { bus = sym (append_assoc new (rd off v ∷ []) b.bus) i }),
              )))
      ]

  dbg_bld_info-OnlyReads : Accesses OnlyReads (svec_fpga_dbg_bld_info hw regs)
  unfolding svec_fpga_dbg_bld_info
  dbg_bld_info-OnlyReads b = elim (Bool-cases (flag b.meta.cap svec_meta_cap_bld)) [
    | inr e ↦ simp e (returns _ _ ([], tt, refl))
    | inl e ↦ simp e (
        bind (bld_info_loop-OnlyReads ((regs.buildinfo_size - 1 + 3) / 4) regs.buildinfo b)
          (λ cs b' p. returns _ _ p))
  ]

  -- In every state, for every card: a read of any file of the FPGA device in sysfs, and of the build
  -- information in debugfs, returns and makes no access but reads of registers; a write of any file in
  -- sysfs that can be written returns, for every text, and writes to no register but that of the
  -- resets. Neither changes anything that the driver holds.
  pub svec_fpga_groups-Accesses :
      (kstrtol : List ℕ → Errno ⊎ Bool)
      → GroupsOf (regs.csr + csr_resets) (svec_fpga_groups hw regs kstrtol)
        × Accesses OnlyReads (svec_fpga_dbg_bld_info hw regs)
  unfolding reset_app_store
  svec_fpga_groups-Accesses kstrtol =
      let store = λ (buf : List ℕ) (count : ℕ). store_number-WritesTo (kstrtol buf) count in
      (
        (
          (serial_number_show-OnlyReads, tt, (temperature_show-OnlyReads, tt, tt)),
          (
            (
              pcb_rev_show-OnlyReads,
              tt,
              (application_offset_show-OnlyReads, tt, (reset_app_show-OnlyReads, store, tt)),
            ),
            tt,
          ),
        ),
        dbg_bld_info-OnlyReads,
      )
