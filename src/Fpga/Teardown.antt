-- ===== src/Fpga/Teardown.antt =====
-- The two ends of a card's life in software/kernel/svec-core-fpga.c, `svec_fpga_init` and
-- `svec_fpga_exit`.
use svec.Base.{
  ◌≡◌, refl, sym, subst, ◌⊎◌, inl, inr, Bool, true, not, Bool-cases, Option-cases, if◌then◌else◌,
}
use svec.Base.Errors.{Code, ok, err, einval}
use svec.Bus.{ret, pure, ◌>>=◌, ◌>>◌, Hardware, History}
use svec.Fpga.{RegMap, Meta, svec_fpga_is_valid}
use svec.Fpga.Board.{Kernel, Board, Drv, change, or_goto, svec_fpga_metadata_get}
use svec.Fpga.Parts.{
  svec_fpga_dbg_exit, svec_fpga_vic_exit, svec_fpga_devices_exit, svec_fmc_exit, svec_fpga_app_exit,
}
use svec.Fpga.Lifecycle.{err_map, err_valid, init_parts, svec_fpga_init, svec_fpga_exit}
use svec.Fpga.Holding.{Ends, Ends-weaken, Ends-bind, Code-cases, idle, metadata_get-Ends}
use svec.Fpga.Cycle.{Up, Idle, Lost, NoVic, PartsEnd, mapped_board, init_parts-Ends}

-- How `svec_fpga_init` ends where it returns.
abbrev pub InitEnd : Kernel → (version_ignore : Bool) → RegMap → Code → Board → Type 0
InitEnd k version_ignore regs ok b =
    Up k regs b × (svec_fpga_is_valid version_ignore regs.version_bld b.meta ≡ true)
InitEnd k version_ignore regs (err x) b =
    Idle b ⊎ (Lost b × (svec_fpga_is_valid version_ignore regs.version_bld b.meta ≡ true))

module _ (k : Kernel) (hw : Hardware) (regs : RegMap) (version_ignore : Bool) where
  from_parts :
      (m m_app : Meta) (h : History)
      → svec_fpga_is_valid version_ignore regs.version_bld m ≡ true
      → Ends
          (InitEnd k version_ignore regs)
          NoVic
          (init_parts k hw regs version_ignore (mapped_board k hw regs m m_app h))
  from_parts m m_app h valid =
      Ends-weaken (InitEnd k version_ignore regs) NoVic _
        (init_parts-Ends k hw regs version_ignore m m_app h) ended
    where
      valid_at :
          (b : Board)
          → b.meta ≡ m
          → svec_fpga_is_valid version_ignore regs.version_bld b.meta ≡ true
      valid_at b e = rw e valid

      ended : (e : Code) (b : Board) → PartsEnd k regs m e b → InitEnd k version_ignore regs e b
      ended ok b (up, e) = (up, valid_at b e)
      ended (err x) b (lost, e) = inr (lost, valid_at b e)

  -- From the metadata on.
  abbrev with_meta : Meta → Drv Code
  with_meta m = do
    change (λ b. record b { meta = m })
    if not (svec_fpga_is_valid version_ignore regs.version_bld m)
        then err_valid (err einval)
        else or_goto k.dev_set_name err_valid
            (or_goto k.device_register err_valid (init_parts k hw regs version_ignore))

  with_meta-Ends :
      (m m0 m_app : Meta) (h : History)
      → Ends (InitEnd k version_ignore regs) NoVic (with_meta m (mapped_board k hw regs m0 m_app h))
  unfolding err_valid err_map
  with_meta-Ends m m0 m_app h =
      elim (Bool-cases (svec_fpga_is_valid version_ignore regs.version_bld m)) [
        | inr invalid ↦ rw invalid (inl refl)
        | inl valid ↦ elim (Code-cases k.dev_set_name) [
          | inr (x, e) ↦ rw (valid, e) (inl refl)
          | inl e ↦ elim (Code-cases k.device_register) [
            | inr (x, e') ↦ rw (valid, e, e') (inl refl)
            | inl e' ↦ simp (valid, e, e') (from_parts m m_app h valid)
          ]
        ]
      ]

  -- From a state where nothing is held, `svec_fpga_init` returns, or it follows a null pointer. On
  -- zero the card's metadata is valid, the driver refers to the device, and the device is registered
  -- with its memory, its interrupt controller at its window, the devices of its metadata, and its
  -- carrier with a bus for each slot. The application's device, if there is one, then has the window
  -- from the offset that was read from the FPGA on, the interrupts of the controller, and a name
  -- that shows in full, with the highest digit first, the vendor and the device that were read
  -- there. On an error nothing is held, or, if the metadata is valid, the device stays registered
  -- with its memory mapped, while nothing refers to it and its parts are gone. The null pointer is
  -- followed only on a card whose metadata names no interrupt controller.
  pub svec_fpga_init_lem :
      (m m_app : Meta) (h : History)
      → Ends
          (InitEnd k version_ignore regs)
          NoVic
          (svec_fpga_init k hw regs version_ignore (idle m m_app h))
  unfolding svec_fpga_init err_map
  svec_fpga_init_lem m m_app h = elim (Bool-cases k.resource_is_mem) [
    | inr e ↦ rw e (inl refl)
    | inl e ↦ elim (Bool-cases k.kzalloc_ok) [
      | inr e' ↦ rw (e, e') (inl refl)
      | inl e' ↦ elim (Bool-cases k.ioremap_ok) [
        | inr e'' ↦ rw (e, e', e'') (inl refl)
        | inl e'' ↦
            simp (e, e', e'')
              (Ends-bind _ NoVic (svec_fpga_metadata_get hw regs regs.metadata _)
                (λ m'. with_meta m')
                (metadata_get-Ends hw regs NoVic regs.metadata (mapped_board k hw regs m m_app h))
                (λ m' b p.
                  subst (λ z. Ends (InitEnd k version_ignore regs) NoVic (with_meta m' z)) (sym p.2)
                    (with_meta-Ends m' m m_app p.0)))
      ]
    ]
  ]

-- From any state, `svec_fpga_exit` returns zero. If `svec_fpga` is set then nothing is held after it,
-- and otherwise it changes nothing.
pub svec_fpga_exit_lem :
    (k : Kernel) (hw : Hardware) (regs : RegMap) (version_ignore : Bool) (b : Board)
    → svec_fpga_exit k hw regs version_ignore b
      ≡ ret ok (if b.svec_fpga then idle b.meta b.meta_app b.bus else b)
unfolding svec_fpga_exit svec_fpga_dbg_exit svec_fpga_vic_exit svec_fpga_devices_exit svec_fmc_exit
    svec_fpga_app_exit
svec_fpga_exit_lem k hw regs version_ignore b = elim (Bool-cases b.svec_fpga) [
  | inr e ↦ simp e refl
  | inl e ↦ elim (Option-cases b.app_pdev) [
    | inl e1 ↦ elim (Option-cases b.vic_pdev) [
      | inl e2 ↦ simp (e, e1, e2) refl
      | inr (vic, e2) ↦ simp (e, e1, e2) refl
    ]
    | inr (app, e1) ↦ elim (Option-cases b.vic_pdev) [
      | inl e2 ↦ simp (e, e1, e2) refl
      | inr (vic, e2) ↦ simp (e, e1, e2) refl
    ]
  ]
]

abbrev pub init_then_exit : Kernel → Hardware → RegMap → (version_ignore : Bool) → Drv Code
init_then_exit k hw regs version_ignore = do
  e ← svec_fpga_init k hw regs version_ignore
  ignored ← svec_fpga_exit k hw regs version_ignore
  pure e

-- What `init_then_exit` does after `svec_fpga_init`.
abbrev exit_and_return : Kernel → Hardware → RegMap → (version_ignore : Bool) → Code → Drv Code
exit_and_return k hw regs version_ignore e = do
  ignored ← svec_fpga_exit k hw regs version_ignore
  pure e

abbrev pub CycleEnd : Code → Board → Type 0
CycleEnd ok b = Idle b
CycleEnd (err x) b = Idle b ⊎ Lost b

-- `svec_fpga_init` from a state where nothing is held, and then `svec_fpga_exit`: where the first
-- returns, so does the second. If the first returns zero, nothing is held in the end. If it fails,
-- either nothing is held, or the device is still registered with its memory mapped.
pub svec_fpga_exit-svec_fpga_init :
    (k : Kernel) (hw : Hardware) (regs : RegMap) (version_ignore : Bool) (m m_app : Meta)
    (h : History)
    → Ends CycleEnd NoVic (init_then_exit k hw regs version_ignore (idle m m_app h))
svec_fpga_exit-svec_fpga_init k hw regs version_ignore m m_app h =
    Ends-bind CycleEnd NoVic _ _ (svec_fpga_init_lem k hw regs version_ignore m m_app h) next
  where
    after :
        (e : Code) (b : Board)
        → CycleEnd e (if b.svec_fpga then idle b.meta b.meta_app b.bus else b)
        → Ends CycleEnd NoVic (exit_and_return k hw regs version_ignore e b)
    after e b p = rw (svec_fpga_exit_lem k hw regs version_ignore b) p

    next :
        (e : Code) (b : Board)
        → InitEnd k version_ignore regs e b
        → Ends CycleEnd NoVic (exit_and_return k hw regs version_ignore e b)
    next ok b ((dbg, app, slots, filled, is_app, e), valid) =
        subst (λ z. Ends CycleEnd NoVic (exit_and_return k hw regs version_ignore ok z)) (sym e)
          (after ok _ refl)
    next (err x) b (inl e) =
        subst (λ z. Ends CycleEnd NoVic (exit_and_return k hw regs version_ignore (err x) z))
          (sym e) (after (err x) _ (inl refl))
    next (err x) b (inr ((dbg, e), valid)) =
        subst (λ z. Ends CycleEnd NoVic (exit_and_return k hw regs version_ignore (err x) z))
          (sym e) (after (err x) _ (inr (dbg, refl)))
