-- ===== src/Fpga/Cycle.antt =====
-- `svec_fpga_init` and `svec_fpga_exit` of software/kernel/svec-core-fpga.c: what the driver holds
-- for a card after each way that they end.
use svec.Base.{
  ◌≡◌, refl, sym, subst, inl, inr, Bool, true, false, List, [], Bool-cases, flag, Option, some,
  none, Option-cases,
}
use svec.Base.Errors.{Code, Errno, ok, err}
use svec.Bus.{pure, ◌>>=◌, ◌>>◌, Hardware, History}
use svec.Fpga.{RegMap, svec_fmc_slots, Meta, svec_meta_cap_vic, svec_meta_cap_spi}
use svec.Fpga.Resources.{Resource, Cell, Slot, svec_fpga_vic_res, fill_vic, mfd_cells}
use svec.Fpga.App.{AppDevice}
use svec.Fpga.Board.{Kernel, Board, Drv, change, or_goto}
use svec.Fpga.Parts.{
  svec_fpga_dbg_init, svec_fpga_dbg_exit, svec_fpga_vic_init, svec_fpga_vic_exit,
  svec_fpga_devices_init, svec_fpga_devices_exit, svec_fmc_init, svec_fmc_exit, svec_fpga_app_init,
  fill_slots, register_slots,
}
use svec.Fpga.Lifecycle.{err_vic, err_devs, err_fmc, err_app, init_parts}
use svec.Fpga.Holding.{Ends, Ends-bind, Code-cases, idle, building, IsApp, AppEnd, app_init-Ends}

module _ (k : Kernel) (regs : RegMap) where
  -- The resources of the interrupt controller of this card.
  abbrev vic_of : Option (List Resource)
  vic_of = some (fill_vic k.vme_start k.vme_irq (svec_fpga_vic_res regs))

  -- The devices of a card with this metadata.
  abbrev mfd_of : Meta → List Cell
  mfd_of m = mfd_cells regs (flag m.cap svec_meta_cap_spi) k.vic_domain_found

  -- The driver runs the card: the device, its interrupt controller with its window and interrupt,
  -- the devices of its metadata, the FMC carrier with a bus for each slot, and the application's
  -- device if there is one.
  abbrev pub Up : Board → Type 0
  Up b =
      (dbg : Bool) × (app : Option AppDevice) × (slots : List Slot) × (fill_slots k svec_fmc_slots 0
        ≡ some slots)
      × IsApp k regs vic_of app b.bus
      × (b ≡ record (building dbg vic_of (mfd_of b.meta) slots app b.meta b.meta_app b.bus) {
        svec_fpga = true;
      })

-- Nothing is held.
abbrev pub Idle : Board → Type 0
Idle b = b ≡ idle b.meta b.meta_app b.bus

-- The device stays registered, its memory allocated and mapped, and nothing refers to it.
abbrev pub Lost : Board → Type 0
Lost b = (dbg : Bool) × (b ≡ building dbg none [] [] none b.meta b.meta_app b.bus)

-- The card has no interrupt controller, so that there is no device to ask for its domain.
abbrev pub NoVic : Board → Type 0
NoVic b = (b.vic_pdev ≡ none) × (flag b.meta.cap svec_meta_cap_vic ≡ false)

-- A step that leaves one state on success and another on failure.
abbrev Step : (good bad : Board) → Code → Board → Type 0
Step good bad ok b = b ≡ good
Step good bad (err x) b = b ≡ bad

Step-bind :
    (Q : Code → Board → Type 0) (F : Board → Type 0) (good bad b : Board) (part : Drv Code)
    (label : Code → Drv Code) (rest : Drv Code)
    → Ends (Step good bad) F (part b)
    → Ends Q F (rest good)
    → ((x : Errno) → Ends Q F (label (err x) bad))
    → Ends Q F ((do e ← part; or_goto e label rest) b)
Step-bind Q F good bad b part label rest p works fails =
    Ends-bind Q F (part b) (λ e. or_goto e label rest) p next
  where
    next : (e : Code) (b' : Board) → Step good bad e b' → Ends Q F (or_goto e label rest b')
    next ok b' e = subst (λ z. Ends Q F (rest z)) (sym e) works
    next (err x) b' e = subst (λ z. Ends Q F (label (err x) z)) (sym e) (fails x)

abbrev Failed : Board → Code → Board → Type 0
Failed bad ok b = ⊥
Failed bad (err x) b = b ≡ bad

abbrev pub PartsEnd : Kernel → RegMap → Meta → Code → Board → Type 0
PartsEnd k regs m ok b = Up k regs b × (b.meta ≡ m)
PartsEnd k regs m (err x) b = Lost b × (b.meta ≡ m)

module _ (k : Kernel) (hw : Hardware) (regs : RegMap) where
  abbrev from_app : Drv Code
  from_app = do
    e ← svec_fpga_app_init k hw regs
    or_goto e (err_app k) (do change (λ b. record b { svec_fpga = true }); pure ok)

  abbrev from_fmc : Drv Code
  from_fmc = do e ← svec_fmc_init k; or_goto e (err_fmc k) from_app

  abbrev from_devs : Drv Code
  from_devs = do e ← svec_fpga_devices_init k regs; or_goto e (err_devs k) from_fmc

  abbrev from_vic : Drv Code
  from_vic = do e ← svec_fpga_vic_init k regs; or_goto e err_vic from_devs

  module _ (m : Meta) (dbg : Bool) where
    abbrev vic : Option (List Resource)
    vic = vic_of k regs

    abbrev mfd : List Cell
    mfd = mfd_of k regs m

    fmc_init-Ends :
        (slots : List Slot) (m_app : Meta) (h : History)
        → fill_slots k svec_fmc_slots 0 ≡ some slots
        → Ends
            (Step
              (building dbg vic mfd slots none m m_app h)
              (building dbg vic mfd [] none m m_app h))
            NoVic
            (svec_fmc_init k (building dbg vic mfd [] none m m_app h))
    unfolding svec_fmc_init register_slots
    fmc_init-Ends slots m_app h filled = elim (Code-cases k.fmc_carrier_register) [
      | inr (x, e) ↦ simp (filled, e) refl
      | inl e ↦ simp (filled, e) refl
    ]

    from_app-Ends :
        (slots : List Slot) (m_app : Meta) (h : History)
        → fill_slots k svec_fmc_slots 0 ≡ some slots
        → Ends (PartsEnd k regs m) NoVic (from_app (building dbg vic mfd slots none m m_app h))
    unfolding err_app err_fmc err_devs err_vic svec_fmc_exit svec_fpga_devices_exit
        svec_fpga_vic_exit
    from_app-Ends slots m_app h filled =
        Ends-bind _ NoVic (svec_fpga_app_init k hw regs _) _
          (app_init-Ends k hw regs NoVic dbg vic mfd slots m m_app h) next
      where
        next :
            (e : Code) (b : Board)
            → AppEnd k regs dbg vic mfd slots m e b
            → Ends
                (PartsEnd k regs m)
                NoVic
                (or_goto e (err_app k) (do change (λ b. record b { svec_fpga = true }); pure ok) b)
        next ok b (app, is_app, e) =
            subst
              (λ z. Ends (PartsEnd k regs m) NoVic (
                or_goto ok (err_app k) (do change (λ b. record b { svec_fpga = true }); pure ok) z))
              (sym e) ((dbg, app, slots, filled, is_app, refl), refl)
        next (err x) b e =
            subst (λ z. Ends (PartsEnd k regs m) NoVic (err_app k (err x) z)) (sym e)
              ((dbg, refl), refl)

    from_fmc-Ends :
        (m_app : Meta) (h : History)
        → Ends (PartsEnd k regs m) NoVic (from_fmc (building dbg vic mfd [] none m m_app h))
    unfolding svec_fmc_init register_slots err_fmc err_devs err_vic svec_fpga_devices_exit
        svec_fpga_vic_exit
    from_fmc-Ends m_app h = elim (Option-cases (fill_slots k svec_fmc_slots 0)) [
      | inl e ↦ rw e ((dbg, refl), refl)
      | inr (slots, e) ↦
          Step-bind _ NoVic (building dbg vic mfd slots none m m_app h) _ _ (svec_fmc_init k)
            (err_fmc k) from_app (fmc_init-Ends slots m_app h e) (from_app-Ends slots m_app h e)
            (λ x. ((dbg, refl), refl))
    ]

    devices_init-Ends :
        (m_app : Meta) (h : History)
        → Ends
            (Step (building dbg vic mfd [] none m m_app h) (building dbg vic [] [] none m m_app h))
            NoVic
            (svec_fpga_devices_init k regs (building dbg vic [] [] none m m_app h))
    unfolding svec_fpga_devices_init
    devices_init-Ends m_app h = elim (Bool-cases k.devm_kzalloc_ok) [
      | inr e ↦ rw e refl
      | inl e ↦ elim (Code-cases k.mfd_add_devices) [
        | inr (x, e') ↦ rw (e, e') refl
        | inl e' ↦ rw (e, e') refl
      ]
    ]

    from_devs-Ends :
        (m_app : Meta) (h : History)
        → Ends (PartsEnd k regs m) NoVic (from_devs (building dbg vic [] [] none m m_app h))
    unfolding err_devs err_vic svec_fpga_vic_exit
    from_devs-Ends m_app h =
        Step-bind _ NoVic _ _ _ (svec_fpga_devices_init k regs) (err_devs k) from_fmc
          (devices_init-Ends m_app h) (from_fmc-Ends m_app h) (λ x. ((dbg, refl), refl))

    NoVic-Ends :
        (m_app : Meta) (h : History)
        → flag m.cap svec_meta_cap_vic ≡ false
        → Ends
            (Failed (building dbg none [] [] none m m_app h))
            NoVic
            (svec_fpga_devices_init k regs (building dbg none [] [] none m m_app h))
    unfolding svec_fpga_devices_init
    NoVic-Ends m_app h no_vic = elim (Bool-cases k.devm_kzalloc_ok) [
      | inr e ↦ rw e refl
      | inl e ↦ rw e (refl, no_vic)
    ]

    -- Without an interrupt controller the devices are not set up: no memory, or a null pointer.
    without_vic :
        (m_app : Meta) (h : History)
        → flag m.cap svec_meta_cap_vic ≡ false
        → Ends (PartsEnd k regs m) NoVic (from_devs (building dbg none [] [] none m m_app h))
    unfolding err_devs err_vic svec_fpga_vic_exit
    without_vic m_app h no_vic =
        Ends-bind _ NoVic (svec_fpga_devices_init k regs _) (λ e. or_goto e (err_devs k) from_fmc)
          (NoVic-Ends m_app h no_vic) next
      where
        next :
            (e : Code) (b : Board)
            → Failed (building dbg none [] [] none m m_app h) e b
            → Ends (PartsEnd k regs m) NoVic (or_goto e (err_devs k) from_fmc b)
        next ok b p = absurd p
        next (err x) b e =
            subst (λ z. Ends (PartsEnd k regs m) NoVic (err_devs k (err x) z)) (sym e)
              ((dbg, refl), refl)

    vic_init-Ends :
        (m_app : Meta) (h : History)
        → flag m.cap svec_meta_cap_vic ≡ true
        → Ends
            (Step (building dbg vic [] [] none m m_app h) (building dbg none [] [] none m m_app h))
            NoVic
            (svec_fpga_vic_init k regs (building dbg none [] [] none m m_app h))
    unfolding svec_fpga_vic_init
    vic_init-Ends m_app h with_vic = elim (Code-cases k.register_vic) [
      | inr (x, e) ↦ rw (with_vic, e) refl
      | inl e ↦ rw (with_vic, e) refl
    ]

    from_vic-Ends :
        (m_app : Meta) (h : History)
        → Ends (PartsEnd k regs m) NoVic (from_vic (building dbg none [] [] none m m_app h))
    unfolding svec_fpga_vic_init err_vic
    from_vic-Ends m_app h = elim (Bool-cases (flag m.cap svec_meta_cap_vic)) [
      | inr no_vic ↦ rw no_vic (without_vic m_app h no_vic)
      | inl with_vic ↦
          Step-bind _ NoVic _ _ _ (svec_fpga_vic_init k regs) err_vic from_devs
            (vic_init-Ends m_app h with_vic) (from_devs-Ends m_app h) (λ x. ((dbg, refl), refl))
    ]

  abbrev DbgEnd : Meta → Meta → History → Code → Board → Type 0
  DbgEnd m m_app h c b = (dbg : Bool) × (b ≡ building dbg none [] [] none m m_app h)

  dbg_init-Ends :
      (m m_app : Meta) (h : History)
      → Ends
          (DbgEnd m m_app h)
          NoVic
          (svec_fpga_dbg_init k (building false none [] [] none m m_app h))
  unfolding svec_fpga_dbg_init svec_fpga_dbg_exit
  dbg_init-Ends m m_app h = elim (Code-cases k.create_dir) [
    | inr (x, e) ↦ rw e (false, refl)
    | inl e ↦ elim (Code-cases k.create_file) [
      | inr (x, e') ↦ rw (e, e') (false, refl)
      | inl e' ↦ rw (e, e') (true, refl)
    ]
  ]

  -- The board with its memory mapped, before the device is registered.
  abbrev pub mapped_board : Meta → Meta → History → Board
  mapped_board m m_app h = record (idle m m_app h) { allocated = true; mapped = true }

  pub init_parts-Ends :
      (version_ignore : Bool) (m m_app : Meta) (h : History)
      → Ends
          (PartsEnd k regs m)
          NoVic
          (init_parts k hw regs version_ignore (mapped_board m m_app h))
  unfolding init_parts
  init_parts-Ends version_ignore m m_app h =
      Ends-bind _ NoVic (svec_fpga_dbg_init k _) (λ e. from_vic) (dbg_init-Ends m m_app h)
        (λ e b p.
          subst (λ z. Ends (PartsEnd k regs m) NoVic (from_vic z)) (sym p.1)
            (from_vic-Ends m p.0 m_app h))
