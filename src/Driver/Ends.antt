-- ===== src/Driver/Ends.antt =====
-- `svec_probe` and `svec_remove` of software/kernel/svec-core.c: what the driver holds for a card after
-- each way that they end.
use svec.Base.{
  arith, ◌≡◌, refl, sym, subst, inl, inr, Bool, true, false, not, Bool-cases, if◌then◌else◌,
}
use svec.Base.Errors.{Code, ok, err, eperm}
use svec.Bus.{
  Io, Run, ret, exit, out_of_fuel, fault, Returns, returns, bind, pure, ◌>>=◌, ◌>>◌, and_then,
}
use svec.Core.{Svec}
use svec.Fpga.Board.{Board}
use svec.Fpga.Lifecycle.{svec_fpga_init}
use svec.Fpga.Holding.{Ends, Ends-weaken, Code-cases, idle}
use svec.Fpga.Cycle.{NoVic}
use svec.Fpga.Teardown.{InitEnd, svec_fpga_init_lem, svec_fpga_exit_lem}
use svec.Driver.{
  Ptr, ptr, null, bad, Leaks, Mgr, Device, Host, Dev, or_label, update, on_fpga, zoom_run,
}
use svec.Driver.Probe.{
  zero_meta, dbg_file, dbg_from, svec_dbg_init, svec_dbg_exit, err_name, err_fpga_new, err_fpga_reg,
  warn, kzalloc_svec, probe_parts, svec_probe, svec_remove,
}
use svec.Driver.Interface.{Extended, exit_writes, vme_init-VmeChanged, vme_exit-VmeChanged}
use svec.Driver.Loading.{exited}
use svec.Driver.States.{
  vacant, present, Unreferenced, ProbeEnd, PartEnd, orphans-few, Up-orphans, Unreferenced-orphans,
  again,
}

-- The null pointer is followed on a card without an interrupt controller alone.
abbrev pub Oops : Device → Type 0
Oops d = NoVic d.fpga

pub Returns-Ends :
    {S A : Type 0} {P : A → S → Type 0} (Q : A → S → Type 0) (F : S → Type 0) (r : Run S A)
    → Returns P r
    → ((a : A) (s : S) → P a s → Q a s)
    → Ends Q F r
Returns-Ends Q F r p f = rw p.returned (f p.value p.state p.holds)

-- A part whose result is ignored.
Ends-after :
    {A B : Type 0} {P : A → Device → Type 0} (Q : B → Device → Type 0) (F : Device → Type 0)
    (r : Run Device A) (k : A → Io Device B)
    → Returns P r
    → ((a : A) (d : Device) → P a d → Ends Q F (k a d))
    → Ends Q F (and_then r k)
Ends-after Q F r k p next = rw p.returned (next p.value p.state p.holds)

module _ (k : Host) where
  abbrev kernel_init : Io Board Code
  kernel_init = svec_fpga_init k.kernel k.window k.regs k.version_ignore

  abbrev with_fpga : Dev Code
  with_fpga = do e ← on_fpga kernel_init; warn e; pure ok

  -- An FPGA that cannot be set up does not fail the probe.
  fpga_part :
      (dbg enabled : Bool) (mgr : Mgr) (fpga : Board) (svec : Svec) (l : Leaks)
      → Ends (InitEnd k.kernel k.version_ignore k.regs) NoVic (kernel_init fpga)
      → Ends (PartEnd k mgr l) Oops (with_fpga (present dbg enabled mgr fpga svec l))
  unfolding warn
  fpga_part dbg enabled mgr fpga svec l p = go (kernel_init fpga) p
    where
      go :
          (r : Run Board Code)
          → Ends (InitEnd k.kernel k.version_ignore k.regs) NoVic r
          → Ends (PartEnd k mgr l) Oops (
              and_then
                (zoom_run (λ s e. record e { fpga = s }) (present dbg enabled mgr fpga svec l) r)
                (λ e. warn e >> pure ok))
      go (ret ok b) (up, valid) =
          let none_lost = Up-orphans k b up in ((dbg, refl, inl up), omega (arith, none_lost))
      go (ret (err x) b) (inl rest) =
          let few = orphans-few b in ((dbg, refl, inr (inl rest)), omega (arith, few))
      go (ret (err x) b) (inr (rest, valid)) =
          let few = orphans-few b in ((dbg, refl, inr (inr rest)), omega (arith, few))
      go (exit c b) p = absurd p
      go (out_of_fuel b) p = absurd p
      go (fault b) p = p

  dbg_init-Returns :
      (enabled : Bool) (mgr : Mgr) (fpga : Board) (svec : Svec) (l : Leaks)
      → Returns
          (λ c d. (dbg : Bool) × (d ≡ present dbg enabled mgr fpga svec l))
          (svec_dbg_init k (present false enabled mgr fpga svec l))
  unfolding svec_dbg_init dbg_from dbg_file
  dbg_init-Returns enabled mgr fpga svec l = go k.create_dir
    where
      go :
          (dir : Ptr)
          → Returns
              (λ c d. (dbg : Bool) × (d ≡ present dbg enabled mgr fpga svec l))
              (dbg_from dir k.create_file (present false enabled mgr fpga svec l))
      go ptr = returns _ _ (true, refl)
      go null = returns _ _ (false, refl)
      go (bad e) = returns _ _ (false, refl)

  -- Registered, and not known to the FPGA manager yet.
  abbrev registered_only : (enabled : Bool) → Mgr → Board → Svec → Leaks → Device
  registered_only enabled mgr fpga svec l = record (vacant enabled mgr fpga svec l) {
    allocated = true;
    drvdata = true;
    registered = true;
  }

  -- From `svec_dbg_init` on, and from `fpga_mgr_create` on.
  abbrev from_dbg : Dev Code
  from_dbg = do ignored ← svec_dbg_init k; with_fpga

  abbrev from_mgr : Dev Code
  from_mgr = if not k.fpga_mgr_create then err_fpga_new (err eperm) else (do
    update (λ d. record d { mgr_created = true })
    or_label k.fpga_mgr_register err_fpga_reg
        (do update (λ d. record d { mgr_registered = true }); from_dbg))

  abbrev fresh : Board → Board
  fresh b = idle zero_meta zero_meta b.bus

  init_lem :
      (fpga : Board)
      → Ends (InitEnd k.kernel k.version_ignore k.regs) NoVic (kernel_init (fresh fpga))
  init_lem fpga =
      svec_fpga_init_lem k.kernel k.window k.regs k.version_ignore zero_meta zero_meta fpga.bus

  from_dbg-Ends :
      (enabled : Bool) (mgr : Mgr) (fpga : Board) (svec : Svec) (l : Leaks)
      → Ends (PartEnd k mgr l) Oops (from_dbg (present false enabled mgr (fresh fpga) svec l))
  from_dbg-Ends enabled mgr fpga svec l =
      Ends-after (PartEnd k mgr l) Oops _ (λ c. with_fpga)
        (dbg_init-Returns enabled mgr (fresh fpga) svec l)
        (λ c d p.
          subst (λ z. Ends (PartEnd k mgr l) Oops (with_fpga z)) (sym p.1)
            (fpga_part p.0 enabled mgr (fresh fpga) svec l (init_lem fpga)))

  from_mgr-Ends :
      (enabled : Bool) (mgr : Mgr) (fpga : Board) (svec : Svec) (l : Leaks)
      → Ends (PartEnd k mgr l) Oops (from_mgr (registered_only enabled mgr (fresh fpga) svec l))
  unfolding err_fpga_new err_fpga_reg err_name
  from_mgr-Ends enabled mgr fpga svec l = elim (Bool-cases k.fpga_mgr_create) [
    | inr e ↦ rw e ((refl, inl refl), omega arith)
    | inl e ↦ elim (Code-cases k.fpga_mgr_register) [
      | inr (x, e') ↦ rw (e, e') ((refl, inl refl), omega arith)
      | inl e' ↦ simp (e, e') (from_dbg-Ends enabled mgr fpga svec l)
    ]
  ]

  probe_parts-Ends :
      (enabled : Bool) (mgr : Mgr) (fpga : Board) (svec : Svec) (l : Leaks)
      → Ends
          (PartEnd k mgr l)
          Oops
          (probe_parts k (registered_only enabled mgr (fresh fpga) svec l))
  unfolding probe_parts
  probe_parts-Ends enabled mgr fpga svec l =
      Ends-after (PartEnd k mgr l) Oops _ (λ c. from_mgr) (vme_init-VmeChanged k _)
        (λ c d (enabled', svec', more, e).
          subst (λ z. Ends (PartEnd k mgr l) Oops (from_mgr z)) (sym e)
            (from_mgr-Ends enabled' mgr fpga svec' l))

  -- From a state where nothing is held, `svec_probe` returns, or it follows a null pointer on a card
  -- whose metadata names no interrupt controller. On zero the driver holds the VME device and its
  -- FPGA manager, and the FPGA device is up, or nothing refers to one: an FPGA that cannot be set up
  -- does not make it fail. On an error nothing is held for the VME device. An FPGA device that was not
  -- released before is lost, and one more is left over only with a warning.
  pub svec_probe_lem :
      (enabled : Bool) (mgr : Mgr) (fpga : Board) (svec : Svec) (l : Leaks)
      → Unreferenced fpga
      → Ends
          (ProbeEnd k mgr (vacant enabled mgr fpga svec l))
          Oops
          (svec_probe k (vacant enabled mgr fpga svec l))
  unfolding svec_probe err_name kzalloc_svec
  svec_probe_lem enabled mgr fpga svec l rest =
      let same = Unreferenced-orphans fpga rest in
      elim (Bool-cases k.has_dev) [
        | inr e ↦ rw e ((refl, rest), omega arith)
        | inl e ↦ elim (Bool-cases k.kzalloc_ok) [
          | inr e1 ↦ rw (e, e1) ((refl, rest), omega arith)
          | inl e1 ↦ elim (Code-cases k.dev_set_name) [
            | inr (x, e2) ↦ rw (e, e1, e2) ((refl, inl refl), omega (arith, same))
            | inl e2 ↦ elim (Code-cases k.device_register) [
              | inr (x, e3) ↦ rw (e, e1, e2, e3) ((refl, inl refl), omega (arith, same))
              | inl e3 ↦
                  simp (e, e1, e2, e3)
                    (Ends-weaken (ProbeEnd k mgr (vacant enabled mgr fpga svec l)) Oops _
                      (probe_parts-Ends enabled mgr fpga _ (again l fpga))
                      (λ c d (held, counted). (held, omega (arith, same, counted))))
            ]
          ]
        ]
      ]

  -- From any state, `svec_remove` returns zero, and the driver then holds nothing for the VME device.
  -- The FPGA device that the driver refers to is taken down too, and otherwise it is left as it is. The
  -- accesses to the CR/CSR space are those of `svec_vme_exit` at most.
  pub svec_remove_lem :
      (d : Device)
      → Returns
          (λ c d'.
            (c ≡ ok)
            × (d'
                ≡ record (vacant d'.enabled d.mgr (exited d.fpga) d'.svec d.leaks) { mtx = d.mtx })
            × Extended exit_writes d.svec d'.svec)
          (svec_remove k d)
  unfolding svec_remove svec_dbg_exit
  svec_remove_lem d = rw (svec_fpga_exit_lem k.kernel k.window k.regs k.version_ignore d.fpga) (
      bind (vme_exit-VmeChanged k _)
        (λ c d1 (enabled, svec, more, e). rw e (returns _ _ (refl, refl, more))))
