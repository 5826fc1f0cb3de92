-- ===== src/Core/Manager.antt =====
-- `svec_fpga_ops` of software/kernel/svec-core.c, and the calls of these operations that the kernel's
-- FPGA manager documents for a bitstream: `write_init`, `write` for each buffer in turn,
-- `write_complete`, and no more calls after a failure.
use svec.Base.{ℕ, List, [], ◌∷◌}
use svec.Base.Errors.{Code, ok, err}
use svec.Bus.{Hardware, pure, ◌>>=◌}
use svec.Core.{Buffer, Drv}
use svec.Core.Program.{svec_fpga_write_init, svec_fpga_write, svec_fpga_write_complete}

-- `struct fpga_manager_ops`. `Mgr` is the manager's structure and `State` an `enum fpga_mgr_states`.
pub record FpgaManagerOps (Mgr State : Type 0) : Type 0 where
  pub initial_header_size : ℕ
  pub state : Mgr → State
  pub write_init : Drv Code
  pub write : Buffer → Drv Code
  pub write_complete : Drv Code
  pub fpga_remove : Drv (Unit {0})

-- The manager's structure, of which the driver reads the state alone.
pub record FpgaManager (State : Type 0) : Type 0 where
  pub state : State

-- What the framework keeps as the state.
abbrev pub svec_fpga_state : {State : Type 0} → FpgaManager State → State
svec_fpga_state mgr = mgr.state

abbrev pub svec_fpga_remove : Drv (Unit {0})
svec_fpga_remove = pure tt

abbrev pub svec_fpga_ops :
    {State : Type 0} → Hardware → (fuel us : ℕ) → FpgaManagerOps (FpgaManager State) State
svec_fpga_ops hw fuel us = record {
  initial_header_size = 0;
  state = svec_fpga_state;
  write_init = svec_fpga_write_init hw;
  write = svec_fpga_write hw;
  write_complete = svec_fpga_write_complete hw fuel us;
  fpga_remove = svec_fpga_remove;
}

abbrev pub unless_err : Code → Drv Code → Drv Code
unless_err ok k = k
unless_err (err x) k = pure (err x)

unfoldable pub write_all : (Buffer → Drv Code) → List Buffer → Drv Code
write_all write [] = pure ok
write_all write (b ∷ bufs) = do e ← write b; unless_err e (write_all write bufs)

-- No header is asked for before `write_init`, since `initial_header_size` is zero.
abbrev pub load_by : {Mgr State : Type 0} → FpgaManagerOps Mgr State → List Buffer → Drv Code
load_by ops bufs = do
  e ← ops.write_init
  unless_err e (do e' ← write_all ops.write bufs; unless_err e' ops.write_complete)

unfoldable pub load_image : Hardware → (fuel us : ℕ) → List Buffer → Drv Code
load_image hw fuel us bufs = load_by (svec_fpga_ops {State = Unit {0}} hw fuel us) bufs
