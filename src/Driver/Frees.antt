-- ===== src/Driver/Frees.antt =====
-- `svec_fpga_exit` of software/kernel/svec-core-fpga.c in several writers of `firmware_name` at once: it
-- reads the pointer to the FPGA device before the mutex is taken.
use Prim.Native.String.{String}
use svec.Base.{
  arith, ℕ, zero, suc, ◌+◌, ◌≤◌, ◌<◌, ◌≡◌, refl, sym, ap, ◌∙◌, subst, inl, inr, true, false,
  Bool-cases, ◌==◌,
}
use svec.Base.Errors.{Code}
use svec.Bus.{Io, Returns}
use svec.Core.{Svec}
use svec.Fpga.Board.{Board}
use svec.Driver.{Device, Host}
use svec.Driver.Compat.{Manager, Documented}
use svec.Driver.Race.{take_down-Returns, IsSafe, Reach-IsSafe}
use svec.Driver.Writers.{
  frees_of, Shared, Pc, start, tearing, clearing, Move, has_fpga, torn, with_fpga, System, update,
  Step, pick, initial, Reach, begin, next,
}

frees_of-one : (k : Host) (b : Board) → frees_of k b ≡ 1
frees_of-one k b =
    let p = take_down-Returns k (record b { allocated = true }) in rw p.returned (rw p.holds.1 refl)

module _ (k : Host) (m : Manager) (doc : Documented m)
    (fpga_mgr_load : Board → String → Io Svec Code)
    (load_returns : (b : Board) (name : String) (s : Svec)
      → Returns (λ c s'. Unit {0}) (fpga_mgr_load b name s))
    (n : ℕ) (d : Device) (set : d.fpga.svec_fpga ≡ true) where
  updated : (f : ℕ → Pc) (i : ℕ) (p : Pc) (j : ℕ) → i < j → update f i p j ≡ f j
  updated f i p j h = let other : (i == j) ≡ false = ground arith in rw other refl

  -- The first `j` writers have read the pointer.
  abbrev Entered : ℕ → System → Type 0
  Entered j s =
      Reach k m fpga_mgr_load n d s
      × (s.shared ≡ (initial d).shared)
      × ((i : ℕ) → i < j → s.pc i ≡ tearing)
      × ((i : ℕ) → j ≤ i → s.pc i ≡ start)

  step_at :
      (s : System) (i : ℕ) (p : Pc) (s' : Shared) (p' : Pc)
      → i < n
      → s.pc i ≡ p
      → Move k m fpga_mgr_load s.shared p s' p'
      → Step k m fpga_mgr_load n s (record { shared = s'; pc = update s.pc i p' })
  step_at s i p s' p' below here move =
      pick i below (subst (λ q. Move k m fpga_mgr_load s.shared q s' p') (sym here) move)

  entered : (j : ℕ) → j ≤ n → (s : System) × Entered j s
  entered zero h = (initial d, (begin, refl, (λ i lt. absurd (omega arith)), (λ i le. refl)))
  entered (suc j) h =
      let (s, (reached, same, in_there, before)) = entered j (omega arith) in
      let there : s.shared.dev.fpga.svec_fpga ≡ true =
        ap (λ (z : Shared). z.dev.fpga.svec_fpga) same ∙ set in
      (
        record { shared = s.shared; pc = update s.pc j tearing },
        (
          next reached (
              step_at s j start s.shared tearing (omega arith) (before j (omega arith))
                (has_fpga there)),
          same,
          (λ i lt. elim (Bool-cases (j == i)) [
            | inl e ↦ rw e refl
            | inr e ↦ rw e (in_there i (ground arith))
          ]),
          (λ i le. updated s.pc j tearing i (omega arith) ∙ before i (omega arith)),
        ),
      )

  -- And the first `j` of these have freed the structure.
  abbrev Freed : ℕ → System → Type 0
  Freed j s =
      Reach k m fpga_mgr_load n d s
      × (s.shared.frees ≡ j)
      × ((i : ℕ) → j ≤ i → i < n → s.pc i ≡ tearing)

  freed : (j : ℕ) → j ≤ n → (s : System) × Freed j s
  freed zero h =
      let (s, (reached, same, in_there, before)) = entered n (omega arith) in
      (s, (reached, ap (λ (z : Shared). z.frees) same, (λ i le lt. in_there i lt)))
  freed (suc j) h =
      let (s, (reached, count, in_there)) = freed j (omega arith) in
      let p = take_down-Returns k s.shared.dev.fpga in
      let one = frees_of-one k s.shared.dev.fpga in
      let s' : Shared = record s.shared {
        dev = with_fpga p.state s.shared.dev;
        frees = s.shared.frees + frees_of k s.shared.dev.fpga;
      } in
      (
        record { shared = s'; pc = update s.pc j clearing },
        (
          next reached (
              step_at s j tearing s' clearing (omega arith) (in_there j (omega arith) (omega arith))
                (torn p.state p.returned)),
          omega (arith, count, one),
          (λ i le lt. updated s.pc j clearing i (omega arith) ∙ in_there i (omega arith) lt),
        ),
      )

  -- If the driver refers to an FPGA device, the kernel's manager keeps what it documents and a load
  -- returns, then for every number of writers of `firmware_name` at once: in every order of their steps
  -- at most one loads a bitstream at a time, with the mutex and while the driver refers to no FPGA
  -- device, and at most one has the attribute remove itself; but the mutex does not protect the
  -- teardown: there is an order after which the structure of the one FPGA device has been freed as
  -- many times as there are writers.
  pub Reach-IsSafe-frees :
      ((s : System) → Reach k m fpga_mgr_load n d s → IsSafe s)
      × ((s : System) × Reach k m fpga_mgr_load n d s × (s.shared.frees ≡ n))
  Reach-IsSafe-frees =
      let (s, (reached, count, rest)) = freed n (omega arith) in
      ((λ s r. Reach-IsSafe k m doc fpga_mgr_load load_returns r), (s, reached, count))
