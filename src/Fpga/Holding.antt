-- ===== src/Fpga/Holding.antt =====
-- What the driver holds for a card, in the words of software/kernel/svec-core-fpga.c, and how the
-- steps of `svec_fpga_init` and `svec_fpga_exit` change it.
use svec.Base.{
  sym, subst, ℕ, zero, suc, ◌+◌, ◌≡◌, ◌≢◌, refl, ◌⊎◌, inl, inr, Bool, true, false, List, [],
  Bool-cases, ◌∷◌, arith, ◌==◌, ◌++◌, bswap32, Option, some, none,
}
use svec.Fpga.App.{AppDevice, app_name_max, app_name-bswap32, hex_digits}
use svec.Fpga.Resources.{Resource, Cell, Slot}
use svec.Base.Errors.{Code, ok, err}
use svec.Bus.{
  Run, Io, rd, ret, exit, out_of_fuel, fault, and_then, pure, ◌>>=◌, ◌>>◌, Hardware, History, Seen,
}
use svec.Fpga.{RegMap, Meta, meta_words}
use svec.Fpga.Board.{
  change, get, csr_app_off, Kernel, Board, Drv, metadata_loop, svec_fpga_metadata_get,
  svec_fpga_app_reset, svec_fpga_app_restart, or_goto,
}
use svec.Fpga.Parts.{app_res, svec_fpga_app_id_build, svec_fpga_app_init}

-- A run that returns or follows a null pointer, with a property of each end.
module _ {S A : Type 0} where
  abbrev pub Ends : (A → S → Type 0) → (S → Type 0) → Run S A → Type 0
  Ends P F (ret a s) = P a s
  Ends P F (exit c s) = ⊥
  Ends P F (out_of_fuel s) = ⊥
  Ends P F (fault s) = F s

pub Ends-weaken :
    {S A : Type 0} {P : A → S → Type 0} (Q : A → S → Type 0) (F : S → Type 0) (r : Run S A)
    → Ends P F r
    → ((a : A) (s : S) → P a s → Q a s)
    → Ends Q F r
Ends-weaken Q F (ret a s) p f = f a s p
Ends-weaken Q F (exit c s) p f = absurd p
Ends-weaken Q F (out_of_fuel s) p f = absurd p
Ends-weaken Q F (fault s) p f = p

pub Ends-bind :
    {S A B : Type 0} {P : A → S → Type 0} (Q : B → S → Type 0) (F : S → Type 0) (r : Run S A)
    (k : A → Io S B)
    → Ends P F r
    → ((a : A) (s : S) → P a s → Ends Q F (k a s))
    → Ends Q F (and_then r k)
Ends-bind Q F (ret a s) k p next = next a s p
Ends-bind Q F (exit c s) k p next = absurd p
Ends-bind Q F (out_of_fuel s) k p next = absurd p
Ends-bind Q F (fault s) k p next = p

pub Code-cases : (c : Code) → (c ≡ ok) ⊎ ((x : _) × (c ≡ err x))
Code-cases ok = inl refl
Code-cases (err x) = inr (x, refl)

-- Nothing is held.
abbrev pub idle : Meta → Meta → History → Board
idle m m_app h = record {
  svec_fpga = false;
  allocated = false;
  mapped = false;
  registered = false;
  dbg_dir = false;
  vic_pdev = none;
  mfd = [];
  fmc_carrier = [];
  app_pdev = none;
  meta = m;
  meta_app = m_app;
  bus = h;
}

-- The device is registered, and `svec_dev->svec_fpga` is not set yet.
abbrev pub building :
    (dbg : Bool) (vic : Option (List Resource)) (mfd : List Cell) (fmc : List Slot)
    (app : Option AppDevice)
    → Meta
    → Meta
    → History
    → Board
building dbg vic mfd fmc app m m_app h = record (idle m m_app h) {
  allocated = true;
  mapped = true;
  registered = true;
  dbg_dir = dbg;
  vic_pdev = vic;
  mfd = mfd;
  fmc_carrier = fmc;
  app_pdev = app;
}

module _ (hw : Hardware) (regs : RegMap) where
  -- Reading metadata returns, and adds to the history alone.
  abbrev pub MoreSeen : Board → Board → Type 0
  MoreSeen b b' =
      (h : History) × ((a v : ℕ) → Seen a v b.bus → Seen a v h) × (b' ≡ record b { bus = h })

  pub metadata_loop-Ends :
      (F : Board → Type 0) (n at : ℕ) (b : Board)
      → Ends (λ ws b'. MoreSeen b b') F (metadata_loop hw regs n at b)
  unfolding metadata_loop
  metadata_loop-Ends F zero at b = (b.bus, (λ a v seen. seen), refl)
  metadata_loop-Ends F (suc n) at b =
      Ends-bind _ F (metadata_loop hw regs n (at + 4) _) _ (metadata_loop-Ends F n (at + 4) _)
        (λ ws b' e. (e.0, (λ a v seen. e.1 a v (inr seen)), e.2))

  pub metadata_get-Ends :
      (F : Board → Type 0) (at : ℕ) (b : Board)
      → Ends (λ m b'. MoreSeen b b') F (svec_fpga_metadata_get hw regs at b)
  unfolding svec_fpga_metadata_get
  metadata_get-Ends F at b =
      Ends-bind _ F (metadata_loop hw regs meta_words at b) _ (metadata_loop-Ends F meta_words at b)
        (λ ws b' e. e)

-- The application's device, if there is one: it has the rest of the window from an offset on, with
-- the interrupts of the controller, and the name shows the words read there as vendor and device.
abbrev pub IsApp : Kernel → RegMap → Option (List Resource) → Option AppDevice → History → Type 0
IsApp k regs vic none h = Unit
IsApp k regs vic (some app) h =
    (at vendor device : ℕ) × (at ≢ 0)
    × Seen (regs.csr + csr_app_off) at h
    × Seen (at + 0) vendor h
    × Seen (at + 4) device h
    × (app.name ≡ 105 ∷ 100 ∷ 58 ∷ [] ++ (hex_digits vendor ++ hex_digits device))
    × (app.resources ≡ app_res k at vic)

-- The application's device after its part of `svec_fpga_init`: there may be no application at all.
abbrev pub AppEnd :
    (k : Kernel) (regs : RegMap) (dbg : Bool) (vic : Option (List Resource)) (mfd : List Cell)
    (fmc : List Slot)
    → Meta
    → Code
    → Board
    → Type 0
AppEnd k regs dbg vic mfd fmc m ok b =
    (app : Option AppDevice) × IsApp k regs vic app b.bus
    × (b ≡ building dbg vic mfd fmc app m b.meta_app b.bus)
AppEnd k regs dbg vic mfd fmc m (err x) b = b ≡ building dbg vic mfd fmc none m b.meta_app b.bus

module _ (k : Kernel) (hw : Hardware) (regs : RegMap) (F : Board → Type 0) (dbg : Bool)
    (vic : Option (List Resource)) (mfd : List Cell) (fmc : List Slot) (m : Meta) where
  -- From the application's metadata on.
  abbrev with_metadata : ℕ → Drv Code
  with_metadata at = do
    id ← svec_fpga_app_id_build k hw regs at app_name_max
    or_goto id.0 (λ e'. pure e')
        (do
          svec_fpga_app_restart hw regs
          or_goto k.register_app (λ e'. pure e')
              (do
                b ← get
                change (λ b. record b {
                  app_pdev = some (record { name = id.1; resources = app_res k at b.vic_pdev });
                })
                pure ok))

  after_metadata :
      (at : ℕ) (m_app : Meta) (h : History)
      → at ≢ 0
      → Seen (regs.csr + csr_app_off) at h
      → Ends
          (AppEnd k regs dbg vic mfd fmc m)
          F
          (with_metadata at (building dbg vic mfd fmc none m m_app h))
  unfolding svec_fpga_app_id_build svec_fpga_app_restart svec_fpga_app_reset
  after_metadata at m_app h found offset_seen =
      elim (Bool-cases (bswap32 (hw.answer h (at + 0)) == 0xff000000)) [
        | inl e ↦ rw e refl
        | inr e ↦ elim (Code-cases k.register_app) [
          | inl e' ↦
              let vendor_seen = inr (inr (inr (inl (refl, refl)))) in
              let device_seen = inr (inr (inl (refl, refl))) in
              simp (e, e')
                (
                  some _,
                  (
                    at,
                    hw.answer h (at + 0),
                    hw.answer (rd (at + 0) (hw.answer h (at + 0)) ∷ h) (at + 4),
                    found,
                    inr (inr (inr (inr offset_seen))),
                    vendor_seen,
                    device_seen,
                    app_name-bswap32 _ _,
                    refl,
                  ),
                  refl,
                )
          | inr (x, e') ↦ rw (e, e') refl
        ]
      ]

  pub app_init-Ends :
      (m_app : Meta) (h : History)
      → Ends
          (AppEnd k regs dbg vic mfd fmc m)
          F
          (svec_fpga_app_init k hw regs (building dbg vic mfd fmc none m m_app h))
  unfolding svec_fpga_app_init app_res
  app_init-Ends m_app h = elim (Bool-cases k.kcalloc_ok) [
    | inr e ↦ rw e refl
    | inl e ↦ elim (Bool-cases (hw.answer h (regs.csr + csr_app_off) == 0)) [
      | inl e' ↦ simp (e, e') (none, tt, refl)
      | inr e' ↦
          rw (e, e')
            (Ends-bind _ F (svec_fpga_metadata_get hw regs (hw.answer h (regs.csr + csr_app_off)) _)
              _ (metadata_get-Ends hw regs F _ _)
              (λ m' b' p.
                subst
                  (λ b. Ends (AppEnd k regs dbg vic mfd fmc m) F (
                    with_metadata (hw.answer h (regs.csr + csr_app_off))
                      (record b { meta_app = m' })))
                  (sym p.2)
                  (after_metadata _ m' p.0 (λ z. ground (arith, e', z))
                    (p.1 _ _ (inl (refl, refl))))))
    ]
  ]
