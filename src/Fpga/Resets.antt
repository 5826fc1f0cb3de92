-- ===== src/Fpga/Resets.antt =====
-- The application's reset in software/kernel/svec-core-fpga.c: one bit of a register that the other
-- bits share.
use svec.Base.{
  bit_or, bit_and, ℕ, ◌+◌, ◌*◌, ◌/◌, ◌%◌, ◌^◌, ◌<◌, ◌≡◌, refl, sym, ap, ◌∙◌, Bool, true, false, ◌⊎◌,
  inl, inr, List, [], ◌∷◌, if◌then◌else◌, flag, bit_or_two, bit_and_two, bit_and_not_two, arith,
}
use svec.Base.Errors.{Errno}
use svec.Bus.{rd, wr, wait, Hardware, History, Returns, returns, ret}
use svec.Text.{str, dec}
use svec.Fpga.{RegMap}
use svec.Fpga.Board.{
  Board, csr_resets, csr_resets_app, not_resets_app, svec_fpga_app_reset, svec_fpga_app_restart,
}
use svec.Fpga.Attributes.{store_number, reset_app_show, reset_app_store}

-- A register of 32 bits that reads back what was written to it, and keeps it over a pause.
pub record Stores (hw : Hardware) (reg : ℕ) : Type 0 where
  pub word : (h : History) → hw.answer h reg < 2 ^ 32
  pub stored : (h : History) (v : ℕ) → v < 2 ^ 32 → hw.answer (wr reg v ∷ h) reg ≡ v
  pub kept : (h : History) (us : ℕ) → hw.answer (wait us ∷ h) reg ≡ hw.answer h reg

-- The word `w` with the application's bit set to `b`, and all other bits as they are.
abbrev pub with_app : Bool → ℕ → ℕ
with_app b w = w / 4 * 4 + (if b then 2 else 0) + w % 2

abbrev new_resets : Bool → ℕ → ℕ
new_resets b w = if b then bit_or w csr_resets_app else bit_and w not_resets_app

new_resets-with_app : (b : Bool) (w : ℕ) → w < 2 ^ 32 → new_resets b w ≡ with_app b w
new_resets-with_app true w h = omega (arith, bit_or_two w)
new_resets-with_app false w h = omega (arith, bit_and_not_two w h)

flag-with_app : (b : Bool) (w : ℕ) → flag (with_app b w) csr_resets_app ≡ b
unfolding flag
flag-with_app true w = ground (arith, bit_and_two (with_app true w))
flag-with_app false w = ground (arith, bit_and_two (with_app false w))

with_app-lt : (b : Bool) (w : ℕ) → w < 2 ^ 32 → with_app b w < 2 ^ 32
with_app-lt true w h = omega arith
with_app-lt false w h = omega arith

with_app-with_app : (w : ℕ) → with_app false (with_app true w) ≡ with_app false w
with_app-with_app w = omega arith

module _ (hw : Hardware) (regs : RegMap) (stores : Stores hw (regs.csr + csr_resets)) where
  abbrev resets_of : Board → ℕ
  resets_of b = hw.answer b.bus (regs.csr + csr_resets)

  abbrev after_reset : Bool → Board → Board
  after_reset val b = record b {
    bus =
        wr (regs.csr + csr_resets) (with_app val (resets_of b))
        ∷ rd (regs.csr + csr_resets) (resets_of b)
        ∷ b.bus;
  }

  app_reset-after_reset :
      (val : Bool) (b : Board) → svec_fpga_app_reset hw regs val b ≡ ret tt (after_reset val b)
  unfolding svec_fpga_app_reset
  app_reset-after_reset val b = rw (new_resets-with_app val (resets_of b) (stores.word b.bus)) refl

  resets-after_reset :
      (val : Bool) (b : Board) → resets_of (after_reset val b) ≡ with_app val (resets_of b)
  resets-after_reset val b = stores.stored _ _ (with_app-lt val _ (stores.word b.bus))

  -- How a write of the attribute `reset_app` ends, with what a read shows then.
  abbrev pub StoreEnd : Errno ⊎ Bool → (count : ℕ) → Board → Errno ⊎ ℕ → Board → Type 0
  StoreEnd (inl e) count b r b' = (r ≡ inl e) × (b' ≡ b)
  StoreEnd (inr val) count b r b' =
      (r ≡ inr count)
      × (resets_of b' ≡ with_app val (resets_of b))
      × Returns (λ out b''. out ≡ dec (if val then 1 else 0) ∷ str "\n" ∷ [])
          (reset_app_show hw regs b')

  show_lem :
      (val : Bool) (b : Board)
      → resets_of b ≡ with_app val (resets_of b)
      → Returns
          (λ out b''. out ≡ dec (if val then 1 else 0) ∷ str "\n" ∷ [])
          (reset_app_show hw regs b)
  unfolding reset_app_show
  show_lem val b e =
      let shown : flag (resets_of b) csr_resets_app ≡ val =
        ap (λ w. flag w csr_resets_app) e ∙ flag-with_app val (resets_of b) in
      returns _ _ (ap (λ t. dec (if t then 1 else 0) ∷ str "\n" ∷ []) shown)

  with_app_twice : (val : Bool) (w : ℕ) → with_app val w ≡ with_app val (with_app val w)
  with_app_twice true w = omega arith
  with_app_twice false w = omega arith

  store_number-StoreEnd :
      (r : Errno ⊎ Bool) (count : ℕ) (b : Board)
      → Returns (StoreEnd r count b) (store_number hw regs r count b)
  unfolding store_number
  store_number-StoreEnd (inl e) count b = returns _ b (refl, refl)
  store_number-StoreEnd (inr val) count b =
      let now = resets-after_reset val b in
      let again : resets_of (after_reset val b) ≡ with_app val (resets_of (after_reset val b)) =
        now ∙ with_app_twice val (resets_of b) ∙ ap (with_app val) (sym now) in
      rw (app_reset-after_reset val b)
        (returns _ _ (refl, now, show_lem val (after_reset val b) again))

  -- A write of `reset_app` returns for every text. If the text is no number, no register is touched
  -- and the error of `kstrtol` is returned. Otherwise the count is returned, the bit of the
  -- application is set exactly if the number is not zero, the 31 other bits of the register are as
  -- they were, and a read of `reset_app` shows 1 or 0 accordingly.
  pub reset_app_store_lem :
      (kstrtol : List ℕ → Errno ⊎ Bool) (buf : List ℕ) (count : ℕ) (b : Board)
      → Returns (StoreEnd (kstrtol buf) count b) (reset_app_store hw regs kstrtol buf count b)
  unfolding reset_app_store
  reset_app_store_lem kstrtol buf count b = store_number-StoreEnd (kstrtol buf) count b

  abbrev pub Restarted : Board → Unit {0} → Board → Type 0
  Restarted b u b' = b' ≡ record b {
    bus =
        wait 1
        ∷ wr (regs.csr + csr_resets) (with_app false (resets_of b))
        ∷ rd (regs.csr + csr_resets) (with_app true (resets_of b))
        ∷ wait 1
        ∷ wr (regs.csr + csr_resets) (with_app true (resets_of b))
        ∷ rd (regs.csr + csr_resets) (resets_of b)
        ∷ b.bus;
  }

  -- `svec_fpga_app_restart` sets the bit of the application for a microsecond and then clears it, for
  -- another; the other bits of the register are in both writes as they were.
  pub svec_fpga_app_restart_lem :
      (b : Board) → Returns (Restarted b) (svec_fpga_app_restart hw regs b)
  unfolding svec_fpga_app_restart
  svec_fpga_app_restart_lem b =
      let paused : Board = record (after_reset true b) {
        bus = wait 1 ∷ (after_reset true b).bus;
      } in
      let set : resets_of paused ≡ with_app true (resets_of b) =
        stores.kept _ 1 ∙ resets-after_reset true b in
      let cleared : with_app false (resets_of paused) ≡ with_app false (resets_of b) =
        ap (with_app false) set ∙ with_app-with_app (resets_of b) in
      rw (app_reset-after_reset true b, app_reset-after_reset false paused)
        (returns _ _ (λ i. record b {
          bus =
              wait 1
              ∷ wr (regs.csr + csr_resets) (cleared i)
              ∷ rd (regs.csr + csr_resets) (set i)
              ∷ wait 1
              ∷ wr (regs.csr + csr_resets) (with_app true (resets_of b))
              ∷ rd (regs.csr + csr_resets) (resets_of b)
              ∷ b.bus;
        }))
