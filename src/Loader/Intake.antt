-- ===== src/Loader/Intake.antt =====
-- What the loader core takes from its registers, after hdl/rtl/bootloader (xilinx_loader.vhd and
-- the field descriptions of svec_xloader_wb.wb): an independent description, against which the
-- programs that write these registers are proved.
use svec.Base.{
  ℕ, suc, ◌+◌, Bool, true, false, not, List, [], ◌∷◌, ◌++◌, ◌==◌, if◌then◌else◌, flag, byte0, byte1,
  byte2, byte3, bit_and, take,
}
use svec.Bus.{rd, wr, wait, clock, History}

-- `closed` is a bitstream whose last transfer was marked by XLAST, `spoiled` one with transfers
-- before START or after the last, or into a FIFO that was not seen to have room.
pub data Intake : Type 0 where
  idle : Intake
  open_with : Bool → List ℕ → Intake
  closed : List ℕ → Intake
  spoiled : Intake

-- The bytes of a FIFO entry: XSIZE + 1 of them, from the top of the word if MSBF is set.
unfoldable pub entry_bytes : Bool → ℕ → ℕ → List ℕ
unfolding byte0 byte1 byte2 byte3
entry_bytes true r0 r1 = take (suc (bit_and r0 3)) (byte3 r1 ∷ byte2 r1 ∷ byte1 r1 ∷ byte0 r1 ∷ [])
entry_bytes false r0 r1 = take (suc (bit_and r0 3)) (byte0 r1 ∷ byte1 r1 ∷ byte2 r1 ∷ byte3 r1 ∷ [])

-- A write of R1 moves an entry, whose size and last mark R0 holds, into the FIFO.
unfoldable pub push_entry : ℕ → ℕ → Intake → Intake
push_entry r0 r1 (open_with msbf bytes) =
    if flag r0 4
    then closed (bytes ++ entry_bytes msbf r0 r1)
    else open_with msbf (bytes ++ entry_bytes msbf r0 r1)
push_entry r0 r1 idle = spoiled
push_entry r0 r1 (closed bytes) = spoiled
push_entry r0 r1 spoiled = spoiled

-- A write of CSR: SWRST resets the core, START begins a bitstream in the order of MSBF.
unfoldable pub write_csr : ℕ → Intake → Intake
write_csr v s = if flag v 32 then idle else if flag v 1 then open_with (flag v 16) [] else s

-- The last value written to R0.
unfoldable pub entry_size : ℕ → History → ℕ
entry_size base [] = 0
entry_size base (rd a v ∷ h) = entry_size base h
entry_size base (wr a v ∷ h) = if a == base + 0x10 then v else entry_size base h
entry_size base (wait t ∷ h) = entry_size base h
entry_size base (clock t ∷ h) = entry_size base h

-- The FIFO has room for an entry: the last look at FIFO_CSR since the last entry showed FULL clear.
unfoldable pub room : ℕ → History → Bool
room base [] = false
room base (rd a v ∷ h) = if a == base + 0x18 then not (flag v 0x10000) else room base h
room base (wr a v ∷ h) = if a == base + 0x14 then false else room base h
room base (wait t ∷ h) = room base h
room base (clock t ∷ h) = room base h

-- What a loader whose registers start at `base` has taken in after a history. An entry that is
-- written without a look that showed room may be lost.
unfoldable pub intake : ℕ → History → Intake
intake base [] = idle
intake base (rd a v ∷ h) = intake base h
intake base (wr a v ∷ h) =
    let s = intake base h in
    if a == base + 0x14
    then (if room base h then push_entry (entry_size base h) v s else spoiled)
    else if a == base + 0x0
    then write_csr v s
    else s
intake base (wait t ∷ h) = intake base h
intake base (clock t ∷ h) = intake base h
