-- ===== src/VmeBus/Dma.antt =====
-- `vme_dma_read` and `vme_dma_write` of software/tools/vme-flasher/libvmebus.c. They differ in the
-- mode of `open` alone.
use svec.Base.{Bool, true, false, Option, some, none}
use svec.Bus.{pure, ◌>>=◌, ◌>>◌}
use svec.VmeBus.{Os, Sys, open_dma_read, open_dma_write, start_dma, close, call, call_ignored}

-- `true` for 0 and `false` for -1.
abbrev pub succeeded : {A : Type 0} → Option A → Bool
succeeded none = false
succeeded (some r) = true

module _ (os : Os) where
  unfoldable pub vme_dma_read : Sys Bool
  vme_dma_read = do
    opened ← call os open_dma_read
    elim opened [
      | none ↦ pure false
      | some fd ↦ do
        started ← call os (start_dma fd)
        call_ignored os (close fd)
        pure (succeeded started)
    ]

  unfoldable pub vme_dma_write : Sys Bool
  vme_dma_write = do
    opened ← call os open_dma_write
    elim opened [
      | none ↦ pure false
      | some fd ↦ do
        started ← call os (start_dma fd)
        call_ignored os (close fd)
        pure (succeeded started)
    ]
