-- ===== src/VmeBus/Pages.antt =====
-- The pages that `vme_mmap` and `vme_munmap` of software/tools/vme-flasher/libvmebus.c ask for.
use svec.Base.{ℕ, ◌+◌, ◌-◌, ◌^◌, ◌≤◌, ◌<◌, ◌≡◌, refl, ◌∷◌, Option, some, none, arith}
use svec.Bus.{Returns, returns, ◌>>=◌, pure}
use svec.VmeBus.{
  Os, Calls, Sys, Mapping, munmap, call, vme_mmap, vme_munmap, page_addr, page_aligned_size,
  page_aligned_size_incr,
}
use svec.VmeBus.Descriptors.{mmap_of}
use native.Mathlib.Nat.{one-le-pow, div-mul-le_self, lt-div-mul-add}

pow-pos : (n : ℕ) → 0 < 2 ^ n
pow-pos n = one-le-pow n 2 (omega arith)

-- What `mmap` is asked for, against the window that the PCI bus shows: from `pci_addrl` on,
-- `sizel` bytes.
pub record Covers (os : Os) (d : Mapping) : Type 0 where
  pub starts : page_addr os d.pci_addrl ≤ d.pci_addrl
  pub within : page_aligned_size_incr os d < 2 ^ os.page_bits
  pub ends : page_addr os d.pci_addrl + page_aligned_size os d ≡ d.pci_addrl + d.sizel

page_aligned_size-Covers : (os : Os) (d : Mapping) → d.pci_addrl + d.sizel < 2 ^ 32 → Covers os d
unfolding page_addr page_aligned_size page_aligned_size_incr
page_aligned_size-Covers os d small =
    let below = div-mul-le_self d.pci_addrl (2 ^ os.page_bits) in
    let above = lt-div-mul-add {a = d.pci_addrl} (pow-pos os.page_bits) in
    record { starts = below; within = omega arith; ends = omega arith }

abbrev pub unmap_if : Os → Option Mapping → Sys (Option ℕ)
unmap_if os none = pure none
unmap_if os (some d) = vme_munmap os d

-- If `mmap` gives `addr`, then `vme_munmap` of what `vme_mmap` returns asks to unmap `addr` with the
-- size that `mmap` was asked for. If the window ends below 2 ^ 32, what was mapped starts at the
-- window's start or less than a page before it, and ends where the window ends.
pub vme_munmap-vme_mmap :
    (os : Os) (d : Mapping) (addr : ℕ) (cs : Calls)
    → os.answer cs (mmap_of os d) ≡ some addr
    → d.pci_addrl + d.sizel < 2 ^ 32
    → Returns
        (λ r cs'. cs' ≡ munmap addr (page_aligned_size os d) ∷ mmap_of os d ∷ cs)
        ((vme_mmap os d >>= unmap_if os) cs)
      × Covers os d
unfolding vme_mmap vme_munmap call page_aligned_size_incr page_aligned_size
vme_munmap-vme_mmap os d addr cs e small =
    (rw e (returns _ _ (rw back refl)), page_aligned_size-Covers os d small)
  where
    back : addr + page_aligned_size_incr os d - page_aligned_size_incr os d ≡ addr
    back = omega arith
