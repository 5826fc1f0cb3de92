-- ===== src/VmeBus.antt =====
-- software/tools/vme-flasher/libvmebus.c, the user library of the VME bus. The operating system is
-- a parameter: it answers each call from the calls made before, with `none` for -1. A run carries
-- the calls, the newest first.
pub mod Map
pub mod Controller
pub mod Dma
pub mod Descriptors
pub mod Opening
pub mod Pages
pub mod Tests
use svec.Base.{
  ℕ, zero, suc, ◌+◌, ◌-◌, ◌*◌, ◌/◌, ◌%◌, ◌^◌, Bool, true, false, not, List, [], ◌∷◌, ◌==◌,
  if◌then◌else◌, Option, some, none,
}
use svec.Bus.{Io, ret, pure, ◌>>=◌, ◌>>◌}

-- The fields of `struct vme_mapping` that the library or its callers read.
pub record Mapping : Type 0 where
  pub window_num : ℕ
  pub user_va : ℕ
  pub fd : ℕ
  pub data_width : ℕ
  pub am : ℕ
  pub read_prefetch_enabled : ℕ
  pub read_prefetch_size : ℕ
  pub bcast_select : ℕ
  pub pci_addrl : ℕ
  pub sizeu : ℕ
  pub sizel : ℕ
  pub vme_addru : ℕ
  pub vme_addrl : ℕ

-- The calls of the operating system, `ioctl` by its request.
pub data Call : Type 0 where
  open_mwindow open_dma_read open_dma_write : Call
  get_create_on_find_fail : ℕ → Call
  set_create_on_find_fail : ℕ → ℕ → Call
  find_mapping : ℕ → Mapping → Call
  get_destroy_on_remove : ℕ → Call
  set_destroy_on_remove : ℕ → ℕ → Call
  release_mapping : ℕ → Mapping → Call
  get_bus_error : ℕ → Call
  check_clear_bus_error : (fd address am : ℕ) → Call
  start_dma : ℕ → Call
  mmap : (size fd page_addr : ℕ) → Call
  munmap : (addr size : ℕ) → Call
  close : ℕ → Call

abbrev pub Calls : Type 0
Calls = List Call

-- `answer` is the number that a call gives back, in its result or in its argument, `pci_addr` the
-- PCI address that VME_IOCTL_FIND_MAPPING leaves in the descriptor. A page's size is a power of two.
pub record Os : Type 0 where
  pub answer : Calls → Call → Option ℕ
  pub pci_addr : Calls → Mapping → ℕ
  pub page_bits : ℕ

abbrev pub Sys : Type 0 → Type 0
Sys = Io Calls

-- `address & ~(pagesize - 1)`.
unfoldable pub page_addr : Os → ℕ → ℕ
page_addr os address = address / 2 ^ os.page_bits * 2 ^ os.page_bits

-- The sum is an `unsigned int`, the difference a `size_t`.
unfoldable pub page_aligned_size : Os → Mapping → ℕ
page_aligned_size os d =
    ((d.pci_addrl + d.sizel) % 2 ^ 32 + 2 ^ 64 - page_addr os d.pci_addrl) % 2 ^ 64

unfoldable pub page_aligned_size_incr : Os → Mapping → ℕ
page_aligned_size_incr os d = d.pci_addrl - page_addr os d.pci_addrl

module _ (os : Os) where
  unfoldable pub call : Call → Sys (Option ℕ)
  call c cs = ret (os.answer cs c) (c ∷ cs)

  -- A call whose result is not looked at.
  unfoldable pub call_ignored : Call → Sys (Unit {0})
  call_ignored c cs = ret tt (c ∷ cs)

  -- VME_IOCTL_FIND_MAPPING fills the descriptor in; `none` if it fails.
  unfoldable pub find : Mapping → Sys (Option Mapping)
  find d cs = elim (os.answer cs (find_mapping d.fd d)) [
    | none ↦ ret none (find_mapping d.fd d ∷ cs)
    | some r ↦ ret (some (record d { pci_addrl = os.pci_addr cs d })) (find_mapping d.fd d ∷ cs)
  ]

  unfoldable pub vme_mmap : Mapping → Sys (Option Mapping)
  vme_mmap d = do
    r ← call (mmap (page_aligned_size os d) d.fd (page_addr os d.pci_addrl))
    pure (elim r [
      | none ↦ none
      | some addr ↦ some (record d { user_va = addr + page_aligned_size_incr os d })
    ])

  unfoldable pub vme_munmap : Mapping → Sys (Option ℕ)
  vme_munmap d = call (munmap (d.user_va - page_aligned_size_incr os d) (page_aligned_size os d))

  unfoldable pub vme_bus_error_check : Mapping → Sys (Option ℕ)
  vme_bus_error_check d = call (get_bus_error d.fd)

  unfoldable pub vme_bus_error_check_clear : Mapping → ℕ → Sys (Option ℕ)
  vme_bus_error_check_clear d address = call (check_clear_bus_error d.fd address d.am)
