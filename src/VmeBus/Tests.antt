-- ===== src/VmeBus/Tests.antt =====
-- The theorems on the VME bus library at an operating system where every call works.
use svec.Base.{ℕ, ◌≡◌, refl, sym, ap, ◌∙◌, true, [], ◌∷◌, Option, some, none, arith}
use svec.Bus.{Returns, ◌>>=◌}
use svec.VmeBus.{
  Os, Calls, Call, Mapping, open_mwindow, open_dma_read, open_dma_write, get_create_on_find_fail,
  set_create_on_find_fail, find_mapping, get_destroy_on_remove, set_destroy_on_remove,
  release_mapping, get_bus_error, check_clear_bus_error, start_dma, mmap, munmap, close, vme_mmap,
  page_aligned_size,
}
use svec.VmeBus.Map.{vme_map}
use svec.VmeBus.Controller.{find_controller}
use svec.VmeBus.Descriptors.{KeepsFlag, create_flag, descriptors, mmap_of}
use svec.VmeBus.Opening.{
  MapEnd, FindEnd, map_and_unmap, vme_map-MapEnd, find_controller-FindEnd, vme_unmap-vme_map,
}
use svec.VmeBus.Pages.{Covers, unmap_if, vme_munmap-vme_mmap}

-- The flag is what it was set to last, and 3 before.
abbrev last_set : Calls → ℕ
last_set [] = 3
last_set (set_create_on_find_fail fd v ∷ cs) = v
last_set (_ ∷ cs) = last_set cs

abbrev serving : Calls → Call → Option ℕ
serving cs (get_create_on_find_fail fd) = some (last_set cs)
serving cs _ = some 7

abbrev pub os : Os
os = record { answer = serving; pci_addr = λ cs d. 0x12345678; page_bits = 12 }

last_set-create_flag : (cs : Calls) → last_set cs ≡ create_flag os 3 cs
unfolding create_flag
last_set-create_flag [] = refl
last_set-create_flag (open_mwindow ∷ cs) = last_set-create_flag cs
last_set-create_flag (open_dma_read ∷ cs) = last_set-create_flag cs
last_set-create_flag (open_dma_write ∷ cs) = last_set-create_flag cs
last_set-create_flag (get_create_on_find_fail fd ∷ cs) = last_set-create_flag cs
last_set-create_flag (set_create_on_find_fail fd v ∷ cs) = refl
last_set-create_flag (find_mapping fd d ∷ cs) = last_set-create_flag cs
last_set-create_flag (get_destroy_on_remove fd ∷ cs) = last_set-create_flag cs
last_set-create_flag (set_destroy_on_remove fd v ∷ cs) = last_set-create_flag cs
last_set-create_flag (release_mapping fd d ∷ cs) = last_set-create_flag cs
last_set-create_flag (get_bus_error fd ∷ cs) = last_set-create_flag cs
last_set-create_flag (check_clear_bus_error fd a am ∷ cs) = last_set-create_flag cs
last_set-create_flag (start_dma fd ∷ cs) = last_set-create_flag cs
last_set-create_flag (mmap size fd addr ∷ cs) = last_set-create_flag cs
last_set-create_flag (munmap addr size ∷ cs) = last_set-create_flag cs
last_set-create_flag (close fd ∷ cs) = last_set-create_flag cs

value_of : Option ℕ → ℕ
value_of none = 0
value_of (some v) = v

some_injective : (a b : ℕ) → some a ≡ some b → a ≡ b
unfolding value_of
some_injective a b e = ap value_of e

some_not_none : (v : ℕ) → ¬ (some v ≡ none)
some_not_none v e = cc

pub os-KeepsFlag : KeepsFlag os 3
os-KeepsFlag = record {
  reads = λ cs fd v e. sym (some_injective (last_set cs) v e) ∙ last_set-create_flag cs;
  sets = λ cs cs' fd v v' r e. some_not_none 7;
}

abbrev window : Mapping
window = record {
  window_num = 0;
  user_va = 0;
  fd = 0;
  data_width = 32;
  am = 0x2f;
  read_prefetch_enabled = 0;
  read_prefetch_size = 0;
  bcast_select = 0;
  pci_addrl = 0x12345678;
  sizeu = 0;
  sizel = 0x80000;
  vme_addru = 0;
  vme_addrl = 0x580000;
}

vme_map-MapEnd_example : Returns (MapEnd os 3 []) (vme_map os window 1 [])
vme_map-MapEnd_example = vme_map-MapEnd os 3 window 1 [] os-KeepsFlag

vme_unmap-vme_map_example :
    Returns (λ r cs'. descriptors os cs' ≡ descriptors os []) (map_and_unmap os window 1 true 0 [])
vme_unmap-vme_map_example = vme_unmap-vme_map os 3 window 1 true 0 [] os-KeepsFlag

find_controller-FindEnd_example :
    Returns (FindEnd os 3 true 4 []) (find_controller os true 0x580000 0x80000 0x2f 4 0 [])
find_controller-FindEnd_example =
    find_controller-FindEnd os 3 true 0x580000 0x80000 0x2f 4 0 [] os-KeepsFlag

vme_munmap-vme_mmap_example :
    Returns
      (λ r cs'. cs' ≡ munmap 7 (page_aligned_size os window) ∷ mmap_of os window ∷ [])
      ((vme_mmap os window >>= unmap_if os) [])
    × Covers os window
vme_munmap-vme_mmap_example = vme_munmap-vme_mmap os window 7 [] refl (omega arith)
