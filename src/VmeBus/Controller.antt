-- ===== src/VmeBus/Controller.antt =====
-- `find_controller` and `return_controller` of software/tools/vme-flasher/libvmebus.c, the emulation
-- of an older interface.
use svec.Base.{
  ℕ, ◌*◌, ◌/◌, ◌%◌, ◌^◌, Bool, true, false, not, Option, some, none, ◌==◌, if◌then◌else◌,
}
use svec.Bus.{pure, ◌>>=◌, ◌>>◌}
use svec.VmeBus.{
  Mapping, Os, Sys, open_mwindow, get_create_on_find_fail, set_create_on_find_fail,
  get_destroy_on_remove, set_destroy_on_remove, release_mapping, close, call, call_ignored, find,
  vme_mmap, vme_munmap,
}
use svec.VmeBus.Map.{fails, value_or}

-- `x &= ~0xffff` where its low bits are set.
abbrev pub align_64k : ℕ → ℕ
align_64k x = if not (x % 2 ^ 16 == 0) then x / 2 ^ 16 * 2 ^ 16 else x

-- VME_D16 and VME_D32 for the sizes 2 and 4, and no other.
unfoldable pub data_width_of : ℕ → Option ℕ
data_width_of size = if size == 2 then some 16 else if size == 4 then some 32 else none

-- The descriptor that `find_controller` fills in.
unfoldable pub request : (vmeaddr len am rdpref width : ℕ) → Mapping
request vmeaddr len am rdpref width = record {
  window_num = 0;
  user_va = 0;
  fd = 0;
  data_width = width;
  am = am;
  read_prefetch_enabled = if rdpref == 0 then 0 else 1;
  read_prefetch_size = 0;
  bcast_select = 0;
  pci_addrl = 0;
  sizeu = 0;
  sizel = align_64k len % 2 ^ 32;
  vme_addru = 0;
  vme_addrl = align_64k vmeaddr % 2 ^ 32;
}

module _ (os : Os) where
  unfoldable pub restore_and_free : ℕ → ℕ → Sys (Option Mapping)
  restore_and_free fd org = do call_ignored os (set_create_on_find_fail fd org); pure none

  -- The descriptor, which `param->sgmin` keeps, and `none` for 0. `calloc_ok` is whether there was
  -- memory for it.
  unfoldable pub find_controller : Bool → (vmeaddr len am size rdpref : ℕ) → Sys (Option Mapping)
  unfolding data_width_of request restore_and_free
  find_controller calloc_ok vmeaddr len am size rdpref =
      if not calloc_ok then pure none else elim (data_width_of size) [
        | none ↦ pure none
        | some width ↦ do
          opened ← call os open_mwindow
          elim opened [
            | none ↦ pure none
            | some fd ↦ do
              org ← call os (get_create_on_find_fail fd)
              elim org [
                | none ↦ pure none
                | some org_force_create ↦ do
                  done ← call os (set_create_on_find_fail fd 1)
                  elim done [
                    | none ↦ pure none
                    | some r ↦ do
                      found ← find os (record (request vmeaddr len am rdpref width) { fd = fd })
                      elim found [
                        | none ↦ restore_and_free fd org_force_create
                        | some d ↦ do
                          mapped ← vme_mmap os d
                          elim mapped [
                            | none ↦ restore_and_free fd org_force_create
                            | some d' ↦ do
                              call_ignored os (set_create_on_find_fail fd org_force_create)
                              pure (some d')
                          ]
                      ]
                  ]
              ]
          ]
      ]

  -- `true` for 0 and `false` for -1; the descriptor is not NULL.
  unfoldable pub return_controller : Mapping → (garbage : ℕ) → Sys Bool
  return_controller d garbage = do
    unmapped ← vme_munmap os d
    org ← call os (get_destroy_on_remove d.fd)
    call_ignored os (set_destroy_on_remove d.fd 1)
    released ← call os (release_mapping d.fd d)
    call_ignored os (set_destroy_on_remove d.fd (value_or os org garbage))
    call_ignored os (close d.fd)
    pure (if fails os unmapped then false else if fails os released then false else true)
