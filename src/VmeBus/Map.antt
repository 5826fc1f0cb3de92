-- ===== src/VmeBus/Map.antt =====
-- `vme_map` and `vme_unmap` of software/tools/vme-flasher/libvmebus.c.
use svec.Base.{ℕ, Bool, true, false, Option, some, none, if◌then◌else◌}
use svec.Bus.{pure, ◌>>=◌, ◌>>◌}
use svec.VmeBus.{
  Mapping, Os, Sys, open_mwindow, get_create_on_find_fail, set_create_on_find_fail,
  get_destroy_on_remove, set_destroy_on_remove, release_mapping, close, call, call_ignored, find,
  vme_mmap, vme_munmap,
}

module _ (os : Os) where
  unfoldable pub out_close : ℕ → Sys (Option Mapping)
  out_close fd = do call_ignored os (close fd); pure none

  unfoldable pub out_restore_flag : ℕ → ℕ → Sys (Option Mapping)
  unfolding out_close
  out_restore_flag fd org = do call_ignored os (set_create_on_find_fail fd org); out_close fd

  -- The descriptor on success, with `user_va` set, and `none` for NULL.
  unfoldable pub vme_map : Mapping → (force : ℕ) → Sys (Option Mapping)
  unfolding out_close out_restore_flag
  vme_map d force = do
    opened ← call os open_mwindow
    elim opened [
      | none ↦ pure none
      | some fd ↦ do
        org ← call os (get_create_on_find_fail fd)
        elim org [
          | none ↦ out_close fd
          | some org_force_create ↦ do
            done ← call os (set_create_on_find_fail fd force)
            elim done [
              | none ↦ out_close fd
              | some r ↦ do
                found ← find os (record d { fd = fd })
                elim found [
                  | none ↦ out_restore_flag fd org_force_create
                  | some d' ↦ do
                    mapped ← vme_mmap os d'
                    elim mapped [
                      | none ↦ out_restore_flag fd org_force_create
                      | some d'' ↦ do
                        call_ignored os (set_create_on_find_fail fd org_force_create)
                        pure (some d'')
                    ]
                ]
            ]
        ]
    ]

  -- Whether a call failed, as the `ret = -1` that it leads to.
  abbrev pub fails : Option ℕ → Bool
  fails none = true
  fails (some r) = false

  -- The flag that is restored where reading it failed is a variable with no value: `garbage`.
  abbrev pub value_or : Option ℕ → ℕ → ℕ
  value_or none garbage = garbage
  value_or (some r) garbage = r

  unfoldable pub save_destroy : Bool → Mapping → (force garbage : ℕ) → Sys ℕ
  save_destroy false d force garbage = pure garbage
  save_destroy true d force garbage = do
    org ← call os (get_destroy_on_remove d.fd)
    call_ignored os (set_destroy_on_remove d.fd force)
    pure (value_or org garbage)

  unfoldable pub restore_destroy : Bool → Mapping → ℕ → Sys (Unit {0})
  restore_destroy false d org = pure tt
  restore_destroy true d org = call_ignored os (set_destroy_on_remove d.fd org)

  -- `true` for 0 and `false` for -1; the descriptor is not NULL, and `force` is a flag.
  unfoldable pub vme_unmap : Mapping → (force : Bool) → (garbage : ℕ) → Sys Bool
  unfolding save_destroy restore_destroy
  vme_unmap d force garbage = do
    unmapped ← vme_munmap os d
    org ← save_destroy force d 1 garbage
    released ← call os (release_mapping d.fd d)
    restore_destroy force d org
    call_ignored os (close d.fd)
    pure (if fails unmapped then false else if fails released then false else true)
