-- ===== src/Driver/Interface.antt =====
-- What `svec_vme_init` and `svec_vme_exit` of software/kernel/svec-core.c do with the VME core of a
-- card.
use svec.Base.{◌%◌, ◌^◌, ◌≡◌, refl, inl, inr, ◌⊎◌, Bool, true, false, [], ◌∷◌, ◌++◌}
use svec.Base.Errors.{Code, ok, err}
use svec.Bus.{wr, History, Returns, returns, weaken}
use svec.Core.{Svec, iowrite32be}
use svec.Fpga.Holding.{Code-cases}
use svec.Driver.{Host, Device}
use svec.Driver.Vme.{svec_csr_write, svec_vme_init, svec_vme_exit}

-- The device with some accesses more in its history.
abbrev pub accessed : (new : History) → (enabled : Bool) → Device → Device
accessed new enabled d = record d {
  enabled = enabled;
  svec = record d.svec { bus = new ++ d.svec.bus };
}

-- How code ends that disables the device, makes some accesses, and enables it again.
abbrev pub VmeEnd : Host → (new : History) → Device → Code → Device → Type 0
VmeEnd k new d ok d' =
    (k.vme_disable_device ≡ ok) × (k.vme_enable_device ≡ ok) × (d' ≡ accessed new true d)
VmeEnd k new d (err x) d' =
    ((k.vme_disable_device ≡ err x) × (d' ≡ d))
    ⊎ ((k.vme_disable_device ≡ ok) × (k.vme_enable_device ≡ err x) × (d' ≡ accessed new false d))

abbrev pub init_writes : Host → History
init_writes k = wr 0x7ff58 (k.irq_level % 2 ^ 8) ∷ wr 0x7ff5c (k.irq_vector % 2 ^ 8) ∷ []

abbrev pub exit_writes : History
exit_writes = wr 0x7ff5c 0 ∷ []

-- The words held back are the same, and at most these accesses are new.
abbrev pub Extended : (new : History) → Svec → Svec → Type 0
Extended new s s' = (s' ≡ s) ⊎ (s' ≡ record s { bus = new ++ s.bus })

module _ (k : Host) (d : Device) where
  -- `svec_vme_init` returns. On zero the device was disabled and enabled again, and the interrupt's
  -- vector was written to the word at 0x7ff5c and then its level to that at 0x7ff58, each as a byte. If
  -- the device cannot be disabled, nothing is written and that error is returned; if it cannot be
  -- enabled again, both are written, that error is returned and the device stays disabled.
  pub svec_vme_init_lem : Returns (VmeEnd k (init_writes k) d) (svec_vme_init k d)
  unfolding svec_vme_init svec_csr_write iowrite32be
  svec_vme_init_lem = elim (Code-cases k.vme_disable_device) [
    | inr (x, e) ↦ simp e (returns _ _ (inl (e, refl)))
    | inl e ↦ elim (Code-cases k.vme_enable_device) [
      | inr (x, e') ↦ simp (e, e') (returns _ _ (inr (e, e', refl)))
      | inl e' ↦ simp (e, e') (returns _ _ (e, e', refl))
    ]
  ]

  -- `svec_vme_exit` ends as `svec_vme_init` does, and writes a zero to the interrupt's vector.
  pub svec_vme_exit_lem : Returns (VmeEnd k exit_writes d) (svec_vme_exit k d)
  unfolding svec_vme_exit svec_csr_write iowrite32be
  svec_vme_exit_lem = elim (Code-cases k.vme_disable_device) [
    | inr (x, e) ↦ simp e (returns _ _ (inl (e, refl)))
    | inl e ↦ elim (Code-cases k.vme_enable_device) [
      | inr (x, e') ↦ simp (e, e') (returns _ _ (inr (e, e', refl)))
      | inl e' ↦ simp (e, e') (returns _ _ (e, e', refl))
    ]
  ]

  -- Only the accesses and `enabled` change.
  abbrev pub VmeChanged : (new : History) → Device → Type 0
  VmeChanged new d' =
      (enabled : Bool) × (svec : Svec) × Extended new d.svec svec
      × (d' ≡ record d { enabled = enabled; svec = svec })

  VmeEnd-VmeChanged :
      (new : History) (c : Code) (d' : Device) → VmeEnd k new d c d' → VmeChanged new d'
  VmeEnd-VmeChanged new ok d' (e1, e2, e) = (true, _, inr refl, e)
  VmeEnd-VmeChanged new (err x) d' (inl (e1, e)) = (d.enabled, d.svec, inl refl, e)
  VmeEnd-VmeChanged new (err x) d' (inr (e1, e2, e)) = (false, _, inr refl, e)

  pub vme_init-VmeChanged : Returns (λ c d'. VmeChanged (init_writes k) d') (svec_vme_init k d)
  vme_init-VmeChanged = weaken svec_vme_init_lem (VmeEnd-VmeChanged (init_writes k))

  pub vme_exit-VmeChanged : Returns (λ c d'. VmeChanged exit_writes d') (svec_vme_exit k d)
  vme_exit-VmeChanged = weaken svec_vme_exit_lem (VmeEnd-VmeChanged exit_writes)
