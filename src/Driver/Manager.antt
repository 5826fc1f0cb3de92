-- ===== src/Driver/Manager.antt =====
-- The driver's own `fpga_mgr_get` of software/kernel/svec-compat.c keeps what the kernel documents.
use svec.Base.{arith, ℕ, ◌+◌, ◌-◌, ◌≡◌, refl, sym, ◌∙◌, inl, inr, true, false, Bool-cases}
use svec.Base.Errors.{enodev, ebusy}
use svec.Bus.{Io, ret, Returns, returns}
use svec.Driver.{Ptr, ptr, bad, Mgr}
use svec.Driver.Compat.{Class, GetEnd, err_dev, get_module, fpga_mgr_get_dev, fpga_mgr_get}

-- Why no reference is taken: the mutex is held, or the device, its manager or its module is not
-- there.
abbrev pub Refused : Class → Mgr → Ptr → Type 0
Refused c s ptr =
    (s.ref_mutex ≡ false)
    × (c.class_find_device ≡ true)
    × (c.to_fpga_manager ≡ true)
    × (c.try_module_get ≡ true)
Refused c s (bad ebusy) = s.ref_mutex ≡ true
Refused c s (bad enodev) = Unit
Refused c s _ = ⊥

module _ (c : Class) (put : Io Mgr (Unit {0}))
    (puts : (s : Mgr)
      → put s
        ≡ ret tt (record s {
          refs = s.refs - 1;
          module_refs = s.module_refs - 1;
          ref_mutex = false;
        })) where
  back : (n : ℕ) → n + 1 - 1 ≡ n
  back n = omega arith

  put_taken :
      (s : Mgr)
      → s.ref_mutex ≡ false
      → put (record s { refs = s.refs + 1; module_refs = s.module_refs + 1; ref_mutex = true })
        ≡ ret tt s
  put_taken s free = puts _ ∙ (λ i. ret tt (record s {
    refs = back s.refs i;
    module_refs = back s.module_refs i;
    ref_mutex = sym free i;
  }))

  -- If `fpga_mgr_put` gives back a reference, a reference to the module and the mutex, `fpga_mgr_get`
  -- returns, and it takes exactly these or nothing: on an error the manager is as before. It fails with
  -- EBUSY only while another holds the mutex, and succeeds only if it is free and the device, its
  -- manager and its module are there.
  pub fpga_mgr_get_lem :
      (s : Mgr) → Returns (λ p s'. GetEnd put s p s' × Refused c s p) (fpga_mgr_get c s)
  unfolding fpga_mgr_get fpga_mgr_get_dev get_module err_dev
  fpga_mgr_get_lem s = elim (Bool-cases c.class_find_device) [
    | inr e ↦ rw e (returns _ _ (refl, tt))
    | inl e ↦ elim (Bool-cases c.to_fpga_manager) [
      | inr e1 ↦ rw (e, e1) (returns _ _ ((λ i. record s { refs = back s.refs i }), tt))
      | inl e1 ↦ elim (Bool-cases s.ref_mutex) [
        | inl e2 ↦
            simp (e, e1, e2)
              (returns _ _ ((λ i. record s { refs = back s.refs i; ref_mutex = sym e2 i }), e2))
        | inr e2 ↦ elim (Bool-cases c.try_module_get) [
          | inr e3 ↦
              simp (e, e1, e2, e3)
                (returns _ _ ((λ i. record s { refs = back s.refs i; ref_mutex = sym e2 i }), tt))
          | inl e3 ↦ simp (e, e1, e2, e3) (returns _ _ (put_taken s e2, (e2, e, e1, e3)))
        ]
      ]
    ]
  ]
