-- ===== src/Driver/Unload.antt =====
-- `svec_init` and `svec_exit` of software/kernel/svec-core.c, with the life of every card on the bus in between.
use svec.Base.{arith, ◌≡◌, ◌≢◌, refl, sym, ◌∙◌, subst, inl, inr, ◌⊎◌, Bool, true, false}
use svec.Base.Errors.{Code, ok, err}
use svec.Bus.{Io, bind, Run, ret, exit, out_of_fuel, fault, Returns, returns, weaken, Returns-ret}
use svec.Fpga.Holding.{Ends}
use svec.Driver.{Mgr, Device, Host}
use svec.Driver.Probe.{svec_probe}
use svec.Driver.States.{IsVacant, IsPresent, ProbeEnd, Balanced}
use svec.Driver.Ends.{Oops, svec_probe_lem, svec_remove_lem}
use svec.Driver.Gone.{GoneFrom-Balanced}
use svec.Driver.Reprogram.{svec_remove-IsPresent}
use svec.Driver.Invariant.{Reaches, Sound, Balanced-then, Reaches-keeps}
use svec.Driver.Module.{
  Card, Cards, VmeCore, Binds, AllCards, Each, is_zero, ProbedBy, RemovedBy, RegisterEnd,
  svec_driver, svec_init, svec_exit, module_life, once_loaded,
}
use svec.Driver.Cards.{Each-then, Each-from, Each-AllCards, AllCards-map}

-- No driver is bound to the device, and nothing is held for it.
abbrev pub Free : Mgr → Card → Type 0
Free mgr c = (c.bound ≡ false) × IsVacant mgr c.dev

-- It is free, or the driver is bound to it and runs it.
abbrev pub HeldOrFree : Mgr → Card → Type 0
HeldOrFree mgr c = Free mgr c ⊎ ((c.bound ≡ true) × ((k : Host) × IsPresent k mgr c.dev))

-- No probe of the device follows a null pointer.
abbrev pub NoFault : Card → Type 0
NoFault c = (s : Device) → svec_probe c.at_probe c.dev ≢ fault s

-- What the bus and the users do with a device while the module is there. The driver is bound to it where it
-- holds a structure for it.
abbrev pub Used : Card → Card → Type 0
Used c c' = (c'.id ≡ c.id) × Reaches c.dev c'.dev × (c'.bound ≡ c'.dev.allocated)

abbrev Kept : Mgr → Card → Card → Type 0
Kept mgr c c' = (c'.id ≡ c.id) × HeldOrFree mgr c' × Balanced c.dev c'.dev

abbrev pub Freed : Mgr → Card → Card → Type 0
Freed mgr c c' = (c'.id ≡ c.id) × Free mgr c' × Balanced c.dev c'.dev

-- After `svec_init`, and after the module is gone.
abbrev InitEnd : Mgr → Cards → Code → Cards → Type 0
InitEnd mgr cs ok cs' = Each (Kept mgr) cs cs'
InitEnd mgr cs (err x) cs' = cs' ≡ cs

abbrev pub LifeEnd : Mgr → Cards → Code → Cards → Type 0
LifeEnd mgr cs ok cs' = Each (Freed mgr) cs cs'
LifeEnd mgr cs (err x) cs' = cs' ≡ cs

Ends-NoFault :
    {S A : Type 0} {Q : A → S → Type 0} (F : S → Type 0) (r : Run S A)
    → Ends Q F r
    → ((s : S) → r ≢ fault s)
    → Returns Q r
Ends-NoFault F (ret a s) p never = returns a s p
Ends-NoFault F (exit c s) p never = absurd p
Ends-NoFault F (out_of_fuel s) p never = absurd p
Ends-NoFault F (fault s) p never = absurd (never s refl)

module _ (mgr : Mgr) where
  probe-ProbeEnd :
      (c : Card)
      → Free mgr c
      → NoFault c
      → Returns (ProbeEnd c.at_probe mgr c.dev) (svec_probe c.at_probe c.dev)
  probe-ProbeEnd c (off, (e, rest)) never =
      Ends-NoFault Oops (svec_probe c.at_probe c.dev)
        (subst (λ z. Ends (ProbeEnd c.at_probe mgr z) Oops (svec_probe c.at_probe z)) (sym e)
          (svec_probe_lem c.at_probe c.dev.enabled mgr c.dev.fpga c.dev.svec c.dev.leaks rest))
        never

  after_probe :
      (k : Host) (d0 : Device) (c' : Card) (e : Code)
      → c'.bound ≡ is_zero e
      → ProbeEnd k mgr d0 e c'.dev
      → HeldOrFree mgr c' × Balanced d0 c'.dev
  after_probe k d0 c' ok b (p, few) = (inr (b, (k, p)), few)
  after_probe k d0 c' (err x) b (p, few) = (inl (b, p), few)

  ProbedBy-Kept :
      (core : VmeCore) (c c' : Card)
      → Free mgr c × NoFault c
      → ProbedBy core svec_driver c c'
      → Kept mgr c c'
  ProbedBy-Kept core c c' (free, never) (inl (why, e)) =
      subst (Kept mgr c) (sym e) (refl, inl free, omega arith)
  ProbedBy-Kept core c c' (free, never) (inr (off, named, (x, d, called, e))) =
      let (held, few) =
        after_probe c.at_probe c.dev (record c { bound = is_zero x; dev = d }) x refl
          (Returns-ret _ _ x d (probe-ProbeEnd c free never) called) in
      subst (Kept mgr c) (sym e) (refl, held, few)

  init-InitEnd :
      (core : VmeCore) (cs : Cards)
      → AllCards (λ c. Free mgr c × NoFault c) cs
      → (e : Code) (cs' : Cards) → RegisterEnd core svec_driver cs e cs'
      → InitEnd mgr cs e cs'
  init-InitEnd core cs start ok cs' probed = Each-from (ProbedBy-Kept core) cs cs' start probed
  init-InitEnd core cs start (err x) cs' same = same

  HeldOrFree-Sound : (c : Card) → HeldOrFree mgr c → Sound mgr c.dev
  HeldOrFree-Sound c (inl (off, p)) = inl p
  HeldOrFree-Sound c (inr (on, p)) = inr p

  Sound-HeldOrFree : (c : Card) → c.bound ≡ c.dev.allocated → Sound mgr c.dev → HeldOrFree mgr c
  Sound-HeldOrFree c b (inl (e, rest)) = inl (b ∙ (λ i. (e i).allocated), (e, rest))
  Sound-HeldOrFree c b (inr (k, (dbg, e, fpga))) =
      inr (b ∙ (λ i. (e i).allocated), (k, (dbg, e, fpga)))

  Used-Kept : (c c1 c2 : Card) → Kept mgr c c1 → Used c1 c2 → Kept mgr c c2
  Used-Kept c c1 c2 (same, held, few) (same', reached, b) =
      let (sound, few') = Reaches-keeps mgr c1.dev c2.dev (HeldOrFree-Sound c1 held) reached in
      (same' ∙ same, Sound-HeldOrFree c2 b sound, Balanced-then c.dev c1.dev c2.dev few few')

  on_off : {b : Bool} → b ≡ true → b ≡ false → ⊥
  on_off on off = ground (arith, on, off)

  RemovedBy-Freed : (c c1 c2 : Card) → Kept mgr c c1 → RemovedBy svec_driver c1 c2 → Freed mgr c c2
  RemovedBy-Freed c c1 c2 (same, inl free, few) (inl (off, e)) =
      subst (Freed mgr c) (sym e) (same, free, few)
  RemovedBy-Freed c c1 c2 (same, inr (on, (k, p)), few) (inr (on', (x, d, called, e))) =
      let (vacant, gone, more) =
        (Returns-ret _ _ x d (svec_remove-IsPresent c1.at_remove k mgr c1.dev p) called).1 in
      subst (Freed mgr c) (sym e)
        (same, (refl, vacant), Balanced-then c.dev c1.dev d few (GoneFrom-Balanced c1.dev d gone))
  RemovedBy-Freed c c1 c2 (same, inl (off, p), few) (inr (on, (x, d, called, e))) =
      absurd (on_off on off)
  RemovedBy-Freed c c1 c2 (same, inr (on, (k, p)), few) (inl (off, e)) = absurd (on_off on off)

module _ (core : VmeCore) (binds : Binds core) (life : Io Cards (Unit {0})) (mgr : Mgr)
    (lives : (cs : Cards)
      → AllCards (HeldOrFree mgr) cs
      → Returns (λ u cs'. Each Used cs cs') (life cs)) where
  init-Kept :
      (cs : Cards)
      → AllCards (λ c. Free mgr c × NoFault c) cs
      → Returns (InitEnd mgr cs) (svec_init core cs)
  unfolding svec_init
  init-Kept cs start =
      weaken
        (binds.registers svec_driver 0 cs (
          AllCards-map
            (λ c (free, never) off named. weaken (probe-ProbeEnd mgr c free never) (λ e d p. tt)) cs
            start))
        (init-InitEnd mgr core cs start)

  exit-Freed :
      (cs cs1 : Cards)
      → Each (Kept mgr) cs cs1
      → Returns (λ u cs'. Each (Freed mgr) cs cs') (svec_exit core cs1)
  unfolding svec_exit
  exit-Freed cs cs1 kept =
      weaken
        (binds.unregisters svec_driver cs1 (
          Each-AllCards {R = Kept mgr}
            (λ c c1 r on. weaken (svec_remove_lem c1.at_remove c1.dev) (λ e d p. tt)) cs cs1 kept))
        (λ u cs2 removed. Each-then (RemovedBy-Freed mgr) cs cs1 cs2 kept removed)

  life-Kept :
      (cs cs1 : Cards)
      → Each (Kept mgr) cs cs1
      → Returns (λ u cs'. Each (Kept mgr) cs cs') (life cs1)
  life-Kept cs cs1 kept =
      weaken (lives cs1 (Each-AllCards {R = Kept mgr} (λ c c1 (same, held, few). held) cs cs1 kept))
        (λ u cs2 used. Each-then (Used-Kept mgr) cs cs1 cs2 kept used)

  -- If the VME core binds the devices as it documents, no probe by `svec_init` follows a null pointer,
  -- and what the bus and the users do with the devices in between returns and is a sequence of probes,
  -- removes and writes of `firmware_name` that return, then for every number of devices on the bus that
  -- no driver is bound to and that nothing is held for: `svec_init`, the time in between and `svec_exit`
  -- return, and each device is then bound to no driver again, nothing is held for it, its mutex is free
  -- and its FPGA manager has the references and locks that it had at first. The FPGA devices of it that
  -- are not released have become more by at most the number of warnings of `svec_probe` that the FPGA is
  -- incorrectly programmed. If the driver cannot be registered, the error is returned and the devices are
  -- as they were.
  pub module_life-Freed :
      (cs : Cards)
      → AllCards (λ c. Free mgr c × NoFault c) cs
      → Returns (LifeEnd mgr cs) (module_life core life cs)
  unfolding module_life once_loaded
  module_life-Freed cs start = bind (init-Kept cs start) go
    where
      go :
          (e : Code) (cs1 : Cards)
          → InitEnd mgr cs e cs1
          → Returns (LifeEnd mgr cs) (once_loaded core life e cs1)
      go (err x) cs1 same = returns _ _ same
      go ok cs1 kept =
          bind (life-Kept cs cs1 kept)
            (λ u cs2 kept'. bind (exit-Freed cs cs2 kept') (λ u' cs3 freed. returns _ _ freed))
