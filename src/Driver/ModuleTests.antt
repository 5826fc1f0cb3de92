-- ===== src/Driver/ModuleTests.antt =====
-- The module of software/kernel/svec-core.c on a bus with two cards, one of them an SVEC.
use svec.Base.{
  sym, subst, ◌∙◌, ◌≢◌, ◌==◌, ◌≡◌, refl, inl, inr, Bool, true, false, List, [], ◌∷◌, ◌&&◌, ◌||◌,
}
use svec.Base.Errors.{Code, ok}
use svec.Bus.{Io, Run, ret, exit, out_of_fuel, fault, Returns, returns, pure}
use svec.Driver.{Device}
use svec.Driver.Probe.{svec_probe}
use svec.Driver.Module.{
  VmeDeviceId, VmeDriver, Card, Cards, VmeCore, Binds, AllCards, Each, is_zero, ProbedBy, RemovedBy,
  Returning, module_life, svec_init,
}
use svec.Driver.Unload.{HeldOrFree, Used, LifeEnd, module_life-Freed}
use svec.Driver.Invariant.{here}
use svec.Driver.Samples.{host, unused, absent, probed_device, probe_works}

-- A core that goes through the devices in turn.
abbrev named : List VmeDeviceId → VmeDeviceId → Bool
named [] id = false
named (entry ∷ table) id =
    ((entry.manufacturer == id.manufacturer) && (entry.board == id.board)) || named table id

abbrev put : Card → (Code → Bool) → Run Device Code → Run Card (Unit {0})
put c bound (ret e d) = ret tt (record c { bound = bound e; dev = d })
put c bound (exit n d) = exit n c
put c bound (out_of_fuel d) = out_of_fuel c
put c bound (fault d) = fault c

abbrev beside : Run Card (Unit {0}) → Run Cards (Unit {0}) → Run Cards (Unit {0})
beside (ret u c) (ret v cs) = ret tt (c ∷ cs)
beside (ret u c) r = r
beside (exit n c) r = exit n []
beside (out_of_fuel c) r = out_of_fuel []
beside (fault c) r = fault []

abbrev probe_card : VmeDriver → (bound is_named : Bool) → Card → Run Card (Unit {0})
probe_card drv false true c = put c is_zero (drv.probe c.at_probe c.dev)
probe_card drv bound is_named c = ret tt c

abbrev remove_card : VmeDriver → (bound : Bool) → Card → Run Card (Unit {0})
remove_card drv true c = put c (λ e. false) (drv.remove c.at_remove c.dev)
remove_card drv false c = ret tt c

abbrev each_card : (Card → Run Card (Unit {0})) → Cards → Run Cards (Unit {0})
each_card f [] = ret tt []
each_card f (c ∷ cs) = beside (f c) (each_card f cs)

abbrev with_code : Run Cards (Unit {0}) → Run Cards Code
with_code (ret u cs) = ret ok cs
with_code (exit n cs) = exit n cs
with_code (out_of_fuel cs) = out_of_fuel cs
with_code (fault cs) = fault cs

abbrev core : VmeCore
core = record {
  vme_match = named;
  vme_register_driver = λ drv ndevs cs.
      with_code (each_card (λ c. probe_card drv c.bound (named drv.id_table c.id) c) cs);
  vme_unregister_driver = λ drv cs. each_card (λ c. remove_card drv c.bound c) cs;
}

each_card-Each :
    (P : Card → Type 0) (R : Card → Card → Type 0) (f : Card → Run Card (Unit {0}))
    → ((c : Card) → P c → Returns (λ u c'. R c c') (f c))
    → (cs : Cards) → AllCards P cs
    → Returns (λ u cs'. Each R cs cs') (each_card f cs)
each_card-Each P R f one [] p = returns _ _ tt
each_card-Each P R f one (c ∷ cs) (p, ps) =
    let first = one c p in
    let rest = each_card-Each P R f one cs ps in
    rw (first.returned, rest.returned) (returns _ _ (first.holds, rest.holds))

-- The call that was made, with its result.
put-Returns :
    {P : Card → Type 0} (c : Card) (bound : Code → Bool) (r : Run Device Code)
    (p : Returns (λ e d. Unit {0}) r)
    → P (record c { bound = bound p.value; dev = p.state })
    → Returns (λ u c'. P c') (put c bound r)
put-Returns {P = P} c bound r p holds =
    subst (λ z. Returns (λ u c'. P c') (put c bound z)) (sym p.returned) (returns _ _ holds)

probe_card-ProbedBy :
    (drv : VmeDriver) (c : Card)
    → (c.bound ≡ false → named drv.id_table c.id ≡ true → Returning (drv.probe c.at_probe) c.dev)
    → Returns (λ u c'. ProbedBy core drv c c') (probe_card drv c.bound (named drv.id_table c.id) c)
probe_card-ProbedBy drv c returning = go c.bound (named drv.id_table c.id) refl refl
  where
    go :
        (bound is_named : Bool)
        → c.bound ≡ bound
        → named drv.id_table c.id ≡ is_named
        → Returns (λ u c'. ProbedBy core drv c c') (probe_card drv bound is_named c)
    go true is_named e e' = returns _ _ (inl (inl e, refl))
    go false false e e' = returns _ _ (inl (inr e', refl))
    go false true e e' =
        let run = returning e e' in
        put-Returns c is_zero (drv.probe c.at_probe c.dev) run
          (inr (e, e', (run.value, run.state, run.returned, refl)))

remove_card-RemovedBy :
    (drv : VmeDriver) (c : Card)
    → (c.bound ≡ true → Returning (drv.remove c.at_remove) c.dev)
    → Returns (λ u c'. RemovedBy drv c c') (remove_card drv c.bound c)
remove_card-RemovedBy drv c returning = go c.bound refl
  where
    go :
        (bound : Bool)
        → c.bound ≡ bound
        → Returns (λ u c'. RemovedBy drv c c') (remove_card drv bound c)
    go false e = returns _ _ (inl (e, refl))
    go true e =
        let run = returning e in
        put-Returns c (λ x. false) (drv.remove c.at_remove c.dev) run
          (inr (e, (run.value, run.state, run.returned, refl)))

core-Binds : Binds core
core-Binds = record {
  registers = λ drv ndevs cs p.
      let run =
        each_card-Each _ (ProbedBy core drv)
          (λ c. probe_card drv c.bound (named drv.id_table c.id) c) (probe_card-ProbedBy drv) cs
          p in
      rw run.returned (returns ok run.state run.holds);
  unregisters = λ drv cs p.
      each_card-Each _ (RemovedBy drv) (λ c. remove_card drv c.bound c) (remove_card-RemovedBy drv)
        cs p;
}

probe-NoFault : (s : Device) → svec_probe host absent ≢ fault s
probe-NoFault s e = subst IsRet (sym probe_works ∙ e) tt
  where
    IsRet : Run Device Code → Type 0
    IsRet (ret c d) = Unit
    IsRet (exit n d) = ⊥
    IsRet (out_of_fuel d) = ⊥
    IsRet (fault d) = ⊥

abbrev svec_card : Card
svec_card = record {
  id = record { name = "vme.1"; manufacturer = 0x00080030; board = 0x00000198; revision = 1 };
  bound = false;
  dev = absent;
  at_probe = host;
  at_remove = host;
}

abbrev other_card : Card
other_card = record svec_card {
  id = record { name = "vme.2"; manufacturer = 0x00080030; board = 0x00000199; revision = 1 };
}

abbrev two_cards : Cards
two_cards = svec_card ∷ other_card ∷ []

abbrev life : Io Cards (Unit {0})
life = pure tt

HeldOrFree-Used : (c : Card) → HeldOrFree unused c → Used c c
HeldOrFree-Used c (inl (off, (e, rest))) = (refl, here c.dev, off ∙ sym (λ i. (e i).allocated))
HeldOrFree-Used c (inr (on, (k, (dbg, e, fpga)))) =
    (refl, here c.dev, on ∙ sym (λ i. (e i).allocated))

life-Used :
    (cs : Cards) → AllCards (HeldOrFree unused) cs → Returns (λ u cs'. Each Used cs cs') (life cs)
life-Used cs p = returns _ _ (go cs p)
  where
    go : (cs : Cards) → AllCards (HeldOrFree unused) cs → Each Used cs cs
    go [] p = tt
    go (c ∷ cs) (p, ps) = (HeldOrFree-Used c p, go cs ps)

module_life-Freed_example : Returns (LifeEnd unused two_cards) (module_life core life two_cards)
module_life-Freed_example =
    module_life-Freed core core-Binds life unused life-Used two_cards
      (((refl, (refl, inl refl)), probe-NoFault), (((refl, (refl, inl refl)), probe-NoFault), tt))

-- The SVEC is bound in between, and the other card is not.
svec_init_binds :
    svec_init core two_cards
    ≡ ret ok (record svec_card { bound = true; dev = probed_device } ∷ other_card ∷ [])
unfolding svec_init
svec_init_binds = rw probe_works refl
