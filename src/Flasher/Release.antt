-- ===== src/Flasher/Release.antt =====
-- What the process of software/tools/vme-flasher/svec-flasher.c leaves open when it ends.
use Prim.Native.String.{String}
use svec.Base.{
  ℕ, ◌≡◌, refl, ap, ◌∙◌, true, Bool-cases, inl, inr, not, ◌&&◌, ltb, List, ◌∷◌, Option, none, some,
}
use svec.Base.Errors.{Code}
use svec.Bus.{History, Hardware, Run, ret, exit, out_of_fuel, fault, ◌>>◌, Returns, returns}
use svec.Core.{Buffer}
use svec.Flasher.{Proc}
use svec.VmeBus.{Mapping, Os, Calls}
use svec.VmeBus.Descriptors.{descriptors, remove, KeepsFlag}
use svec.VmeBus.Opening.{MapEnd, vme_map-MapEnd, after_unmap, remove-head}
use svec.Flasher.Main.{
  Mode, usage, to_flash, direct, mode_of, Surroundings, Process, on_window, on_window_run, window,
  after_map, run_mode, init_vme, release_vme, at_exit, end_process, load_and_run, main, flasher,
}

-- What holds wherever the process ends by itself.
abbrev pub Ended : {S A : Type 0} → (S → Type 0) → Run S A → Type 0
Ended P (ret a s) = P s
Ended P (exit c s) = P s
Ended P (out_of_fuel s) = Unit {0}
Ended P (fault s) = Unit {0}

-- The descriptors are those that were open, and the one behind `map` while it is to be released.
abbrev pub Held : Os → List ℕ → Option Mapping → Calls → Type 0
Held os before none cs = descriptors os cs ≡ before
Held os before (some d) cs = descriptors os cs ≡ d.fd ∷ before

-- All is as it was, but for the calls and the mapping.
abbrev pub Released : Os → List ℕ → History → Process → Type 0
Released os before h s = (descriptors os s.calls ≡ before) × (s.history ≡ h)

module _ (os : Os) (garbage : ℕ) (before : List ℕ) where
  release-Released :
      (m : Option Mapping) (s : Process)
      → Held os before m s.calls
      → Returns (λ u s'. Released os before s.history s') (release_vme os garbage m s)
  unfolding release_vme
  release-Released none s held = returns _ _ (held, refl)
  release-Released (some d) s held =
      let p = after_unmap os d true garbage s.calls in
      rw p.returned (returns _ _ (p.holds ∙ ap (remove d.fd) held ∙ remove-head d.fd before, refl))

  pub at_exit-Released :
      (s : Process)
      → Held os before s.mapped s.calls
      → Returns (λ u s'. Released os before s.history s') (at_exit os garbage s)
  unfolding at_exit
  at_exit-Released s held = release-Released s.mapped s held

  end_process-Ended :
      {A : Type 0} (r : Run Process A)
      → Ended (λ s. Held os before s.mapped s.calls) r
      → Ended (λ s. descriptors os s.calls ≡ before) (end_process os garbage r)
  end_process-Ended (ret a s) h = let p = at_exit-Released s h in rw p.returned p.holds.0
  end_process-Ended (exit c s) h = let p = at_exit-Released s h in rw p.returned p.holds.0
  end_process-Ended (out_of_fuel s) h = tt
  end_process-Ended (fault s) h = tt

  -- The accesses to the window open and close no descriptor.
  on_window-Held :
      {A : Type 0} (r : Run History A) (s : Process)
      → Held os before s.mapped s.calls
      → Ended (λ s'. Held os before s'.mapped s'.calls) (on_window_run r s)
  on_window-Held (ret a h) s held = held
  on_window-Held (exit c h) s held = held
  on_window-Held (out_of_fuel h) s held = tt
  on_window-Held (fault h) s held = tt

module _ (hw : Hardware) (fuel rounds : ℕ) (os : Os) (initial garbage : ℕ)
    (keeps : KeepsFlag os initial) where
  after_map-Held :
      (m : Option Mapping) (cs cs1 : Calls) (h : History) (prog : Proc Code)
      → MapEnd os initial cs m cs1
      → Ended
          (λ s. Held os (descriptors os cs) s.mapped s.calls)
          ((do after_map os m; on_window prog) (record { calls = cs1; history = h; mapped = none }))
  unfolding after_map
  after_map-Held none cs cs1 h prog p = p.0
  after_map-Held (some d) cs cs1 h prog p =
      on_window-Held os garbage (descriptors os cs) (prog h)
        (record { calls = cs1; history = h; mapped = some d }) p.0

  load_and_run-Held :
      (file : Option Buffer) (env : Surroundings) (mode : Mode) (slot : ℕ) (cs : Calls)
      (h : History)
      → env.file ≡ file
      → Ended
          (λ s. Held os (descriptors os cs) s.mapped s.calls)
          (load_and_run hw fuel rounds os env mode slot
            (record { calls = cs; history = h; mapped = none }))
  unfolding load_and_run init_vme
  load_and_run-Held none env mode slot cs h e = rw e refl
  load_and_run-Held (some b) env mode slot cs h e =
      rw e (elim (Bool-cases (not env.file_malloc_ok && ltb 0 b.size)) [
        | inl bad ↦ rw bad tt
        | inr fine ↦
            let p = vme_map-MapEnd os initial (window slot) 1 cs keeps in
            rw (fine, p.returned) (after_map-Held p.value cs p.state h _ p.holds)
      ])

  run_mode-Held :
      (env : Surroundings) (mode : Mode) (slot : ℕ) (cs : Calls) (h : History)
      → Ended
          (λ s. Held os (descriptors os cs) s.mapped s.calls)
          (run_mode hw fuel rounds os env mode slot
            (record { calls = cs; history = h; mapped = none }))
  unfolding run_mode
  run_mode-Held env usage slot cs h = refl
  run_mode-Held env (to_flash boot) slot cs h =
      load_and_run-Held env.file env (to_flash boot) slot cs h refl
  run_mode-Held env direct slot cs h = load_and_run-Held env.file env direct slot cs h refl

  -- Wherever the process ends by itself, by the return of `main` or by `exit`, for all arguments,
  -- files, cards and answers of the operating system: the descriptors that are open are those that
  -- were open at its start, if the driver keeps its flag.
  pub flasher-Ended :
      (env : Surroundings) (argv : List String) (slot : ℕ) (cs : Calls) (h : History)
      → Ended
          (λ s. descriptors os s.calls ≡ descriptors os cs)
          (flasher hw fuel rounds os garbage env argv slot
            (record { calls = cs; history = h; mapped = none }))
  unfolding flasher main
  flasher-Ended env argv slot cs h =
      end_process-Ended os garbage (descriptors os cs) _
        (run_mode-Held env (mode_of argv) slot cs h)
