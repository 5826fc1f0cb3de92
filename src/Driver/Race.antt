-- ===== src/Driver/Race.antt =====
-- What the mutex of software/kernel/svec-core.c protects when several writers of `firmware_name` run at
-- once, and what it does not: `svec_fpga_exit` is called outside of it.
use Prim.Native.String.{String}
use svec.Base.{
  arith, ℕ, ◌≡◌, refl, sym, ap, ◌∙◌, inl, inr, ◌⊎◌, Bool, true, false, Bool-cases, ◌==◌, List,
  Option, some, none,
}
use svec.Base.Errors.{Code}
use svec.Bus.{Io, ret, Returns, Returns-ret, returns}
use svec.Core.{Svec}
use svec.Fpga.Board.{Board}
use svec.Fpga.Lifecycle.{take_down}
use svec.Fpga.App.{AppDevice}
use svec.Fpga.Resources.{Resource}
use svec.Fpga.Parts.{
  svec_fpga_app_exit, svec_fmc_exit, svec_fpga_devices_exit, svec_fpga_vic_exit, svec_fpga_dbg_exit,
}
use svec.Driver.{Device, Host}
use svec.Driver.Compat.{Manager, Documented, compat_svec_fw_load}
use svec.Driver.Loading.{LoadEnd, compat_svec_fw_load_lem}
use svec.Driver.Writers.{
  Shared, Pc, start, tearing, clearing, waiting, locked, loaded, unlocked, gone, Move, no_fpga,
  has_fpga, torn, cleared, locks, loads, unlocks, removes, stays, System, update, Step, pick, Reach,
  begin, next,
}

-- Between `mutex_lock` and `mutex_unlock`.
abbrev pub loading : Pc → Bool
loading start = false
loading tearing = false
loading clearing = false
loading waiting = false
loading locked = true
loading (loaded c) = true
loading (unlocked c) = false
loading (gone b) = false

-- After `svec_fpga_exit`.
abbrev pub beyond : Pc → Bool
beyond start = false
beyond tearing = false
beyond clearing = false
beyond waiting = true
beyond locked = true
beyond (loaded c) = true
beyond (unlocked c) = true
beyond (gone b) = true

-- The attribute was removed by this writer.
abbrev pub remover : Pc → Bool
remover start = false
remover tearing = false
remover clearing = false
remover waiting = false
remover locked = false
remover (loaded c) = false
remover (unlocked c) = false
remover (gone b) = b

-- At most one writer loads at a time, with the mutex and with no FPGA device that the driver refers to,
-- and at most one has removed the attribute.
pub record IsSafe (s : System) : Type 0 where
  pub one_loads : (i j : ℕ) → loading (s.pc i) ≡ true → loading (s.pc j) ≡ true → i ≡ j
  pub with_mutex : (i : ℕ) → loading (s.pc i) ≡ true → s.shared.dev.mtx ≡ true
  pub no_device : (i : ℕ) → beyond (s.pc i) ≡ true → s.shared.dev.fpga.svec_fpga ≡ false
  pub one_removes : (i j : ℕ) → remover (s.pc i) ≡ true → remover (s.pc j) ≡ true → i ≡ j
  pub removed : (i : ℕ) → remover (s.pc i) ≡ true → s.shared.removed ≡ true

-- What a step of one writer does to what the others rely on.
record Local (s : Shared) (p : Pc) (s' : Shared) (p' : Pc) : Type 0 where
  enters :
      loading p' ≡ true
      → ((loading p ≡ true) × (s'.dev.mtx ≡ s.dev.mtx))
        ⊎ ((s.dev.mtx ≡ false) × (s'.dev.mtx ≡ true))
  keeps_mutex : loading p ≡ false → s.dev.mtx ≡ true → s'.dev.mtx ≡ true
  passes :
      (beyond p ≡ true → s.dev.fpga.svec_fpga ≡ false)
      → beyond p' ≡ true
      → s'.dev.fpga.svec_fpga ≡ false
  keeps_null : s.dev.fpga.svec_fpga ≡ false → s'.dev.fpga.svec_fpga ≡ false
  removes' : remover p' ≡ true → (s'.removed ≡ true) × ((remover p ≡ true) ⊎ (s.removed ≡ false))
  keeps_removed : s.removed ≡ true → s'.removed ≡ true

-- Taking the device down leaves the pointer as it is, frees the structure, and always returns.
pub take_down-Returns :
    (k : Host) (b : Board)
    → Returns (λ u b'. (b'.svec_fpga ≡ b.svec_fpga) × (b'.allocated ≡ false)) (take_down k.kernel b)
unfolding take_down svec_fpga_app_exit svec_fmc_exit svec_fpga_devices_exit svec_fpga_vic_exit
    svec_fpga_dbg_exit
take_down-Returns k b = by_parts b.app_pdev b.vic_pdev b refl refl
  where
    by_parts :
        (app : Option AppDevice) (vic : Option (List Resource)) (b : Board)
        → b.app_pdev ≡ app
        → b.vic_pdev ≡ vic
        → Returns
            (λ u b'. (b'.svec_fpga ≡ b.svec_fpga) × (b'.allocated ≡ false))
            (take_down k.kernel b)
    by_parts none none b e e' = rw (e, e') (returns _ _ (refl, refl))
    by_parts none (some r) b e e' = rw (e, e') (returns _ _ (refl, refl))
    by_parts (some r) none b e e' = rw (e, e') (returns _ _ (refl, refl))
    by_parts (some r) (some r') b e e' = rw (e, e') (returns _ _ (refl, refl))

module _ (k : Host) (m : Manager) (doc : Documented m)
    (fpga_mgr_load : Board → String → Io Svec Code)
    (load_returns : (b : Board) (name : String) (s : Svec)
      → Returns (λ c s'. Unit {0}) (fpga_mgr_load b name s)) where
  -- A load changes neither the mutex nor the FPGA device.
  load_keeps :
      (name : String) (d : Device) (c : Code) (d' : Device)
      → compat_svec_fw_load m fpga_mgr_load name d ≡ ret c d'
      → (d'.mtx ≡ d.mtx) × (d'.fpga ≡ d.fpga)
  load_keeps name d c d' called =
      elim (Returns-ret (LoadEnd (λ c s. Unit {0}) d) _ c d'
        (compat_svec_fw_load_lem m doc fpga_mgr_load name _ d (load_returns d.fpga name d.svec))
        called) [
          | inl (x, e, same) ↦ (λ i. (same i).mtx, λ i. (same i).fpga)
          | inr (s, t, same) ↦ (λ i. (same i).mtx, λ i. (same i).fpga)
        ]

  Move-Local : {s s' : Shared} {p p' : Pc} → Move k m fpga_mgr_load s p s' p' → Local s p s' p'
  Move-Local {s} (no_fpga null) = ground (arith, null)
  Move-Local {s} (has_fpga set) = ground (arith, set)
  Move-Local {s} (torn b e) =
      let kept = (Returns-ret _ _ tt b (take_down-Returns k s.dev.fpga) e).0 in ground (arith, kept)
  Move-Local {s} cleared = ground arith
  Move-Local {s} (locks free) = ground (arith, free)
  Move-Local {s} (loads name c d' e) =
      let (same, kept) = load_keeps name s.dev c d' e in
      let kept' = ap (λ (b : Board). b.svec_fpga) kept in ground (arith, same, kept')
  Move-Local {s} unlocks = ground arith
  Move-Local {s} (removes first) = ground (arith, first)
  Move-Local {s} stays = ground arith

  module _ (i : ℕ) (s : System) (s' : Shared) (p : Pc) where
    -- A writer after a step is the one that made it, or stands where it stood.
    moved :
        (f : Pc → Bool) (j : ℕ)
        → f (update s.pc i p j) ≡ true
        → ((i ≡ j) × (f p ≡ true)) ⊎ (((i == j) ≡ false) × (f (s.pc j) ≡ true))
    moved f j h = elim (Bool-cases (i == j)) [
      | inl e ↦ let h' = rw e at h in inl (ground arith, h')
      | inr e ↦ let h' = rw e at h in inr (e, h')
    ]

    module _ (safe : IsSafe s) (l : Local s.shared (s.pc i) s' p) where
      -- The mutex of another writer stays locked.
      still_locked : (j : ℕ) → (i == j) ≡ false → loading (s.pc j) ≡ true → s'.dev.mtx ≡ true
      still_locked j other h = elim (Bool-cases (loading (s.pc i))) [
        | inl also ↦ let same = safe.one_loads i j also h in absurd (ground (arith, same))
        | inr no_load ↦ l.keeps_mutex no_load (safe.with_mutex j h)
      ]

      alone_loads : (j : ℕ) → loading p ≡ true → loading (s.pc j) ≡ true → i ≡ j
      alone_loads j here there = elim (l.enters here) [
        | inl (before, same) ↦ safe.one_loads i j before there
        | inr (free, now) ↦
            let taken = safe.with_mutex j there in absurd (ground (arith, free, taken))
      ]

      alone_removes : (j : ℕ) → remover p ≡ true → remover (s.pc j) ≡ true → i ≡ j
      alone_removes j here there = elim ((l.removes' here).1) [
        | inl before ↦ safe.one_removes i j before there
        | inr first ↦ let already = safe.removed j there in absurd (ground (arith, first, already))
      ]

      moved-IsSafe : IsSafe (record { shared = s'; pc = update s.pc i p })
      moved-IsSafe = record {
        one_loads = λ a b ha hb. elim (moved loading a ha) [
          | inl (ea, la) ↦ elim (moved loading b hb) [
            | inl (eb, lb) ↦ sym ea ∙ eb
            | inr (eb, lb) ↦ sym ea ∙ alone_loads b la lb
          ]
          | inr (ea, la) ↦ elim (moved loading b hb) [
            | inl (eb, lb) ↦ sym (alone_loads a lb la) ∙ eb
            | inr (eb, lb) ↦ safe.one_loads a b la lb
          ]
        ];
        with_mutex = λ a h. elim (moved loading a h) [
          | inl (e, here) ↦ elim (l.enters here) [
            | inl (before, same) ↦ same ∙ safe.with_mutex i before
            | inr (free, now) ↦ now
          ]
          | inr (e, there) ↦ still_locked a e there
        ];
        no_device = λ a h. elim (moved beyond a h) [
          | inl (e, here) ↦ l.passes (safe.no_device i) here
          | inr (e, there) ↦ l.keeps_null (safe.no_device a there)
        ];
        one_removes = λ a b ha hb. elim (moved remover a ha) [
          | inl (ea, la) ↦ elim (moved remover b hb) [
            | inl (eb, lb) ↦ sym ea ∙ eb
            | inr (eb, lb) ↦ sym ea ∙ alone_removes b la lb
          ]
          | inr (ea, la) ↦ elim (moved remover b hb) [
            | inl (eb, lb) ↦ sym (alone_removes a lb la) ∙ eb
            | inr (eb, lb) ↦ safe.one_removes a b la lb
          ]
        ];
        removed = λ a h. elim (moved remover a h) [
          | inl (e, here) ↦ (l.removes' here).0
          | inr (e, there) ↦ l.keeps_removed (safe.removed a there)
        ];
      }

  Step-IsSafe : {n : ℕ} {s t : System} → IsSafe s → Step k m fpga_mgr_load n s t → IsSafe t
  Step-IsSafe {n} {s} safe (pick i {s'} {p} below move) =
      moved-IsSafe i s s' p safe (Move-Local move)

  pub Reach-IsSafe : {n : ℕ} {d : Device} {s : System} → Reach k m fpga_mgr_load n d s → IsSafe s
  Reach-IsSafe begin = record {
    one_loads = λ i j h h'. cc;
    with_mutex = λ i h. cc;
    no_device = λ i h. cc;
    one_removes = λ i j h h'. cc;
    removed = λ i h. cc;
  }
  Reach-IsSafe (next r step) = Step-IsSafe (Reach-IsSafe r) step
