-- ===== src/VmeBus/Opening.antt =====
-- The descriptors and the flag that `vme_map` and `find_controller` of
-- software/tools/vme-flasher/libvmebus.c leave behind.
use svec.Base.{
  Option-cases, inl, inr, ℕ, Bool, true, false, List, [], ◌∷◌, ◌++◌, ◌==◌, ◌≡◌, ◌≢◌, refl, ap, ◌∙◌,
  if◌then◌else◌, Option, some, none, ==_iff,
}
use svec.Bus.{weaken, bind, Returns, returns, ◌>>=◌, pure}
use svec.VmeBus.{
  vme_munmap, Os, Calls, Sys, Mapping, open_mwindow, call, call_ignored, get_create_on_find_fail,
  set_create_on_find_fail,
}
use svec.VmeBus.Controller.{data_width_of, find_controller, restore_and_free}
use svec.VmeBus.Map.{vme_unmap, save_destroy, restore_destroy, vme_map, out_close, out_restore_flag}
use svec.VmeBus.Descriptors.{
  opened_by, descriptors, create_flag, KeepsFlag, answered, found, mmapped, remove, set_to,
}

-- How `vme_map` ends: what it holds is one descriptor on success and nothing otherwise.
abbrev pub MapEnd : Os → ℕ → Calls → Option Mapping → Calls → Type 0
MapEnd os initial cs none cs' =
    (descriptors os cs' ≡ descriptors os cs)
    × (create_flag os initial cs' ≡ create_flag os initial cs)
MapEnd os initial cs (some d) cs' =
    (descriptors os cs' ≡ d.fd ∷ descriptors os cs)
    × (create_flag os initial cs' ≡ create_flag os initial cs)

pub remove-head : (fd : ℕ) (l : List ℕ) → remove fd (fd ∷ l) ≡ l
remove-head fd l = let e : (fd == fd) ≡ true = (==_iff fd fd).1 refl in rw e refl

set_to-works : (o : Option ℕ) (v before : ℕ) → o ≢ none → set_to o v before ≡ v
set_to-works none v before h = absurd (h refl)
set_to-works (some r) v before h = refl

module _ (os : Os) (initial : ℕ) (cs : Calls) (keeps : KeepsFlag os initial) (fd org : ℕ)
    (read : os.answer (open_mwindow ∷ cs) (get_create_on_find_fail fd) ≡ some org) where
  -- The flag after the call that restores it, whatever was called in between.
  flag_restored :
      (cs' : Calls) (force r : ℕ)
      → os.answer
          (get_create_on_find_fail fd ∷ open_mwindow ∷ cs)
          (set_create_on_find_fail fd force)
        ≡ some r
      → create_flag os initial (set_create_on_find_fail fd org ∷ cs') ≡ create_flag os initial cs
  unfolding create_flag
  flag_restored cs' force r was_set =
      set_to-works (os.answer cs' (set_create_on_find_fail fd org)) org _
        (keeps.sets _ cs' fd force org r was_set)
      ∙ keeps.reads _ fd org read

-- For every descriptor that is asked for and all answers of the operating system: `vme_map`
-- returns. On success exactly one descriptor more is open, that of the mapping; on failure none is.
-- In both cases the flag of the driver is as it was, if the driver keeps the flag.
pub vme_map-MapEnd :
    (os : Os) (initial : ℕ) (d : Mapping) (force : ℕ) (cs : Calls)
    → KeepsFlag os initial
    → Returns (MapEnd os initial cs) (vme_map os d force cs)
unfolding vme_map out_close out_restore_flag call_ignored descriptors create_flag
vme_map-MapEnd os initial d force cs keeps =
    answered os open_mwindow _ cs (λ e. returns none _ (rw e (refl, refl)))
      (λ fd opened.
        answered os (get_create_on_find_fail fd) _ _
          (λ e. returns none _ (rw opened (remove-head fd (descriptors os cs), refl)))
          (λ org read.
            answered os (set_create_on_find_fail fd force) _ _
              (λ e. returns none _ (rw (opened, e) (remove-head fd (descriptors os cs), refl)))
              (λ r was_set.
                let back : (cs' : Calls)
                    → create_flag os initial (set_create_on_find_fail fd org ∷ cs')
                      ≡ create_flag os initial cs =
                  λ cs'. flag_restored os initial cs keeps fd org read cs' force r was_set in
                let closed : remove fd (descriptors os (open_mwindow ∷ cs)) ≡ descriptors os cs =
                  rw opened (remove-head fd (descriptors os cs)) in
                found os (record d { fd = fd }) _ _ (returns none _ (closed, back _))
                  (mmapped os _ _ _ (returns none _ (closed, back _))
                    (λ addr e. returns (some _) _ (rw opened refl, back _))))))

-- The descriptor that `find_controller` opens: none without memory, or for a size that it does not
-- know.
abbrev pub opened_fds : Os → Bool → ℕ → Calls → List ℕ
opened_fds os calloc_ok size cs =
    if calloc_ok
    then elim (data_width_of size) [
      | none ↦ []
      | some width ↦ opened_by (os.answer cs open_mwindow) []
    ]
    else []

-- How `find_controller` ends. A descriptor that it gives back is the one that it opened.
abbrev pub FindEnd : Os → ℕ → Bool → ℕ → Calls → Option Mapping → Calls → Type 0
FindEnd os initial calloc_ok size cs r cs' =
    (descriptors os cs' ≡ opened_fds os calloc_ok size cs ++ descriptors os cs)
    × (create_flag os initial cs' ≡ create_flag os initial cs)
    × (elim r [ none ↦ Unit {0} | some d ↦ opened_fds os calloc_ok size cs ≡ d.fd ∷ [] ])

-- For all arguments and all answers of the operating system: `find_controller` returns, and leaves
-- open the descriptor that it opened, whether it succeeds or fails after opening it. On success
-- that is the descriptor of the mapping. The flag of the driver is as it was, if the driver keeps
-- the flag.
pub find_controller-FindEnd :
    (os : Os) (initial : ℕ) (calloc_ok : Bool) (vmeaddr len am size rdpref : ℕ) (cs : Calls)
    → KeepsFlag os initial
    → Returns
        (FindEnd os initial calloc_ok size cs)
        (find_controller os calloc_ok vmeaddr len am size rdpref cs)
unfolding find_controller restore_and_free call_ignored descriptors create_flag
find_controller-FindEnd os initial false vmeaddr len am size rdpref cs keeps =
    returns none cs (refl, refl, tt)
find_controller-FindEnd os initial true vmeaddr len am size rdpref cs keeps =
    elim (Option-cases (data_width_of size)) [
      | inl e ↦ rw e (returns none cs (rw e refl, refl, tt))
      | inr (width, e) ↦ rw e (
          answered os open_mwindow _ cs (λ e'. returns none _ (rw (e, e') (refl, refl, tt)))
            (λ fd opened.
              answered os (get_create_on_find_fail fd) _ _
                (λ e'. returns none _ (rw (e, opened) (refl, refl, tt)))
                (λ org read.
                  answered os (set_create_on_find_fail fd 1) _ _
                    (λ e'. returns none _ (rw (e, opened, e') (refl, refl, tt)))
                    (λ r was_set.
                      let back : (cs' : Calls)
                          → create_flag os initial (set_create_on_find_fail fd org ∷ cs')
                            ≡ create_flag os initial cs =
                        λ cs'. flag_restored os initial cs keeps fd org read cs' 1 r was_set in
                      found os _ _ _ (returns none _ (rw (e, opened) refl, back _, tt)) (
                        mmapped os _ _ _ (returns none _ (rw (e, opened) refl, back _, tt))
                          (λ addr e'.
                            returns (some _) _
                              (rw (e, opened) refl, back _, rw (e, opened) refl)))))))
    ]

-- A program's use of the library: a mapping is made, and taken down again if it was made.
abbrev pub unmap_if : Os → Bool → (garbage : ℕ) → Option Mapping → Sys Bool
unmap_if os force garbage none = pure false
unmap_if os force garbage (some d) = vme_unmap os d force garbage

abbrev pub map_and_unmap : Os → Mapping → (force : ℕ) → Bool → (garbage : ℕ) → Sys Bool
map_and_unmap os d force force_unmap garbage = do
  m ← vme_map os d force
  unmap_if os force_unmap garbage m

pub after_unmap :
    (os : Os) (d : Mapping) (force : Bool) (garbage : ℕ) (cs : Calls)
    → Returns
        (λ r cs'. descriptors os cs' ≡ remove d.fd (descriptors os cs))
        (vme_unmap os d force garbage cs)
unfolding vme_unmap save_destroy restore_destroy vme_munmap call call_ignored descriptors
after_unmap os d false garbage cs = returns _ _ refl
after_unmap os d true garbage cs = returns _ _ refl

-- For all arguments and all answers of the operating system, `vme_map` followed by `vme_unmap` of
-- its mapping returns and leaves the descriptors open that were open before, if the driver keeps
-- its flag.
pub vme_unmap-vme_map :
    (os : Os) (initial : ℕ) (d : Mapping) (force : ℕ) (force_unmap : Bool) (garbage : ℕ)
    (cs : Calls)
    → KeepsFlag os initial
    → Returns
        (λ r cs'. descriptors os cs' ≡ descriptors os cs)
        (map_and_unmap os d force force_unmap garbage cs)
vme_unmap-vme_map os initial d force force_unmap garbage cs keeps =
    bind (vme_map-MapEnd os initial d force cs keeps) then_unmap
  where
    then_unmap :
        (m : Option Mapping) (cs1 : Calls)
        → MapEnd os initial cs m cs1
        → Returns
            (λ r cs'. descriptors os cs' ≡ descriptors os cs)
            (unmap_if os force_unmap garbage m cs1)
    then_unmap none cs1 h = returns false cs1 h.0
    then_unmap (some d') cs1 h =
        weaken (after_unmap os d' force_unmap garbage cs1)
          (λ r cs' e. e ∙ ap (remove d'.fd) h.0 ∙ remove-head d'.fd (descriptors os cs))
