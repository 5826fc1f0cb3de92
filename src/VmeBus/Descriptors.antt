-- ===== src/VmeBus/Descriptors.antt =====
-- What a history of calls says: the descriptors that are open, and the flag of the VME bus driver
-- that a client sets for its own call of VME_IOCTL_FIND_MAPPING.
use svec.Base.{
  Option-cases, ℕ, ◌+◌, List, [], ◌∷◌, ◌==◌, ◌≡◌, ◌≢◌, inl, inr, if◌then◌else◌, Option, some, none,
}
use svec.Bus.{Returns, ◌>>=◌}
use svec.VmeBus.{
  Mapping, find, find_mapping, vme_mmap, mmap, page_addr, page_aligned_size, page_aligned_size_incr,
  Os, Calls, Call, Sys, open_mwindow, open_dma_read, open_dma_write, close, call,
  get_create_on_find_fail, set_create_on_find_fail,
}

abbrev pub opened_by : Option ℕ → List ℕ → List ℕ
opened_by none l = l
opened_by (some fd) l = fd ∷ l

-- A closed descriptor goes off the list where it was opened last.
abbrev pub remove : ℕ → List ℕ → List ℕ
remove fd [] = []
remove fd (x ∷ l) = let rest = remove fd l in if x == fd then l else x ∷ rest

-- The open descriptors, the newest first.
unfoldable pub descriptors : Os → Calls → List ℕ
descriptors os [] = []
descriptors os (open_mwindow ∷ cs) = opened_by (os.answer cs open_mwindow) (descriptors os cs)
descriptors os (open_dma_read ∷ cs) = opened_by (os.answer cs open_dma_read) (descriptors os cs)
descriptors os (open_dma_write ∷ cs) = opened_by (os.answer cs open_dma_write) (descriptors os cs)
descriptors os (close fd ∷ cs) = remove fd (descriptors os cs)
descriptors os (_ ∷ cs) = descriptors os cs

abbrev pub set_to : Option ℕ → ℕ → ℕ → ℕ
set_to none v before = before
set_to (some r) v before = v

-- The flag "create on find fail", which was `initial` before the first call: a call that sets it
-- and does not fail sets it.
unfoldable pub create_flag : Os → ℕ → Calls → ℕ
create_flag os initial [] = initial
create_flag os initial (set_create_on_find_fail fd v ∷ cs) =
    set_to (os.answer cs (set_create_on_find_fail fd v)) v (create_flag os initial cs)
create_flag os initial (_ ∷ cs) = create_flag os initial cs

-- What the driver documents of the flag: reading it gives its value, and a descriptor through which
-- it was set once lets it be set again.
pub record KeepsFlag (os : Os) (initial : ℕ) : Type 0 where
  pub reads :
      (cs : Calls) (fd v : ℕ)
      → os.answer cs (get_create_on_find_fail fd) ≡ some v
      → v ≡ create_flag os initial cs
  pub sets :
      (cs cs' : Calls) (fd v v' r : ℕ)
      → os.answer cs (set_create_on_find_fail fd v) ≡ some r
      → os.answer cs' (set_create_on_find_fail fd v') ≢ none

-- A call whose answer decides what follows.
pub answered :
    {A : Type 0} {P : A → Calls → Type 0} (os : Os) (c : Call) (k : Option ℕ → Sys A) (cs : Calls)
    → (os.answer cs c ≡ none → Returns P (k none (c ∷ cs)))
    → ((r : ℕ) → os.answer cs c ≡ some r → Returns P (k (some r) (c ∷ cs)))
    → Returns P ((call os c >>= k) cs)
unfolding call
answered os c k cs fails works = elim (Option-cases (os.answer cs c)) [
  | inl e ↦ rw e (fails e)
  | inr (r, e) ↦ rw e (works r e)
]

-- The same for VME_IOCTL_FIND_MAPPING and for `mmap`.
pub found :
    {A : Type 0} {P : A → Calls → Type 0} (os : Os) (d : Mapping) (k : Option Mapping → Sys A)
    (cs : Calls)
    → Returns P (k none (find_mapping d.fd d ∷ cs))
    → Returns P (k (some (record d { pci_addrl = os.pci_addr cs d })) (find_mapping d.fd d ∷ cs))
    → Returns P ((find os d >>= k) cs)
unfolding find
found os d k cs fails works = elim (Option-cases (os.answer cs (find_mapping d.fd d))) [
  | inl e ↦ rw (find, e) fails
  | inr (r, e) ↦ rw (find, e) works
]

abbrev pub mmap_of : Os → Mapping → Call
mmap_of os d = mmap (page_aligned_size os d) d.fd (page_addr os d.pci_addrl)

pub mmapped :
    {A : Type 0} {P : A → Calls → Type 0} (os : Os) (d : Mapping) (k : Option Mapping → Sys A)
    (cs : Calls)
    → Returns P (k none (mmap_of os d ∷ cs))
    → ((addr : ℕ)
        → os.answer cs (mmap_of os d) ≡ some addr
        → Returns P (
            k
              (some (record d { user_va = addr + page_aligned_size_incr os d }))
              (mmap_of os d ∷ cs)))
    → Returns P ((vme_mmap os d >>= k) cs)
unfolding vme_mmap call
mmapped os d k cs fails works = elim (Option-cases (os.answer cs (mmap_of os d))) [
  | inl e ↦ rw e fails
  | inr (r, e) ↦ rw e (works r e)
]
