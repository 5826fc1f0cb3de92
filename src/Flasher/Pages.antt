-- ===== src/Flasher/Pages.antt =====
-- One round of `flash_program` in software/tools/vme-flasher/svec-flasher.c on a flash chip: the sector
-- that is erased, the page that is programmed, and the map of erased sectors.
use svec.Base.{
  arith, ℕ, zero, suc, ◌+◌, ◌-◌, ◌/◌, ◌%◌, ◌≤◌, ◌<◌, ◌≡◌, refl, sym, ap, ◌∙◌, inl, inr, ◌⊎◌, Bool,
  true, false, Bool-cases, List, [], ◌∷◌, ◌++◌, ◌==◌, ltb, ltb→lt, bit_and, bit_and-mask, slice,
  replicate, get_elem?, set, some,
}
use svec.Flasher.{flash_page_size}
use svec.Flasher.Chip.{erased, programmed, page_get, page_get_pad}

abbrev pub Marked : List Bool → ℕ → Type 0
Marked sector_map s = get_elem? sector_map s ≡ some true

Marked-set_here :
    (m : List Bool) (s : ℕ) (v : Bool) → get_elem? m s ≡ some v → Marked (set m s true) s
Marked-set_here [] s v e = absurd cc
Marked-set_here (x ∷ m) zero v e = refl
Marked-set_here (x ∷ m) (suc s) v e = Marked-set_here m s v e

Marked-set_kept : (m : List Bool) (s t : ℕ) → Marked m t → Marked (set m s true) t
Marked-set_kept [] s t e = e
Marked-set_kept (x ∷ m) zero zero e = refl
Marked-set_kept (x ∷ m) zero (suc t) e = e
Marked-set_kept (x ∷ m) (suc s) zero e = e
Marked-set_kept (x ∷ m) (suc s) (suc t) e = Marked-set_kept m s t e

Marked-set_cases : (m : List Bool) (s t : ℕ) → Marked (set m s true) t → (t ≡ s) ⊎ Marked m t
Marked-set_cases [] s t e = inr e
Marked-set_cases (x ∷ m) zero zero e = inl refl
Marked-set_cases (x ∷ m) zero (suc t) e = inr e
Marked-set_cases (x ∷ m) (suc s) zero e = inr e
Marked-set_cases (x ∷ m) (suc s) (suc t) e = elim (Marked-set_cases m s t e) [
  | inl same ↦ inl (ap suc same)
  | inr old ↦ inr old
]

and_ff : (d : ℕ) → d < 256 → bit_and d 0xff ≡ d
and_ff d h = omega (arith, bit_and-mask 8 d)

-- A page's bytes, as the flasher sends them.
abbrev pub page_of : (ℕ → ℕ) → (off size : ℕ) → List ℕ
page_of f off size = slice f off size ++ replicate (flash_page_size - size) 0xff

offset_in : (a x : ℕ) → a % 256 ≡ 0 → a ≤ x → x < a + 256 → (x + 256 - a % 256) % 256 ≡ x - a
offset_in a x aligned lo hi = omega arith

in_page : (a x : ℕ) → a % 256 ≡ 0 → a ≤ x → x < a + 256 → (x / 256 == a / 256) ≡ true
in_page a x aligned lo hi = ground arith

off_page : (a x : ℕ) → a % 256 ≡ 0 → (x < a) ⊎ (a + 256 ≤ x) → (x / 256 == a / 256) ≡ false
off_page a x aligned out = ground arith

module _ (f : ℕ → ℕ) (bytes : (j : ℕ) → f j < 256) (off size a : ℕ) (mem : ℕ → ℕ)
    (aligned : a % 256 ≡ 0) where
  programmed-inside :
      (i : ℕ)
      → i < size
      → size ≤ 256
      → mem (a + i) ≡ 0xff
      → programmed a (page_of f off size) mem (a + i) ≡ f (off + i)
  programmed-inside i h small blank =
      let here : (a + i + 256 - a % 256) % 256 ≡ i =
        offset_in a (a + i) aligned (omega arith) (omega arith) ∙ omega arith in
      rw
        (
          in_page a (a + i) aligned (omega arith) (omega arith),
          here,
          page_get f off size (256 - size) i h,
          blank,
        )
        (and_ff (f (off + i)) (bytes (off + i)))

  programmed-filler :
      (x : ℕ) → a + size ≤ x → mem x ≡ 0xff → programmed a (page_of f off size) mem x ≡ 0xff
  programmed-filler x h blank = elim (Bool-cases (x / 256 == a / 256)) [
    | inr out ↦ rw out blank
    | inl here ↦
        let hi : x < a + 256 = ground arith in
        rw
          (
            here,
            offset_in a x aligned (omega arith) hi,
            page_get_pad f off size (256 - size) (x - a) (omega arith),
            blank,
          )
          refl
  ]

  programmed-outside : (x : ℕ) → x < a → programmed a (page_of f off size) mem x ≡ mem x
  programmed-outside x h = rw (off_page a x aligned (inl h)) refl

-- The first `n` bytes are in the memory from `addr` on, their sectors are marked, and every marked
-- sector is blank behind them.
pub record Written (sector_size addr : ℕ) (f : ℕ → ℕ) (n : ℕ) (m : List Bool) (mem : ℕ → ℕ)
    : Type 0 where
  pub held : (j : ℕ) → j < n → mem (addr + j) ≡ f j
  pub blank : (x : ℕ) → Marked m (x / sector_size) → addr + n ≤ x → mem x ≡ 0xff
  pub marked : (j : ℕ) → j < n → Marked m ((addr + j) / sector_size)

-- The memory after the erase, if the sector is not marked yet.
abbrev pub erased_unless : Bool → (sector_size a : ℕ) → (ℕ → ℕ) → ℕ → ℕ
erased_unless true sector_size a mem = mem
erased_unless false sector_size a mem = erased sector_size a mem

module _ (sector_size addr : ℕ) (f : ℕ → ℕ) (n : ℕ) (m : List Bool) (mem : ℕ → ℕ)
    (w : Written sector_size addr f n m mem) where
  abbrev sector : ℕ
  sector = (addr + n) / sector_size

  abbrev m1 : List Bool
  m1 = set m sector true

  erase-Written :
      (v : Bool)
      → get_elem? m sector ≡ some v
      → Written sector_size addr f n m1 (erased_unless v sector_size (addr + n) mem)
  erase-Written true e = record {
    held = w.held;
    blank = λ x marked behind. elim (Marked-set_cases m sector (x / sector_size) marked) [
      | inl same ↦ w.blank x (ap (get_elem? m) same ∙ e) behind
      | inr old ↦ w.blank x old behind
    ];
    marked = λ j h. Marked-set_kept m sector _ (w.marked j h);
  }
  erase-Written false e = record {
    held = λ j h. elim (Bool-cases ((addr + j) / sector_size == sector)) [
      | inr other ↦ rw other (w.held j h)
      | inl same ↦
          let here : (addr + j) / sector_size ≡ sector = ground arith in
          let no : some true ≡ some false = sym (w.marked j h) ∙ ap (get_elem? m) here ∙ e in
          absurd cc
    ];
    blank = λ x marked behind. elim (Bool-cases (x / sector_size == sector)) [
      | inl same ↦ rw same refl
      | inr other ↦ rw other (elim (Marked-set_cases m sector (x / sector_size) marked) [
        | inl same ↦ absurd (ground arith)
        | inr old ↦ w.blank x old behind
      ])
    ];
    marked = λ j h. Marked-set_kept m sector _ (w.marked j h);
  }

  page-Written :
      (mem1 : ℕ → ℕ) (v : Bool)
      → ((j : ℕ) → f j < 256)
      → (size : ℕ) → size ≤ 256
      → (addr + n) % 256 ≡ 0
      → ((i : ℕ) → i < 256 → (addr + n + i) / sector_size ≡ sector)
      → get_elem? m sector ≡ some v
      → Written sector_size addr f n m1 mem1
      → Written sector_size addr f (n + size) m1 (programmed (addr + n) (page_of f n size) mem1)
  page-Written mem1 v bytes size small aligned same e w1 = record {
    held = λ j h. elim (Bool-cases (ltb j n)) [
      | inl before ↦
          programmed-outside f bytes n size (addr + n) mem1 aligned (addr + j)
            (omega (arith, ltb→lt j n before))
          ∙ w1.held j (ltb→lt j n before)
      | inr later ↦
          let ge : n ≤ j = ground arith in
          let i = j - n in
          let at : addr + j ≡ addr + n + i = omega arith in
          let of : n + i ≡ j = omega arith in
          ap (programmed (addr + n) (page_of f n size) mem1) at
          ∙ programmed-inside f bytes n size (addr + n) mem1 aligned i (omega arith) small
              (w1.blank (addr + n + i) (in_sector i (omega arith)) (omega arith))
          ∙ ap f of
    ];
    blank = λ x marked behind.
        programmed-filler f bytes n size (addr + n) mem1 aligned x (omega arith)
          (w1.blank x marked (omega arith));
    marked = λ j h. elim (Bool-cases (ltb j n)) [
      | inl before ↦ w1.marked j (ltb→lt j n before)
      | inr later ↦
          let ge : n ≤ j = ground arith in
          let at : addr + j ≡ addr + n + (j - n) = omega arith in
          ap (λ x. get_elem? m1 (x / sector_size)) at ∙ in_sector (j - n) (omega arith)
    ];
  }
    where
      in_sector : (i : ℕ) → i < 256 → Marked m1 ((addr + n + i) / sector_size)
      in_sector i h = ap (get_elem? m1) (same i h) ∙ Marked-set_here m sector v e

  -- A round keeps what is written, and adds a page.
  pub round-Written :
      (v : Bool)
      → ((j : ℕ) → f j < 256)
      → (size : ℕ) → size ≤ 256
      → (addr + n) % 256 ≡ 0
      → ((i : ℕ) → i < 256 → (addr + n + i) / sector_size ≡ sector)
      → get_elem? m sector ≡ some v
      → Written sector_size addr f
          (n + size)
          m1
          (programmed (addr + n) (page_of f n size) (erased_unless v sector_size (addr + n) mem))
  round-Written v bytes size small aligned same e =
      page-Written (erased_unless v sector_size (addr + n) mem) v bytes size small aligned same e
        (erase-Written v e)
