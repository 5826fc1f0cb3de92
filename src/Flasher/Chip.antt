-- ===== src/Flasher/Chip.antt =====
-- The flash chips M25P128 and MT25QL128, as far as software/tools/vme-flasher/svec-flasher.c uses them:
-- what a sequence of SPI transactions leaves in their memory. This is a specification, from the
-- commands that the chips document.
use svec.Base.{
  arith, ℕ, zero, suc, ◌+◌, ◌-◌, ◌*◌, ◌/◌, ◌%◌, ◌^◌, ◌≤◌, ◌<◌, ◌≡◌, refl, Bool, true, false, ◌&&◌,
  List, [], ◌∷◌, ◌++◌, ◌==◌, if◌then◌else◌, bit_and, slice, replicate, get_elem?, Option, some,
  none,
}
use svec.Flasher.{flash_rdsr, flash_wren, flash_se, flash_pp, flash_page_size, addr_bytes}

-- The memory, whether writing is enabled, and for how many polls more the chip is busy.
pub record Chip : Type 0 where
  pub mem : ℕ → ℕ
  pub wel : Bool
  pub busy : ℕ

-- For how many polls the chip is busy with an erase or a page, given the transactions before it.
abbrev pub Timing : Type 0
Timing = List (List ℕ) → ℕ

-- The address in a command, and the bytes behind it.
abbrev pub addr_of : List ℕ → ℕ
addr_of (a2 ∷ a1 ∷ a0 ∷ rest) = a2 * 2 ^ 16 + a1 * 2 ^ 8 + a0
addr_of other = 0

abbrev pub after_addr : List ℕ → List ℕ
after_addr (a2 ∷ a1 ∷ a0 ∷ rest) = rest
after_addr other = []

abbrev pub byte_or_blank : Option ℕ → ℕ
byte_or_blank none = 0xff
byte_or_blank (some d) = d

-- An erase sets the bits of a sector.
abbrev pub erased : (sector_size a : ℕ) → (ℕ → ℕ) → ℕ → ℕ
erased sector_size a mem x = if x / sector_size == a / sector_size then 0xff else mem x

-- Programming clears bits in the page of the address. The bytes go up from the address, and around at
-- the end of the page.
abbrev pub programmed : ℕ → List ℕ → (ℕ → ℕ) → ℕ → ℕ
programmed a bytes mem x =
    if x / flash_page_size == a / flash_page_size
    then bit_and
        (byte_or_blank
          (get_elem? bytes ((x + flash_page_size - a % flash_page_size) % flash_page_size)))
        (mem x)
    else mem x

-- Writing is enabled, and the chip is idle.
abbrev pub can_write : Chip → Bool
can_write c = c.busy == 0 && c.wel

-- Erasing and programming need a write enable each, and keep the chip busy. A busy chip takes nothing
-- but polls.
unfoldable pub exec : (sector_size took : ℕ) → List ℕ → Chip → Chip
exec sector_size took [] c = c
exec sector_size took (op ∷ args) c =
    if op == flash_rdsr
    then record c { busy = c.busy - 1 }
    else if op == flash_wren
    then (if c.busy == 0 then record c { wel = true } else c)
    else if op == flash_se
    then (if can_write c
        then record { mem = erased sector_size (addr_of args) c.mem; wel = false; busy = took }
        else c)
    else if op == flash_pp
    then (if can_write c
        then record {
          mem = programmed (addr_of args) (after_addr args) c.mem;
          wel = false;
          busy = took;
        }
        else c)
    else c

-- The chip after transactions, the newest first.
unfoldable pub chip : (sector_size : ℕ) → Timing → Chip → List (List ℕ) → Chip
unfolding exec
chip sector_size time c [] = c
chip sector_size time c (t ∷ past) = exec sector_size (time past) t (chip sector_size time c past)

module _ (sector_size t1 t2 : ℕ) (c : Chip) (idle : c.busy ≡ 0) (args : List ℕ) where
  -- An enabled erase of an idle chip.
  pub exec-erase :
      exec sector_size t2 (flash_se ∷ args) (exec sector_size t1 (flash_wren ∷ []) c)
      ≡ record { mem = erased sector_size (addr_of args) c.mem; wel = false; busy = t2 }
  unfolding exec
  exec-erase = let e : (c.busy == 0) ≡ true = ground (arith, idle) in simp (e)

  -- An enabled page of an idle chip.
  pub exec-program :
      exec sector_size t2 (flash_pp ∷ args) (exec sector_size t1 (flash_wren ∷ []) c)
      ≡ record { mem = programmed (addr_of args) (after_addr args) c.mem; wel = false; busy = t2 }
  unfolding exec
  exec-program = let e : (c.busy == 0) ≡ true = ground (arith, idle) in simp (e)

pub addr_of-addr_bytes : (a : ℕ) (rest : List ℕ) → a < 2 ^ 24 → addr_of (addr_bytes a ++ rest) ≡ a
addr_of-addr_bytes a rest h = omega arith

pub page_get :
    (f : ℕ → ℕ) (off size pad i : ℕ)
    → i < size
    → get_elem? (slice f off size ++ replicate pad 0xff) i ≡ some (f (off + i))
unfolding slice
page_get f off zero pad i h = absurd (omega arith)
page_get f off (suc size) pad zero h = let e : off + zero ≡ off = omega arith in rw e refl
page_get f off (suc size) pad (suc i) h =
    let e : off + suc i ≡ suc off + i = omega arith in
    rw e (page_get f (suc off) size pad i (omega arith))

pad_get : (pad i : ℕ) → byte_or_blank (get_elem? (replicate pad 0xff) i) ≡ 0xff
pad_get zero zero = refl
pad_get zero (suc i) = refl
pad_get (suc pad) zero = refl
pad_get (suc pad) (suc i) = pad_get pad i

pub page_get_pad :
    (f : ℕ → ℕ) (off size pad i : ℕ)
    → size ≤ i
    → byte_or_blank (get_elem? (slice f off size ++ replicate pad 0xff) i) ≡ 0xff
unfolding slice
page_get_pad f off zero pad i h = pad_get pad i
page_get_pad f off (suc size) pad zero h = absurd (omega arith)
page_get_pad f off (suc size) pad (suc i) h = page_get_pad f (suc off) size pad i (omega arith)
