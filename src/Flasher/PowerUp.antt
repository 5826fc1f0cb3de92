-- ===== src/Flasher/PowerUp.antt =====
-- The flasher of software/tools/vme-flasher/svec-flasher.c and the boot from the flash at power-up
-- together: what `program_flash` has written is what the Application FPGA is fed.
use svec.Base.{
  arith, ℕ, zero, suc, ◌+◌, ◌-◌, ◌≤◌, ◌<◌, ◌≡◌, refl, sym, ap, ◌∙◌, subst, inl, inr, ◌⊎◌, Bool,
  true, false, Bool-cases, List, [], ◌∷◌, ◌++◌, ◌==◌, some, ltb, ltb→lt, length, if◌then◌else◌,
  slice, slice-add, length-slice,
}
use svec.Base.Errors.{ok}
use svec.Bus.{History, Hardware, Returns, weaken}
use svec.Core.{Buffer}
use svec.Core.Stream.{contents, IsBytes}
use svec.Flasher.FlashBoot.{
  BootState, fetch_bs_byte, no_bitstream, boot_done, Boot, sdb_root_offset, sdb_bitstream_offset,
  bitstream_size, power_up, boot,
}
use svec.Flasher.Sdb.{sdb_header}
use svec.Flasher.Program.{sector_size_of, program_flash}
use svec.Flasher.Commands.{After}
use svec.Flasher.Chip.{Chip, Timing}
use svec.Flasher.Content.{busy_for, Holds}
use svec.Flasher.Verify.{Works, Stored}
use svec.Flasher.Whole.{Identifies, program_flash_lem}

-- An Application FPGA with this bitstream: it is not done before it has all of it, and is done when it
-- has been fed `slack` bytes more, whatever they are.
pub record Configures (done : List ℕ → Bool) (b : Buffer) (slack : ℕ) : Type 0 where
  pub not_before : (bs : List ℕ) → length bs < b.size → done bs ≡ false
  pub after_all : (extra : List ℕ) → slack ≤ length extra → done (contents b ++ extra) ≡ true

module _ (mem : ℕ → ℕ) (done : List ℕ → Bool) where
  abbrev fed_at : ℕ → List ℕ
  fed_at i = slice mem sdb_bitstream_offset i

  -- Before the byte number `i` is fetched.
  abbrev fetching : (i last : ℕ) → Boot
  fetching i last = record {
    state = fetch_bs_byte;
    flash_addr = sdb_bitstream_offset + i;
    xldr_data = last;
    byte_count = i;
    fed = fed_at i;
  }

  abbrev ended : BootState → ℕ → Boot
  ended state i = record (fetching (suc i) (mem (sdb_bitstream_offset + i))) { state = state }

  fed_at-suc : (i : ℕ) → fed_at i ++ mem (sdb_bitstream_offset + i) ∷ [] ≡ fed_at (suc i)
  unfolding slice
  fed_at-suc i =
      let e : suc i ≡ i + 1 = omega arith in
      sym (ap fed_at e ∙ slice-add mem sdb_bitstream_offset i 1)

  one_byte :
      (n i last : ℕ) (state : BootState)
      → (if done (fed_at i)
          then boot_done
          else if i == bitstream_size
          then no_bitstream
          else fetch_bs_byte)
        ≡ state
      → boot mem done (suc (suc n)) (fetching i last) ≡ boot mem done n (ended state i)
  unfolding boot
  one_byte n i last state e =
      let next : sdb_bitstream_offset + i + 1 ≡ sdb_bitstream_offset + suc i = omega arith in
      let counted : i + 1 ≡ suc i = omega arith in
      λ j. boot mem done n (record {
        state = e j;
        flash_addr = next j;
        xldr_data = mem (sdb_bitstream_offset + i);
        byte_count = counted j;
        fed = fed_at-suc i j;
      })

  -- Some steps lead from one state to another.
  abbrev pub Leads : Boot → Boot → Type 0
  Leads s t = (n : ℕ) × (boot mem done n s ≡ t)

  goes_on :
      (i last : ℕ) (state : BootState) (t : Boot)
      → (if done (fed_at i)
          then boot_done
          else if i == bitstream_size
          then no_bitstream
          else fetch_bs_byte)
        ≡ state
      → Leads (ended state i) t
      → Leads (fetching i last) t
  goes_on i last state t e (n, leads) = (suc (suc n), one_byte n i last state e ∙ leads)

  here : (s : Boot) → Leads s s
  unfolding boot
  here s = (zero, refl)

  abbrev FirstUp : (i last most : ℕ) → Type 0
  FirstUp i last most =
      (j : ℕ) × (done (fed_at j) ≡ true) × (j ≤ most) × Leads (fetching i last) (ended boot_done j)

  up_now : (i last most : ℕ) → i ≤ most → done (fed_at i) ≡ true → FirstUp i last most
  up_now i last most le now = (i, now, le, goes_on i last boot_done _ (rw now) (here _))

  -- The pin goes up at the first length from `i` on where it is up at all.
  boots :
      (left i last : ℕ)
      → i + left ≤ bitstream_size
      → done (fed_at (i + left)) ≡ true
      → FirstUp i last (i + left)
  boots zero i last small up =
      let e : i + zero ≡ i = omega arith in
      up_now i last (i + zero) (omega arith) (ap (λ k. done (fed_at k)) (sym e) ∙ up)
  boots (suc left) i last small up = elim (Bool-cases (done (fed_at i))) [
    | inl now ↦ up_now i last (i + suc left) (omega arith) now
    | inr not_yet ↦
        let below : (i == bitstream_size) ≡ false = ground arith in
        let e : suc i + left ≡ i + suc left = omega arith in
        let (j, now, most, leads) =
          boots left (suc i) (mem (sdb_bitstream_offset + i)) (omega arith)
            (ap (λ k. done (fed_at k)) e ∙ up) in
        (j, now, omega arith, goes_on i last fetch_bs_byte _ (rw (not_yet, below)) leads)
  ]

  -- The pin stays down.
  gives_up :
      (left i last : ℕ)
      → i + left ≡ bitstream_size
      → ((j : ℕ) → j ≤ bitstream_size → done (fed_at j) ≡ false)
      → Leads (fetching i last) (ended no_bitstream bitstream_size)
  gives_up zero i last total down =
      let at : i ≡ bitstream_size = omega arith in
      let full : (i == bitstream_size) ≡ true = ground arith in
      subst (λ k. Leads (fetching i last) (ended no_bitstream k)) at
        (goes_on i last no_bitstream _ (rw (down i (omega arith), full)) (here _))
  gives_up (suc left) i last total down =
      let below : (i == bitstream_size) ≡ false = ground arith in
      goes_on i last fetch_bs_byte _ (rw (down i (omega arith), below))
        (gives_up left (suc i) (mem (sdb_bitstream_offset + i)) (omega arith) down)

  -- From power-up to the first byte, if the flash begins its table with the signature.
  finds_bitstream :
      (n : ℕ)
      → Stored sdb_root_offset sdb_header mem
      → boot mem done (suc (suc (suc (suc (suc (suc n)))))) power_up
        ≡ boot mem done n (fetching 0 0)
  unfolding boot slice sdb_header
  finds_bitstream n stored =
      rw
        (
          stored 0 (omega arith),
          stored 1 (omega arith),
          stored 2 (omega arith),
          stored 3 (omega arith),
        )
        refl

  from_power_up :
      (t : Boot) → Stored sdb_root_offset sdb_header mem → Leads (fetching 0 0) t → Leads power_up t
  from_power_up t stored (n, leads) = (_, finds_bitstream n stored ∙ leads)

-- How the boot ends: the Application FPGA was fed the bitstream and at most `slack` bytes more and one,
-- or the bootloader has given up since the bitstream is too long for it.
abbrev pub BootsWith :
    (slack : ℕ) (done : List ℕ → Bool) (b : Buffer)
    → (b.size + slack ≤ bitstream_size) ⊎ (bitstream_size < b.size)
    → (ℕ → ℕ)
    → Type 0
BootsWith slack done b (inl fits) mem =
    (n : ℕ) × ((boot mem done n power_up).state ≡ boot_done)
    × (extra : List ℕ) × ((boot mem done n power_up).fed ≡ contents b ++ extra)
    × (length extra ≤ slack + 1)
BootsWith slack done b (inr long) mem = (n : ℕ) × ((boot mem done n power_up).state ≡ no_bitstream)

suc-add : (i k : ℕ) → suc i + k ≡ i + suc k
suc-add i k = omega arith

up-down : {t : Bool} → t ≡ true → t ≡ false → ⊥
up-down up down = cc

slice-agree :
    (f g : ℕ → ℕ) (i j n : ℕ)
    → ((k : ℕ) → k < n → f (i + k) ≡ g (j + k))
    → slice f i n ≡ slice g j n
unfolding slice
slice-agree f g i j zero same = refl
slice-agree f g i j (suc n) same =
    let ei : i + zero ≡ i = omega arith in
    let ej : j + zero ≡ j = omega arith in
    let first = sym (ap f ei) ∙ same zero (omega arith) ∙ ap g ej in
    let rest =
      slice-agree f g (suc i) (suc j) n
        (λ k less. ap f (suc-add i k) ∙ same (suc k) (omega arith) ∙ sym (ap g (suc-add j k))) in
    λ t. first t ∷ rest t

module _ (mem : ℕ → ℕ) (done : List ℕ → Bool) (b : Buffer) (slack : ℕ)
    (configures : Configures done b slack) (stored : Stored sdb_bitstream_offset b mem) where
  fed_at-contents :
      (k : ℕ)
      → fed_at mem done (b.size + k) ≡ contents b ++ slice mem (sdb_bitstream_offset + b.size) k
  fed_at-contents k =
      slice-add mem sdb_bitstream_offset b.size k
      ∙ ap (λ l. l ++ slice mem (sdb_bitstream_offset + b.size) k)
          (slice-agree mem b.mem sdb_bitstream_offset 0 b.size
            (λ j less. let e : j ≡ 0 + j = omega arith in stored j less ∙ ap b.mem e))

  down_before : (i : ℕ) → i < b.size → done (fed_at mem done i) ≡ false
  down_before i less =
      configures.not_before _
        (subst (λ n. n < b.size) (sym (length-slice mem sdb_bitstream_offset i)) less)

  up_after : (k : ℕ) → slack ≤ k → done (fed_at mem done (b.size + k)) ≡ true
  up_after k enough =
      ap done (fed_at-contents k)
      ∙ configures.after_all _
          (subst (λ n. slack ≤ n) (sym (length-slice mem (sdb_bitstream_offset + b.size) k)) enough)

  -- The pin is not up before the whole bitstream.
  whole_at : (j : ℕ) → done (fed_at mem done j) ≡ true → b.size ≤ j
  whole_at j up = elim (Bool-cases (ltb j b.size)) [
    | inl less ↦ let down = down_before j (ltb→lt j b.size less) in absurd (up-down up down)
    | inr enough ↦ ground arith
  ]

  -- The boot has ended at the byte number `j`.
  fed_all :
      (j : ℕ)
      → done (fed_at mem done j) ≡ true
      → j ≤ b.size + slack
      → (fits : b.size + slack ≤ bitstream_size)
      → Leads mem done power_up (ended mem done boot_done j)
      → BootsWith slack done b (inl fits) mem
  fed_all j up most fits (n, leads) =
      let whole = whole_at j up in
      let all : suc j ≡ b.size + (suc j - b.size) = omega arith in
      let more = slice mem (sdb_bitstream_offset + b.size) (suc j - b.size) in
      let count : length more ≡ suc j - b.size =
        length-slice mem (sdb_bitstream_offset + b.size) (suc j - b.size) in
      (
        n,
        (λ i. (leads i).state),
        more,
        (λ i. (leads i).fed) ∙ ap (fed_at mem done) all ∙ fed_at-contents (suc j - b.size),
        omega (arith, count),
      )

  pub boots-BootsWith :
      (fits : (b.size + slack ≤ bitstream_size) ⊎ (bitstream_size < b.size))
      → Stored sdb_root_offset sdb_header mem
      → BootsWith slack done b fits mem
  boots-BootsWith (inl fits) header =
      let e : 0 + (b.size + slack) ≡ b.size + slack = omega arith in
      let (j, up, most, leads) =
        boots mem done (b.size + slack) 0 0 (omega arith)
          (ap (λ k. done (fed_at mem done k)) e ∙ up_after slack (omega arith)) in
      fed_all j up (omega arith) fits (from_power_up mem done _ header leads)
  boots-BootsWith (inr long) header =
      let (n, leads) = from_power_up mem done _ header (
        gives_up mem done bitstream_size 0 0 (omega arith) (λ j le. down_before j (omega arith))) in
      (n, λ i. (leads i).state)

module _ (hw : Hardware) (fuel rounds sector_size : ℕ) (time : Timing) (c0 : Chip)
    (works : Works hw fuel rounds sector_size time c0) (id : ℕ) (identifies : Identifies hw id)
    (known : sector_size_of id ≡ some sector_size) (b : Buffer) (bytes : IsBytes b) where
  -- On a card with a working chip of a known kind, whatever it held, that is idle between two
  -- transactions, `program_flash` without the flag for the bootloader returns zero for every bitstream
  -- of bytes of up to 0x500000 of them, and leaves a flash that the System FPGA boots from: if the
  -- Application FPGA is done when it has the bitstream and `slack` bytes more, and not before it has the
  -- bitstream, then the boot feeds it the bitstream and at most one byte more than `slack` behind it,
  -- and ends there. This is so if the bitstream and these bytes are at most 0x408000; a bitstream of
  -- more than that is programmed with success too, and the boot then gives up.
  pub program_flash-BootsWith :
      (confirm : List ℕ) (past : List (List ℕ)) (h : History) (done : List ℕ → Bool) (slack : ℕ)
      → Configures done b slack
      → b.size ≤ 0x500000
      → (fits : (b.size + slack ≤ bitstream_size) ⊎ (bitstream_size < b.size)) → After past h
      → busy_for sector_size time c0 past ≡ 0
      → Returns
          (λ c h'. (c ≡ ok) × Holds sector_size time c0 (BootsWith slack done b fits) h')
          (program_flash hw (suc fuel) (suc rounds) true confirm b false h)
  program_flash-BootsWith confirm past h done slack configures short fits e idle =
      weaken
        (program_flash_lem hw fuel rounds sector_size time c0 works id identifies known b bytes
          confirm past h short e idle)
        (λ c h' (fine, (past', e', idle', (header, stored, kept))).
          (fine, (past', e', idle', boots-BootsWith _ done b slack configures stored fits header)))
