-- ===== src/Flasher/Extent.antt =====
-- Where the pages of `flash_program` in software/tools/vme-flasher/svec-flasher.c start and end.
use svec.Base.{
  if◌then◌else◌, ◌*◌, arith, ℕ, zero, suc, ◌+◌, ◌-◌, ◌/◌, ◌%◌, ◌≤◌, ◌<◌, ◌≡◌, refl, inl, inr, ◌⊎◌,
  Bool-cases, ltb,
}
use svec.Flasher.{flash_page_size}

-- How far the loop writes: each page is as long as the first, so that the last one goes on behind the data if
-- there are several.
abbrev pub page_end : ℕ → ℕ
page_end size =
    if ltb flash_page_size size
    then (size + (flash_page_size - 1)) / flash_page_size * flash_page_size
    else size

pub page_end-reached : (size : ℕ) → size ≤ page_end size
page_end-reached size = elim (Bool-cases (ltb flash_page_size size)) [
  | inl more ↦ rw more (omega arith)
  | inr last ↦ rw last (omega arith)
]

-- Where a round of the loop starts, or where it ends.
abbrev pub At : (size n : ℕ) → Type 0
At size n = ((n % 256 ≡ 0) × (n < size)) ⊎ (n ≡ page_end size)

pub At-start : (size : ℕ) → At size 0
At-start zero = inr refl
At-start (suc size) = inl (refl, omega arith)

pub At-aligned : (size n : ℕ) → At size n → n < size → n % 256 ≡ 0
At-aligned size n (inl (aligned, lt)) less = aligned
At-aligned size n (inr over) less =
    let reached = page_end-reached size in absurd (omega (arith, over, reached))

pub At-done : (size n : ℕ) → At size n → size ≤ n → n ≡ page_end size
At-done size n (inl (aligned, lt)) over = absurd (omega arith)
At-done size n (inr done) over = done
