-- ===== src/Core/Samples.antt =====
-- A card and a bitstream to run the FPGA manager operations of software/kernel/svec-core.c on.
use svec.Base.{
  ℕ, ◌*◌, Bool, true, Bool-cases, inl, inr, ◌+◌, ◌%◌, ◌^◌, ◌≤◌, ◌<◌, ◌≡◌, ◌≢◌, [], ◌∷◌, ◌++◌, false,
  ◌==◌, if◌then◌else◌, slice, arith, refl, bswap32, word_of_bytes, flag,
}
use svec.Bus.{Access, rd, wr, wait, clock, History, Hardware, KeepsTime, waited, asked}
use svec.Loader.{csr_done, fifo_csr_full, reg_csr, reg_idr, reg_fifo_csr}
use svec.Core.Polling.{Polling, start, poll, Serves}
use svec.Core.{Svec, Buffer, svec_base_loader, is_svec}
use svec.Core.Image.{image}

-- A card whose loader answers, has room when it is asked twice, and is done; the clock counts the pauses.
abbrev pub card : Hardware
card = record {
  answer = λ h a.
      if a == svec_base_loader + reg_idr
      then 0x53564543
      else if a == svec_base_loader + reg_csr
      then csr_done
      else if a == svec_base_loader + reg_fifo_csr
      then (if asked h == 0 then fifo_csr_full else 0)
      else 0;
  jiffies = waited;
  usecs_to_jiffies = λ us. us;
}

waited-append : (new h : History) → waited (new ++ h) ≡ waited new + waited h
unfolding waited
waited-append [] h = omega arith
waited-append (rd a v ∷ new) h = waited-append new h
waited-append (wr a v ∷ new) h = waited-append new h
waited-append (wait us ∷ new) h = omega (arith, waited-append new h)
waited-append (clock t ∷ new) h = waited-append new h

waited-cons : (a : Access) (h : History) → waited (a ∷ h) ≤ waited h + waited (a ∷ []) + 2 ^ 32
unfolding waited
waited-cons (rd a v) h = omega arith
waited-cons (wr a v) h = omega arith
waited-cons (wait us) h = omega arith
waited-cons (clock t) h = omega arith

pub card-KeepsTime : KeepsTime card 1
card-KeepsTime = record {
  runs = omega arith;
  counts = λ h new. omega (arith, waited-append new h);
  steady = waited-cons;
}

-- Five bytes, then two.
abbrev pub five : Buffer
five = record { mem = λ j. (10 + j) % 256; size = 5 }

abbrev pub two : Buffer
two = record { mem = λ j. (20 + j) % 256; size = 2 }

pub mod_256 : (n : ℕ) → n % 256 < 256
mod_256 n = omega arith

abbrev pub blank : Svec
blank = record { bitstream_last_word = 0; bitstream_last_word_size = 0; bus = [] }

pub some_image : image (five ∷ two ∷ []) ≢ []
unfolding slice
some_image e = cc

Polling-waited :
    {n : ℕ} {new : History} → Polling n new → (h : History) → waited (new ++ h) ≡ 900 * n + waited h
unfolding waited
Polling-waited (start t) h = omega arith
Polling-waited (poll t v polling) h = omega (arith, Polling-waited polling h)

pub card-Serves : Serves card 0 0
unfolding waited is_svec bswap32 word_of_bytes flag
card-Serves = record {
  named = λ h. refl;
  room = λ h e. let some : (asked h == 0) ≡ false = ground arith in rw some refl;
  done = λ new polling t h. refl;
  no_error = λ h. refl;
  in_time = λ n new polling few h. omega (arith, Polling-waited polling h);
}

-- A look at the clock after a pause.
abbrev paused : History → Bool
paused (clock t ∷ wait us ∷ h) = true
paused h = false

-- A card that is done after one round of the wait.
abbrev pub slow_card : Hardware
slow_card = record card {
  answer = λ h a.
      if a == svec_base_loader + reg_csr
      then (if paused h then csr_done else 0)
      else card.answer h a;
}

pub slow_card-KeepsTime : KeepsTime slow_card 1
slow_card-KeepsTime = record {
  runs = omega arith;
  counts = card-KeepsTime.counts;
  steady = waited-cons;
}

slow_card-done :
    (new : History)
    → Polling 1 new
    → (t : ℕ) (h : History)
    → flag (slow_card.answer (clock t ∷ (new ++ h)) (svec_base_loader + reg_csr)) csr_done ≡ true
unfolding flag
slow_card-done _ (poll t v polling) t' h = refl

pub slow_card-Serves : Serves slow_card 2000 1
unfolding is_svec bswap32 word_of_bytes flag
slow_card-Serves = record {
  named = λ h. refl;
  room = card-Serves.room;
  done = slow_card-done;
  no_error = λ h. elim (Bool-cases (paused h)) [ inl e ↦ rw e refl | inr e ↦ rw e refl ];
  in_time = λ n new polling few h. omega (arith, Polling-waited polling h);
}
