-- ===== src/Core/Image.antt =====
-- A whole bitstream through the operations of `svec_fpga_ops` (software/kernel/svec-core.c), called
-- as the kernel's FPGA manager documents it: `write_init`, `write` for each buffer in turn,
-- `write_complete`, and no more calls after a failure.
use svec.Base.{
  ℕ, suc, ◌*◌, ◌^◌, ◌<◌, ◌≡◌, refl, sym, ap, ◌∙◌, ◌≢◌, inl, inr, List, [], ◌∷◌, ◌++◌, append-nil,
  append_assoc, subst, bswap32, false,
}
use svec.Base.Errors.{Code, ok, err, einval, ebusy, enxio, eio}
use svec.Bus.{Hardware, KeepsTime, Returns, returns, weaken, bind, ◌>>=◌}
use svec.Loader.Intake.{closed}
use svec.Core.{Svec, Buffer, is_svec}
use svec.Core.Program.{svec_fpga_write, svec_fpga_write_complete}
use svec.Core.Manager.{unless_err, write_all, load_image}
use svec.Core.Word.{taken}
use svec.Core.Stream.{contents, IsBytes, Partway}
use svec.Core.Buffers.{Carries, WriteEnd, svec_fpga_write_lem}
use svec.Core.Start.{InitEnd, identity, svec_fpga_write_init_lem}
use svec.Core.Stop.{Released, patience}
use svec.Core.Complete.{Verdict, CompleteEnd, svec_fpga_write_complete_lem}

-- The bytes of the buffers, in order.
abbrev pub image : List Buffer → List ℕ
image [] = []
image (b ∷ bufs) = contents b ++ image bufs

abbrev pub AllBytes : List Buffer → Type 0
AllBytes [] = Unit {0}
AllBytes (b ∷ bufs) = IsBytes b × AllBytes bufs

Partway-append :
    (bs xs ys : List ℕ) (s : Svec) → Partway (bs ++ xs) s → Partway (bs ++ (xs ++ ys)) s
Partway-append bs xs ys s p = record {
  front = p.front;
  back = p.back ++ ys;
  taken_front = p.taken_front;
  split = sym (append_assoc p.front p.back ys) ∙ ap (λ l. l ++ ys) p.split ∙ append_assoc bs xs ys;
}

write_all-WriteEnd :
    (hw : Hardware) (bufs : List Buffer) (bs : List ℕ) (s : Svec)
    → AllBytes bufs
    → Carries bs s
    → Returns (WriteEnd (bs ++ image bufs)) (write_all (svec_fpga_write hw) bufs s)
unfolding write_all
write_all-WriteEnd hw [] bs s bytes c =
    returns ok s (subst (λ l. Carries l s) (sym (append-nil bs)) c)
write_all-WriteEnd hw (b ∷ bufs) bs s bytes c =
    bind (svec_fpga_write_lem hw b bs s bytes.0 c)
      (λ e s1 h. next e s1 h (write_all-WriteEnd hw bufs (bs ++ contents b)))
  where
    next :
        (e : Code) (s1 : Svec)
        → WriteEnd (bs ++ contents b) e s1
        → ((s2 : Svec)
            → AllBytes bufs
            → Carries (bs ++ contents b) s2
            → Returns
                (WriteEnd ((bs ++ contents b) ++ image bufs))
                (write_all (svec_fpga_write hw) bufs s2))
        → Returns
            (WriteEnd (bs ++ image (b ∷ bufs)))
            (unless_err e (write_all (svec_fpga_write hw) bufs) s1)
    next ok s1 h again =
        subst (λ l. Returns (WriteEnd l) (write_all (svec_fpga_write hw) bufs s1))
          (append_assoc bs (contents b) (image bufs)) (again s1 bytes.1 h)
    next (err ebusy) s1 h again =
        returns (err ebusy) s1 (Partway-append bs (contents b) (image bufs) s1 h)
    next (err _) s1 h again = absurd h

-- How loading a bitstream ends.
abbrev pub ImageEnd : Hardware → Svec → List ℕ → Code → Svec → Type 0
ImageEnd hw s bs ok s' = Released s'.bus × Verdict (closed bs) ok s'
ImageEnd hw s bs (err einval) s' = Released s'.bus × Verdict (closed bs) (err einval) s'
ImageEnd hw s bs (err eio) s' = Released s'.bus × Verdict (closed bs) (err eio) s'
ImageEnd hw s bs (err ebusy) s' = Partway bs s'
ImageEnd hw s bs (err enxio) s' =
    (is_svec (bswap32 (identity hw s.bus)) ≡ false) × (taken s'.bus ≡ taken s.bus)
ImageEnd hw s bs _ s' = ⊥

module _ (hw : Hardware) {period : ℕ} (time : KeepsTime hw period) (fuel us : ℕ)
    (small : patience hw us < 2 ^ 62) (enough : patience hw us * period < 900 * fuel) where
  after_write :
      (s : Svec) (bs : List ℕ) (e : Code) (s1 : Svec)
      → bs ≢ []
      → WriteEnd bs e s1
      → Returns (ImageEnd hw s bs) (unless_err e (svec_fpga_write_complete hw (suc fuel) us) s1)
  after_write s bs ok s1 some_bytes (inl (f, e)) = absurd (some_bytes e)
  after_write s bs ok s1 some_bytes (inr h) =
      weaken (svec_fpga_write_complete_lem hw time fuel us small enough bs s1 h) verdict
    where
      verdict :
          (c : Code) (s2 : Svec) → CompleteEnd hw (patience hw us) bs c s2 → ImageEnd hw s bs c s2
      verdict ok s2 (before, r, inl (n, v, late)) = ((before, r), v)
      verdict (err einval) s2 (before, r, inl (n, v, late)) = ((before, r), v)
      verdict (err eio) s2 (before, r, inl (n, v, late)) = ((before, r), v)
      verdict (err _) s2 (before, r, inl (n, v, late)) = absurd v
      verdict c s2 (before, r, inr (e, p, full)) = rw e p
  after_write s bs (err ebusy) s1 some_bytes p = returns (err ebusy) s1 p
  after_write s bs (err _) s1 some_bytes p = absurd p

  -- Given enough fuel and a clock that runs, loading a bitstream that is not empty returns, however
  -- it is cut into buffers. On zero the loader has taken in exactly the bitstream, marked the last
  -- entry alone as the last, and reported DONE without ERROR; on EINVAL or EIO it has taken in the
  -- same, and on EBUSY a front part; on ENXIO the card did not identify itself, and its loader has
  -- taken in nothing new. No other code is returned.
  pub load_image-ImageEnd :
      (bufs : List Buffer) (s : Svec)
      → AllBytes bufs
      → image bufs ≢ []
      → Returns (ImageEnd hw s (image bufs)) (load_image hw (suc fuel) us bufs s)
  unfolding load_image
  load_image-ImageEnd bufs s bytes some_bytes = bind (svec_fpga_write_init_lem hw s) go
    where
      go :
          (e : Code) (s1 : Svec)
          → InitEnd hw s e s1
          → Returns (ImageEnd hw s (image bufs)) (
              unless_err e
                (do
                  e' ← write_all (svec_fpga_write hw) bufs
                  unless_err e' (svec_fpga_write_complete hw (suc fuel) us))
                s1)
      go ok s1 (svec, written, f) =
          bind (write_all-WriteEnd hw bufs [] s1 bytes (inl (f, refl)))
            (λ e' s2 w. after_write s (image bufs) e' s2 some_bytes w)
      go (err enxio) s1 (other, written, same) = returns (err enxio) s1 (other, same)
      go (err _) s1 h = absurd h
