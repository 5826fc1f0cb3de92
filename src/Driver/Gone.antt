-- ===== src/Driver/Gone.antt =====
-- What is left of an FPGA device where the board driver of software/kernel/svec-core.c takes it down.
use svec.Base.{arith, ◌≤◌, ◌≡◌, refl, sym, ◌∙◌, subst, inl, inr, ◌⊎◌}
use svec.Fpga.Board.{Board}
use svec.Fpga.Cycle.{Up, Idle, Lost}
use svec.Driver.{Device, Host}
use svec.Driver.Loading.{exited}
use svec.Driver.States.{Unreferenced, Balanced, orphans}

-- Of an FPGA device nothing is held any more, or it was left over before and is as it was.
abbrev pub Gone : Board → Board → Type 0
Gone b b' = Idle b' ⊎ (Lost b × (b' ≡ b))

-- So much of the FPGA device of `d` is left, and nothing else was lost.
abbrev pub GoneFrom : Device → Device → Type 0
GoneFrom d d' = Gone d.fpga d'.fpga × (d'.leaks ≡ d.leaks)

pub Gone-Unreferenced : (b b' : Board) → Gone b b' → Unreferenced b'
Gone-Unreferenced b b' (inl rest) = inl rest
Gone-Unreferenced b b' (inr (lost, e)) = inr (subst Lost (sym e) lost)

pub Gone-then : (b b1 b2 : Board) → Gone b b1 → Gone b1 b2 → Gone b b2
Gone-then b b1 b2 p (inl rest) = inl rest
Gone-then b b1 b2 (inl rest) (inr (lost, e)) = inl (subst Idle (sym e) rest)
Gone-then b b1 b2 (inr (lost, e)) (inr (lost', e')) = inr (lost, e' ∙ e)

pub exited-Gone : (k : Host) (b : Board) → Up k.kernel k.regs b ⊎ Unreferenced b → Gone b (exited b)
exited-Gone k b (inl (dbg, app, slots, filled, is_app, e)) =
    subst (λ z. Gone z (exited z)) (sym e) (inl refl)
exited-Gone k b (inr (inl e)) = subst (λ z. Gone z (exited z)) (sym e) (inl refl)
exited-Gone k b (inr (inr (dbg, e))) =
    subst (λ z. Gone z (exited z)) (sym e) (inr ((dbg, refl), refl))

orphans-Gone : (b b' : Board) → Gone b b' → orphans b' ≤ orphans b
orphans-Gone b b' (inl rest) = rw rest (omega arith)
orphans-Gone b b' (inr (lost, e)) = rw e (omega arith)

pub GoneFrom-Balanced : (d d' : Device) → GoneFrom d d' → Balanced d d'
GoneFrom-Balanced d d' (gone, same) =
    let few = orphans-Gone d.fpga d'.fpga gone in rw same (omega (arith, few))
