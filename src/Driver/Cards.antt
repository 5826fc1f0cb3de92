-- ===== src/Driver/Cards.antt =====
-- Properties and relations of the devices on the bus, card by card, for Driver/Module.
use svec.Base.{[], ◌∷◌}
use svec.Driver.Module.{Card, Cards, AllCards, Each}

module _ {R S T : Card → Card → Type 0} where
  pub Each-then :
      ((c c1 c2 : Card) → R c c1 → S c1 c2 → T c c2)
      → (cs cs1 cs2 : Cards) → Each R cs cs1
      → Each S cs1 cs2
      → Each T cs cs2
  Each-then f [] [] [] p q = tt
  Each-then f [] [] (c2 ∷ cs2) p q = absurd q
  Each-then f [] (c1 ∷ cs1) cs2 p q = absurd p
  Each-then f (c ∷ cs) [] cs2 p q = absurd p
  Each-then f (c ∷ cs) (c1 ∷ cs1) [] p q = absurd q
  Each-then f (c ∷ cs) (c1 ∷ cs1) (c2 ∷ cs2) (r, rs) (s, ss) =
      (f c c1 c2 r s, Each-then f cs cs1 cs2 rs ss)

pub Each-from :
    {P : Card → Type 0} {R T : Card → Card → Type 0}
    → ((c c1 : Card) → P c → R c c1 → T c c1)
    → (cs cs1 : Cards) → AllCards P cs
    → Each R cs cs1
    → Each T cs cs1
Each-from f [] [] p q = tt
Each-from f [] (c1 ∷ cs1) p q = absurd q
Each-from f (c ∷ cs) [] p q = absurd q
Each-from f (c ∷ cs) (c1 ∷ cs1) (p, ps) (r, rs) = (f c c1 p r, Each-from f cs cs1 ps rs)

pub Each-AllCards :
    {P : Card → Type 0} {R : Card → Card → Type 0}
    → ((c c1 : Card) → R c c1 → P c1)
    → (cs cs1 : Cards) → Each R cs cs1
    → AllCards P cs1
Each-AllCards f [] [] q = tt
Each-AllCards f [] (c1 ∷ cs1) q = absurd q
Each-AllCards f (c ∷ cs) [] q = absurd q
Each-AllCards f (c ∷ cs) (c1 ∷ cs1) (r, rs) = (f c c1 r, Each-AllCards f cs cs1 rs)

pub AllCards-map :
    {P Q : Card → Type 0} → ((c : Card) → P c → Q c) → (cs : Cards) → AllCards P cs → AllCards Q cs
AllCards-map f [] p = tt
AllCards-map f (c ∷ cs) (p, ps) = (f c p, AllCards-map f cs ps)
