-- ===== src/Bus.antt =====
-- Register accesses. The hardware behind the VME bus is a parameter: a function that answers each
-- read from all the accesses made before. A run carries that history, the newest access first.
use svec.Base.{
  suc, ℕ, ◌+◌, ◌*◌, ◌^◌, ◌≤◌, ◌<◌, List, [], ◌∷◌, ◌++◌, ◌≡◌, ◌⊎◌, refl, sym, ◌∙◌, subst,
}

pub data Access : Type 0 where
  -- a 32-bit read: its address, and the value that came back
  rd : ℕ → ℕ → Access
  -- a 32-bit write: its address and value
  wr : ℕ → ℕ → Access
  -- a pause, in microseconds (the lower bound where the source gives a range)
  wait : ℕ → Access
  -- a look at the clock, in jiffies
  clock : ℕ → Access

abbrev pub History : Type 0
History = List Access

-- What is not under `software`: the card, and the kernel's clock.
pub record Hardware : Type 0 where
  pub answer : History → ℕ → ℕ
  -- the jiffies since the start, which a 64-bit counter shows modulo 2 ^ 64
  pub jiffies : History → ℕ
  pub usecs_to_jiffies : ℕ → ℕ

-- The outcome of code that can run out of fuel in a loop, end its process, or leave an array.
pub data Run (S A : Type 0) : Type 0 where
  ret : A → S → Run S A
  exit : ℕ → S → Run S A
  out_of_fuel : S → Run S A
  fault : S → Run S A

abbrev pub Io : Type 0 → Type 0 → Type 0
Io S A = S → Run S A

module _ {S : Type 0} where
  abbrev pub pure : {A : Type 0} → A → Io S A
  pure a s = ret a s

  abbrev pub and_then : {A B : Type 0} → Run S A → (A → Io S B) → Run S B
  and_then (ret a s) f = f a s
  and_then (exit c s) f = exit c s
  and_then (out_of_fuel s) f = out_of_fuel s
  and_then (fault s) f = fault s

  infixl 5 ◌>>=◌ ◌>>◌
  abbrev pub ◌>>=◌ : {A B : Type 0} → Io S A → (A → Io S B) → Io S B
  ◌>>=◌ m f s = and_then (m s) f

  abbrev pub ◌>>◌ : {A B : Type 0} → Io S A → Io S B → Io S B
  m >> k = m >>= λ _. k

-- Total correctness of a run: it returns, and what it returns has the property.
pub record Returns {S A : Type 0} (P : A → S → Type 0) (r : Run S A) : Type 0 where
  pub value : A
  pub state : S
  pub returned : r ≡ ret value state
  pub holds : P value state

module _ {S A : Type 0} {P : A → S → Type 0} where
  pub returns : (a : A) (s : S) → P a s → Returns P (ret a s)
  returns a s h = record { value = a; state = s; returned = refl; holds = h }

  pub weaken :
      {Q : A → S → Type 0} {r : Run S A}
      → Returns P r
      → ((a : A) (s : S) → P a s → Q a s)
      → Returns Q r
  weaken p f = record {
    value = p.value;
    state = p.state;
    returned = p.returned;
    holds = f p.value p.state p.holds;
  }

  -- A sequence returns if its first part does, and the rest from what that leaves.
  pub bind :
      {B : Type 0} {Q : B → S → Type 0} {r : Run S A} {k : A → Io S B}
      → Returns P r
      → ((a : A) (s : S) → P a s → Returns Q (k a s))
      → Returns Q (and_then r k)
  bind p next = rw p.returned (next p.value p.state p.holds)

abbrev Where : {S A : Type 0} → (A → S → Type 0) → Run S A → Type 0
Where P (ret a s) = P a s
Where P (exit c s) = ⊥
Where P (out_of_fuel s) = ⊥
Where P (fault s) = ⊥

-- What holds where a run is known to return.
pub Returns-ret :
    {S A : Type 0} (P : A → S → Type 0) (r : Run S A) (a : A) (s : S)
    → Returns P r
    → r ≡ ret a s
    → P a s
Returns-ret P r a s p e = subst (Where P) (sym p.returned ∙ e) p.holds

-- The pauses of a history, in microseconds.
unfoldable pub waited : History → ℕ
waited [] = 0
waited (rd a v ∷ h) = waited h
waited (wr a v ∷ h) = waited h
waited (wait us ∷ h) = us + waited h
waited (clock t ∷ h) = waited h

-- A read of the address `a` brought back `v`.
abbrev pub Seen : ℕ → ℕ → History → Type 0
Seen a v [] = ⊥
Seen a v (rd b w ∷ h) = ((a ≡ b) × (v ≡ w)) ⊎ Seen a v h
Seen a v (wr b w ∷ h) = Seen a v h
Seen a v (wait us ∷ h) = Seen a v h
Seen a v (clock t ∷ h) = Seen a v h

-- The reads since the last other access.
abbrev pub asked : History → ℕ
asked (rd a v ∷ h) = suc (asked h)
asked (wr a v ∷ h) = 0
asked (wait us ∷ h) = 0
asked (clock t ∷ h) = 0
asked [] = 0

-- What is assumed of the kernel's clock: a jiffy has `period` microseconds, the pauses made since
-- any moment pass on the clock, and an access adds less than 2 ^ 32 jiffies to its own pause.
pub record KeepsTime (hw : Hardware) (period : ℕ) : Type 0 where
  pub runs : 0 < period
  pub counts :
      (h new : History) → waited new + hw.jiffies h * period ≤ (hw.jiffies (new ++ h) + 1) * period
  pub steady :
      (a : Access) (h : History) → hw.jiffies (a ∷ h) ≤ hw.jiffies h + waited (a ∷ []) + 2 ^ 32
