-- ===== src/Base/Exec.antt =====
-- Code that changes a state and may panic, as `expect` and `unwrap` do. What was done before the
-- panic stays done, so the state comes back in both cases.
pub mod Keeps
use Prim.Native.String.{String}
use mathlib.Core.Bool.{Bool, true, false}

pub data Outcome (A : Type 0) : Type 0 where
  returned : A → Outcome A
  panicked : String → Outcome A

abbrev pub Exec : Type 0 → Type 0 → Type 0
Exec S A = S → Outcome A × S

unfoldable pub pure : {S A : Type 0} → A → Exec S A
pure a s = (returned a, s)

unfoldable pub panic : {S A : Type 0} → String → Exec S A
panic message s = (panicked message, s)

unfoldable pub gets : {S A : Type 0} → (S → A) → Exec S A
gets f s = (returned (f s), s)

abbrev pub continue : {S A B : Type 0} → Outcome A → (A → Exec S B) → Exec S B
continue (returned a) f s = f a s
continue (panicked message) f s = (panicked message, s)

infixl 5 ◌>>=◌ ◌>>◌
-- Opening this opens the three actions above too.
unfoldable pub ◌>>=◌ : {S A B : Type 0} → Exec S A → (A → Exec S B) → Exec S B
unfolding pure panic gets
◌>>=◌ m f s = let (r, s') = m s in continue r f s'

abbrev pub ◌>>◌ : {S B : Type 0} → Exec S (Unit {0}) → Exec S B → Exec S B
m >> n = m >>= λ _. n

-- `result.expect(message)`, where only success or failure is known
unfoldable pub expect : {S : Type 0} → Bool → String → Exec S (Unit {0})
expect true message = pure tt
expect false message = panic message
