-- ===== src/Base/Exec/Keeps.antt =====
-- Invariants of actions that may panic: one rule for each way to build an action. What holds after
-- a panic is claimed too.
use Prim.Native.String.{String}
use mathlib.Core.Bool.{Bool, true, false}
use decent_share.Base.Equality.{if◌then◌else◌}
use decent_share.Base.Exec.{
  Outcome, returned, panicked, Exec, pure, panic, gets, expect, continue, ◌>>=◌, ◌>>◌,
}

pub record Keeps {S A : Type 0} (P : S → Type 0) (m : Exec S A) : Type 0 where
  pub at : (s : S) → P s → P (m s).1

module _ {S A : Type 0} {P : S → Type 0} where
  pub Keeps-if : (b : Bool) (m n : Exec S A) → Keeps P m → Keeps P n → Keeps P (if b then m else n)
  Keeps-if true m n hm hn = hm
  Keeps-if false m n hm hn = hn

  pub Keeps-gets : (f : S → A) → Keeps P (gets f)
  unfolding gets
  Keeps-gets f = record { at = λ w kept. kept }

  pub Keeps-panic : (message : String) → Keeps P (panic {A = A} message)
  unfolding panic
  Keeps-panic message = record { at = λ w kept. kept }

  pub Keeps-pure : (a : A) → Keeps P (pure a)
  unfolding pure
  Keeps-pure a = record { at = λ w kept. kept }

module _ {S : Type 0} {P : S → Type 0} where
  pub Keeps-expect : (b : Bool) (message : String) → Keeps P (expect b message)
  unfolding expect
  Keeps-expect true message = Keeps-pure tt
  Keeps-expect false message = Keeps-panic message

module _ {S A B : Type 0} {P : S → Type 0} where
  Keeps-continue :
      (r : Outcome A) (f : A → Exec S B) → ((a : A) → Keeps P (f a)) → Keeps P (continue r f)
  Keeps-continue (returned a) f hf = hf a
  Keeps-continue (panicked message) f hf = record { at = λ w kept. kept }

  pub Keeps-bind :
      (action : Exec S A) (rest : A → Exec S B)
      → Keeps P action
      → ((a : A) → Keeps P (rest a))
      → Keeps P (action >>= rest)
  unfolding ◌>>=◌
  Keeps-bind action rest first later = record {
    at = λ w kept. let (r, w') = action w in (Keeps-continue r rest later).at w' (first.at w kept);
  }

module _ {S B : Type 0} {P : S → Type 0} where
  pub Keeps-then : (m : Exec S (Unit {0})) (n : Exec S B) → Keeps P m → Keeps P n → Keeps P (m >> n)
  Keeps-then m n hm hn = Keeps-bind m (λ _. n) hm (λ _. hn)

pub ruleset keeps_rules = (Keeps-pure, Keeps-panic, Keeps-gets, Keeps-if, Keeps-expect, Keeps-bind)
