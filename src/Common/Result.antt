-- ===== src/Common/Result.antt =====
-- Results that carry the exception of the source, with its `raise` under a condition.
use mathlib.Core.Path.{◌≡◌, refl}
use mathlib.Core.Bool.{Bool, true, false}

pub data Result (Raised A : Type 0) : Type 0 where
  ok : A → Result Raised A
  err : Raised → Result Raised A

infixl 5 ◌>>=◌ ◌>>◌
-- The rest of the function runs on the value, and an exception passes it over.
abbrev pub ◌>>=◌ :
    {Raised A Next : Type 0} → Result Raised A → (A → Result Raised Next) → Result Raised Next
run >>= next = elim run [ ok value ↦ next value | err raised ↦ err raised ]

abbrev pub ◌>>◌ :
    {Raised Next : Type 0} → Result Raised (Unit {0}) → Result Raised Next → Result Raised Next
check >> next = elim check [ ok _ ↦ next | err raised ↦ err raised ]

-- `if wrong: raise raised`
abbrev pub raise_if : {Raised : Type 0} → Bool → Raised → Result Raised (Unit {0})
raise_if wrong raised = elim wrong [ true ↦ err raised | false ↦ ok tt ]

-- What a chain that did not raise went through.
pub >>=-eq-ok :
    {Raised A Next : Type 0} (run : Result Raised A) (next : A → Result Raised Next) {last : Next}
    → (run >>= next) ≡ ok last
    → (value : A) × (run ≡ ok value) × (next value ≡ ok last)
>>=-eq-ok (ok value) next h = (value, refl, h)
>>=-eq-ok (err raised) next h = cc

pub ok-injective : {Raised A : Type 0} {a b : A} → ◌≡◌ {A = Result Raised A} (ok a) (ok b) → a ≡ b
ok-injective h = cc

pub >>-eq-ok :
    {Raised A : Type 0} (check : Result Raised (Unit {0})) (next : Result Raised A) {last : A}
    → (check >> next) ≡ ok last
    → next ≡ ok last
>>-eq-ok (ok _) next h = h
>>-eq-ok (err raised) next h = cc

pub >>-eq-ok_first :
    {Raised A : Type 0} (check : Result Raised (Unit {0})) (next : Result Raised A) {last : A}
    → (check >> next) ≡ ok last
    → check ≡ ok tt
>>-eq-ok_first (ok _) next h = refl
>>-eq-ok_first (err raised) next h = cc

pub raise_if-eq-ok :
    {Raised : Type 0} (wrong : Bool) (raised : Raised)
    → raise_if wrong raised ≡ ok tt
    → wrong ≡ false
raise_if-eq-ok true raised h = cc
raise_if-eq-ok false raised h = refl
