-- ===== src/Result.antt =====
-- The outcome of code that may stop: a failed `SSVU_ASSERT`, an exception of the standard library,
-- undefined behaviour, or an error that the json library reports. A fault carries no state: an
-- exception that is caught after state has changed is `unfinished`, and the model ends there.
use auto_sync_gen.Prelude.{
  ℕ, Bool, true, false, ◌≡◌, refl, Option, none, some, ℤ, pos, suc_ℤ, eqb_ℤ, if◌then◌else◌, ◌⊎◌,
  inl, inr,
}

pub data Fault : Type 0 where
  assertion out_of_range invalid_argument undefined bad_json runtime_error unfinished : Fault

pub data Result {ℓ} (A : Type ℓ) : Type ℓ where
  ok : A → Result A
  err : Fault → Result A

infixl 5 ◌>>◌ ◌>>=◌
-- Code that goes on after a step without a value, and after a step with one; a fault ends it.
abbrev pub ◌>>◌ {ℓ} : {B : Type ℓ} → Result (Unit {0}) → Result B → Result B
ok done >> rest = rest
err fault >> rest = err fault

abbrev pub ◌>>=◌ {ℓ κ} : {A : Type ℓ} {B : Type κ} → Result A → (A → Result B) → Result B
ok x >>= rest = rest x
err fault >>= rest = err fault

-- `SSVU_ASSERT` in a build that keeps assertions.
abbrev pub assert : Bool → Result (Unit {0})
assert true = ok tt
assert false = err assertion

abbrev pub or_fault {ℓ} : {A : Type ℓ} → Option A → Fault → Result A
or_fault none e = err e
or_fault (some a) e = ok a

-- Whether `catch(std::exception&)` or `catch(...)` gets hold of it: an exception is thrown, a failed
-- assertion and undefined behaviour are not.
unfoldable pub is_exception : Fault → Bool
is_exception out_of_range = true
is_exception invalid_argument = true
is_exception bad_json = true
is_exception runtime_error = true
is_exception _ = false

-- Code that changes state on its way: an exception leaves it halfway.
unfoldable pub halfway {ℓ} : {A : Type ℓ} → Result A → Result A
halfway (ok a) = ok a
halfway (err e) = err (if is_exception e then unfinished else e)

-- A number used as an index: a negative `int` becomes a `size_t` beyond every array of the program.
abbrev pub index_of : ℤ → Result ℕ
index_of (ℤ.pos n) = ok n
index_of (ℤ.negsuc n) = err undefined

abbrev pub int_max : ℤ
int_max = pos 2147483647

-- `++i` on an `int`.
unfoldable pub increment : ℤ → Result ℤ
increment i = if eqb_ℤ i int_max then err undefined else ok (suc_ℤ i)

-- Code in two steps gives a value through one of its first step.
pub >>=-eq-ok {ℓ κ} :
    {A : Type ℓ} {B : Type κ} (first : Result A) (rest : A → Result B) {y : B}
    → (first >>= rest) ≡ ok y
    → (x : A) × (first ≡ ok x) × (rest x ≡ ok y)
>>=-eq-ok (err fault) rest e = cc
>>=-eq-ok (ok x) rest e = (x, refl, e)

-- Results that are equal.
pub value_of {ℓ} : {A : Type ℓ} (a b : A) → ok a ≡ ok b → a ≡ b
value_of a b e = cc

pub ok_unique {ℓ} : {A : Type ℓ} (r : Result A) (a b : A) → r ≡ ok a → r ≡ ok b → a ≡ b
ok_unique r a b e f = cc

pub err-ne-ok {ℓ} : {A : Type ℓ} (e : Fault) (a : A) → ◌≡◌ {A = Result A} (err e) (ok a) → ⊥
err-ne-ok e a h = cc

-- What gives a value has got so far.
pub >>-eq-ok {ℓ} :
    {A : Type ℓ} (first : Result (Unit {0})) (rest : Result A) (a : A)
    → (first >> rest) ≡ ok a
    → rest ≡ ok a
>>-eq-ok (ok done) rest a e = e
>>-eq-ok (err f) rest a e = absurd (err-ne-ok f a e)

pub or_fault-eq-ok {ℓ} :
    {A : Type ℓ} (o : Option A) (f : Fault) (a : A) → or_fault o f ≡ ok a → o ≡ some a
or_fault-eq-ok none f a e = absurd (err-ne-ok f a e)
or_fault-eq-ok (some x) f a e = cc

pub halfway-eq-ok {ℓ} : {A : Type ℓ} (r : Result A) (a : A) → halfway r ≡ ok a → r ≡ ok a
unfolding halfway
halfway-eq-ok (ok x) a e = e
halfway-eq-ok (err f) a e = absurd (err-ne-ok _ a e)

pub Result-cases {ℓ} :
    {A : Type ℓ} (r : Result A) → ((a : A) × (r ≡ ok a)) ⊎ ((e : Fault) × (r ≡ err e))
Result-cases (ok a) = inl (a, refl)
Result-cases (err e) = inr (e, refl)
