-- ===== src/Command/Throwing.antt =====
-- A call that may throw a `std::exception`, with its `what()`.
use mathlib.Core.Path.{subst}
use quick_logger.Prelude.{◌≡◌, refl, Bool, true, false, if◌then◌else◌, Bytes}

pub data Attempt (A : Type 0) : Type 0 where
  threw : Bytes → Attempt A
  done : A → Attempt A

infixl 5 ◌>>=◌
abbrev pub ◌>>=◌ : {A B : Type 0} → Attempt A → (A → Attempt B) → Attempt B
threw what >>= f = threw what
done a >>= f = f a

-- What is returned satisfies `P`, if nothing is thrown.
abbrev pub Ends : {A : Type 0} → (A → Type 0) → Attempt A → Type 0
Ends P (threw what) = Unit
Ends P (done a) = P a

pub >>=-Ends :
    {A B : Type 0} (P : B → Type 0) (m : Attempt A) (f : A → Attempt B)
    → ((a : A) → m ≡ done a → Ends P (f a))
    → Ends P (m >>= f)
>>=-Ends P (threw what) f h = tt
>>=-Ends P (done a) f h = h a refl

pub Ends-done : {A : Type 0} (P : A → Type 0) (m : Attempt A) (a : A) → Ends P m → m ≡ done a → P a
Ends-done P (threw what) a h e = cc
Ends-done P (done b) a h e = subst P (cc) h

pub Ends-mono :
    {A : Type 0} (P Q : A → Type 0) (m : Attempt A) → ((a : A) → P a → Q a) → Ends P m → Ends Q m
Ends-mono P Q (threw what) f h = tt
Ends-mono P Q (done a) f h = f a h

pub if-Ends :
    {A : Type 0} (P : A → Type 0) (test : Bool) (x y : Attempt A)
    → (test ≡ true → Ends P x)
    → (test ≡ false → Ends P y)
    → Ends P (if test then x else y)
if-Ends P true x y f g = f refl
if-Ends P false x y f g = g refl

pub >>=_assoc :
    {A B C : Type 0} (m : Attempt A) (f : A → Attempt B) (g : B → Attempt C)
    → ((m >>= f) >>= g) ≡ (m >>= λ a. f a >>= g)
>>=_assoc (threw what) f g = refl
>>=_assoc (done a) f g = refl

pub if_false : {A : Type 0} (test : Bool) (x y : A) → test ≡ false → (if test then x else y) ≡ y
if_false test x y e = rw e
