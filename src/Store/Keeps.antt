-- ===== src/Store/Keeps.antt =====
-- How services are reasoned about: what a chain of reads keeps, and what its success shows.
use mission_control_platform.Prelude.{◌≡◌, refl, ap, subst, Option, none, some}
use mission_control_platform.Errors.{Result, ok, err, ◌>>=◌, ◌>>◌}
use mission_control_platform.Store.{Store, with_ok, or_not_found}

-- A property of the store that holds before, and after whatever is done with what was read.
pub with_ok-keeps :
    {A B : Type 0} (P : Store → Type 0) (m : Result A) (s : Store) (f : A → Result B × Store)
    → P s
    → ((a : A) → m ≡ ok a → P (f a).1)
    → P (with_ok m s f).1
with_ok-keeps P (ok a) s f h k = k a refl
with_ok-keeps P (err e) s f h k = h

pub with_ok-eq-ok :
    {A B : Type 0} (m : Result A) (s : Store) (f : A → Result B × Store) (b : B) (t : Store)
    → with_ok m s f ≡ (ok b, t)
    → (a : A) × (m ≡ ok a) × (f a ≡ (ok b, t))
with_ok-eq-ok (ok a) s f b t h = (a, refl, h)
with_ok-eq-ok {B = B} (err e) s f b t h = cc (ap (λ (r : Result B × Store). r.0) h)

pub ok_inj : {A : Type 0} {a b : A} → ok a ≡ ok b → a ≡ b
ok_inj h = cc

pub >>-eq-ok :
    {B : Type 0} (m : Result (Unit {0})) (n : Result B) (b : B) → (m >> n) ≡ ok b → n ≡ ok b
>>-eq-ok (ok a) n b h = h
>>-eq-ok (err e) n b h = cc

pub or_not_found-eq-ok : {A : Type 0} (o : Option A) (a : A) → or_not_found o ≡ ok a → o ≡ some a
or_not_found-eq-ok none a h = cc
or_not_found-eq-ok (some b) a h = cc

-- What is returned, if something is, has the property.
abbrev pub Ensures : {A : Type 0} → (A → Type 0) → Result A → Type 0
Ensures P (ok a) = P a
Ensures P (err e) = Unit

pub ensures :
    {A : Type 0} (P : A → Type 0) (m : Result A) → ((a : A) → m ≡ ok a → P a) → Ensures P m
ensures P (ok a) h = h a refl
ensures P (err e) h = tt

pub Ensures->>= :
    {A B : Type 0} (P : A → Type 0) (Q : B → Type 0) (m : Result A) (f : A → Result B)
    → Ensures P m
    → ((a : A) → P a → Ensures Q (f a))
    → Ensures Q (m >>= f)
Ensures->>= P Q (ok a) f h k = k a h
Ensures->>= P Q (err e) f h k = tt

pub Ensures-bind :
    {A B : Type 0} (Q : B → Type 0) (m : Result A) (f : A → Result B)
    → ((a : A) → m ≡ ok a → Ensures Q (f a))
    → Ensures Q (m >>= f)
Ensures-bind Q (ok a) f h = h a refl
Ensures-bind Q (err e) f h = tt

pub Ensures-weaken :
    {A : Type 0} (P Q : A → Type 0) (m : Result A)
    → Ensures P m
    → ((a : A) → P a → Q a)
    → Ensures Q m
Ensures-weaken P Q (ok a) h k = k a h
Ensures-weaken P Q (err e) h k = tt

pub Ensures-ok : {A : Type 0} (P : A → Type 0) (m : Result A) (a : A) → m ≡ ok a → Ensures P m → P a
Ensures-ok P (ok b) a e h = subst P (ok_inj e) h
Ensures-ok P (err b) a e h = cc

-- The committed store of a chain of reads, by what was read.
pub with_ok-Ensures :
    {A B : Type 0} (P : A → Type 0) (Q : Store → Type 0) (m : Result A) (s : Store)
    (f : A → Result B × Store)
    → Q s
    → Ensures P m
    → ((a : A) → P a → Q (f a).1)
    → Q (with_ok m s f).1
with_ok-Ensures P Q (ok a) s f q h k = k a h
with_ok-Ensures P Q (err e) s f q h k = q

-- Something is returned, and it has the property.
abbrev pub Returns : {A : Type 0} → (A → Type 0) → Result A → Type 0
Returns P (ok a) = P a
Returns P (err e) = ⊥

pub Returns->>= :
    {A B : Type 0} (P : A → Type 0) (Q : B → Type 0) (m : Result A) (f : A → Result B)
    → Returns P m
    → ((a : A) → P a → Returns Q (f a))
    → Returns Q (m >>= f)
Returns->>= P Q (ok a) f h k = k a h
Returns->>= P Q (err e) f h k = absurd h
