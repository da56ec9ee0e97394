-- ===== src/Exec.antt =====
-- The asynchronous methods: each takes `&mut self` and the world that its remote calls read and
-- change, and returns a result and the new state, on errors too.
use qrmi.Result.{Result, ok, err}

abbrev pub Exec : Type 0 → Type 0 → Type 0 → Type 0
Exec S E A = S → Result E A × S

-- What follows a step that has ended in this outcome.
abbrev pub continue : {S E A B : Type 0} → Result E A × S → (A → Exec S E B) → Result E B × S
continue (ok a, s) f = f a s
continue (err e, s) f = (err e, s)

infixl 5 ◌>>=◌ ◌>>◌
abbrev pub ◌>>=◌ : {S E A B : Type 0} → Exec S E A → (A → Exec S E B) → Exec S E B
◌>>=◌ m f s = continue (m s) f

abbrev pub ◌>>◌ : {S E B : Type 0} → Exec S E (Unit {0}) → Exec S E B → Exec S E B
m >> k = m >>= λ _. k

abbrev pub return : {S E A : Type 0} → A → Exec S E A
return a s = (ok a, s)

abbrev pub throw : {S E A : Type 0} → E → Exec S E A
throw e s = (err e, s)

-- A pure fallible step.
abbrev pub lift : {S E A : Type 0} → Result E A → Exec S E A
lift r s = (r, s)

abbrev pub get : {S E : Type 0} → Exec S E S
get s = (ok s, s)

abbrev pub modify : {S E : Type 0} → (S → S) → Exec S E (Unit {0})
modify f s = (ok tt, f s)

-- What holds after a step: `P` of the result and the state, or `Q` of the error and the state.
abbrev pub Post : {S E A : Type 0} → (A → S → Type 0) → (E → S → Type 0) → Result E A × S → Type 0
Post P Q (ok a, s) = P a s
Post P Q (err e, s) = Q e s

pub continue-Post :
    {S E A B : Type 0} (P : A → S → Type 0) (P' : B → S → Type 0) (Q : E → S → Type 0)
    (o : Result E A × S) (f : A → Exec S E B)
    → Post P Q o
    → ((a : A) (s : S) → P a s → Post P' Q (f a s))
    → Post P' Q (continue o f)
continue-Post P P' Q (ok a, s) f h k = k a s h
continue-Post P P' Q (err e, s) f h k = h

pub weaken-Post :
    {S E A : Type 0} (P P' : A → S → Type 0) (Q Q' : E → S → Type 0) (o : Result E A × S)
    → ((a : A) (s : S) → P a s → P' a s)
    → ((e : E) (s : S) → Q e s → Q' e s)
    → Post P Q o
    → Post P' Q' o
weaken-Post P P' Q Q' (ok a, s) f g h = f a s h
weaken-Post P P' Q Q' (err e, s) f g h = g e s h

-- A pure step keeps the state.
pub lift-Post :
    {S E A : Type 0} (I : S → Type 0) (r : Result E A) (s : S) → I s → Post (λ a. I) (λ e. I) (r, s)
lift-Post I (ok a) s h = h
lift-Post I (err e) s h = h
