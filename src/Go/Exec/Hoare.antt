-- ===== src/Go/Exec/Hoare.antt =====
-- Triples for methods that may fail: from a state with `P`, the call ends with a value and a state
-- in `Q`, or with an error and a state in `E`. One rule for each way to build a method.
use order_mock_payment.Prelude.{◌≡◌, refl, Bool, true, false, if◌then◌else◌}
use order_mock_payment.Go.Error.{Error}
use order_mock_payment.Go.Exec.{
  Result, ok, err, Exec, pure, fail, lift, fail_if, on_error, rethrown, continue, ◌>>=◌,
}

abbrev pub Post : {S A : Type 0} → (A → S → Type 0) → (Error → S → Type 0) → Result A × S → Type 0
Post Q E (ok a, s) = Q a s
Post Q E (err e, s) = E e s

pub record Triple {S A : Type 0} (P : S → Type 0) (m : Exec S A) (Q : A → S → Type 0)
    (E : Error → S → Type 0) : Type 0 where
  pub at : (s : S) → P s → Post Q E (m s)

module _ {S A : Type 0} (Q : A → S → Type 0) where
  Post-weaken :
      {R : A → S → Type 0} {E F : Error → S → Type 0} (r : Result A × S)
      → ((a : A) (s : S) → Q a s → R a s)
      → ((e : Error) (s : S) → E e s → F e s)
      → Post Q E r
      → Post R F r
  Post-weaken (ok a, s) q e h = q a s h
  Post-weaken (err c, s) q e h = e c s h

  Post-error :
      (F : Error → S → Type 0) (f : Error → Error) (r : Result A × S)
      → Post Q (λ e s. F (f e) s) r
      → Post Q F (rethrown f r)
  Post-error F f (ok a, s) h = h
  Post-error F f (err e, s) h = h

module _ {S A B : Type 0} {E : Error → S → Type 0} where
  Post-bind :
      {R : A → S → Type 0} {Q : B → S → Type 0} (r : Result A × S) (f : A → Exec S B)
      → ((a : A) → Triple (R a) (f a) Q E)
      → Post R E r
      → Post Q E (continue r.0 f r.1)
  Post-bind (ok a, s) f t h = (t a).at s h
  Post-bind (err e, s) f t h = h

module _ {S A : Type 0} {P : S → Type 0} {E : Error → S → Type 0} where
  pub Triple-pure : (a : A) → Triple P (pure a) (λ b s. P s × (b ≡ a)) E
  Triple-pure a = record { at = λ s h. (h, refl) }

  -- The postconditions may be weakened.
  pub Triple-weaken :
      {Q R : A → S → Type 0} {F : Error → S → Type 0} {m : Exec S A}
      → Triple P m Q E
      → ((a : A) (s : S) → Q a s → R a s)
      → ((e : Error) (s : S) → E e s → F e s)
      → Triple P m R F
  Triple-weaken {Q} {m} t q e = record { at = λ s h. Post-weaken Q (m s) q e (t.at s h) }

  pub Triple-before :
      {O : S → Type 0} {Q : A → S → Type 0} {m : Exec S A}
      → ((s : S) → O s → P s)
      → Triple P m Q E
      → Triple O m Q E
  Triple-before b t = record { at = λ s h. t.at s (b s h) }

module _ {S A B : Type 0} {P : S → Type 0} {E : Error → S → Type 0} where
  pub Triple-bind :
      {R : A → S → Type 0} {Q : B → S → Type 0} {m : Exec S A} {f : A → Exec S B}
      → Triple P m R E
      → ((a : A) → Triple (R a) (f a) Q E)
      → Triple P (m >>= f) Q E
  Triple-bind {m} {f} t g = record { at = λ s h. Post-bind (m s) f g (t.at s h) }

module _ {S A : Type 0} {P : S → Type 0} where
  pub Triple-on_error :
      {Q : A → S → Type 0} {F : Error → S → Type 0} (f : Error → Error) {m : Exec S A}
      → Triple P m Q (λ e s. F (f e) s)
      → Triple P (on_error f m) Q F
  Triple-on_error {Q} {F} f {m} t = record { at = λ s h. Post-error Q F f (m s) (t.at s h) }

module _ {S : Type 0} {P : S → Type 0} {E : Error → S → Type 0} where
  -- Past the test the state is as before.
  pub Triple-fail_if :
      (b : Bool) (e : Error)
      → ((s : S) → b ≡ true → P s → E e s)
      → Triple P (fail_if b e) (λ _ s. P s × (b ≡ false)) E
  Triple-fail_if true e t = record { at = λ s h. t s refl h }
  Triple-fail_if false e t = record { at = λ s h. (h, refl) }

  pub Triple-if :
      {A : Type 0} {Q : A → S → Type 0} (b : Bool) {m k : Exec S A}
      → (b ≡ true → Triple P m Q E)
      → (b ≡ false → Triple P k Q E)
      → Triple P (if b then m else k) Q E
  Triple-if true t f = t refl
  Triple-if false t f = f refl

-- What a call keeps, whether it returns or fails.
pub post_state :
    {S A : Type 0} (P : S → Type 0) (r : Result A × S) → Post (λ _ s. P s) (λ _ s. P s) r → P r.1
post_state P (ok a, s) h = h
post_state P (err e, s) h = h

module _ {S A : Type 0} {P : S → Type 0} {Q : A → S → Type 0} {E : Error → S → Type 0} where
  pub Triple-pure_at : (a : A) → ((s : S) → P s → Q a s) → Triple P (pure a) Q E
  Triple-pure_at a h = record { at = h }

  pub Triple-fail_at : (e : Error) → ((s : S) → P s → E e s) → Triple P (fail e) Q E
  Triple-fail_at e h = record { at = h }

  pub Triple-lift :
      {f : Exec S A} (r : Result (Unit {0}))
      → ((s : S) (e : Error) → P s → E e s)
      → Triple P f Q E
      → Triple P (lift r >>= λ _. f) Q E
  Triple-lift (ok a) he t = t
  Triple-lift (err e) he t = record { at = λ s h. he s e h }

  pub Triple-lifted :
      {B : Type 0} {f : B → Exec S A} (r : Result B)
      → ((s : S) (e : Error) → P s → E e s)
      → ((b : B) → r ≡ ok b → Triple P (f b) Q E)
      → Triple P (lift r >>= f) Q E
  Triple-lifted (ok b) he t = t b refl
  Triple-lifted (err e) he t = record { at = λ s h. he s e h }

  -- Past the test it is known to have failed.
  pub Triple-guard :
      {f : Exec S A} (b : Bool) (e : Error)
      → ((s : S) → P s → E e s)
      → (b ≡ false → Triple P f Q E)
      → Triple P (fail_if b e >>= λ _. f) Q E
  Triple-guard true e he t = record { at = λ s h. he s h }
  Triple-guard false e he t = t refl

  -- What holds of the state before the call may be split off.
  pub Triple-given :
      {m : Exec S A} {F : Type 0} → (F → Triple P m Q E) → Triple (λ s. P s × F) m Q E
  Triple-given t = record { at = λ s h. (t h.1).at s h.0 }
