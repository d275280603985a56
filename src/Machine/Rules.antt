-- ===== src/Machine/Rules.antt =====
-- Rules for the blocks of machine.rs: what a block keeps, and what its success means.
use aster_lang.Base.{◌≡◌, refl, subst}
use aster_lang.Base.Outcome.{Result, ok, err}
use aster_lang.Machine.Errors.{MachineError}
use aster_lang.Machine.State.{Machine, M, resume, query, lift, pure, raise, ◌>>=◌}

-- `m` moves every state along `R`, whether it returns or raises
pub record Within {A : Type 0} (R : Machine → Machine → Type 0) (m : M A) : Type 0 where
  pub at : (s : Machine) → R s (m s).1

-- the steps that a block has run through when it returns
pub record Through {A B : Type 0} (m : M A) (f : A → M B) (s s' : Machine) (b : B) : Type 0 where
  pub value : A
  pub middle : Machine
  pub first : m s ≡ (ok value, middle)
  pub second : f value middle ≡ (ok b, s')

through :
    {A B : Type 0} (f : A → M B) (s' : Machine) (b : B) (r : Result MachineError A × Machine)
    → resume r f ≡ (ok b, s')
    → (value : A) × (r.0 ≡ ok value) × (f value r.1 ≡ (ok b, s'))
through f s' b (ok a, m) h = (a, refl, h)
through f s' b (err e, m) h = cc

pub bind-ok :
    {A B : Type 0} (m : M A) (f : A → M B) (s s' : Machine) (b : B)
    → (m >>= f) s ≡ (ok b, s')
    → Through m f s s' b
unfolding ◌>>=◌
bind-ok m f s s' b h =
    let t = through f s' b (m s) h in
    record { value = t.0; middle = (m s).1; first = cc; second = t.2 }

pub record IsPreorder (R : Machine → Machine → Type 0) : Type 0 where
  pub stay : (s : Machine) → R s s
  pub then : {s t u : Machine} → R s t → R t u → R s u

module _ {R : Machine → Machine → Type 0} (order : IsPreorder R) where
  within_rest :
      {A B : Type 0} (f : A → M B) (r : Result MachineError A × Machine)
      → ((a : A) → Within R (f a))
      → R r.1 (resume r f).1
  within_rest f (ok a, m) k = (k a).at m
  within_rest f (err e, m) k = order.stay m

  pub Within-bind :
      {A B : Type 0} (m : M A) (f : A → M B)
      → Within R m
      → ((a : A) → Within R (f a))
      → Within R (m >>= f)
  unfolding ◌>>=◌
  Within-bind m f km kf = record { at = λ s. order.then (km.at s) (within_rest f (m s) kf) }

  pub Within-reads : {A : Type 0} (m : M A) → ((s : Machine) → (m s).1 ≡ s) → Within R m
  Within-reads m reads = record { at = λ s. rw (reads s) (order.stay s) }

-- a step that reads the state, or not even that
pub read-ok :
    {A B : Type 0} (r : Machine → Result MachineError A) (f : A → M B) (s s' : Machine) (b : B)
    → (query r >>= f) s ≡ (ok b, s')
    → (a : A) × (r s ≡ ok a) × (f a s ≡ (ok b, s'))
unfolding ◌>>=◌
read-ok r f s s' b h = through f s' b (r s, s) h

-- every value that `m` can return satisfies `Q`
pub record Ends {A : Type 0} (Q : A → Type 0) (m : M A) : Type 0 where
  pub at : (s s' : Machine) (a : A) → m s ≡ (ok a, s') → Q a

module _ {B : Type 0} (Q : B → Type 0) where
  pub Ends-bind : {A : Type 0} (m : M A) (f : A → M B) → ((a : A) → Ends Q (f a)) → Ends Q (m >>= f)
  Ends-bind m f k = record {
    at = λ s s' b h. let t = bind-ok m f s s' b h in (k t.value).at t.middle s' b t.second;
  }

  pub Ends-lift :
      {A : Type 0} (r : Result MachineError A) (f : A → M B)
      → ((a : A) → r ≡ ok a → Ends Q (f a))
      → Ends Q (lift r >>= f)
  Ends-lift r f k = record {
    at = λ s s' b h. let t = read-ok (λ _. r) f s s' b h in (k t.0 t.1).at s s' b t.2;
  }

  pub Ends-bind_of :
      {A : Type 0} (P : A → Type 0) (m : M A) (f : A → M B)
      → Ends P m
      → ((a : A) → P a → Ends Q (f a))
      → Ends Q (m >>= f)
  Ends-bind_of P m f p k = record {
    at = λ s s' b h.
        let t = bind-ok m f s s' b h in
        (k t.value (p.at s t.middle t.value t.first)).at t.middle s' b t.second;
  }

  pub Ends-pure : (b : B) → Q b → Ends Q (pure b)
  Ends-pure b q = record { at = λ s s' c h. subst Q (returned h) q }
    where
      returned : {s s' : Machine} {c : B} → pure b s ≡ (ok c, s') → b ≡ c
      returned h = cc

  pub Ends-raise : (e : MachineError) → Ends Q (raise e)
  Ends-raise e = record { at = λ s s' c h. elim (impossible h) [ ] }
    where
      impossible : {s s' : Machine} {c : B} → raise e s ≡ (ok c, s') → ⊥
      impossible h = cc

-- A block that returned has run its first step: `past_read` where that reads the state, `past`
-- where it may change it.
module _ {P : Type 0} {A B : Type 0} where
  pub past_read :
      (r : Machine → Result MachineError A) (f : A → M B) (s s' : Machine) (b : B)
      → (query r >>= f) s ≡ (ok b, s')
      → ((a : A) → r s ≡ ok a → f a s ≡ (ok b, s') → P)
      → P
  past_read r f s s' b h k = let (a, e, rest) = read-ok r f s s' b h in k a e rest

  pub past :
      (m : M A) (f : A → M B) (s s' : Machine) (b : B)
      → (m >>= f) s ≡ (ok b, s')
      → ((a : A) (t : Machine) → m s ≡ (ok a, t) → f a t ≡ (ok b, s') → P)
      → P
  past m f s s' b h k = let t = bind-ok m f s s' b h in k t.value t.middle t.first t.second
