-- ===== src/Relay/Action.antt =====
-- Methods of the prover that change something: the state comes back with each outcome, since what was
-- sent or written before an error stays so.
use lcp_go.Common.{◌≡◌, refl, sym, ap, subst}
use lcp_go.Result.{Result, Error, ok, err, panic, map_err}

abbrev pub Action : Type 0 → Type 0 → Type 0
Action X A = X → X × Result A

abbrev pub then_with : {X A B : Type 0} → (A → X → X × Result B) → X × Result A → X × Result B
then_with k (x, panic) = (x, panic)
then_with k (x, err e) = (x, err e)
then_with k (x, ok a) = k a x

infixl 5 ◌>>=◌ ◌>>◌
unfoldable pub ◌>>=◌ : {X A B : Type 0} → Action X A → (A → Action X B) → Action X B
◌>>=◌ first rest x = then_with rest (first x)

abbrev pub ◌>>◌ : {X B : Type 0} → Action X (Unit {0}) → Action X B → Action X B
first >> rest = first >>= λ done. rest

-- an outcome that changes nothing, given or read from the state
unfoldable pub pure : {X A : Type 0} → Result A → Action X A
pure r x = (x, r)

unfoldable pub reads : {X A : Type 0} → (X → Result A) → Action X A
reads f x = (x, f x)

-- `if err != nil { return f(err) }` around an action
unfoldable pub with_error : {X A : Type 0} → (Error → Error) → Action X A → Action X A
with_error f action x = let (x', r) = action x in (x', map_err f r)

-- what an action that gave a value has done
module _ {X : Type 0} where
  pub pure-inv :
      {A : Type 0} (r : Result A) (x : X) {x' : X} {a : A}
      → pure r x ≡ (x', ok a)
      → (x ≡ x') × (r ≡ ok a)
  unfolding pure
  pure-inv {A} r x h = (ap (λ (y : X × Result A). y.0) h, ap (λ (y : X × Result A). y.1) h)

module _ {X A B : Type 0} where
  then_with-inv :
      (k : A → X → X × Result B) (r : X × Result A) {x' : X} {b : B}
      → then_with k r ≡ (x', ok b)
      → (x1 : X) × (a : A) × (r ≡ (x1, ok a)) × (k a x1 ≡ (x', ok b))
  then_with-inv k (x, ok a) h = (x, a, refl, h)
  then_with-inv k (x, err e) h = cc
  then_with-inv k (x, panic) h = cc

  pub >>=-inv :
      (first : Action X A) (rest : A → Action X B) (x : X) {x' : X} {b : B}
      → (first >>= rest) x ≡ (x', ok b)
      → (x1 : X) × (a : A) × (first x ≡ (x1, ok a)) × (rest a x1 ≡ (x', ok b))
  unfolding ◌>>=◌
  >>=-inv first rest x h = then_with-inv rest (first x) h

  pub reads-inv :
      (f : X → Result A) (rest : A → Action X B) (x : X) {x' : X} {b : B}
      → (reads f >>= rest) x ≡ (x', ok b)
      → (a : A) × (f x ≡ ok a) × (rest a x ≡ (x', ok b))
  unfolding reads
  reads-inv f rest x {x'} {b} h =
      let (x1, a, e, h1) = >>=-inv (reads f) rest x h in
      (
        a,
        ap (λ (y : X × Result A). y.1) e,
        subst (λ z. rest a z ≡ (x', ok b)) (ap (λ (y : X × Result A). y.0) (sym e)) h1,
      )

  pub pure_first-inv :
      (r : Result A) (rest : A → Action X B) (x : X) {x' : X} {b : B}
      → (pure r >>= rest) x ≡ (x', ok b)
      → (a : A) × (r ≡ ok a) × (rest a x ≡ (x', ok b))
  unfolding pure
  pure_first-inv r rest x {x'} {b} h =
      let (x1, a, e, h1) = >>=-inv (pure r) rest x h in
      let (same, is_ok) = pure-inv r x e in
      (a, is_ok, subst (λ z. rest a z ≡ (x', ok b)) (sym same) h1)

module _ {X A : Type 0} where
  pub with_error-inv :
      (f : Error → Error) (action : Action X A) (x : X) {x' : X} {a : A}
      → with_error f action x ≡ (x', ok a)
      → action x ≡ (x', ok a)
  unfolding with_error
  with_error-inv f action x h = error_of (action x) h
    where
      error_of :
          (r : X × Result A) {x' : X} {a : A}
          → ◌≡◌ {A = X × Result A} (r.0, map_err f r.1) (x', ok a)
          → r ≡ (x', ok a)
      error_of (y, ok b) h = h
      error_of (y, err e) h = cc
      error_of (y, panic) h = cc
