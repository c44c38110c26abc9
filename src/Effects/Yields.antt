-- ===== src/Effects/Yields.antt =====
-- What a program returns whenever it does not raise.
use batch_managementof_cloud.Model.Failure.{Error, Result, err, ok}
use batch_managementof_cloud.Effects.{Env, Program, World, attempt, of_result, pure, raise, ◌>>=◌}

abbrev pub Holds : {A : Type 0} → (A → Type 0) → Result A → Type 0
Holds P (ok a) = P a
Holds P (err e) = Unit

module _ {A : Type 0} (P : A → Type 0) where
  pub record Yields (m : Program A) : Type 0 where
    pub returned : (env : Env) (w : World) → Holds P (m env w).0

  pub Yields-pure : (a : A) → P a → Yields (pure a)
  unfolding pure
  Yields-pure a h = record { returned = λ env w. h }

  pub Yields-raise : (e : Error) → Yields (raise e)
  unfolding raise
  Yields-raise e = record { returned = λ env w. tt }

  pub Yields-of_result : (r : Result A) → Holds P r → Yields (of_result r)
  unfolding of_result
  Yields-of_result r h = record { returned = λ env w. h }

pub Yields-attempt :
    {A : Type 0} (P : A → Type 0) {m : Program A} → Yields P m → Yields (Holds P) (attempt m)
unfolding attempt
Yields-attempt P h = record { returned = λ env w. h.returned env w }

-- Only what comes last counts, with what the first part yields at hand.
pub Yields-bind :
    {A B : Type 0} (P : A → Type 0) (R : B → Type 0) {m : Program A} {f : A → Program B}
    → Yields P m
    → ((a : A) → P a → Yields R (f a))
    → Yields R (m >>= f)
unfolding ◌>>=◌
Yields-bind {A} {B} P R {m} {f} hm hf = record {
  returned = λ env w.
      (elim ((m env w).0)
          as (λ r.
            Holds P r
            → Holds R
                (elim r as (λ r. Result B × World) [
                  | ok a ↦ f a env (m env w).1
                  | err e ↦ (err e, (m env w).1)
                ]).0) [ ok a ↦ λ h. (hf a h).returned env (m env w).1 | err e ↦ λ h. tt ])
        (hm.returned env w);
}

any_result : {A : Type 0} (r : Result A) → Holds (λ a. Unit {0}) r
any_result (ok a) = tt
any_result (err e) = tt

pub Yields-after :
    {A B : Type 0} (R : B → Type 0) (m : Program A) {f : A → Program B}
    → ((a : A) → Yields R (f a))
    → Yields R (m >>= f)
Yields-after R m hf =
    Yields-bind (λ a. Unit {0}) R (record { returned = λ env w. any_result (m env w).0 })
      λ a h. hf a
