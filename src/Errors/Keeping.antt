-- ===== src/Errors/Keeping.antt =====
-- What a service call keeps of the state, whether it succeeds or fails: a rule for each way in
-- which calls are built.
use mathlib.Core.Bool.{Bool, true, false}
use mathlib.Core.Option.{Option, none, some}
use galynx_api.Errors.{
  ApiError, ApiResult, ok, err, Action, ◌>>=◌, pure, gets, lift, modify, or_fail, fail_if,
}

-- `m` keeps the property `P` of the state.
pub record IsKept {S A : Type 0} (P : S → Type 0) (m : Action S A) : Type 0 where
  pub after : (s : S) → P s → P (m s).1

abbrev followed : {S A B : Type 0} → (A → Action S B) → ApiResult A → Action S B
followed k r s = elim r [ ok a ↦ k a s | err e ↦ (err e, s) ]

module _ {S : Type 0} {P : S → Type 0} where
  pub IsKept-pure : {A : Type 0} (a : A) → IsKept P (pure a)
  IsKept-pure a = record { after = λ s h. h }

  pub IsKept-gets : {A : Type 0} (f : S → A) → IsKept P (gets f)
  IsKept-gets f = record { after = λ s h. h }

  pub IsKept-lift : {A : Type 0} (r : ApiResult A) → IsKept P (lift r)
  IsKept-lift r = record { after = λ s h. h }

  pub IsKept-or_fail : {A : Type 0} (o : Option A) (e : ApiError) → IsKept P (or_fail o e)
  IsKept-or_fail none e = record { after = λ s h. h }
  IsKept-or_fail (some a) e = record { after = λ s h. h }

  pub IsKept-fail_if : (b : Bool) (e : ApiError) → IsKept P (fail_if b e)
  IsKept-fail_if true e = record { after = λ s h. h }
  IsKept-fail_if false e = record { after = λ s h. h }

  pub IsKept-modify : (f : S → S) → ((s : S) → P s → P (f s)) → IsKept P (modify f)
  IsKept-modify f h = record { after = h }

  followed-kept :
      {A B : Type 0} (k : A → Action S B) (r : ApiResult A) (s : S)
      → ((a : A) → IsKept P (k a))
      → P s
      → P (followed k r s).1
  followed-kept k (ok a) s hk h = (hk a).after s h
  followed-kept k (err e) s hk h = h

  pub IsKept-bind :
      {A B : Type 0} (m : Action S A) (k : A → Action S B)
      → IsKept P m
      → ((a : A) → IsKept P (k a))
      → IsKept P (m >>= k)
  IsKept-bind m k hm hk = record {
    after = λ s h. followed-kept k (m s).0 (m s).1 hk (hm.after s h);
  }

pub ruleset keeping = (
  IsKept-pure, IsKept-gets, IsKept-lift, IsKept-or_fail, IsKept-fail_if, IsKept-modify, IsKept-bind,
)
