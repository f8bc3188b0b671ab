-- ===== src/Kube.antt =====
-- What the handlers of resources share: calls that may fail and that change the world, and finalizers
-- (pkg/operator). The API server, Hive and Presto are records of calls over a world.
pub mod Keeps
use operator_metering.Prelude.{
  String, ◌≡◌, refl, ap, Bool, true, false, ◌&&◌, not, Option, none, some, List, [], ◌∷◌, ◌++◌,
  is_none,
}
use mathlib.Core.Option.{some-injective}
use operator_metering.Slice.{contains_string, remove_string}
use operator_metering.Prom.Chunks.{Time}

-- An error that the handler makes, with its text, or one that a call returned, with what failed,
-- or a panic, which ends the handler as an error does.
pub data Failure : Type 0 where
  invalid : String → Failure
  call_failed : String → String → Failure
  not_found : String → Failure
  panicked : String → Failure

pub data Result (T : Type 0) : Type 0 where
  err : Failure → Result T
  ok : T → Result T

pub ok-injective : {T : Type 0} (t u : T) → Result.ok t ≡ Result.ok u → t ≡ u
ok-injective t u h = cc

abbrev pub Act : Type 0 → Type 0 → Type 0
Act W T = W → Result T × W

module _ {W : Type 0} where
  abbrev pub continue : {T V : Type 0} → Result T × W → (T → Act W V) → Result V × W
  continue (err e, w) next = (err e, w)
  continue (ok t, w) next = next t w

  infixl 10 ◌>>=◌ ◌>>◌
  abbrev pub ◌>>=◌ : {T V : Type 0} → Act W T → (T → Act W V) → Act W V
  act >>= next = λ w. continue (act w) next

  abbrev pub ◌>>◌ : {V : Type 0} → Act W (Unit {0}) → Act W V → Act W V
  act >> rest = act >>= λ _. rest

  abbrev pub return : {T : Type 0} → T → Act W T
  return t w = (ok t, w)

  abbrev pub fail : {T : Type 0} → Failure → Act W T
  fail e w = (err e, w)

  abbrev pub when : Bool → Act W (Unit {0}) → Act W (Unit {0})
  when true act = act
  when false act = return tt

  -- `return fmt.Errorf(...)` under a test
  abbrev pub reject : Bool → Failure → Act W (Unit {0})
  reject true e = fail e
  reject false e = return tt

  -- A chain that succeeds succeeded at its first step.
  pub continue-ok :
      {T V : Type 0} (r : Result T × W) (next : T → Act W V) (v : V)
      → (continue r next).0 ≡ ok v
      → (t : T) × ((r.0 ≡ ok t) × (continue r next ≡ next t r.1))
  continue-ok (err e, w) next v h = cc
  continue-ok (ok t, w) next v h = (t, (refl, refl))

  -- A chain that succeeds was not rejected by its first test.
  pub reject-ok :
      {V : Type 0} (b : Bool) (e : Failure) (next : Act W V) (w : W) (v : V)
      → ((reject b e >> next) w).0 ≡ ok v
      → (b ≡ false) × ((next w).0 ≡ ok v)
  reject-ok true e next w v h = cc
  reject-ok false e next w v h = (refl, h)

-- A call that only reports an error, as a step of a handler.
abbrev pub called : {W : Type 0} → String → Option String × W → Result (Unit {0}) × W
called what (none, w) = (ok tt, w)
called what (some e, w) = (err (call_failed what e), w)

pub called-ok :
    {W : Type 0} (what : String) (r : Option String × W)
    → (called what r).0 ≡ ok tt
    → (r.0 ≡ none) × ((called what r).1 ≡ r.1)
called-ok what (none, w) h = (refl, refl)
called-ok what (some e, w) h = cc

pub called-some :
    {W : Type 0} (what e : String) (r : Option String × W)
    → r.0 ≡ some e
    → called what r ≡ (err (call_failed what e), r.1)
called-some what e (none, w) h = cc
called-some what e (some f, w) h = ap (λ x. (err (call_failed what x), w)) (some-injective f e h)

-- A step whose error is only logged.
abbrev pub ignored : {W : Type 0} → Result (Unit {0}) × W → Result (Unit {0}) × W
ignored (r, w) = (ok tt, w)

pub ignored-world : {W : Type 0} (r : Result (Unit {0}) × W) → (ignored r).1 ≡ r.1
ignored-world (r, w) = refl

pub ignored-ok : {W : Type 0} (r : Result (Unit {0}) × W) → (ignored r).0 ≡ ok tt
ignored-ok (r, w) = refl

-- A last step that calls nothing leaves the world as it was.
pub last-world : {W T : Type 0} (r : Result T × W) → (continue r (λ x v. (ok (tt {0}), v))).1 ≡ r.1
last-world (ok t, w) = refl
last-world (err e, w) = refl

-- The metadata of a resource that the handlers read.
pub record Meta : Type 0 where
  pub namespace : String
  pub name : String
  pub finalizers : List String
  pub deletion_timestamp : Option Time

module _ (finalizer : String) where
  -- hiveTableNeedsFinalizer, prestoTableNeedsFinalizer, storageLocationNeedsFinalizer
  unfoldable pub needs_finalizer : Meta → Bool
  needs_finalizer m =
      is_none m.deletion_timestamp && not (contains_string m.finalizers finalizer none)

  abbrev pub with_finalizer : Meta → Meta
  with_finalizer m = record m { finalizers = m.finalizers ++ finalizer ∷ [] }

  abbrev pub without_finalizer : Meta → Meta
  without_finalizer m = record m { finalizers = remove_string m.finalizers finalizer none }
