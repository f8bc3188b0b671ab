-- ===== src/Kube/Keeps.antt =====
-- Acts that keep an observation of the world, put together as the handlers of pkg/operator put calls together.
use operator_metering.Prelude.{◌≡◌, refl, ◌∙◌, Bool, true, false, if◌then◌else◌}
use operator_metering.Kube.{Failure, Result, ok, err, Act, continue, ◌>>=◌, return, reject}

module _ {W X : Type 0} (f : W → X) where
  abbrev pub Keeps : {T : Type 0} → Act W T → Type 0
  Keeps act = (w : W) → f (act w).1 ≡ f w

  pub keeps-continue :
      {T V : Type 0} (r : Result T × W) (next : T → Act W V)
      → ((t : T) → Keeps (next t))
      → f (continue r next).1 ≡ f r.1
  keeps-continue (ok t, w) next h = h t w
  keeps-continue (err e, w) next h = refl

  pub keeps-then :
      {T V : Type 0} (act : Act W T) (next : T → Act W V)
      → Keeps act
      → ((t : T) → Keeps (next t))
      → Keeps (act >>= next)
  keeps-then act next h k w = keeps-continue (act w) next k ∙ h w

  pub keeps-if :
      {T : Type 0} (b : Bool) (x y : Act W T) → Keeps x → Keeps y → Keeps (if b then x else y)
  keeps-if true x y h k = h
  keeps-if false x y h k = k

  pub keeps-reject : (b : Bool) (e : Failure) → Keeps (reject b e)
  keeps-reject true e w = refl
  keeps-reject false e w = refl

  pub keeps-return :
      {T V : Type 0} (r : Result T × W) (g : T → V) → f (continue r (λ t. return (g t))).1 ≡ f r.1
  keeps-return (ok t, w) g = refl
  keeps-return (err e, w) g = refl
