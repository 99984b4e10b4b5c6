-- ===== src/Database/Exec/Guards.antt =====
-- Rules for the tests in front of a statement: what a test lets through is known behind it.
use blog_post.Base.{◌≡◌, refl, Bool, true, false, ◌∙◌}
use blog_post.Database.Tables.{Db}
use blog_post.Database.Exec.{World, Result, ok, err, Error, Exec, select, raise_if, ◌>>=◌}
use blog_post.Database.Exec.Ensures.{
  Post, Ensures, Keeps, Ensures-bind, Ensures-select, Ensures-raise_if,
}

module _ {A : Type 0} {P : Db → Type 0} {Q : A → Db → Type 0} {E : Db → Type 0} where
  -- `raise_if (← select f) e`, and then `m`.
  pub Ensures-unless :
      (f : Db → Bool) (e : Error) {m : Exec A}
      → ((db : Db) → P db → E db)
      → Ensures (λ db. P db × (f db ≡ false)) m Q E
      → Ensures P (select f >>= λ b. raise_if b e >>= λ _. m) Q E
  Ensures-unless f e fails rest =
      Ensures-bind {Q = λ b db. P db × (f db ≡ b)} (Ensures-select f (λ db p. (p, refl))) λ b.
        Ensures-bind {Q = λ _ db. P db × (f db ≡ false)}
          (Ensures-raise_if b e (λ db q p. (p.0, p.1 ∙ q)) (λ db p. fails db p.0)) λ _. rest

  -- The same for a test that does not read the database.
  pub Ensures-when :
      (b : Bool) (e : Error) {m : Exec A}
      → ((db : Db) → P db → E db)
      → (b ≡ false → Ensures P m Q E)
      → Ensures P (raise_if b e >>= λ _. m) Q E
  Ensures-when true e fails rest =
      Ensures-bind {Q = λ _ _. ⊥} (Ensures-raise_if true e (λ db q p. cc) (λ db p. fails db p))
        λ _. record { at = λ w i. absurd i }
  Ensures-when false e fails rest =
      Ensures-bind {Q = λ _. P} (Ensures-raise_if false e (λ db q p. p) (λ db p. fails db p))
        λ _. rest refl

module _ {A : Type 0} (P Q : Db → Type 0) where
  Post-both :
      (r : Result A × World)
      → Post (λ _. P) P r
      → Post (λ _. Q) Q r
      → Post (λ _ db. P db × Q db) (λ db. P db × Q db) r
  Post-both (ok a, w) p q = (p, q)
  Post-both (err e, w) p q = (p, q)

module _ {A : Type 0} {P Q : Db → Type 0} where
  -- Two invariants at once.
  pub Keeps-both : {m : Exec A} → Keeps P m → Keeps Q m → Keeps (λ db. P db × Q db) m
  Keeps-both {m} hp hq = record { at = λ w h. Post-both P Q (m w) (hp.at w h.0) (hq.at w h.1) }
